-- ===== src/Pipeline/Post.antt =====
-- The bounded queue of WarPipeline.cpp: what Post does at each fill level, and the order in which
-- an io_context that takes its oldest handler first runs the tasks.
use warlib.Base.{
  ℕ, ◌+◌, ◌%◌, ◌<◌, ◌≤◌, ◌≡◌, sym, ap, ◌∙◌, Bool, true, false, List, [], ◌∷◌, ◌++◌, append-nil,
  append_assoc, ltb, arith, if_elim, if_false, ap-if, if◌then◌else◌, if_true,
}
use warlib.Task.{Task}
use warlib.Pipeline.{
  word, Handler, exec, exec_token, shut, Promise, unset, value, exception, executing, waits,
  set_case, Pipeline, Outcome, returned, threw, note, out_of_capacity, after_task, then_enqueue,
  post_task, exec_task, post_timer, post_with_token, timer_with_token, close_pipeline, set_promise,
  adding_task,
}
use warlib.Pipeline.Thread.{run_task}
use warlib.Pipeline.Stable.{IsStable, run_task-keeps}

adding_task_lem :
    (p : Pipeline)
    → p.count + 1 < word
    → adding_task p ≡ (
        if ltb p.count p.capacity
        then (returned, record p { count = p.count + 1 })
        else (threw (out_of_capacity p), p))
unfolding adding_task
adding_task_lem p h = ground arith

post_task-open :
    (t : Task) (p : Pipeline)
    → p.closing ≡ false
    → post_task t p ≡ then_enqueue (exec t) (adding_task p)
unfolding post_task
post_task-open t p c = if_false p.closing _ _ c

-- Post of an open pipeline whose count is below 2 ^ 64 - 1 takes the task while the count is below
-- `capacity_`, and else throws and leaves everything as it was.
post_task_lem :
    (t : Task) (p : Pipeline)
    → p.closing ≡ false
    → p.count + 1 < word
    → post_task t p ≡ (
        if ltb p.count p.capacity
        then (returned, record p { count = p.count + 1; queue = p.queue ++ exec t ∷ [] })
        else (threw (out_of_capacity p), p))
post_task_lem t p c h =
    post_task-open t p c
    ∙ ap (then_enqueue (exec t)) (adding_task_lem p h)
    ∙ ap-if (then_enqueue (exec t)) (ltb p.count p.capacity) _ _

-- A list with more behind it.
pub record Extends (base queue : List Handler) : Type 0 where
  pub extra : List Handler
  pub is_queue : queue ≡ base ++ extra

module _ (base : List Handler) where
  abbrev pub Grown : Pipeline → Type 0
  Grown p = Extends base p.queue

  abbrev GrownAfter : Outcome × Pipeline → Type 0
  GrownAfter r = Extends base r.1.queue

  pub snoc-Extends : (h : Handler) (q : List Handler) → Extends base q → Extends base (q ++ h ∷ [])
  snoc-Extends h q v = record {
    extra = v.extra ++ h ∷ [];
    is_queue = rw v.is_queue (append_assoc base v.extra (h ∷ []));
  }

  after_task-Extends :
      (a : Bool) (r : Outcome × Pipeline) → GrownAfter r → GrownAfter (after_task a r)
  after_task-Extends a (returned, p) v = v
  after_task-Extends true (threw e, p) v = v
  after_task-Extends false (threw e, p) v = v
  after_task-Extends a (waits j, p) v = v

  set_promise-Extends :
      (k : ℕ) (x : Promise) (p : Pipeline) → Grown p → GrownAfter (set_promise k x p)
  unfolding set_promise
  set_promise-Extends k x p v =
      elim (p.promises k) as (λ (o : Promise). GrownAfter (set_case o k x p)) [
        | unset ↦ v
        | value ↦ v
        | exception e ↦ v
      ]

  pub Extends-IsStable : IsStable Grown
  unfolding post_task exec_task post_timer post_with_token timer_with_token close_pipeline
  Extends-IsStable = record {
    noted = λ t p v. v;
    posted = λ t. record {
      at = λ p v.
          if_elim GrownAfter p.closing _ _ (λ e. v)
            λ e.
              if_elim (λ (r : Outcome × Pipeline). GrownAfter (then_enqueue (exec t) r))
                (ltb p.capacity ((p.count + 1) % word)) _ _ (λ full. v)
                (λ room. snoc-Extends (exec t) p.queue v);
    };
    executed = λ name body a h. record {
      at = λ p v.
          if_elim GrownAfter p.closing _ _ (λ e. v)
            (λ e. after_task-Extends a _ (h.at (note (executing name) p) v));
    };
    timed = λ t ms. record { at = λ p v. if_elim GrownAfter p.closing _ _ (λ e. v) (λ e. v) };
    tokened = λ t j. record { at = λ p v. snoc-Extends (exec_token t j) p.queue v };
    timer_tokened = λ t ms j. record { at = λ p v. v };
    closed_by = record {
      at = λ p v. if_elim GrownAfter p.closing _ _ (λ e. v) (λ e. snoc-Extends shut p.queue v);
    };
    promised = λ j x. record { at = set_promise-Extends j x };
    freshened = λ j p v. v;
  }

-- Whatever a task does, it leaves the handlers that wait where they are, in their order, and what it
-- posts goes behind them.
run_task-Extends : (t : Task) (p : Pipeline) → Extends p.queue (run_task t p).1.queue
run_task-Extends t p =
    (run_task-keeps (λ (q : Pipeline). Extends p.queue q.queue) (Extends-IsStable p.queue) t).at p
      (record { extra = []; is_queue = sym (append-nil p.queue) })

-- The two cases of `post_task_lem`.
unfoldable pub taken : Task → Pipeline → Pipeline
taken t p = record p { count = p.count + 1; queue = p.queue ++ exec t ∷ [] }

pub post_task-room :
    (t : Task) (p : Pipeline)
    → p.closing ≡ false
    → p.capacity + 1 < word
    → p.count < p.capacity
    → post_task t p ≡ (returned, taken t p)
unfolding taken
post_task-room t p c fits h =
    post_task_lem t p c (omega arith) ∙ if_true (ltb p.count p.capacity) _ _ (ground arith)

pub post_task-full :
    (t : Task) (p : Pipeline)
    → p.closing ≡ false
    → p.count + 1 < word
    → p.capacity ≤ p.count
    → post_task t p ≡ (threw (out_of_capacity p), p)
post_task-full t p c fits h =
    post_task_lem t p c fits ∙ if_false (ltb p.count p.capacity) _ _ (ground arith)
