-- ===== src/Pipeline/Phases.antt =====
-- The life of a pipeline of core/src/WarPipeline.cpp: open, closing, closed.
pub mod Runs
use warlib.Base.{
  ℕ, zero, suc, ◌+◌, ◌-◌, ◌%◌, ◌≡◌, ◌≤◌, refl, sym, Bool, true, false, not, ◌&&◌, ◌||◌, Option,
  none, some, List, [], ◌∷◌, ◌++◌, Text, arith, if_elim, leb, Option-cases, subst, ltb,
  if◌then◌else◌, inl, inr, ap,
}
use warlib.Task.{Task, label}
use warlib.Pipeline.{
  enqueue, word, Handler, exec, exec_token, shut, Timer, Pipeline, Outcome, returned, threw,
  Promise, unset, value, exception, waits, Action, init, after_task, then_enqueue, note, post_task,
  exec_task, post_timer, set_case, post_with_token, timer_with_token, close_pipeline, set_promise,
  on_timer, shut_down,
}
use warlib.Pipeline.Thread.{
  complete, complete_timer, take_handler, fire_timer, run_task, run_handler, run_timer, settle,
  take_at, Move, takes, fires, leaves, calls, passes, is_running, may_leave, step, run,
}
use warlib.Pipeline.Getters.{is_closed, is_closing, get_capacity, get_id, get_name}
use warlib.Pipeline.Stable.{Keeps, IsStable, run_task-keeps, run_call-keeps}

-- The handlers of Close that wait.
abbrev pub is_shut : Handler → ℕ
is_shut shut = 1
is_shut h = 0

abbrev pub shuts : List Handler → ℕ
shuts [] = 0
shuts (h ∷ hs) = is_shut h + shuts hs

shuts-append : (hs gs : List Handler) → shuts (hs ++ gs) ≡ shuts hs + shuts gs
shuts-append [] gs = omega arith
shuts-append (h ∷ hs) gs = omega (arith, shuts-append hs gs)

pub shuts-take_at :
    (i : ℕ) (hs : List Handler) {h : Handler} {rest : List Handler}
    → take_at i hs ≡ some (h, rest)
    → shuts hs ≡ is_shut h + shuts rest
shuts-take_at i [] e = cc
shuts-take_at zero (g ∷ hs) e = ground arith
shuts-take_at (suc i) (g ∷ hs) e = elim (Option-cases (take_at i hs)) [
  | inl n ↦ ground arith
  | inr ((h', r), s) ↦ ground (arith, shuts-take_at i hs s)
]

abbrev pub one_if : Bool → ℕ
one_if b = if b then 1 else 0

-- What a pipeline keeps from its start, and how its flags and the waiting handlers of Close agree.
pub record Phase (name : Text) (id : Option ℕ) (cap : ℕ) (n : Text) (i : Option ℕ) (c waiting : ℕ)
    (closing closed stopped guarded : Bool) : Type 0 where
  pub same_name : n ≡ name
  pub same_id : i ≡ id
  pub same_capacity : c ≡ cap
  pub stops : stopped ≡ closed
  pub guards : guarded ≡ not closed
  pub one_shut : waiting + one_if closed ≡ one_if closing

module _ (name : Text) (id : Option ℕ) (cap : ℕ) where
  abbrev pub HasPhase : Pipeline → Type 0
  HasPhase p =
      Phase name id cap (get_name p) (get_id p) (get_capacity p) (shuts p.queue) (is_closing p)
        (is_closed p) p.stopped p.work_guard

  abbrev After : Outcome × Pipeline → Type 0
  After r = HasPhase r.1

  -- A handler more that is not one of Close.
  enqueue-HasPhase :
      (h : Handler) (p : Pipeline) → is_shut h ≡ 0 → HasPhase p → HasPhase (enqueue h p)
  enqueue-HasPhase h p e v = ground (arith, shuts-append p.queue (h ∷ []))

  post_task-HasPhase : (t : Task) → Keeps HasPhase (post_task t)
  unfolding post_task
  post_task-HasPhase t = record {
    at = λ p v.
        if_elim After p.closing _ _ (λ e. v)
          (λ e.
            if_elim (λ (r : Outcome × Pipeline). After (then_enqueue (exec t) r))
              (ltb p.capacity ((p.count + 1) % word)) _ _ (λ full. v)
              (λ room. enqueue-HasPhase (exec t) p refl v));
  }

  close_pipeline-HasPhase : Keeps HasPhase close_pipeline
  unfolding close_pipeline
  close_pipeline-HasPhase = record {
    at = λ p v.
        if_elim After p.closing _ _ (λ e. v)
          (λ e. ground (arith, shuts-append p.queue (shut ∷ [])));
  }

  set_promise-HasPhase : (k : ℕ) (x : Promise) → Keeps HasPhase (set_promise k x)
  unfolding set_promise
  set_promise-HasPhase k x = record {
    at = λ p v. elim (p.promises k) as (λ (o : Promise). After (set_case o k x p)) [
      | unset ↦ v
      | value ↦ v
      | exception e ↦ v
    ];
  }

  after_task-HasPhase : (a : Bool) (r : Outcome × Pipeline) → After r → After (after_task a r)
  after_task-HasPhase a (returned, p) v = v
  after_task-HasPhase true (threw e, p) v = v
  after_task-HasPhase false (threw e, p) v = v
  after_task-HasPhase a (waits j, p) v = v

  pub exec_task-HasPhase :
      (n : Text) (body : Action) (counting a : Bool)
      → Keeps HasPhase body
      → Keeps HasPhase (exec_task n body counting a)
  unfolding exec_task
  exec_task-HasPhase n body true a h = record {
    at = λ p v. if_elim After p.closing _ _ (λ e. v) (λ e. after_task-HasPhase a _ (h.at _ v));
  }
  exec_task-HasPhase n body false a h = record {
    at = λ p v. if_elim After p.closing _ _ (λ e. v) (λ e. after_task-HasPhase a _ (h.at _ v));
  }

  pub HasPhase-IsStable : IsStable HasPhase
  unfolding post_timer post_with_token timer_with_token
  HasPhase-IsStable = record {
    noted = λ t p v. v;
    posted = post_task-HasPhase;
    executed = λ n body a h. exec_task-HasPhase n body false a h;
    timed = λ t ms. record { at = λ p v. if_elim After p.closing _ _ (λ e. v) (λ e. v) };
    tokened = λ t k. record { at = λ p v. enqueue-HasPhase (exec_token t k) p refl v };
    timer_tokened = λ t ms k. record { at = λ p v. v };
    closed_by = close_pipeline-HasPhase;
    promised = set_promise-HasPhase;
    freshened = λ k p v. v;
  }
