-- ===== src/Pipeline/Timing.antt =====
-- PostWithTimer of core/src/WarPipeline.cpp: one timer among those that wait, and the moves around it.
pub mod Delay
use warlib.Base.{
  ℕ, zero, suc, ◌+◌, ◌≤◌, ◌<◌, ◌≡◌, refl, sym, ap, ◌∙◌, subst, ◌⊎◌, inl, inr, Bool, true, false,
  not, ◌&&◌, Option, none, some, List, [], ◌∷◌, Text, get_elem?, total, leb, ltb, arith, if_elim,
  if_false, All, ◌%◌, Option-cases,
}
use warlib.Task.{Task, label}
use warlib.Pipeline.{
  word, Handler, exec, exec_token, shut, Timer, Promise, unset, value, exception, executing,
  Pipeline, Outcome, returned, threw, waits, Action, note, after_task, then_enqueue, exec_task,
  post_task, post_timer, post_with_token, timer_with_token, close_pipeline, set_promise, set_case,
  shut_down, on_timer,
}
use warlib.Pipeline.Thread.{
  Move, takes, fires, leaves, calls, passes, take_at, complete, complete_timer, run_task, run_call,
  run_handler, run_timer, settle, take_handler, fire_timer, is_running, may_leave, step, run,
}
use warlib.Pipeline.Stable.{Keeps, IsStable, run_task-keeps, run_call-keeps}

-- A timer is among those that wait, at a time.
pub record Ready (timer : Timer) (time : ℕ) (p : Pipeline) : Type 0 where
  pub index : ℕ
  pub there : get_elem? p.timers index ≡ some timer
  pub clock : p.now ≡ time

-- The time that passes in a move.
abbrev pub passed : Move → ℕ
passed (passes n) = n
passed m = 0

-- A move in which no timer fails.
abbrev pub IsFair : Move → Type 0
IsFair (fires i error) = error ≡ false
IsFair m = Unit

module _ (timer : Timer) (time : ℕ) where
  abbrev pub Waiting : Pipeline → Type 0
  Waiting p = Ready timer time p

  abbrev WaitingAfter : Outcome × Pipeline → Type 0
  WaitingAfter r = Ready timer time r.1

  after_task-Ready :
      (a : Bool) (r : Outcome × Pipeline) → WaitingAfter r → WaitingAfter (after_task a r)
  after_task-Ready a (returned, p) v = record { index = v.index; there = v.there; clock = v.clock }
  after_task-Ready true (threw e, p) v = record {
    index = v.index;
    there = v.there;
    clock = v.clock;
  }
  after_task-Ready false (threw e, p) v = v
  after_task-Ready a (waits j, p) v = v

  pub same_timers : (p q : Pipeline) → q.timers ≡ p.timers → q.now ≡ p.now → Waiting p → Waiting q
  same_timers p q ts n v = record {
    index = v.index;
    there = ap (λ (l : List Timer). get_elem? l v.index) ts ∙ v.there;
    clock = n ∙ v.clock;
  }

  later_timers :
      (p : Pipeline) (t : Timer) → Waiting p → Waiting (record p { timers = t ∷ p.timers })
  later_timers p t v = record { index = suc v.index; there = v.there; clock = v.clock }

  set_promise-Ready :
      (k : ℕ) (x : Promise) (p : Pipeline) → Waiting p → WaitingAfter (set_promise k x p)
  unfolding set_promise
  set_promise-Ready k x p v =
      elim (p.promises k) as (λ (o : Promise). WaitingAfter (set_case o k x p)) [
        | unset ↦ same_timers p _ refl refl v
        | value ↦ v
        | exception e ↦ v
      ]

  exec_task-Ready :
      (name : Text) (body : Action) (counting a : Bool)
      → Keeps Waiting body
      → Keeps Waiting (exec_task name body counting a)
  unfolding exec_task
  exec_task-Ready name body true a h = record {
    at = λ p v.
        if_elim WaitingAfter p.closing _ _ (λ e. same_timers p _ refl refl v)
          (λ e. after_task-Ready a _ (h.at _ (same_timers p _ refl refl v)));
  }
  exec_task-Ready name body false a h = record {
    at = λ p v.
        if_elim WaitingAfter p.closing _ _ (λ e. same_timers p _ refl refl v)
          (λ e. after_task-Ready a _ (h.at _ (same_timers p _ refl refl v)));
  }

  pub Ready-IsStable : IsStable Waiting
  unfolding post_task post_timer post_with_token timer_with_token close_pipeline
  Ready-IsStable = record {
    noted = λ t p v. same_timers p _ refl refl v;
    posted = λ t. record {
      at = λ p v.
          if_elim WaitingAfter p.closing _ _ (λ e. same_timers p _ refl refl v)
            λ e.
              if_elim (λ (r : Outcome × Pipeline). WaitingAfter (then_enqueue (exec t) r))
                (ltb p.capacity ((p.count + 1) % word)) _ _ (λ full. same_timers p _ refl refl v)
                (λ room. same_timers p _ refl refl v);
    };
    executed = λ name body a h. exec_task-Ready name body false a h;
    timed = λ t ms. record {
      at = λ p v.
          if_elim WaitingAfter p.closing _ _ (λ e. same_timers p _ refl refl v)
            (λ e. later_timers p _ v);
    };
    tokened = λ t j. record { at = λ p v. same_timers p _ refl refl v };
    timer_tokened = λ t ms j. record { at = λ p v. later_timers p _ v };
    closed_by = record {
      at = λ p v. if_elim WaitingAfter p.closing _ _ (λ e. v) (λ e. same_timers p _ refl refl v);
    };
    promised = λ j x. record { at = set_promise-Ready j x };
    freshened = λ j p v. same_timers p _ refl refl v;
  }

  complete-Ready :
      (k : ℕ) (ok : Bool) (r : Outcome × Pipeline) → WaitingAfter r → WaitingAfter (complete k ok r)
  complete-Ready k ok (returned, p) v = same_timers p _ refl refl v
  complete-Ready k ok (threw e, p) v = v
  complete-Ready k ok (waits j, p) v = v

  run_handler-Ready : (h : Handler) → Keeps Waiting (run_handler h)
  unfolding run_handler shut_down
  run_handler-Ready (exec t) = record {
    at =
        (exec_task-Ready (label t) (run_task t) true true
          (run_task-keeps Waiting Ready-IsStable t)).at;
  }
  run_handler-Ready (exec_token t k) = record {
    at = λ p v. complete-Ready k true _ (
        (exec_task-Ready (label t) (run_task t) true true
            (run_task-keeps Waiting Ready-IsStable t)).at
          p v);
  }
  run_handler-Ready shut = record {
    at = λ p v. if_elim Waiting p.closed _ _ (λ e. v) (λ e. same_timers p _ refl refl v);
  }

  complete_timer-Ready :
      (token : Option ℕ) (error : Bool) (r : Outcome × Pipeline)
      → WaitingAfter r
      → WaitingAfter (complete_timer token error r)
  complete_timer-Ready none error r v = v
  complete_timer-Ready (some k) error r v = complete-Ready k (not error) r v

  pub run_timer-Ready : (t : Timer) → Keeps Waiting (run_timer t false)
  unfolding run_timer on_timer
  run_timer-Ready t = record {
    at = λ p v. complete_timer-Ready t.token false _ (
        (exec_task-Ready (label t.job) (run_task t.job) false true
            (run_task-keeps Waiting Ready-IsStable t.job)).at
          p v);
  }

  pub settle-Ready : (r : Outcome × Pipeline) → WaitingAfter r → Waiting (settle r)
  unfolding settle
  settle-Ready (returned, p) v = v
  settle-Ready (threw e, p) v = same_timers p _ refl refl v
  settle-Ready (waits k, p) v = same_timers p _ refl refl v

  pub take_handler-Ready :
      (o : Option (Handler × List Handler)) (p : Pipeline) → Waiting p → Waiting (take_handler o p)
  unfolding take_handler
  take_handler-Ready none p v = v
  take_handler-Ready (some (h, rest)) p v =
      settle-Ready _ ((run_handler-Ready h).at _ (same_timers p _ refl refl v))
