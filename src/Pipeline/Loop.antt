-- ===== src/Pipeline/Loop.antt =====
-- The thread of a pipeline in WarPipeline.cpp: what can end `io_context_->run()`.
use warlib.Base.{
  ℕ, ◌+◌, ◌-◌, ◌%◌, ◌≡◌, refl, ◌≢◌, Bool, true, false, not, ◌&&◌, Option, none, some, List, Text,
  leb, arith, if_elim, ltb,
}
use warlib.Task.{Task, label}
use warlib.Pipeline.{
  Handler, exec, exec_token, shut, Timer, Promise, unset, value, exception, Status, looping, ended,
  Pipeline, Outcome, returned, threw, waits, Action, note, executing, after_task, then_enqueue,
  exec_task, post_task, post_timer, post_with_token, timer_with_token, close_pipeline, set_promise,
  set_case, on_timer, shut_down, word,
}
use warlib.Pipeline.Thread.{
  complete, complete_timer, run_task, run_call, run_handler, run_timer, settle, take_handler,
  fire_timer, take_at, Move, takes, fires, leaves, calls, passes, is_running, may_leave, step,
}
use warlib.Pipeline.Stable.{Keeps, IsStable, run_task-keeps, run_call-keeps}

module _ (s : Status) where
  abbrev Same : Pipeline → Type 0
  Same p = p.thread ≡ s

  abbrev SameAfter : Outcome × Pipeline → Type 0
  SameAfter r = r.1.thread ≡ s

  after_task-Same : (a : Bool) (r : Outcome × Pipeline) → SameAfter r → SameAfter (after_task a r)
  after_task-Same a (returned, p) v = v
  after_task-Same true (threw e, p) v = v
  after_task-Same false (threw e, p) v = v
  after_task-Same a (waits j, p) v = v

  set_case-Same :
      (o : Promise) (k : ℕ) (x : Promise) (p : Pipeline) → Same p → SameAfter (set_case o k x p)
  set_case-Same unset k x p v = v
  set_case-Same value k x p v = v
  set_case-Same (exception e) k x p v = v

  exec_task-Same :
      (name : Text) (body : Action) (a : Bool)
      → Keeps Same body
      → Keeps Same (exec_task name body false a)
  unfolding exec_task
  exec_task-Same name body a h = record {
    at = λ p v.
        if_elim SameAfter p.closing _ _ (λ e. v)
          (λ e. after_task-Same a _ (h.at (note (executing name) p) v));
  }

  Same-IsStable : IsStable Same
  unfolding post_task post_timer post_with_token timer_with_token close_pipeline set_promise
  Same-IsStable = record {
    noted = λ t p v. v;
    posted = λ t. record {
      at = λ p v.
          if_elim SameAfter p.closing _ _ (λ e. v)
            λ e.
              if_elim (λ (r : Outcome × Pipeline). SameAfter (then_enqueue (exec t) r))
                (ltb p.capacity ((p.count + 1) % word)) _ _ (λ full. v) (λ room. v);
    };
    executed = exec_task-Same;
    timed = λ t ms. record { at = λ p v. if_elim SameAfter p.closing _ _ (λ e. v) (λ e. v) };
    tokened = λ t j. record { at = λ p v. v };
    timer_tokened = λ t ms j. record { at = λ p v. v };
    closed_by = record { at = λ p v. if_elim SameAfter p.closing _ _ (λ e. v) (λ e. v) };
    promised = λ j x. record { at = λ p v. set_case-Same (p.promises j) j x p v };
    freshened = λ j p v. v;
  }

-- In the loop, with no exception on its way out.
abbrev GoesOn : Outcome × Pipeline → Type 0
GoesOn (threw e, p) = ⊥
GoesOn (o, p) = p.thread ≡ looping

settle-GoesOn : (r : Outcome × Pipeline) → GoesOn r → (settle r).thread ≢ ended
unfolding settle
settle-GoesOn (returned, p) g = λ e. ground arith
settle-GoesOn (threw x, p) g = absurd g
settle-GoesOn (waits k, p) g = λ e. ground arith

after_task-GoesOn : (r : Outcome × Pipeline) → r.1.thread ≡ looping → GoesOn (after_task true r)
after_task-GoesOn (returned, p) v = v
after_task-GoesOn (threw e, p) v = v
after_task-GoesOn (waits k, p) v = v

complete-GoesOn : (k : ℕ) (ok : Bool) (r : Outcome × Pipeline) → GoesOn r → GoesOn (complete k ok r)
complete-GoesOn k ok (returned, p) g = g
complete-GoesOn k ok (threw e, p) g = absurd g
complete-GoesOn k ok (waits j, p) g = g

complete_timer-GoesOn :
    (o : Option ℕ) (error : Bool) (r : Outcome × Pipeline)
    → GoesOn r
    → GoesOn (complete_timer o error r)
complete_timer-GoesOn none error r g = g
complete_timer-GoesOn (some k) error r g = complete-GoesOn k (not error) r g

exec_task-GoesOn :
    (t : Task) (p : Pipeline)
    → p.thread ≡ looping
    → GoesOn (exec_task (label t) (run_task t) false true p)
unfolding exec_task
exec_task-GoesOn t p v =
    if_elim GoesOn p.closing _ _ (λ e. v)
      λ e. after_task-GoesOn _ (
        (run_task-keeps (λ (q : Pipeline). q.thread ≡ looping) (Same-IsStable looping) t).at
          (note (executing (label t)) p) v)

counted-GoesOn :
    (t : Task) (p : Pipeline)
    → p.thread ≡ looping
    → GoesOn (exec_task (label t) (run_task t) true true p)
unfolding exec_task
counted-GoesOn t p v = exec_task-GoesOn t (record p { count = (p.count + (word - 1)) % word }) v

run_handler-GoesOn : (h : Handler) (p : Pipeline) → p.thread ≡ looping → GoesOn (run_handler h p)
unfolding run_handler shut_down
run_handler-GoesOn (exec t) p v = counted-GoesOn t p v
run_handler-GoesOn (exec_token t k) p v = complete-GoesOn k true _ (counted-GoesOn t p v)
run_handler-GoesOn shut p v =
    if_elim (λ (q : Pipeline). q.thread ≡ looping) p.closed _ _ (λ e. v) (λ e. v)

run_timer-GoesOn :
    (t : Timer) (error : Bool) (p : Pipeline) → p.thread ≡ looping → GoesOn (run_timer t error p)
unfolding run_timer on_timer
run_timer-GoesOn t error p v =
    complete_timer-GoesOn t.token error _
      (if_elim GoesOn error _ _ (λ e. v) (λ e. exec_task-GoesOn t.job p v))

looping≢ended : (p : Pipeline) → p.thread ≡ looping → p.thread ≢ ended
looping≢ended p v e = ground arith

takes-goes_on :
    (o : Option (Handler × List Handler)) (p : Pipeline)
    → p.thread ≡ looping
    → (take_handler o p).thread ≢ ended
unfolding take_handler
takes-goes_on none p v = looping≢ended p v
takes-goes_on (some (h, rest)) p v =
    settle-GoesOn _ (run_handler-GoesOn h (record p { queue = rest }) v)

fires-goes_on :
    (o : Option (Timer × List Timer)) (error : Bool) (p : Pipeline)
    → p.thread ≡ looping
    → (fire_timer o error p).thread ≢ ended
unfolding fire_timer
fires-goes_on none error p v = looping≢ended p v
fires-goes_on (some (t, rest)) error p v =
    if_elim (λ (q : Pipeline). q.thread ≢ ended) (not error && not (leb t.expires p.now)) _ _
      (λ early. looping≢ended p v)
      (λ due. settle-GoesOn _ (run_timer-GoesOn t error (record p { timers = rest }) v))

-- Nothing that a task does or throws ends the thread: one move ends it only if that is the return of
-- `run()`, with the io_context stopped, or with no work guard, no handler and no timer.
pub step-ended :
    (m : Move) (p : Pipeline)
    → p.thread ≡ looping
    → (step m p).thread ≡ ended
    → (m ≡ leaves) × (may_leave p ≡ true)
unfolding step
step-ended (takes i) p v e = absurd (
    if_elim (λ (q : Pipeline). q.thread ≢ ended) (is_running p.thread && not p.stopped) _ _
      (λ b. takes-goes_on (take_at i p.queue) p v) (λ b. looping≢ended p v) e)
step-ended (fires i error) p v e = absurd (
    if_elim (λ (q : Pipeline). q.thread ≢ ended) (is_running p.thread && not p.stopped) _ _
      (λ b. fires-goes_on (take_at i p.timers) error p v) (λ b. looping≢ended p v) e)
step-ended leaves p v e = (refl, ground arith)
step-ended (calls c) p v e = absurd (
    looping≢ended (run_call c false p).1
      ((run_call-keeps (λ (q : Pipeline). q.thread ≡ looping) (Same-IsStable looping) c false).at p
        v)
      e)
step-ended (passes n) p v e = absurd (looping≢ended p v e)
