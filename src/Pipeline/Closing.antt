-- ===== src/Pipeline/Closing.antt =====
-- What is left of a pipeline of WarPipeline.cpp once Close has been called.
use warlib.Base.{
  ℕ, ◌≡◌, refl, Bool, true, false, not, ◌&&◌, Option, none, some, List, [], ◌∷◌, Text, leb, arith,
  codes, ap, ◌∙◌, ==-refl, if_elim, if◌then◌else◌,
}
use warlib.Pipeline.Stable.{fresh_promise}
use warlib.Pipeline.{synchronous_body, get}
use warlib.Task.{
  synchronously, with_promise, Task, Call, post, dispatch, post_with_timer, post_token,
  post_with_timer_token, post_with_promise, post_synchronously, close, label,
}
use warlib.Pipeline.{
  Handler, exec, exec_token, shut, Timer, unset, Event, executing, dismissed, timer_failed, caught,
  completed, Pipeline, Outcome, returned, threw, waits, Action, note, post_task, exec_task,
  dispatch_task, post_timer, post_with_token, timer_with_token, close_pipeline, post_and_wait,
  on_timer, shut_down, then_get,
}
use warlib.Pipeline.Thread.{
  complete, complete_timer, take_handler, fire_timer, run_task, run_call, run_handler, run_timer,
  settle, take_at, Move, takes, fires, leaves, calls, passes, is_running, step, run,
}

-- The tasks whose execution has begun, newest first.
abbrev pub started : List Event → List Text
started [] = []
started (executing n ∷ es) = n ∷ started es
started (dismissed n ∷ es) = started es
started (timer_failed n ∷ es) = started es
started (caught e ∷ es) = started es
started (completed k ok ∷ es) = started es

-- Closing, with these tasks started and run, and this promise not set.
pub record IsFrozen (names : List Text) (runs k : ℕ) (p : Pipeline) : Type 0 where
  pub is_closing : p.closing ≡ true
  pub same_names : started p.events ≡ names
  pub same_runs : p.tasks_run ≡ runs
  pub not_set : p.promises k ≡ unset

module _ (names : List Text) (runs k : ℕ) where
  abbrev Frozen : Outcome × Pipeline → Type 0
  Frozen r = IsFrozen names runs k r.1

  exec_task-IsFrozen :
      (name : Text) (body : Action) (counting auto_catch : Bool) (p : Pipeline)
      → IsFrozen names runs k p
      → Frozen (exec_task name body counting auto_catch p)
  unfolding exec_task
  exec_task-IsFrozen name body true auto_catch p v =
      if_elim Frozen p.closing _ _ (λ e. ground arith) (λ e. cc)
  exec_task-IsFrozen name body false auto_catch p v =
      if_elim Frozen p.closing _ _ (λ e. ground arith) (λ e. cc)

  post_task-IsFrozen : (t : Task) (p : Pipeline) → IsFrozen names runs k p → Frozen (post_task t p)
  unfolding post_task
  post_task-IsFrozen t p v = if_elim Frozen p.closing _ _ (λ e. ground arith) (λ e. cc)

  dispatch_task-IsFrozen :
      (t : Task) (body : Action) (p : Pipeline)
      → IsFrozen names runs k p
      → Frozen (dispatch_task false t body p)
  unfolding dispatch_task
  dispatch_task-IsFrozen t body p v = if_elim Frozen p.closing _ _ (λ e. ground arith) (λ e. cc)

  then_get-IsFrozen : (j : ℕ) (r : Outcome × Pipeline) → Frozen r → Frozen (then_get j r)
  then_get-IsFrozen j (returned, p) v = v
  then_get-IsFrozen j (threw e, p) v = v
  then_get-IsFrozen j (waits i, p) v = v

  run_call-IsFrozen :
      (c : Call) (p : Pipeline) → IsFrozen names runs k p → Frozen (run_call c false p)
  unfolding run_call post_timer post_with_token timer_with_token close_pipeline post_and_wait
  run_call-IsFrozen (post t) p v = post_task-IsFrozen t p v
  run_call-IsFrozen (dispatch t) p v = dispatch_task-IsFrozen t (run_task t) p v
  run_call-IsFrozen (post_with_timer t ms) p v =
      if_elim Frozen p.closing _ _ (λ e. ground arith) (λ e. cc)
  run_call-IsFrozen (post_token t j) p v = ground arith
  run_call-IsFrozen (post_with_timer_token t ms j) p v = ground arith
  run_call-IsFrozen (post_with_promise t j) p v = post_task-IsFrozen (with_promise j t) p v
  run_call-IsFrozen (post_synchronously t j) p v = then_get-IsFrozen j _ (
      dispatch_task-IsFrozen (synchronously j t) (synchronous_body j (label t) (run_task t))
        (fresh_promise j p) (ground arith))
  run_call-IsFrozen close p v = if_elim Frozen p.closing _ _ (λ e. v) (λ e. cc)

  settle-IsFrozen : (r : Outcome × Pipeline) → Frozen r → IsFrozen names runs k (settle r)
  unfolding settle
  settle-IsFrozen (returned, p) v = v
  settle-IsFrozen (threw e, p) v = ground arith
  settle-IsFrozen (waits j, p) v = ground arith

  complete-IsFrozen :
      (j : ℕ) (ok : Bool) (r : Outcome × Pipeline) → Frozen r → Frozen (complete j ok r)
  complete-IsFrozen j ok (returned, p) v = ground arith
  complete-IsFrozen j ok (threw e, p) v = v
  complete-IsFrozen j ok (waits i, p) v = v

  run_handler-IsFrozen :
      (h : Handler) (p : Pipeline) → IsFrozen names runs k p → Frozen (run_handler h p)
  unfolding run_handler shut_down
  run_handler-IsFrozen (exec t) p v = exec_task-IsFrozen (label t) (run_task t) true true p v
  run_handler-IsFrozen (exec_token t j) p v =
      complete-IsFrozen j true _ (exec_task-IsFrozen (label t) (run_task t) true true p v)
  run_handler-IsFrozen shut p v = ground arith

  run_timer-IsFrozen :
      (o : Option ℕ) (t : Task) (error : Bool) (p : Pipeline)
      → IsFrozen names runs k p
      → Frozen (complete_timer o error (on_timer error (label t) (run_task t) p))
  unfolding on_timer
  run_timer-IsFrozen none t true p v = ground arith
  run_timer-IsFrozen none t false p v = exec_task-IsFrozen (label t) (run_task t) false true p v
  run_timer-IsFrozen (some j) t true p v = ground arith
  run_timer-IsFrozen (some j) t false p v =
      complete-IsFrozen j true _ (exec_task-IsFrozen (label t) (run_task t) false true p v)

  take_handler-IsFrozen :
      (o : Option (Handler × List Handler)) (p : Pipeline)
      → IsFrozen names runs k p
      → IsFrozen names runs k (take_handler o p)
  unfolding take_handler
  take_handler-IsFrozen none p v = v
  take_handler-IsFrozen (some (h, rest)) p v =
      settle-IsFrozen _ (run_handler-IsFrozen h (record p { queue = rest }) (ground arith))

  fire_timer-IsFrozen :
      (o : Option (Timer × List Timer)) (error : Bool) (p : Pipeline)
      → IsFrozen names runs k p
      → IsFrozen names runs k (fire_timer o error p)
  unfolding fire_timer run_timer
  fire_timer-IsFrozen none error p v = v
  fire_timer-IsFrozen (some (t, rest)) error p v =
      if_elim (IsFrozen names runs k) (not error && not (leb t.expires p.now)) _ _ (λ early. v)
        λ due.
          settle-IsFrozen _
            (run_timer-IsFrozen t.token t.job error (record p { timers = rest }) (ground arith))

  step-IsFrozen :
      (m : Move) (p : Pipeline) → IsFrozen names runs k p → IsFrozen names runs k (step m p)
  unfolding step
  step-IsFrozen (takes i) p v =
      if_elim (IsFrozen names runs k) (is_running p.thread && not p.stopped) _ _
        (λ e. take_handler-IsFrozen (take_at i p.queue) p v) (λ e. v)
  step-IsFrozen (fires i error) p v =
      if_elim (IsFrozen names runs k) (is_running p.thread && not p.stopped) _ _
        (λ e. fire_timer-IsFrozen (take_at i p.timers) error p v) (λ e. v)
  step-IsFrozen leaves p v = ground arith
  step-IsFrozen (calls c) p v = run_call-IsFrozen c p v
  step-IsFrozen (passes n) p v = ground arith

  pub run-IsFrozen :
      (ms : List Move) (p : Pipeline) → IsFrozen names runs k p → IsFrozen names runs k (run ms p)
  unfolding run
  run-IsFrozen [] p v = v
  run-IsFrozen (m ∷ ms) p v = run-IsFrozen ms (step m p) (step-IsFrozen m p v)

-- Once `closing_` is set, no move of any schedule starts a task, runs one to its end, resets
-- `closing_`, or sets a given promise that was not set.
pub run-closing :
    (ms : List Move) (p : Pipeline) (k : ℕ)
    → p.closing ≡ true
    → p.promises k ≡ unset
    → let q = run ms p in
      (q.closing ≡ true)
      × (started q.events ≡ started p.events)
      × (q.tasks_run ≡ p.tasks_run)
      × (q.promises k ≡ unset)
run-closing ms p k c u = ground (
  arith,
  run-IsFrozen _ _ k ms p
      (record { is_closing = c; same_names = refl; same_runs = refl; not_set = u }),
)

dispatch_task-closing :
    (b : Bool) (t : Task) (body : Action) (p : Pipeline)
    → p.closing ≡ true
    → dispatch_task b t body p ≡ (returned, note (dismissed (label t)) p)
unfolding dispatch_task
dispatch_task-closing b t body p c =
    if_elim (λ (r : Outcome × Pipeline). r ≡ (returned, note (dismissed (label t)) p)) p.closing _ _
      (λ e. refl) (λ e. cc)

dismissed_call : ℕ → Pipeline → Pipeline
dismissed_call k p = note (dismissed (codes "Post Synchronously")) (fresh_promise k p)

post_and_wait-closing :
    (t : Task) (k : ℕ) (b : Bool) (body : Action) (p : Pipeline)
    → p.closing ≡ true
    → post_and_wait b t k body p ≡ (waits k, dismissed_call k p)
unfolding post_and_wait dismissed_call
post_and_wait-closing t k b body p c =
    ap (then_get k) (
      dispatch_task-closing b (synchronously k t) (synchronous_body k (label t) body)
        (fresh_promise k p) c)
    ∙ ap (λ (o : Outcome). (o, dismissed_call k p))
        (ap (λ (t : Bool). get k (if t then unset else p.promises k)) (==-refl k))

-- PostSynchronously of a closing pipeline dismisses the task and waits for a promise that no later
-- move sets: the caller never returns.
post_synchronously-closing :
    (t : Task) (k : ℕ) (on_thread : Bool) (p : Pipeline) (ms : List Move)
    → p.closing ≡ true
    → ((run_call (post_synchronously t k) on_thread p).0 ≡ waits k)
      × ((run ms (run_call (post_synchronously t k) on_thread p).1).promises k ≡ unset)
unfolding run_call dismissed_call
post_synchronously-closing t k on_thread p ms c =
    rw (post_and_wait-closing t k on_thread (run_task t) p c)
      (refl, (run-closing ms (dismissed_call k p) k c (rw (==-refl k))).3)
