-- ===== src/Pipeline/Thread.antt =====
-- core/src/WarPipeline.cpp: tasks that call their own pipeline, the handlers of the io_context, and
-- the loop of `Pipeline::Run`.
use warlib.Base.{
  ℕ, zero, suc, ◌+◌, Bool, true, false, not, ◌&&◌, Option, none, some, List, [], ◌∷◌, leb,
  if◌then◌else◌,
}
use warlib.Task.{
  Task, task, synchronously, with_promise, Script, return, throw, fulfil, call, Call, post,
  dispatch, post_with_timer, post_token, post_with_timer_token, post_with_promise,
  post_synchronously, close, label,
}
use warlib.Pipeline.{
  Handler, exec, exec_token, shut, Timer, value, Event, completed, Status, looping, ended, stuck,
  Pipeline, Outcome, returned, threw, waits, Action, note, post_task, exec_task, dispatch_task,
  post_timer, post_with_token, timer_with_token, close_pipeline, set_promise, synchronous_body,
  promise_body, post_and_wait, on_timer, shut_down,
}

-- A throw, or a wait that does not end, leaves the rest undone.
abbrev pub and_then : Outcome × Pipeline → Action → Outcome × Pipeline
and_then (returned, p) f = f p
and_then (o, p) f = (o, p)

unfoldable mutual
  unfolding post_task dispatch_task post_timer post_with_token timer_with_token close_pipeline
      set_promise synchronous_body promise_body post_and_wait

  -- `task.first()`, in the pipeline's thread
  pub run_task : Task → Action
  run_task (task n s) p = run_script s p
  run_task (synchronously k t) p = synchronous_body k (label t) (run_task t) p
  run_task (with_promise k t) p = promise_body k (label t) (run_task t) p

  pub run_script : Script → Action
  run_script return p = (returned, p)
  run_script (throw e) p = (threw e, p)
  run_script (fulfil k s) p = and_then (set_promise k value p) (run_script s)
  run_script (call c s) p = and_then (run_call c true p) (run_script s)

  -- A call of the pipeline, from its own thread or from another one.
  pub run_call : Call → (on_thread : Bool) → Action
  run_call (post t) b p = post_task t p
  run_call (dispatch t) b p = dispatch_task b t (run_task t) p
  run_call (post_with_timer t ms) b p = post_timer t ms p
  run_call (post_token t k) b p = post_with_token t k p
  run_call (post_with_timer_token t ms k) b p = timer_with_token t ms k p
  run_call (post_with_promise t k) b p = post_task (with_promise k t) p
  run_call (post_synchronously t k) b p = post_and_wait b t k (run_task t) p
  run_call close b p = close_pipeline p

-- `self.complete(..)` behind a handler that has come back
abbrev pub complete : ℕ → Bool → Outcome × Pipeline → Outcome × Pipeline
complete token ok (returned, p) = (returned, note (completed token ok) p)
complete token ok (o, p) = (o, p)

unfoldable pub run_handler : Handler → Action
unfolding exec_task shut_down
run_handler (exec t) p = exec_task (label t) (run_task t) true true p
run_handler (exec_token t token) p =
    complete token true (exec_task (label t) (run_task t) true true p)
run_handler shut p = (returned, shut_down p)

abbrev pub complete_timer : Option ℕ → Bool → Outcome × Pipeline → Outcome × Pipeline
complete_timer none error r = r
complete_timer (some token) error r = complete token (not error) r

unfoldable pub run_timer : Timer → (error : Bool) → Action
unfolding on_timer
run_timer t error p = complete_timer t.token error (on_timer error (label t.job) (run_task t.job) p)

-- Entry `i` of a list, and the list without it.
abbrev pub take_at {ℓ} : {A : Type ℓ} → ℕ → List A → Option (A × List A)
take_at i [] = none
take_at zero (x ∷ xs) = some (x, xs)
take_at (suc i) (x ∷ xs) = elim (take_at i xs) [ none ↦ none | some (y, ys) ↦ some (y, x ∷ ys) ]

-- What the thread does after a handler: an exception leaves `run()`, and is logged there.
unfoldable pub settle : Outcome × Pipeline → Pipeline
settle (returned, p) = p
settle (threw e, p) = record p { thread = ended; events = Event.caught e ∷ p.events }
settle (waits k, p) = record p { thread = stuck k }

-- The moves of the system: the thread takes the `i`-th handler or runs the `i`-th timer, the thread
-- leaves the loop, another thread makes a call, time passes.
pub data Move : Type 0 where
  takes : ℕ → Move
  fires : ℕ → (error : Bool) → Move
  leaves : Move
  calls : Call → Move
  passes : ℕ → Move

unfoldable pub is_running : Status → Bool
is_running looping = true
is_running s = false

unfoldable pub take_handler : Option (Handler × List Handler) → Pipeline → Pipeline
unfolding settle run_handler
take_handler none p = p
take_handler (some (h, rest)) p = settle (run_handler h (record p { queue = rest }))

unfoldable pub fire_timer : Option (Timer × List Timer) → Bool → Pipeline → Pipeline
unfolding settle run_timer
fire_timer none error p = p
fire_timer (some (t, rest)) error p =
    if not error && not (leb t.expires p.now)
    then p
    else settle (run_timer t error (record p { timers = rest }))

abbrev is_empty {ℓ} : {A : Type ℓ} → List A → Bool
is_empty [] = true
is_empty (x ∷ xs) = false

-- `run()` returns when it is stopped, or when there is nothing left to wait for.
unfoldable pub may_leave : Pipeline → Bool
may_leave p = if p.stopped then true else not p.work_guard && is_empty p.queue && is_empty p.timers

unfoldable pub step : Move → Pipeline → Pipeline
unfolding take_handler fire_timer is_running may_leave
step (takes i) p =
    if is_running p.thread && not p.stopped then take_handler (take_at i p.queue) p else p
step (fires i error) p =
    if is_running p.thread && not p.stopped then fire_timer (take_at i p.timers) error p else p
step leaves p = if is_running p.thread && may_leave p then record p { thread = ended } else p
step (calls c) p = (run_call c false p).1
step (passes n) p = record p { now = p.now + n }

unfoldable pub run : List Move → Pipeline → Pipeline
unfolding step
run [] p = p
run (m ∷ ms) p = run ms (step m p)

-- WaitUntilClosed comes back when it gets `waiter_`, which the thread holds until its end.
unfoldable pub may_return : Status → Bool
may_return ended = true
may_return s = false
