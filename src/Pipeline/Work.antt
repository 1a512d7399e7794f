-- ===== src/Pipeline/Work.antt =====
-- How much work waits in the io_context of WarPipeline.cpp. A task can post others, and run others in
-- place; what it can still cause is counted by recursion, since a task is finite data.
pub mod Adds
pub mod Termination
use warlib.Base.{
  ℕ, zero, suc, ◌+◌, ◌-◌, ◌%◌, ◌≤◌, ◌<◌, ◌≡◌, ◌≢◌, refl, sym, ap, ◌∙◌, subst, ◌⊎◌, inl, inr, Bool,
  true, false, not, ◌&&◌, Option, none, some, List, [], ◌∷◌, ◌++◌, Text, length, arith, if_elim,
  ltb, Bool-cases, replicate, ◌==◌, if◌then◌else◌, if_false, if_true,
}
use warlib.Task.{
  Task, task, synchronously, with_promise, Script, return, throw, fulfil, call, Call, post,
  dispatch, post_with_timer, post_token, post_with_timer_token, post_with_promise,
  post_synchronously, close, label,
}
use warlib.Pipeline.{
  word, Handler, exec, exec_token, shut, Promise, unset, value, exception, Status, looping, ended,
  stuck, Pipeline, Outcome, returned, threw, waits, Action, note, executing, after_task,
  then_enqueue, exec_task, post_task, dispatch_task, post_timer, post_with_token, timer_with_token,
  close_pipeline, set_promise, set_case, synchronous_body, promise_body, or_exception, then_value,
  then_get, post_and_wait, shut_down,
}
use warlib.Pipeline.Thread.{
  and_then, complete, run_task, run_script, run_call, run_handler, settle, take_handler, Move,
  takes, is_running, step, run, take_at,
}

-- The handlers that a task, a script or a call can put into the queue, with all that these can put
-- there in their turn.
unfoldable mutual
  pub task_work : Task → ℕ
  task_work (task n s) = script_work s
  task_work (synchronously k t) = task_work t
  task_work (with_promise k t) = task_work t

  pub script_work : Script → ℕ
  script_work return = 0
  script_work (throw e) = 0
  script_work (fulfil k s) = script_work s
  script_work (call c s) = call_work c + script_work s

  pub call_work : Call → ℕ
  call_work (post t) = 1 + task_work t
  call_work (dispatch t) = 1 + task_work t
  call_work (post_with_timer t ms) = 0
  call_work (post_token t k) = 1 + task_work t
  call_work (post_with_timer_token t ms k) = 0
  call_work (post_with_promise t k) = 1 + task_work t
  call_work (post_synchronously t k) = 1 + task_work t
  call_work close = 1

unfoldable handler_work : Handler → ℕ
unfolding task_work
handler_work (exec t) = 1 + task_work t
handler_work (exec_token t k) = 1 + task_work t
handler_work shut = 1

unfoldable pub work : List Handler → ℕ
unfolding handler_work
work [] = 0
work (h ∷ hs) = handler_work h + work hs

pub work-append : (hs gs : List Handler) → work (hs ++ gs) ≡ work hs + work gs
unfolding work
work-append [] gs = omega arith
work-append (h ∷ hs) gs = omega (arith, work-append hs gs)
