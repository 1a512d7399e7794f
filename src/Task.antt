-- ===== src/Task.antt =====
-- `task_t` of core/include/warlib/basics.h, and the lambdas that PostSynchronously and
-- PostWithPromise of WarPipeline wrap round a task. What a task's function does is known by what it
-- does to its own pipeline: a script of calls, in order, which ends by a return or a throw.
use warlib.Base.{ℕ, Text, codes}
use warlib.Errors.{Exn}

-- A promise is known by a number, and so is the completion handler of a coroutine's token.
mutual
  pub data Task : Type 0 where
    task : (name : Text) → Script → Task
    synchronously : (promise : ℕ) → Task → Task
    with_promise : (promise : ℕ) → Task → Task

  pub data Script : Type 0 where
    return : Script
    throw : Exn → Script
    fulfil : (promise : ℕ) → Script → Script
    call : Call → Script → Script

  pub data Call : Type 0 where
    post : Task → Call
    dispatch : Task → Call
    post_with_timer : Task → (milliseconds : ℕ) → Call
    post_token : Task → (token : ℕ) → Call
    post_with_timer_token : Task → (milliseconds : ℕ) → (token : ℕ) → Call
    post_with_promise : Task → (promise : ℕ) → Call
    post_synchronously : Task → (promise : ℕ) → Call
    close : Call

-- `task.second`; the lambdas have literals.
abbrev pub label : Task → Text
label (task n s) = n
label (synchronously k t) = codes "Post Synchronously"
label (with_promise k t) = codes "Post with future"
