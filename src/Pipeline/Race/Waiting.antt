-- ===== src/Pipeline/Race/Waiting.antt =====
-- One PostSynchronously of core/src/WarPipeline.cpp from another thread, while some thread may call
-- Close: the caller and the pipeline's thread test `closing_` twice each, and each test is one step.
-- Other tasks are left out: they do not touch the promise, which is local to the call.
pub mod Ends
mod Tests
use warlib.Base.{◌≡◌, refl, ◌≢◌, sym, ap, ◌∙◌, subst, ◌⊎◌, inl, inr, Bool, true, false}
use warlib.Errors.{Exn}
use warlib.Pipeline.{Promise, unset, value, exception, Outcome, returned, threw, waits, get}

-- Where the caller stands: before the test in Dispatch, before the one in Post, before AddingTask, in
-- `future.get()`, or back.
pub data Asking : Type 0 where
  calls dispatches posts gets : Asking
  back : Outcome → Asking

-- Where its handler stands: not given to the io_context, waiting there, before the test in the inner
-- ExecTask_, in the task, before the setting of the promise, or gone.
pub data Handling : Type 0 where
  nowhere queued enters inside gone : Handling
  sets : Promise → Handling

pub record Exchange : Type 0 where
  pub closing : Bool
  pub caller : Asking
  pub handler : Handling
  pub ran : Bool
  pub promise : Promise

abbrev pub before_call : Exchange
before_call = record {
  closing = false;
  caller = calls;
  handler = nowhere;
  ran = false;
  promise = unset;
}

-- `result` is what the task's end has for the promise, `full` what AddingTask throws.
pub data WaitStep (result : Promise) (full : Exn) (s : Exchange) : Exchange → Type 0 where
  close : WaitStep result full s (record s { closing = true })
  dispatch_dismiss :
      s.caller ≡ calls → s.closing ≡ true → WaitStep result full s (record s { caller = gets })
  dispatch_test :
      s.caller ≡ calls
      → s.closing ≡ false
      → WaitStep result full s (record s { caller = dispatches })
  post_dismiss :
      s.caller ≡ dispatches → s.closing ≡ true → WaitStep result full s (record s { caller = gets })
  post_test :
      s.caller ≡ dispatches
      → s.closing ≡ false
      → WaitStep result full s (record s { caller = posts })
  refuse : s.caller ≡ posts → WaitStep result full s (record s { caller = back (threw full) })
  give : s.caller ≡ posts → WaitStep result full s (record s { caller = gets; handler = queued })
  exec_dismiss :
      s.handler ≡ queued → s.closing ≡ true → WaitStep result full s (record s { handler = gone })
  exec_test :
      s.handler ≡ queued
      → s.closing ≡ false
      → WaitStep result full s (record s { handler = enters })
  inner_dismiss :
      s.handler ≡ enters
      → s.closing ≡ true
      → WaitStep result full s (record s { handler = sets value })
  inner_test :
      s.handler ≡ enters
      → s.closing ≡ false
      → WaitStep result full s (record s { handler = inside })
  task_ends :
      s.handler ≡ inside → WaitStep result full s (record s { handler = sets result; ran = true })
  set_promise :
      (v : Promise)
      → s.handler ≡ sets v
      → WaitStep result full s (record s { handler = gone; promise = v })
  get_value :
      s.caller ≡ gets
      → s.promise ≡ value
      → WaitStep result full s (record s { caller = back returned })
  get_exception :
      (e : Exn)
      → s.caller ≡ gets
      → s.promise ≡ exception e
      → WaitStep result full s (record s { caller = back (threw e) })

pub data WaitReach (result : Promise) (full : Exn) : Exchange → Type 0 where
  here : WaitReach result full before_call
  next :
      {s t : Exchange}
      → WaitReach result full s
      → WaitStep result full s t
      → WaitReach result full t
