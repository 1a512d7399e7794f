-- ===== src/Pipeline/Stable.antt =====
-- A property that the single operations of WarPipeline.cpp keep is kept by every task, however
-- deep its calls of its own pipeline go.
pub mod Moves
use warlib.Base.{ℕ, Bool, true, false, Text, ◌==◌, if◌then◌else◌}
use warlib.Task.{
  Task, task, synchronously, with_promise, Script, return, throw, fulfil, call, Call, post,
  dispatch, post_with_timer, post_token, post_with_timer_token, post_with_promise,
  post_synchronously, close, label,
}
use warlib.Pipeline.{
  Promise, unset, value, exception, dismissed, Pipeline, Outcome, returned, threw, waits, Action,
  note, post_task, exec_task, dispatch_task, post_timer, post_with_token, timer_with_token,
  close_pipeline, set_promise, synchronous_body, promise_body, post_and_wait, or_exception,
  then_value, then_get,
}
use warlib.Pipeline.Thread.{and_then, run_task, run_script, run_call}

abbrev pub fresh_promise : ℕ → Pipeline → Pipeline
fresh_promise k p = record p { promises = λ j. if j == k then unset else p.promises j }

pub record Keeps (P : Pipeline → Type 0) (f : Action) : Type 0 where
  pub at : (p : Pipeline) → P p → P (f p).1

pub record IsStable (P : Pipeline → Type 0) : Type 0 where
  pub noted : (t : Task) (p : Pipeline) → P p → P (note (dismissed (label t)) p)
  pub posted : (t : Task) → Keeps P (post_task t)
  pub executed :
      (name : Text) (body : Action) (auto_catch : Bool)
      → Keeps P body
      → Keeps P (exec_task name body false auto_catch)
  pub timed : (t : Task) (ms : ℕ) → Keeps P (post_timer t ms)
  pub tokened : (t : Task) (k : ℕ) → Keeps P (post_with_token t k)
  pub timer_tokened : (t : Task) (ms k : ℕ) → Keeps P (timer_with_token t ms k)
  pub closed_by : Keeps P close_pipeline
  pub promised : (k : ℕ) (v : Promise) → Keeps P (set_promise k v)
  pub freshened : (k : ℕ) (p : Pipeline) → P p → P (fresh_promise k p)

module _ (P : Pipeline → Type 0) (s : IsStable P) where
  and_then-keeps : (r : Outcome × Pipeline) (f : Action) → P r.1 → Keeps P f → P (and_then r f).1
  and_then-keeps (returned, p) f h k = k.at p h
  and_then-keeps (threw e, p) f h k = h
  and_then-keeps (waits j, p) f h k = h

  or_exception-keeps : (k : ℕ) (r : Outcome × Pipeline) → P r.1 → P (or_exception k r).1
  or_exception-keeps k (returned, p) h = h
  or_exception-keeps k (threw e, p) h = (s.promised k (exception e)).at p h
  or_exception-keeps k (waits j, p) h = h

  then_value-keeps : (k : ℕ) (r : Outcome × Pipeline) → P r.1 → P (then_value k r).1
  then_value-keeps k (returned, p) h = (s.promised k value).at p h
  then_value-keeps k (threw e, p) h = h
  then_value-keeps k (waits j, p) h = h

  then_get-keeps : (k : ℕ) (r : Outcome × Pipeline) → P r.1 → P (then_get k r).1
  then_get-keeps k (returned, p) h = h
  then_get-keeps k (threw e, p) h = h
  then_get-keeps k (waits j, p) h = h

  if-keeps : (b : Bool) (x y : Outcome × Pipeline) → P x.1 → P y.1 → P (if b then x else y).1
  if-keeps true x y hx hy = hx
  if-keeps false x y hx hy = hy

  synchronous_body-keeps :
      (k : ℕ) (name : Text) (body : Action) → Keeps P body → Keeps P (synchronous_body k name body)
  unfolding synchronous_body
  synchronous_body-keeps k name body h = record {
    at = λ p hp.
        or_exception-keeps k _ (then_value-keeps k _ ((s.executed name body false h).at p hp));
  }

  promise_body-keeps :
      (k : ℕ) (name : Text) (body : Action) → Keeps P body → Keeps P (promise_body k name body)
  unfolding promise_body
  promise_body-keeps k name body h = record {
    at = λ p hp. or_exception-keeps k _ ((s.executed name body false h).at p hp);
  }

  dispatch_task-keeps :
      (b : Bool) (t : Task) (body : Action) → Keeps P body → Keeps P (dispatch_task b t body)
  unfolding dispatch_task
  dispatch_task-keeps true t body h = record {
    at = λ p hp.
        if-keeps p.closing _ _ (s.noted t p hp) ((s.executed (label t) body true h).at p hp);
  }
  dispatch_task-keeps false t body h = record {
    at = λ p hp. if-keeps p.closing _ _ (s.noted t p hp) ((s.posted t).at p hp);
  }

  post_and_wait-keeps :
      (b : Bool) (t : Task) (k : ℕ) (body : Action)
      → Keeps P body
      → Keeps P (post_and_wait b t k body)
  unfolding post_and_wait
  post_and_wait-keeps b t k body h = record {
    at = λ p hp. then_get-keeps k _ (
        (dispatch_task-keeps b (synchronously k t) _ (synchronous_body-keeps k (label t) body h)).at
          (fresh_promise k p) (s.freshened k p hp));
  }

  mutual
    unfolding run_task

    task_keeps : (t : Task) → Keeps P (run_task t)
    task_keeps (task n c) = record { at = λ p hp. (script_keeps c).at p hp }
    task_keeps (synchronously k t) = record {
      at = (synchronous_body-keeps k (label t) (run_task t) (task_keeps t)).at;
    }
    task_keeps (with_promise k t) = record {
      at = (promise_body-keeps k (label t) (run_task t) (task_keeps t)).at;
    }

    script_keeps : (c : Script) → Keeps P (run_script c)
    script_keeps return = record { at = λ p hp. hp }
    script_keeps (throw e) = record { at = λ p hp. hp }
    script_keeps (fulfil k c) = record {
      at = λ p hp. and_then-keeps _ (run_script c) ((s.promised k value).at p hp) (script_keeps c);
    }
    script_keeps (call c d) = record {
      at = λ p hp. and_then-keeps _ (run_script d) ((call_keeps c true).at p hp) (script_keeps d);
    }

    call_keeps : (c : Call) (b : Bool) → Keeps P (run_call c b)
    call_keeps (post t) b = record { at = (s.posted t).at }
    call_keeps (dispatch t) b = record {
      at = (dispatch_task-keeps b t (run_task t) (task_keeps t)).at;
    }
    call_keeps (post_with_timer t ms) b = record { at = (s.timed t ms).at }
    call_keeps (post_token t k) b = record { at = (s.tokened t k).at }
    call_keeps (post_with_timer_token t ms k) b = record { at = (s.timer_tokened t ms k).at }
    call_keeps (post_with_promise t k) b = record { at = (s.posted (with_promise k t)).at }
    call_keeps (post_synchronously t k) b = record {
      at = (post_and_wait-keeps b t k (run_task t) (task_keeps t)).at;
    }
    call_keeps close b = record { at = s.closed_by.at }

  pub run_task-keeps : (t : Task) → Keeps P (run_task t)
  run_task-keeps t = task_keeps t

  pub run_call-keeps : (c : Call) (b : Bool) → Keeps P (run_call c b)
  run_call-keeps c b = call_keeps c b
