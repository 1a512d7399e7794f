-- ===== src/Pipeline/Work/Adds.antt =====
-- What each operation of WarPipeline.cpp can add to the work that waits.
use warlib.Base.{
  ℕ, ◌+◌, ◌-◌, ◌%◌, ◌≤◌, Bool, true, false, [], ◌∷◌, Text, arith, if_elim, ltb, ◌==◌, if◌then◌else◌,
}
use warlib.Task.{
  Task, task, synchronously, with_promise, Script, return, throw, fulfil, call, Call, post,
  dispatch, post_with_timer, post_token, post_with_timer_token, post_with_promise,
  post_synchronously, close, label,
}
use warlib.Pipeline.{
  word, exec, exec_token, shut, Promise, unset, value, exception, Pipeline, Outcome, returned,
  threw, waits, Action, note, executing, after_task, then_enqueue, exec_task, post_task,
  dispatch_task, post_timer, post_with_token, timer_with_token, close_pipeline, set_promise,
  set_case, synchronous_body, promise_body, or_exception, then_value, then_get, post_and_wait,
}
use warlib.Pipeline.Thread.{and_then, run_task, run_script, run_call}
use warlib.Pipeline.Work.{task_work, script_work, call_work, work, work-append}

-- An action that adds at most `n` to the work.
pub record Adds (n : ℕ) (f : Action) : Type 0 where
  pub at : (p : Pipeline) → work (f p).1.queue ≤ work p.queue + n

-- The same of a result.
abbrev pub Within : ℕ → Outcome × Pipeline → Type 0
Within n r = work r.1.queue ≤ n

after_task-Within :
    (n : ℕ) (b : Bool) (r : Outcome × Pipeline) → Within n r → Within n (after_task b r)
after_task-Within n b (returned, p) h = h
after_task-Within n true (threw e, p) h = h
after_task-Within n false (threw e, p) h = h
after_task-Within n b (waits j, p) h = h

set_case-Within :
    (o : Promise) (k n : ℕ) (x : Promise) (p : Pipeline)
    → work p.queue ≤ n
    → Within n (set_case o k x p)
set_case-Within unset k n x p h = h
set_case-Within value k n x p h = h
set_case-Within (exception e) k n x p h = h

or_exception-Within : (k n : ℕ) (r : Outcome × Pipeline) → Within n r → Within n (or_exception k r)
unfolding set_promise
or_exception-Within k n (returned, p) h = h
or_exception-Within k n (threw e, p) h = set_case-Within (p.promises k) k n (exception e) p h
or_exception-Within k n (waits j, p) h = h

then_value-Within : (k n : ℕ) (r : Outcome × Pipeline) → Within n r → Within n (then_value k r)
unfolding set_promise
then_value-Within k n (returned, p) h = set_case-Within (p.promises k) k n value p h
then_value-Within k n (threw e, p) h = h
then_value-Within k n (waits j, p) h = h

then_get-Within : (k n : ℕ) (r : Outcome × Pipeline) → Within n r → Within n (then_get k r)
then_get-Within k n (returned, p) h = h
then_get-Within k n (threw e, p) h = h
then_get-Within k n (waits j, p) h = h

pub exec_task-Adds :
    (name : Text) (n : ℕ) (body : Action) (c b : Bool)
    → Adds n body
    → Adds n (exec_task name body c b)
unfolding exec_task
exec_task-Adds name n body true b h = record {
  at = λ p.
      if_elim (Within (work p.queue + n)) p.closing _ _ (λ e. omega arith)
        (λ e.
          after_task-Within (work p.queue + n) b _
            (h.at (note (executing name) (record p { count = (p.count + (word - 1)) % word }))));
}
exec_task-Adds name n body false b h = record {
  at = λ p.
      if_elim (Within (work p.queue + n)) p.closing _ _ (λ e. omega arith)
        (λ e. after_task-Within (work p.queue + n) b _ (h.at (note (executing name) p)));
}

post_task-Adds : (t : Task) → Adds (1 + task_work t) (post_task t)
unfolding post_task work
post_task-Adds t = record {
  at = λ p.
      if_elim (Within (work p.queue + (1 + task_work t))) p.closing _ _ (λ e. omega arith)
        λ e.
          if_elim
            (λ (r : Outcome × Pipeline).
              Within (work p.queue + (1 + task_work t)) (then_enqueue (exec t) r))
            (ltb p.capacity ((p.count + 1) % word)) _ _ (λ full. omega arith)
            (λ room. omega (arith, work-append p.queue (exec t ∷ [])));
}

dispatch_task-Adds :
    (b : Bool) (t : Task) (body : Action)
    → Adds (task_work t) body
    → Adds (1 + task_work t) (dispatch_task b t body)
unfolding dispatch_task
dispatch_task-Adds true t body h = record {
  at = λ p.
      if_elim (Within (work p.queue + (1 + task_work t))) p.closing _ _ (λ e. omega arith)
        (λ e. omega (arith, (exec_task-Adds (label t) (task_work t) body false true h).at p));
}
dispatch_task-Adds false t body h = record {
  at = λ p.
      if_elim (Within (work p.queue + (1 + task_work t))) p.closing _ _ (λ e. omega arith)
        (λ e. (post_task-Adds t).at p);
}

synchronous_body-Adds :
    (k n : ℕ) (name : Text) (body : Action) → Adds n body → Adds n (synchronous_body k name body)
unfolding synchronous_body
synchronous_body-Adds k n name body h = record {
  at = λ p.
      or_exception-Within k (work p.queue + n) _ (
        then_value-Within k (work p.queue + n) _ ((exec_task-Adds name n body false false h).at p));
}

promise_body-Adds :
    (k n : ℕ) (name : Text) (body : Action) → Adds n body → Adds n (promise_body k name body)
unfolding promise_body
promise_body-Adds k n name body h = record {
  at = λ p.
      or_exception-Within k (work p.queue + n) _ ((exec_task-Adds name n body false false h).at p);
}

post_and_wait-Adds :
    (b : Bool) (t : Task) (k : ℕ) (body : Action)
    → Adds (task_work t) body
    → Adds (1 + task_work t) (post_and_wait b t k body)
unfolding post_and_wait task_work
post_and_wait-Adds b t k body h = record {
  at = λ p. then_get-Within k (work p.queue + (1 + task_work t)) _ (
      (dispatch_task-Adds b (synchronously k t) (synchronous_body k (label t) body)
          (synchronous_body-Adds k (task_work t) (label t) body h)).at
        (record p { promises = λ j. if j == k then unset else p.promises j }));
}

and_then-Within :
    (m n k : ℕ) (r : Outcome × Pipeline) (f : Action)
    → Within m r
    → Adds n f
    → m + n ≤ k
    → Within k (and_then r f)
and_then-Within m n k (returned, p) f h g e = omega (arith, g.at p)
and_then-Within m n k (threw x, p) f h g e = omega arith
and_then-Within m n k (waits j, p) f h g e = omega arith

set_promise-Within :
    (k : ℕ) (x : Promise) (p : Pipeline) → Within (work p.queue) (set_promise k x p)
unfolding set_promise
set_promise-Within k x p = set_case-Within (p.promises k) k (work p.queue) x p (omega arith)

post_timer-Adds : (t : Task) (ms : ℕ) → Adds 0 (post_timer t ms)
unfolding post_timer
post_timer-Adds t ms = record {
  at = λ p. if_elim (Within (work p.queue + 0)) p.closing _ _ (λ e. omega arith) (λ e. omega arith);
}

post_with_token-Adds : (t : Task) (k : ℕ) → Adds (1 + task_work t) (post_with_token t k)
unfolding post_with_token work
post_with_token-Adds t k = record {
  at = λ p. omega (arith, work-append p.queue (exec_token t k ∷ []));
}

timer_with_token-Adds : (t : Task) (ms k : ℕ) → Adds 0 (timer_with_token t ms k)
unfolding timer_with_token
timer_with_token-Adds t ms k = record { at = λ p. omega arith }

close_pipeline-Adds : Adds 1 close_pipeline
unfolding close_pipeline work
close_pipeline-Adds = record {
  at = λ p.
      if_elim (Within (work p.queue + 1)) p.closing _ _ (λ e. omega arith)
        (λ e. omega (arith, work-append p.queue (shut ∷ [])));
}

mutual
  unfolding run_task task_work

  task-Adds : (t : Task) → Adds (task_work t) (run_task t)
  task-Adds (task n s) = record { at = λ p. (script-Adds s).at p }
  task-Adds (synchronously k t) = record {
    at = (synchronous_body-Adds k (task_work t) (label t) (run_task t) (task-Adds t)).at;
  }
  task-Adds (with_promise k t) = record {
    at = (promise_body-Adds k (task_work t) (label t) (run_task t) (task-Adds t)).at;
  }

  script-Adds : (s : Script) → Adds (script_work s) (run_script s)
  script-Adds return = record { at = λ p. omega arith }
  script-Adds (throw e) = record { at = λ p. omega arith }
  script-Adds (fulfil k s) = record {
    at = λ p.
        and_then-Within (work p.queue) (script_work s) _ _ (run_script s)
          (set_promise-Within k value p) (script-Adds s) (omega arith);
  }
  script-Adds (call c s) = record {
    at = λ p.
        and_then-Within (work p.queue + call_work c) (script_work s) _ _ (run_script s)
          ((call-Adds c true).at p) (script-Adds s) (omega arith);
  }

  call-Adds : (c : Call) (b : Bool) → Adds (call_work c) (run_call c b)
  call-Adds (post t) b = record { at = (post_task-Adds t).at }
  call-Adds (dispatch t) b = record { at = (dispatch_task-Adds b t (run_task t) (task-Adds t)).at }
  call-Adds (post_with_timer t ms) b = record { at = (post_timer-Adds t ms).at }
  call-Adds (post_token t k) b = record { at = (post_with_token-Adds t k).at }
  call-Adds (post_with_timer_token t ms k) b = record { at = (timer_with_token-Adds t ms k).at }
  call-Adds (post_with_promise t k) b = record { at = (post_task-Adds (with_promise k t)).at }
  call-Adds (post_synchronously t k) b = record {
    at = (post_and_wait-Adds b t k (run_task t) (task-Adds t)).at;
  }
  call-Adds close b = record { at = close_pipeline-Adds.at }

pub run_task-Adds : (t : Task) → Adds (task_work t) (run_task t)
run_task-Adds t = task-Adds t
