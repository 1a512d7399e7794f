-- ===== src/Pipeline/Sync.antt =====
-- Calls that the pipeline's own thread makes (Dispatch, PostSynchronously), and the promises of
-- PostSynchronously and PostWithPromise in WarPipeline.h and WarPipeline.cpp.
use warlib.Base.{
  ℕ, zero, suc, ◌+◌, ◌≡◌, refl, ap, ◌∙◌, Bool, true, false, [], codes, ◌==◌, arith, ==-refl,
  if_false, if◌then◌else◌, ◌%◌, ◌-◌,
}
use warlib.Errors.{Exn}
use warlib.Task.{Task, task, return, call, dispatch, label, post_synchronously, with_promise}
use warlib.Pipeline.{
  Promise, unset, value, exception, executing, Pipeline, Outcome, returned, threw, waits, note,
  after_task, exec_task, dispatch_task, set_promise, set_case, already_satisfied, or_exception,
  then_value, then_get, get, synchronous_body, promise_body, post_and_wait, exec, caught, word,
}
use warlib.Pipeline.Thread.{run_task, run_call, run_handler}
use warlib.Pipeline.Stable.{fresh_promise}

-- A task that dispatches a task that dispatches .., `n` deep.
pub nested : ℕ → Task
nested zero = task [] return
nested (suc n) = task [] (call (dispatch (nested n)) return)

pub begun : ℕ → Pipeline → Pipeline
begun zero p = p
begun (suc n) p = note (executing []) (begun n p)

-- Dispatch in the thread of a pipeline that is not closing is a call: at any depth, and whatever
-- the capacity, the tasks run at once, each is counted as run, and neither the queue nor the count
-- changes.
dispatch-nested :
    (n : ℕ) (p : Pipeline)
    → p.closing ≡ false
    → let q = (run_call (dispatch (nested n)) true p).1 in
      ((run_call (dispatch (nested n)) true p).0 ≡ returned)
      × (q.tasks_run ≡ p.tasks_run + suc n)
      × (q.queue ≡ p.queue)
      × (q.count ≡ p.count)
      × (q.closing ≡ false)
unfolding run_call dispatch_task nested
dispatch-nested zero p c = ground arith
dispatch-nested (suc n) p c = ground (arith, dispatch-nested n (note (executing []) p))

-- The state in which the task of PostSynchronously is executed.
unfoldable pub inner : Task → ℕ → Pipeline → Pipeline
inner t k p =
    note (executing (label t)) (note (executing (codes "Post Synchronously")) (fresh_promise k p))

keep : ℕ → Promise → Pipeline → Pipeline
keep k v p = record p { promises = λ j. if j == k then v else p.promises j }

-- How PostSynchronously ends, from how its task does.
pub finish : ℕ → Outcome × Pipeline → Outcome × Pipeline
unfolding keep
finish k (returned, p) = (returned, record (keep k value p) { tasks_run = p.tasks_run + 2 })
finish k (threw e, p) = (threw e, record (keep k (exception e) p) { tasks_run = p.tasks_run + 1 })
finish k (waits j, p) = (waits j, p)

set_promise-unset :
    (k : ℕ) (v : Promise) (p : Pipeline)
    → p.promises k ≡ unset
    → set_promise k v p ≡ (returned, keep k v p)
unfolding set_promise keep
set_promise-unset k v p u = ap (λ (o : Promise). set_case o k v p) u

get-keep : (k : ℕ) (v : Promise) (p : Pipeline) → get k ((keep k v p).promises k) ≡ get k v
unfolding keep
get-keep k v p = ap (λ (b : Bool). get k (if b then v else p.promises k)) (==-refl k)

finish_lem :
    (k : ℕ) (r : Outcome × Pipeline)
    → r.1.promises k ≡ unset
    → then_get k (after_task true (or_exception k (then_value k (after_task false r)))) ≡ finish k r
unfolding finish keep
finish_lem k (returned, p) u =
    ap (λ (r : Outcome × Pipeline). then_get k (after_task true (or_exception k r)))
      (set_promise-unset k value (record p { tasks_run = p.tasks_run + 1 }) u)
    ∙ ground (arith, get-keep k value p)
finish_lem k (threw e, p) u =
    ap (λ (r : Outcome × Pipeline). then_get k (after_task true r))
      (set_promise-unset k (exception e) p u)
    ∙ ground (arith, get-keep k (exception e) p)
finish_lem k (waits j, p) u = refl

-- PostSynchronously in the thread of a pipeline that is not closing ends as its task ends: it
-- returns if the task does, and throws what the task throws, after the promise is set; the counter
-- of executed tasks goes up by 2 for the one task that returned. The condition is that the task
-- leaves the promise alone, which is local to PostSynchronously.
pub post_synchronously-on_thread :
    (t : Task) (k : ℕ) (p : Pipeline)
    → p.closing ≡ false
    → (run_task t (inner t k p)).1.promises k ≡ unset
    → run_call (post_synchronously t k) true p ≡ finish k (run_task t (inner t k p))
unfolding run_call post_and_wait dispatch_task synchronous_body exec_task inner
post_synchronously-on_thread t k p c u =
    ap (then_get k) (
      if_false p.closing _ _ c
      ∙ if_false p.closing _ _ c
      ∙ ap (λ (r : Outcome × Pipeline). after_task true (or_exception k (then_value k r)))
          (if_false p.closing _ _ c))
    ∙ finish_lem k _ u

-- The state in which the task of PostWithPromise is executed, once its handler is taken.
unfoldable pub inner_promise : Task → Pipeline → Pipeline
inner_promise t p = note (executing (label t)) (
    note (executing (codes "Post with future"))
      (record p { count = (p.count + (word - 1)) % word }))

-- What its exception `e` comes to, by what the promise holds.
pub forwarded : Promise → ℕ → Exn → Pipeline → Pipeline
unfolding keep
forwarded unset k e p = record (keep k (exception e) p) { tasks_run = p.tasks_run + 1 }
forwarded o k e p = note (caught already_satisfied) p

forwarded_lem :
    (o : Promise) (k : ℕ) (e : Exn) (p : Pipeline)
    → after_task true (set_case o k (exception e) p) ≡ (returned, forwarded o k e p)
unfolding forwarded
forwarded_lem unset k e p = refl
forwarded_lem value k e p = refl
forwarded_lem (exception x) k e p = refl

-- A task of PostWithPromise that throws, in a pipeline that is not closing: the thread goes on;
-- the exception is handed to the promise, or, if the task had set the promise before it threw, the
-- promise keeps what it holds and the exception is lost, since the `future_error` of the second
-- setting is what is caught and logged.
pub post_with_promise-throws :
    (t : Task) (k : ℕ) (p q : Pipeline) (e : Exn)
    → p.closing ≡ false
    → run_task t (inner_promise t p) ≡ (threw e, q)
    → run_handler (exec (with_promise k t)) p ≡ (returned, forwarded (q.promises k) k e q)
unfolding run_handler run_task promise_body exec_task set_promise inner_promise
post_with_promise-throws t k p q e c r =
    if_false p.closing _ _ c
    ∙ ap (λ (r : Outcome × Pipeline). after_task true (or_exception k r)) (if_false p.closing _ _ c)
    ∙ ap (λ (r : Outcome × Pipeline). after_task true (or_exception k (after_task false r))) r
    ∙ forwarded_lem (q.promises k) k e q
