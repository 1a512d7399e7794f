-- ===== src/Pipeline.antt =====
-- core/include/warlib/WarPipeline.h and core/src/WarPipeline.cpp: one pipeline, its operations, and
-- the loop of its thread.
-- boost::asio is not modelled: what it promises is that a handler given to `post` waits in the
-- io_context until a thread in `run()` takes it, each once, and that a timer's handler runs at its
-- expiry or with an error. Which handler is taken next is an argument of each step.
pub mod Getters
pub mod Thread
pub mod Stable
pub mod Start
pub mod Count
pub mod Work
pub mod Closing
pub mod Post
pub mod Order
pub mod Fifo
pub mod Drained
pub mod Accounts
pub mod Sync
pub mod Loop
pub mod Shutdown
pub mod Token
pub mod Timing
pub mod Race
pub mod Phases
mod Tests
use warlib.Base.{
  ℕ, zero, suc, ◌+◌, ◌-◌, ◌%◌, ◌^◌, Bool, true, false, not, ◌&&◌, Option, none, some, List, [], ◌∷◌,
  ◌++◌, Text, codes, ltb, leb, ◌==◌, if◌then◌else◌,
}
use warlib.Errors.{Exn, war, std_only, capacity_exceeded}
use warlib.Task.{Task, synchronously, label}

-- `size_t`
abbrev pub word : ℕ
word = 2 ^ 64

-- What the io_context holds.
pub data Handler : Type 0 where
  exec : Task → Handler
  exec_token : Task → (token : ℕ) → Handler
  shut : Handler

-- A `deadline_timer` with `async_wait`; a coroutine's timer completes its token.
pub record Timer : Type 0 where
  pub expires : ℕ
  pub job : Task
  pub token : Option ℕ

pub data Promise : Type 0 where
  unset : Promise
  value : Promise
  exception : Exn → Promise

-- What the log and the completion handlers show, newest first.
pub data Event : Type 0 where
  executing : (name : Text) → Event
  dismissed : (name : Text) → Event
  timer_failed : (name : Text) → Event
  caught : Exn → Event
  completed : (token : ℕ) → (ok : Bool) → Event

-- `looping` is inside `io_context_->run()`. The thread holds `waiter_` until it has ended.
pub data Status : Type 0 where
  looping ended : Status
  stuck : (promise : ℕ) → Status

pub record Pipeline : Type 0 where
  pub name : Text
  -- `none` is the -1 of a pipeline outside a thread pool.
  pub id : Option ℕ
  pub capacity : ℕ
  pub count : ℕ
  pub closed : Bool
  pub closing : Bool
  pub tasks_run : ℕ
  pub work_guard : Bool
  pub stopped : Bool
  pub queue : List Handler
  pub timers : List Timer
  pub promises : ℕ → Promise
  pub thread : Status
  pub now : ℕ
  pub events : List Event

-- `waits` is a thread in `future.get()` of a promise that is not set.
pub data Outcome : Type 0 where
  returned : Outcome
  threw : Exn → Outcome
  waits : (promise : ℕ) → Outcome

abbrev pub Action : Type 0
Action = Pipeline → Outcome × Pipeline

-- The constructor, once the thread has called `sync.set_value()`.
unfoldable pub init : Text → Option ℕ → ℕ → Pipeline
init name id capacity = record {
  name = name;
  id = id;
  capacity = capacity;
  count = 0;
  closed = false;
  closing = false;
  tasks_run = 0;
  work_guard = true;
  stopped = false;
  queue = [];
  timers = [];
  promises = λ k. unset;
  thread = looping;
  now = 0;
  events = [];
}

abbrev pub note : Event → Pipeline → Pipeline
note e p = record p { events = e ∷ p.events }

abbrev pub enqueue : Handler → Pipeline → Pipeline
enqueue h p = record p { queue = p.queue ++ h ∷ [] }

abbrev pub out_of_capacity : Pipeline → Exn
out_of_capacity p =
    war capacity_exceeded (codes "Out of capicity in Pipeline \"" ++ p.name ++ codes "\"")

abbrev add_timer : Task → ℕ → Option ℕ → Pipeline → Pipeline
add_timer t ms token p = record p {
  timers = record { expires = p.now + ms; job = t; token = token } ∷ p.timers;
}

-- The `std::future_error` of a promise that is set twice.
abbrev pub already_satisfied : Exn
already_satisfied = std_only 0

-- AddingTask
unfoldable pub adding_task : Action
adding_task p =
    let raised = (p.count + 1) % word in
    if ltb p.capacity raised
    then (threw (out_of_capacity p), record p { count = (raised + (word - 1)) % word })
    else (returned, record p { count = raised })

abbrev pub then_enqueue : Handler → Outcome × Pipeline → Outcome × Pipeline
then_enqueue h (returned, p) = (returned, enqueue h p)
then_enqueue h (o, p) = (o, p)

-- Post(task_t &&)
unfoldable pub post_task : Task → Action
unfolding adding_task
post_task t p =
    if p.closing
    then (returned, note (dismissed (label t)) p)
    else then_enqueue (exec t) (adding_task p)

-- The end of `try { task.first(); ++tasks_run_; } WAR_CATCH_ALL_E`, and of the two statements
-- without the `try`.
abbrev pub after_task : Bool → Outcome × Pipeline → Outcome × Pipeline
after_task auto_catch (returned, p) = (returned, record p { tasks_run = p.tasks_run + 1 })
after_task true (threw e, p) = (returned, note (caught e) p)
after_task false (threw e, p) = (threw e, p)
after_task auto_catch (waits k, p) = (waits k, p)

-- ExecTask_, over a task given by its name and its function.
pub exec_task : Text → Action → (counting : Bool) → (auto_catch : Bool) → Action
exec_task name body counting auto_catch p =
    let p' = if counting then record p { count = (p.count + (word - 1)) % word } else p in
    if p.closing
    then (returned, note (dismissed name) p')
    else after_task auto_catch (body (note (executing name) p'))

-- Dispatch(task_t &&)
unfoldable pub dispatch_task : (on_thread : Bool) → Task → Action → Action
unfolding post_task exec_task
dispatch_task on_thread t body p =
    if p.closing
    then (returned, note (dismissed (label t)) p)
    else (if on_thread then exec_task (label t) body false true p else post_task t p)

-- PostWithTimer(task_t &&, uint32_t)
pub post_timer : Task → ℕ → Action
post_timer t ms p =
    if p.closing
    then (returned, note (dismissed (label t)) p)
    else (returned, add_timer t ms none p)

-- Post(task, token) and PostWithTimer(task, ms, token): the initiation looks at nothing.
pub post_with_token : Task → ℕ → Action
post_with_token t token p = (returned, enqueue (exec_token t token) p)

pub timer_with_token : Task → ℕ → ℕ → Action
timer_with_token t ms token p = (returned, add_timer t ms (some token) p)

-- Close
unfoldable pub close_pipeline : Action
close_pipeline p =
    if p.closing then (returned, p) else (returned, record (enqueue shut p) { closing = true })

-- The cases of `promise.set_value()` and `promise.set_exception(..)`, by what the promise holds.
abbrev pub set_case : Promise → ℕ → Promise → Action
set_case unset k v p = (returned, record p { promises = λ j. if j == k then v else p.promises j })
set_case o k v p = (threw already_satisfied, p)

-- `promise.set_value()` and `promise.set_exception(..)`
pub set_promise : ℕ → Promise → Action
set_promise k v p = set_case (p.promises k) k v p

-- `catch(...) { promise.set_exception(std::current_exception()); }`
abbrev or_exception : ℕ → Outcome × Pipeline → Outcome × Pipeline
or_exception k (threw e, p) = set_promise k (exception e) p
or_exception k (o, p) = (o, p)

abbrev then_value : ℕ → Outcome × Pipeline → Outcome × Pipeline
then_value k (returned, p) = set_promise k value p
then_value k (o, p) = (o, p)

-- The lambda of PostSynchronously, and that of PostWithPromise.
pub synchronous_body : ℕ → Text → Action → Action
unfolding exec_task set_promise
synchronous_body k name body p = or_exception k (then_value k (exec_task name body false false p))

pub promise_body : ℕ → Text → Action → Action
unfolding exec_task set_promise
promise_body k name body p = or_exception k (exec_task name body false false p)

-- `future.get()`
abbrev pub get : ℕ → Promise → Outcome
get k unset = waits k
get k value = returned
get k (exception e) = threw e

abbrev pub then_get : ℕ → Outcome × Pipeline → Outcome × Pipeline
then_get k (returned, p) = (get k (p.promises k), p)
then_get k (o, p) = (o, p)

-- PostSynchronously; its promise is new.
unfoldable pub post_and_wait : (on_thread : Bool) → Task → ℕ → Action → Action
unfolding dispatch_task synchronous_body
post_and_wait on_thread t k body p = then_get k (
    dispatch_task on_thread (synchronously k t) (synchronous_body k (label t) body)
      (record p { promises = λ j. if j == k then unset else p.promises j }))

-- OnTimer_
pub on_timer : (error : Bool) → Text → Action → Action
unfolding exec_task
on_timer error name body p =
    if error then (returned, note (timer_failed name) p) else exec_task name body false true p

-- The body of the lambda that Close posts.
pub shut_down : Pipeline → Pipeline
shut_down p = if p.closed then p else record p { closed = true; work_guard = false; stopped = true }
