-- ===== src/Threadpool.antt =====
-- Threadpool of core/include/warlib/WarThreadpool.h and core/src/WarThreadpool.cpp.
-- Each pipeline is the one of Pipeline.antt. `thread::hardware_concurrency()` is an argument.
-- `none` is an index outside `pool_`.
pub mod Rotation
pub mod Closing
pub mod Shutdown
pub mod Naming
pub mod System
pub mod Race
mod Tests
use mathlib.Core.Option
use warlib.Base.{
  ℕ, zero, suc, ◌+◌, ◌-◌, ◌%◌, ◌^◌, Bool, true, false, not, ◌&&◌, Option, none, some, List, [], ◌∷◌,
  ◌++◌, Text, codes, decimal, ltb, ◌==◌, max, length, get_elem?, set, if◌then◌else◌,
}
use warlib.Task.{Task}
use warlib.Pipeline.Thread.{may_return}
use warlib.Pipeline.{Pipeline, Outcome, Action, init, post_task, post_timer, close_pipeline}

-- `unsigned`
abbrev pub unsigned_word : ℕ
unsigned_word = 2 ^ 32

pub record Threadpool : Type 0 where
  pub pool : List Pipeline
  pub round_robin_next_thread : ℕ
  pub capacity : ℕ
  pub closed : Bool
  pub finished : Bool

-- A worker, and the CPU that its thread is pinned to.
pub record Worker : Type 0 where
  pub pipeline : Pipeline
  pub cpu : Option ℕ

-- `capacity_`
pub get_capacity : (num_threads : ℕ) → (hardware : ℕ) → ℕ
get_capacity num_threads hardware =
    if ltb 0 num_threads
    then num_threads
    else max 2 ((hardware + (unsigned_word - 1)) % unsigned_word)

-- `none` is -1.
abbrev at_or_none : Option (Option ℕ) → Option ℕ
at_or_none none = none
at_or_none (some cpu) = cpu

abbrev pub pin : Option (List (Option ℕ)) → ℕ → Option ℕ
pin none i = none
pin (some pinning) i = at_or_none (get_elem? pinning i)

abbrev pub worker_name : ℕ → Text
worker_name i = codes "Pool-worker_" ++ decimal i

-- The loop of the constructor, with `left` pipelines to go.
abbrev pub workers : (left : ℕ) → (i : ℕ) → ℕ → Option (List (Option ℕ)) → List Worker
workers zero i queue_capacity pinning = []
workers (suc left) i queue_capacity pinning =
    record { pipeline = init (worker_name i) (some i) queue_capacity; cpu = pin pinning i }
    ∷ workers left (suc i) queue_capacity pinning

abbrev pub pipelines : List Worker → List Pipeline
pipelines [] = []
pipelines (w ∷ ws) = w.pipeline ∷ pipelines ws

-- Threadpool()
pub construct : (num_threads hardware queue_capacity : ℕ) → Option (List (Option ℕ)) → Threadpool
unfolding get_capacity
construct num_threads hardware queue_capacity pinning = record {
  pool = pipelines (workers (get_capacity num_threads hardware) 0 queue_capacity pinning);
  round_robin_next_thread = 0;
  capacity = get_capacity num_threads hardware;
  closed = false;
  finished = false;
}

-- GetAnyPipeline, as the index that it looks up.
pub get_any_pipeline : Threadpool → ℕ × Threadpool
get_any_pipeline t =
    let next = (t.round_robin_next_thread + 1) % unsigned_word in
    (next % t.capacity, record t { round_robin_next_thread = next })

abbrev pub act : Action → ℕ → Option Pipeline → Threadpool → Option (Outcome × Threadpool)
act f i none t = none
act f i (some p) t = some ((f p).0, record t { pool = set t.pool i (f p).1 })

-- An operation of the next pipeline.
abbrev pub on_any : Action → Threadpool → Option (Outcome × Threadpool)
on_any f t = let (i, t') = get_any_pipeline t in act f i (get_elem? t.pool i) t'

-- Post and PostWithTimer
pub post : Task → Threadpool → Option (Outcome × Threadpool)
unfolding get_any_pipeline
post job t = on_any (post_task job) t

pub post_with_timer : Task → (milli_seconds : ℕ) → Threadpool → Option (Outcome × Threadpool)
unfolding get_any_pipeline
post_with_timer job milli_seconds t = on_any (post_timer job milli_seconds) t

-- GetPipeline, where `none` is the std::out_of_range of `at`.
get_pipeline : ℕ → Threadpool → Option Pipeline
get_pipeline id t = get_elem? t.pool id

get_num_threads : Threadpool → ℕ
get_num_threads t = t.capacity

abbrev pub close_all : List Pipeline → List Pipeline
close_all [] = []
close_all (p ∷ ps) = (close_pipeline p).1 ∷ close_all ps

-- Close
pub close : Threadpool → Threadpool
close t = if t.closed then t else record t { pool = close_all t.pool; closed = true }

-- Whether WaitUntilClosed of every pipeline comes back.
abbrev pub all_closed : List Pipeline → Bool
all_closed [] = true
all_closed (p ∷ ps) = may_return p.thread && all_closed ps

-- JoinAll and WaitUntilClosed; `none` is a call that waits.
pub join_all : Threadpool → Option Threadpool
join_all t =
    if t.finished
    then some t
    else (if all_closed t.pool then some (record t { finished = true }) else none)
