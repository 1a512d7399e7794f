-- ===== src/Threadpool/Race.antt =====
-- Many threads in Close and WaitUntilClosed of core/src/WarThreadpool.cpp at once, and the threads of the
-- pipelines: each access to `closed_`, to `close_mutex_` and to a pipeline is one step.
-- A pipeline is known by how far it is, by the number of its handlers, and by whether its thread waits in
-- a task, as one in the `future.get()` of PostSynchronously does, for ever if nothing sets the promise.
pub mod Phases
pub mod Inv
pub mod Finish
pub mod Safety
mod Tests
use warlib.Base.{ℕ, suc, ◌+◌, ◌≡◌, Bool, true, false, some, List, length, get_elem?, set, replicate}

-- A pipeline: not closing, with Close called, with its thread at the end. `left` handlers wait; of a
-- closing pipeline those up to the one of Close, behind which `run()` returns.
pub data Phase : Type 0 where
  up closing : (left : ℕ) → (blocked : Bool) → Phase
  ended : Phase

-- Where a thread stands: in no call yet, in the loop of Close before pipeline `k`, behind Close, before
-- the lock of JoinAll, in its loop before pipeline `k`, behind JoinAll.
pub data PoolCaller : Type 0 where
  outside back_from_close asks_lock back_from_join : PoolCaller
  closes_from joins_from : (k : ℕ) → PoolCaller

pub record PoolState : Type 0 where
  pub closed : Bool
  pub finished : Bool
  pub locked : Bool
  pub pool : List Phase
  pub threads : List PoolCaller

-- A pool of `c` pipelines, and `n` threads that use it.
abbrev pub in_use : (c n : ℕ) → PoolState
in_use c n = record {
  closed = false;
  finished = false;
  locked = false;
  pool = replicate c (up 0 false);
  threads = replicate n outside;
}

-- Pipeline::Close
abbrev pub close_phase : Phase → Phase
close_phase (up left blocked) = closing (suc left) blocked
close_phase p = p

-- A step inside of a call, or of the thread of a pipeline that is closing: a handler is done with, or
-- `run()` returns.
pub data Going (s : PoolState) : PoolState → Type 0 where
  close_one :
      (i k : ℕ) (p : Phase)
      → get_elem? s.threads i ≡ some (closes_from k)
      → get_elem? s.pool k ≡ some p
      → Going s (record s {
        pool = set s.pool k (close_phase p);
        threads = set s.threads i (closes_from (suc k));
      })
  close_end :
      (i : ℕ)
      → get_elem? s.threads i ≡ some (closes_from (length s.pool))
      → Going s (record s { closed = true; threads = set s.threads i back_from_close })
  lock_finished :
      (i : ℕ)
      → get_elem? s.threads i ≡ some asks_lock
      → s.locked ≡ false
      → s.finished ≡ true
      → Going s (record s { threads = set s.threads i back_from_join })
  lock :
      (i : ℕ)
      → get_elem? s.threads i ≡ some asks_lock
      → s.locked ≡ false
      → s.finished ≡ false
      → Going s (record s { locked = true; threads = set s.threads i (joins_from 0) })
  join_one :
      (i k : ℕ)
      → get_elem? s.threads i ≡ some (joins_from k)
      → get_elem? s.pool k ≡ some ended
      → Going s (record s { threads = set s.threads i (joins_from (suc k)) })
  join_end :
      (i : ℕ)
      → get_elem? s.threads i ≡ some (joins_from (length s.pool))
      → Going s
          (record s { finished = true; locked = false; threads = set s.threads i back_from_join })
  drains :
      (k left : ℕ)
      → get_elem? s.pool k ≡ some (closing (suc left) false)
      → Going s (record s { pool = set s.pool k (closing left false) })
  ends :
      (k : ℕ)
      → get_elem? s.pool k ≡ some (closing 0 false)
      → Going s (record s { pool = set s.pool k ended })

-- A thread that is in no call.
pub data IsFree : PoolCaller → Type 0 where
  free_outside : IsFree outside
  free_closed : IsFree back_from_close
  free_joined : IsFree back_from_join

-- The begin of a call, up to the test of `closed_`, or to the lock.
pub data Calling (s : PoolState) : PoolState → Type 0 where
  close_again :
      (i : ℕ) (p : PoolCaller)
      → get_elem? s.threads i ≡ some p
      → IsFree p
      → s.closed ≡ true
      → Calling s (record s { threads = set s.threads i back_from_close })
  close_begin :
      (i : ℕ) (p : PoolCaller)
      → get_elem? s.threads i ≡ some p
      → IsFree p
      → s.closed ≡ false
      → Calling s (record s { threads = set s.threads i (closes_from 0) })
  join_begin :
      (i : ℕ) (p : PoolCaller)
      → get_elem? s.threads i ≡ some p
      → IsFree p
      → Calling s (record s { threads = set s.threads i asks_lock })

-- What else becomes of a pipeline: a task is posted or done with, or a task begins to wait, or stops to.
pub data Working : Phase → Phase → Type 0 where
  post : (left : ℕ) (blocked : Bool) → Working (up left blocked) (up (suc left) blocked)
  take : (left : ℕ) → Working (up (suc left) false) (up left false)
  up_waits : (left : ℕ) (from to : Bool) → Working (up left from) (up left to)
  closing_waits : (left : ℕ) (from to : Bool) → Working (closing left from) (closing left to)

pub data PoolReach (c n : ℕ) : PoolState → Type 0 where
  here : PoolReach c n (in_use c n)
  goes : {s t : PoolState} → PoolReach c n s → Going s t → PoolReach c n t
  calls : {s t : PoolState} → PoolReach c n s → Calling s t → PoolReach c n t
  works :
      {s : PoolState} (k : ℕ) (x y : Phase)
      → PoolReach c n s
      → get_elem? s.pool k ≡ some x
      → Working x y
      → PoolReach c n (record s { pool = set s.pool k y })
