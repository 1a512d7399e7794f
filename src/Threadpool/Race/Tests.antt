-- ===== src/Threadpool/Race/Tests.antt =====
-- Two threads in Close and WaitUntilClosed of one pool with two pipelines.
use warlib.Base.{◌+◌, ◌≤◌, ◌≡◌, refl, ◌⊎◌, true, false, [], ◌∷◌, All, total}
use warlib.Threadpool.Race.{
  closing, ended, outside, back_from_close, asks_lock, back_from_join, PoolState, close_one,
  close_end, lock, join_one, join_end, drains, ends, free_outside, close_begin, join_begin,
  PoolReach, here, goes, calls, works, post,
}
use warlib.Threadpool.Race.Finish.{
  weight, is_busy, stay, more, GoesOrBlocked, GoingRun, GoingRun-finishes,
}
use warlib.Threadpool.Race.Safety.{Promised, back-Promised}

-- Thread 0 has closed the pool, while thread 1 waits for the lock of JoinAll.
abbrev half : PoolState
half = record {
  closed = true;
  finished = false;
  locked = false;
  pool = closing 2 false ∷ closing 1 false ∷ [];
  threads = back_from_close ∷ asks_lock ∷ [];
}

half-PoolReach : PoolReach 2 2 half
half-PoolReach =
    goes
      (goes
        (goes
          (calls
            (calls (works 0 _ _ here refl (post 0 false))
              (close_begin 0 outside refl free_outside refl))
            (join_begin 1 outside refl free_outside))
          (close_one 0 0 _ refl refl))
        (close_one 0 1 _ refl refl))
      (close_end 0 refl)

abbrev last : PoolState
last = record half { pool = ended ∷ closing 1 false ∷ [] }

last-run : GoingRun half 3 last
last-run = more (more (more stay (drains 0 1 refl)) (drains 0 0 refl)) (ends 0 refl)

last-PoolReach : PoolReach 2 2 last
last-PoolReach = goes (goes (goes half-PoolReach (drains 0 1 refl)) (drains 0 0 refl)) (ends 0 refl)

abbrev whole : PoolState
whole = record {
  closed = true;
  finished = true;
  locked = false;
  pool = ended ∷ ended ∷ [];
  threads = back_from_close ∷ back_from_join ∷ [];
}

back-Promised_example : All (Promised back_from_join) whole.pool
back-Promised_example =
    back-Promised 2 2 1 whole back_from_join
      (goes
        (goes
          (goes
            (goes (goes (goes last-PoolReach (drains 1 0 refl)) (ends 1 refl))
              (lock 1 refl refl refl))
            (join_one 1 0 refl refl))
          (join_one 1 1 refl refl))
        (join_end 1 refl))
      refl

GoingRun-finishes_example :
    (3 + weight last ≤ weight half) × (GoesOrBlocked last ⊎ (total is_busy last.threads ≡ 0))
GoingRun-finishes_example = GoingRun-finishes 2 2 3 half last half-PoolReach refl last-run
