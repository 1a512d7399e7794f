-- ===== src/Threadpool/Tests.antt =====
-- A pool of three threads, and one input for each theorem on Threadpool.
use warlib.Base.{
  ℕ, ◌≡◌, refl, inl, false, none, some, [], ◌∷◌, codes, arith, true, Text, get_elem?, List,
}
use warlib.Task.{Task, task, return}
use warlib.Pipeline.{Pipeline, init, close_pipeline}
use warlib.Pipeline.Thread.{takes}
use warlib.Threadpool.System.{PoolMove, posts, at, closes, Moves, run_pool, run_pool-Moves}
use warlib.Threadpool.System.Closed.{IsShut, AllFrozen, run_pool-AllFrozen}
use warlib.ThreadName.{KeepsShort}
use warlib.Threadpool.Shutdown.{IsUp, wind_up, all_joined, close-join_all}
use warlib.Threadpool.{Threadpool, construct, get_capacity, close, join_all, worker_name}
use warlib.Threadpool.Rotation.{IsWell}
use warlib.Threadpool.Closing.{IsConsistent, close-again}

abbrev hello : Task
hello = task (codes "hello") return

-- On a machine that tells nothing of its processors, no number of threads asked for.
-- The number of threads is then that of `0u - 1`.
unknown_hardware : get_capacity 0 0 ≡ 4294967295
unfolding get_capacity
unknown_hardware = refl

abbrev worker : ℕ → Pipeline
worker i = init (codes "worker") (some i) 1024

abbrev three : Threadpool
three = record {
  pool = worker 0 ∷ worker 1 ∷ worker 2 ∷ [];
  round_robin_next_thread = 7;
  capacity = 3;
  closed = false;
  finished = false;
}

three-IsWell : IsWell three
three-IsWell = record { full = refl; some_thread = omega arith; fits = omega arith }

three-IsConsistent : IsConsistent three
three-IsConsistent = record { flagged = inl refl }

worker-IsUp : (i : ℕ) → IsUp (worker i)
unfolding init
worker-IsUp i = record { not_closing = refl; not_closed = refl; loops = refl; not_stopped = refl }

close-join_all_example :
    let u = record (close three) { pool = wind_up (close three).pool } in
    (join_all u ≡ some (record u { finished = true })) × (all_joined u.pool ≡ true)
close-join_all_example =
    close-join_all three refl refl (worker-IsUp 0, (worker-IsUp 1, (worker-IsUp 2, tt)))

abbrev same_name : Text → Text
same_name thread_name = thread_name

same_name-KeepsShort : KeepsShort same_name
same_name-KeepsShort = record { keeps = λ thread_name h. refl }

abbrev second_worker : Pipeline
second_worker = init (worker_name 1) (some 1) 1024

second_place : get_elem? (construct 2 8 1024 none).pool 1 ≡ some second_worker
unfolding construct get_capacity
second_place = refl

abbrev one : ℕ
one = 1

-- Two tasks go to the two workers of a pool, one runs, and the pool closes.
abbrev pool_moves : List PoolMove
pool_moves = posts hello ∷ posts hello ∷ at 1 (takes 0) ∷ closes ∷ []

run_pool-Moves_example : Moves three.pool (run_pool pool_moves three)
run_pool-Moves_example = run_pool-Moves pool_moves three three-IsWell

abbrev shut_three : Threadpool
shut_three = close three

closed_worker-IsShut : (i : ℕ) → IsShut 0 (close_pipeline (worker i)).1
unfolding init close_pipeline
closed_worker-IsShut i = record { closing = refl; not_set = refl }

shut_three-IsWell : IsWell shut_three
shut_three-IsWell = (close-again three three-IsWell three-IsConsistent).0.well

run_pool-AllFrozen_example :
    (u : Threadpool) × (run_pool pool_moves shut_three ≡ some u)
    × AllFrozen 0 shut_three.pool u.pool
unfolding close
run_pool-AllFrozen_example =
    run_pool-AllFrozen pool_moves shut_three 0 shut_three-IsWell
      (closed_worker-IsShut 0, (closed_worker-IsShut 1, (closed_worker-IsShut 2, tt)))
