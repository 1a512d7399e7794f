-- ===== src/Threadpool/System/Closed.antt =====
-- A pool of core/src/WarThreadpool.cpp at work after its pipelines were closed.
use warlib.Base.{ℕ, ◌≡◌, sym, subst, some, List, [], ◌∷◌, All, true}
use warlib.Pipeline.{Pipeline, unset}
use warlib.Pipeline.Closing.{started, run-closing}
use warlib.Threadpool.{Threadpool}
use warlib.Threadpool.Rotation.{IsWell}
use warlib.Threadpool.System.{PoolMove, run_pool, AllReached, run_pool-Moves}

-- What a closing pipeline keeps: it starts no task and leaves promise `k` alone.
pub record Frozen (k : ℕ) (p q : Pipeline) : Type 0 where
  pub closing : q.closing ≡ true
  pub same_names : started q.events ≡ started p.events
  pub same_runs : q.tasks_run ≡ p.tasks_run
  pub not_set : q.promises k ≡ unset

abbrev pub AllFrozen : ℕ → List Pipeline → List Pipeline → Type 0
AllFrozen k [] [] = Unit
AllFrozen k [] (q ∷ qs) = ⊥
AllFrozen k (p ∷ ps) [] = ⊥
AllFrozen k (p ∷ ps) (q ∷ qs) = Frozen k p q × AllFrozen k ps qs

-- A pipeline that is closing, with a promise that is not set.
pub record IsShut (k : ℕ) (p : Pipeline) : Type 0 where
  pub closing : p.closing ≡ true
  pub not_set : p.promises k ≡ unset

AllReached-AllFrozen :
    (k : ℕ) (ps qs : List Pipeline) → All (IsShut k) ps → AllReached ps qs → AllFrozen k ps qs
AllReached-AllFrozen k [] [] c r = tt
AllReached-AllFrozen k [] (q ∷ qs) c r = r
AllReached-AllFrozen k (p ∷ ps) [] c r = r
AllReached-AllFrozen k (p ∷ ps) (q ∷ qs) c r =
    let v = run-closing r.0.moves p k c.0.closing c.0.not_set in
    let e = r.0.ran in
    (
      subst (Frozen k p) (sym e)
          (record { closing = v.0; same_names = v.1; same_runs = v.2; not_set = v.3 }),
      AllReached-AllFrozen k ps qs c.1 r.1,
    )

-- Once all pipelines of a pool are closing, none of them starts a task or runs one to its end,
-- whatever is posted to the pool and however its threads move; and a promise that none of them has
-- set is never set.
pub run_pool-AllFrozen :
    (ms : List PoolMove) (t : Threadpool) (k : ℕ)
    → IsWell t
    → All (IsShut k) t.pool
    → (u : Threadpool) × (run_pool ms t ≡ some u) × AllFrozen k t.pool u.pool
run_pool-AllFrozen ms t k w c =
    let v = run_pool-Moves ms t w in
    (v.after, v.ends, AllReached-AllFrozen k t.pool v.after.pool c v.sound.each)
