-- ===== src/Threadpool/System.antt =====
-- A whole pool at work: the threads of its pipelines, and the threads that use it, one step at a time.
-- Tasks know their own pipeline only.
pub mod Closed
use warlib.Base.{
  ℕ, zero, suc, ◌<◌, ◌≡◌, refl, sym, ap, ◌∙◌, subst, Option, none, some, List, [], ◌∷◌, ◌++◌,
  get_elem?, set, length-set, if_elim, Option-cases, inl, inr, All, true,
}
use warlib.Task.{Task, Call}
use warlib.Pipeline.{Pipeline, Outcome, Action, init, post_task, post_timer, unset}
use warlib.Pipeline.Thread.{Move, calls, run_call, step, run}
use warlib.Pipeline.Shutdown.{run-append}
use warlib.Pipeline.Closing.{started, run-closing}
use warlib.Threadpool.{
  Threadpool, unsigned_word, worker_name, get_capacity, workers, pipelines, construct, post,
  post_with_timer, close_all, close,
}
use warlib.Threadpool.Rotation.{IsWell, Acts, on_any-Acts, construct-IsWell}
use warlib.Threadpool.Closing.{length-close_all}

-- `at i m` is a move of the `i`-th pipeline: of its thread, of its time, or a call by GetPipeline.
pub data PoolMove : Type 0 where
  posts : Task → PoolMove
  posts_timer : Task → (milli_seconds : ℕ) → PoolMove
  closes : PoolMove
  at : ℕ → Move → PoolMove

abbrev pub pool_after : Option (Outcome × Threadpool) → Option Threadpool
pool_after none = none
pool_after (some (o, t)) = some t

-- A move of a pipeline that is not there is the std::out_of_range of GetPipeline, and changes nothing.
abbrev pub move_at : ℕ → Move → Option Pipeline → Threadpool → Threadpool
move_at i m none t = t
move_at i m (some p) t = record t { pool = set t.pool i (step m p) }

-- `none` is an access outside `pool_`.
unfoldable pool_step : PoolMove → Threadpool → Option Threadpool
unfolding post post_with_timer close
pool_step (posts job) t = pool_after (post job t)
pool_step (posts_timer job milli_seconds) t = pool_after (post_with_timer job milli_seconds t)
pool_step closes t = some (close t)
pool_step (at i m) t = some (move_at i m (get_elem? t.pool i) t)

abbrev pub pool_then : Option Threadpool → (Threadpool → Option Threadpool) → Option Threadpool
pool_then none f = none
pool_then (some t) f = f t

unfoldable pub run_pool : List PoolMove → Threadpool → Option Threadpool
unfolding pool_step
run_pool [] t = some t
run_pool (m ∷ ms) t = pool_then (pool_step m t) (run_pool ms)

-- A pipeline `q` that `p` becomes by some moves.
pub record Reached (p q : Pipeline) : Type 0 where
  pub moves : List Move
  pub ran : q ≡ run moves p

-- As many pipelines, each of which the one in its place becomes by some moves.
abbrev pub AllReached : List Pipeline → List Pipeline → Type 0
AllReached [] [] = Unit
AllReached [] (q ∷ qs) = ⊥
AllReached (p ∷ ps) [] = ⊥
AllReached (p ∷ ps) (q ∷ qs) = Reached p q × AllReached ps qs

pub record IsSound (start : List Pipeline) (t : Threadpool) : Type 0 where
  pub well : IsWell t
  pub each : AllReached start t.pool

step-Reached : (m : Move) (p q : Pipeline) → Reached p q → Reached p (step m q)
unfolding run
step-Reached m p q r = record {
  moves = r.moves ++ m ∷ [];
  ran = ap (step m) r.ran ∙ sym (run-append r.moves (m ∷ []) p);
}

AllReached-refl : (ps : List Pipeline) → AllReached ps ps
unfolding run
AllReached-refl [] = tt
AllReached-refl (p ∷ ps) = (record { moves = []; ran = refl }, AllReached-refl ps)

set-AllReached :
    (j : ℕ) (m : Move) (ps qs : List Pipeline) (q : Pipeline)
    → get_elem? qs j ≡ some q
    → AllReached ps qs
    → AllReached ps (set qs j (step m q))
set-AllReached j m ps [] q e r = r
set-AllReached j m [] (x ∷ qs) q e r = elim r [ ]
set-AllReached zero m (p ∷ ps) (x ∷ qs) q e r =
    let same : x ≡ q = cc in (subst (λ y. Reached p (step m y)) same (step-Reached m p x r.0), r.1)
set-AllReached (suc j) m (p ∷ ps) (x ∷ qs) q e r = (r.0, set-AllReached j m ps qs q e r.1)

close_all-AllReached : (ps qs : List Pipeline) → AllReached ps qs → AllReached ps (close_all qs)
unfolding run_call step
close_all-AllReached [] [] r = r
close_all-AllReached [] (q ∷ qs) r = elim r [ ]
close_all-AllReached (p ∷ ps) [] r = elim r [ ]
close_all-AllReached (p ∷ ps) (q ∷ qs) r =
    (step-Reached (calls Call.close) p q r.0, close_all-AllReached ps qs r.1)

module _ (start : List Pipeline) where
  -- A move of a sound pool gives a sound pool.
  pub record Moves (o : Option Threadpool) : Type 0 where
    pub after : Threadpool
    pub ends : o ≡ some after
    pub sound : IsSound start after

  Acts-Moves :
      (f : Action) (call : Call) (t : Threadpool) (o : Option (Outcome × Threadpool))
      → ((p : Pipeline) → (f p).1 ≡ step (calls call) p)
      → Acts f t o
      → IsSound start t
      → Moves (pool_after o)
  Acts-Moves f call t o is_call a s = record {
    after = a.after;
    ends = ap pool_after a.ends;
    sound = record {
      well = a.well;
      each =
          subst (AllReached start)
            (ap (set t.pool a.index) (sym (is_call a.chosen)) ∙ sym a.replaced)
            (set-AllReached a.index (calls call) start t.pool a.chosen a.was_there s.each);
    };
  }

  pool_step-Moves : (m : PoolMove) (t : Threadpool) → IsSound start t → Moves (pool_step m t)
  unfolding pool_step post post_with_timer close step run_call
  pool_step-Moves (posts job) t s =
      Acts-Moves (post_task job) (Call.post job) t (post job t) (λ p. refl)
        (on_any-Acts (post_task job) t s.well) s
  pool_step-Moves (posts_timer job ms) t s =
      Acts-Moves (post_timer job ms) (Call.post_with_timer job ms) t (post_with_timer job ms t)
        (λ p. refl) (on_any-Acts (post_timer job ms) t s.well) s
  pool_step-Moves closes t s = record {
    after = close t;
    ends = refl;
    sound =
        if_elim (IsSound start) t.closed t _ (λ e. s)
          (λ e. record {
            well = record {
              full = length-close_all t.pool ∙ s.well.full;
              some_thread = s.well.some_thread;
              fits = s.well.fits;
            };
            each = close_all-AllReached start t.pool s.each;
          });
  }
  pool_step-Moves (at i m) t s = elim (Option-cases (get_elem? t.pool i)) [
    | inl e ↦ rw e (record { after = t; ends = refl; sound = s })
    | inr (p, e) ↦ rw e (record {
      after = record t { pool = set t.pool i (step m p) };
      ends = refl;
      sound = record {
        well = record {
          full = length-set t.pool i (step m p) ∙ s.well.full;
          some_thread = s.well.some_thread;
          fits = s.well.fits;
        };
        each = set-AllReached i m start t.pool p e s.each;
      };
    })
  ]

  run_pool_sound : (ms : List PoolMove) (t : Threadpool) → IsSound start t → Moves (run_pool ms t)
  unfolding run_pool
  run_pool_sound [] t s = record { after = t; ends = refl; sound = s }
  run_pool_sound (m ∷ ms) t s =
      let v = pool_step-Moves m t s in
      subst (λ o. Moves (pool_then o (run_pool ms))) (sym v.ends)
        (run_pool_sound ms v.after v.sound)

-- A pool that has its pipelines, at work in any way (any tasks posted to it, any order in which its
-- threads and its users move, closed or not): no access goes outside `pool_`, the pool keeps its
-- pipelines, and each of them is in a state that it can reach by some moves of a pipeline on its own.
pub run_pool-Moves : (ms : List PoolMove) (t : Threadpool) → IsWell t → Moves t.pool (run_pool ms t)
run_pool-Moves ms t w =
    run_pool_sound t.pool ms t (record { well = w; each = AllReached-refl t.pool })
