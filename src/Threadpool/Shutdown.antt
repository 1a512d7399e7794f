-- ===== src/Threadpool/Shutdown.antt =====
-- From Close to the return of JoinAll, as in the destructor of core/src/WarThreadpool.cpp.
use warlib.Base.{
  ◌≡◌, refl, Bool, true, false, ◌&&◌, some, List, [], ◌∷◌, ◌++◌, length, replicate, All,
}
use warlib.Pipeline.Start.{joins}
use warlib.Pipeline.{Pipeline, Status, ended, stuck, looping}
use warlib.Pipeline.Thread.{Move, takes, leaves, run, may_return}
use warlib.Pipeline.Shutdown.{winding_up-ends}
use warlib.Threadpool.{Threadpool, close_all, close, all_closed, join_all}

-- A pipeline that is open, and whose thread is in its loop.
pub record IsUp (p : Pipeline) : Type 0 where
  pub not_closing : p.closing ≡ false
  pub not_closed : p.closed ≡ false
  pub loops : p.thread ≡ looping
  pub not_stopped : p.stopped ≡ false

-- A thread takes its handlers up to the one that Close has posted, and leaves its loop.
abbrev pub winding_up : Pipeline → List Move
winding_up p = replicate (length p.queue) (takes 0) ++ leaves ∷ []

abbrev pub wind_up : List Pipeline → List Pipeline
wind_up [] = []
wind_up (p ∷ ps) = run (winding_up p) p ∷ wind_up ps

and_true : (a b : Bool) → (a && b) ≡ true → (a ≡ true) × (b ≡ true)
and_true true b e = (refl, e)
and_true false b e = cc

-- Close of every pipeline, and the end of every thread.
wind_up-closed : (ps : List Pipeline) → All IsUp ps → all_closed (wind_up (close_all ps)) ≡ true
unfolding may_return
wind_up-closed [] v = refl
wind_up-closed (p ∷ ps) v =
    let rest = wind_up-closed ps v.1 in
    let ended_one = winding_up-ends p v.0.not_closing v.0.not_closed v.0.loops v.0.not_stopped in
    rw (ended_one, rest) refl

-- The destructors of the pipelines come back.
abbrev pub all_joined : List Pipeline → Bool
all_joined [] = true
all_joined (p ∷ ps) = joins p.thread && all_joined ps

joins-may_return : (s : Status) → may_return s ≡ true → joins s ≡ true
unfolding joins may_return
joins-may_return ended e = refl
joins-may_return looping e = cc
joins-may_return (stuck k) e = cc

all_closed-joined : (ps : List Pipeline) → all_closed ps ≡ true → all_joined ps ≡ true
all_closed-joined [] e = refl
all_closed-joined (p ∷ ps) e =
    let both = and_true (may_return p.thread) (all_closed ps) e in
    let q = joins-may_return p.thread both.0 in
    let r = all_closed-joined ps both.1 in rw (q, r) refl

-- The destructor of a pool that is not closed yet and whose pipelines are up returns: after Close,
-- each thread needs as many steps as it has handlers, and one to leave its loop, for JoinAll to come
-- back, and then the destructor of each pipeline comes back from its join.
pub close-join_all :
    (t : Threadpool)
    → t.closed ≡ false
    → t.finished ≡ false
    → All IsUp t.pool
    → let u = record (close t) { pool = wind_up (close t).pool } in
      (join_all u ≡ some (record u { finished = true })) × (all_joined u.pool ≡ true)
unfolding join_all close
close-join_all t c f v =
    let w = wind_up-closed t.pool v in (rw (c, f, w) refl, rw c (all_closed-joined _ w))
