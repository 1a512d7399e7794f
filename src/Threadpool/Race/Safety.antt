-- ===== src/Threadpool/Race/Safety.antt =====
-- What holds when Close or WaitUntilClosed of a pool in Race comes back.
use warlib.Base.{ℕ, ◌≡◌, some, List, [], ◌∷◌, get_elem?, All}
use warlib.Threadpool.Race.{
  Phase, PoolCaller, outside, back_from_close, asks_lock, back_from_join, closes_from, joins_from,
  PoolState, PoolReach,
}
use warlib.Threadpool.Race.Phases.{IsClosing, IsEnded}
use warlib.Threadpool.Race.Inv.{Done, Done-at, PoolReach-Inv}

-- What a thread that is back may rely on, of each pipeline.
abbrev pub Promised : PoolCaller → Phase → Type 0
Promised back_from_close p = IsClosing p
Promised back_from_join p = IsEnded p
Promised c p = Unit

everywhere : (ps : List Phase) → All {0, 0} (λ p. Unit) ps
everywhere [] = tt
everywhere (p ∷ ps) = (tt, everywhere ps)

Done-Promised : (pool : List Phase) (p : PoolCaller) → Done pool p → All (Promised p) pool
Done-Promised pool back_from_close d = d
Done-Promised pool back_from_join d = d
Done-Promised pool outside d = everywhere pool
Done-Promised pool asks_lock d = everywhere pool
Done-Promised pool (closes_from k) d = everywhere pool
Done-Promised pool (joins_from k) d = everywhere pool

-- However threads in Close and WaitUntilClosed of a pool interleave: when a thread is back from Close,
-- also from one that found `closed_` set, Close has been called on every pipeline; and when it is back
-- from WaitUntilClosed, the thread of every pipeline has ended.
pub back-Promised :
    (c n i : ℕ) (s : PoolState) (p : PoolCaller)
    → PoolReach c n s
    → get_elem? s.threads i ≡ some p
    → All (Promised p) s.pool
back-Promised c n i s p h e = Done-Promised s.pool p (Done-at s (PoolReach-Inv c n s h) i p e)
