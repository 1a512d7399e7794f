-- ===== src/Threadpool/Race/Finish.antt =====
-- The calls of Close and WaitUntilClosed that are under way in Race come back.
use warlib.Base.{
  ℕ, suc, ◌+◌, ◌-◌, ◌≤◌, ◌<◌, ◌≡◌, refl, ap, subst, ◌⊎◌, inl, inr, true, some, List, [], ◌∷◌,
  length, get_elem?, set, total, total-set, length-set, All, arith, Bool-cases, zero, false,
}
use warlib.Threadpool.Race.{
  Phase, up, closing, ended, close_phase, PoolCaller, outside, back_from_close, asks_lock,
  back_from_join, closes_from, joins_from, PoolState, Going, close_one, close_end, lock_finished,
  lock, join_one, join_end, drains, ends, PoolReach,
}
use warlib.Threadpool.Race.Phases.{IsClosing, All-at, elem_below, at-le}
use warlib.Threadpool.Race.Inv.{is_joining, Inv, Done-at, Going-Inv, PoolReach-Inv}

-- The steps that a call of a pool of `n` pipelines has left.
abbrev pub call_weight : (n : ℕ) → PoolCaller → ℕ
call_weight n (closes_from k) = n - k + 1
call_weight n (joins_from k) = n - k + 1
call_weight n asks_lock = n + 2
call_weight n p = 0

abbrev pub phase_weight : Phase → ℕ
phase_weight (up left blocked) = left + 2
phase_weight (closing left blocked) = left + 1
phase_weight ended = 0

pub weight : PoolState → ℕ
weight s = total (call_weight (length s.pool)) s.threads + total phase_weight s.pool

-- Whether a thread is in a call.
abbrev pub is_busy : PoolCaller → ℕ
is_busy (closes_from k) = 1
is_busy (joins_from k) = 1
is_busy asks_lock = 1
is_busy p = 0

-- Whether the thread of a pipeline waits in a task.
abbrev pub is_blocked : Phase → ℕ
is_blocked (up left true) = 1
is_blocked (closing left true) = 1
is_blocked p = 0

total-at :
    (ps : List Phase) (k : ℕ) (p : Phase)
    → get_elem? ps k ≡ some p
    → is_blocked p ≤ total is_blocked ps
total-at [] k p e = cc
total-at (q ∷ ps) zero p e = let same : q ≡ p = cc in omega (arith, ap is_blocked same)
total-at (q ∷ ps) (suc k) p e = omega (arith, total-at ps k p e)

-- Some steps, in which no call begins.
pub data GoingRun (s : PoolState) : ℕ → PoolState → Type 0 where
  stay : GoingRun s 0 s
  more : {m : ℕ} {t u : PoolState} → GoingRun s m t → Going t u → GoingRun s (suc m) u

close_phase-le : (p : Phase) → phase_weight (close_phase p) ≤ phase_weight p
close_phase-le (up left blocked) = omega arith
close_phase-le (closing left blocked) = omega arith
close_phase-le ended = omega arith

Going-lt : (s t : PoolState) → Inv s → Going s t → weight t + 1 ≤ weight s
unfolding weight
Going-lt s t v (close_one i k p e f) =
    let n = length s.pool in
    omega (
      arith,
      ap (λ m. total (call_weight m) (set s.threads i (closes_from (suc k))))
          (length-set s.pool k (close_phase p)),
      total-set (call_weight n) s.threads i (closes_from k) (closes_from (suc k)) e,
      total-set phase_weight s.pool k p (close_phase p) f,
      close_phase-le p,
      at-le s.pool k p f,
    )
Going-lt s t v (close_end i e) =
    let n = length s.pool in
    omega (arith, total-set (call_weight n) s.threads i (closes_from n) back_from_close e)
Going-lt s t v (lock_finished i e free f) =
    let n = length s.pool in
    omega (arith, total-set (call_weight n) s.threads i asks_lock back_from_join e)
Going-lt s t v (lock i e free f) =
    let n = length s.pool in
    omega (arith, total-set (call_weight n) s.threads i asks_lock (joins_from 0) e)
Going-lt s t v (join_one i k e f) =
    let n = length s.pool in
    omega (
      arith,
      total-set (call_weight n) s.threads i (joins_from k) (joins_from (suc k)) e,
      at-le s.pool k ended f,
    )
Going-lt s t v (join_end i e) =
    let n = length s.pool in
    omega (arith, total-set (call_weight n) s.threads i (joins_from n) back_from_join e)
Going-lt s t v (drains k left e) = omega (
  arith,
  ap (λ m. total (call_weight m) s.threads) (length-set s.pool k (closing left false)),
  total-set phase_weight s.pool k (closing (suc left) false) (closing left false) e,
)
Going-lt s t v (ends k e) = omega (
  arith,
  ap (λ m. total (call_weight m) s.threads) (length-set s.pool k ended),
  total-set phase_weight s.pool k (closing 0 false) ended e,
)

Going-closed : (s t : PoolState) → s.closed ≡ true → Going s t → t.closed ≡ true
Going-closed s t c (close_one i k p e f) = c
Going-closed s t c (close_end i e) = refl
Going-closed s t c (lock_finished i e free f) = c
Going-closed s t c (lock i e free f) = c
Going-closed s t c (join_one i k e f) = c
Going-closed s t c (join_end i e) = c
Going-closed s t c (drains k left e) = c
Going-closed s t c (ends k e) = c

-- An entry with a weight, if there is one.
heavy :
    (w : PoolCaller → ℕ) (ps : List PoolCaller)
    → 1 ≤ total w ps
    → (i : ℕ) × (p : PoolCaller) × (get_elem? ps i ≡ some p) × (1 ≤ w p)
heavy w [] h = absurd (omega (arith, h))
heavy w (p ∷ ps) h = elim (zero_or (w p)) [
  | inl z ↦ let (i, q, e, g) = heavy w ps (omega (arith, h, z)) in (suc i, q, e, g)
  | inr g ↦ (0, p, refl, g)
]
  where
    zero_or : (n : ℕ) → (n ≡ 0) ⊎ (1 ≤ n)
    zero_or n = omega arith

below_or_at : (k n : ℕ) → k ≤ n → (k < n) ⊎ (k ≡ n)
below_or_at k n h = omega (arith, h)

abbrev pub CanGo : PoolState → Type 0
CanGo s = (t : PoolState) × Going s t

-- Some step can be made, or some pipeline's thread waits in a task.
abbrev pub GoesOrBlocked : PoolState → Type 0
GoesOrBlocked s = CanGo s ⊎ (1 ≤ total is_blocked s.pool)

module _ (s : PoolState) (v : Inv s) (all : All IsClosing s.pool) where
  phase-CanGo :
      (i k : ℕ) (x : Phase)
      → get_elem? s.threads i ≡ some (joins_from k)
      → get_elem? s.pool k ≡ some x
      → IsClosing x
      → GoesOrBlocked s
  phase-CanGo i k (up left blocked) e f c = elim c [ ]
  phase-CanGo i k (closing left true) e f c = inr (total-at s.pool k (closing left true) f)
  phase-CanGo i k (closing zero false) e f c = inl (_, ends k f)
  phase-CanGo i k (closing (suc left) false) e f c = inl (_, drains k left f)
  phase-CanGo i k ended e f c = inl (_, join_one i k e f)

  -- A pipeline that is closing goes on to its end, or its thread waits; one that has ended is joined.
  joins-CanGo : (i k : ℕ) → get_elem? s.threads i ≡ some (joins_from k) → GoesOrBlocked s
  joins-CanGo i k e = elim (below_or_at k (length s.pool) (Done-at s v i (joins_from k) e).1) [
    | inl b ↦
        let (x, f) = elem_below s.pool k b in
        phase-CanGo i k x e f (All-at IsClosing k s.pool x f all)
    | inr q ↦ inl (_, join_end i (subst (λ n. get_elem? s.threads i ≡ some (joins_from n)) q e))
  ]

  closes-CanGo : (i k : ℕ) → get_elem? s.threads i ≡ some (closes_from k) → CanGo s
  closes-CanGo i k e = elim (below_or_at k (length s.pool) (Done-at s v i (closes_from k) e).1) [
    | inl b ↦ let (x, f) = elem_below s.pool k b in (_, close_one i k x e f)
    | inr q ↦ (_, close_end i (subst (λ n. get_elem? s.threads i ≡ some (closes_from n)) q e))
  ]

  joiner-CanGo :
      (i : ℕ) (p : PoolCaller) → get_elem? s.threads i ≡ some p → 1 ≤ is_joining p → GoesOrBlocked s
  joiner-CanGo i (joins_from k) e h = joins-CanGo i k e
  joiner-CanGo i (closes_from k) e h = absurd (omega (arith, h))
  joiner-CanGo i outside e h = absurd (omega (arith, h))
  joiner-CanGo i asks_lock e h = absurd (omega (arith, h))
  joiner-CanGo i back_from_close e h = absurd (omega (arith, h))
  joiner-CanGo i back_from_join e h = absurd (omega (arith, h))

  -- A thread before the lock gets it, or the one that has it goes on.
  asks-CanGo : (i : ℕ) → get_elem? s.threads i ≡ some asks_lock → GoesOrBlocked s
  asks-CanGo i e = elim (Bool-cases s.locked) [
    | inl l ↦
        let (j, p, f, h) = heavy is_joining s.threads (ground (arith, v.holder)) in
        joiner-CanGo j p f h
    | inr free ↦ elim (Bool-cases s.finished) [
      | inl f ↦ inl (_, lock_finished i e free f)
      | inr f ↦ inl (_, lock i e free f)
    ]
  ]

  busy-CanGo :
      (i : ℕ) (p : PoolCaller) → get_elem? s.threads i ≡ some p → 1 ≤ is_busy p → GoesOrBlocked s
  busy-CanGo i (joins_from k) e h = joins-CanGo i k e
  busy-CanGo i (closes_from k) e h = inl (closes-CanGo i k e)
  busy-CanGo i asks_lock e h = asks-CanGo i e
  busy-CanGo i outside e h = absurd (omega (arith, h))
  busy-CanGo i back_from_close e h = absurd (omega (arith, h))
  busy-CanGo i back_from_join e h = absurd (omega (arith, h))

  threads-CanGo : GoesOrBlocked s ⊎ (total is_busy s.threads ≡ 0)
  threads-CanGo = elim (none_or (total is_busy s.threads)) [
    | inl z ↦ inr z
    | inr h ↦ let (i, p, e, g) = heavy is_busy s.threads h in inl (busy-CanGo i p e g)
  ]
    where
      none_or : (n : ℕ) → (n ≡ 0) ⊎ (1 ≤ n)
      none_or n = omega arith

GoingRun-Inv :
    (s t : PoolState) (m : ℕ)
    → Inv s
    → s.closed ≡ true
    → GoingRun s m t
    → (m + weight t ≤ weight s) × Inv t × (t.closed ≡ true)
GoingRun-Inv s t m v c stay = (omega arith, v, c)
GoingRun-Inv s t m v c (more {m = k} {t = u} r g) =
    let (le, w, d) = GoingRun-Inv s u k v c r in
    (omega (arith, le, Going-lt u t w g), Going-Inv u t w g, Going-closed u t d g)

-- Of a pool that is closed, with any number of threads in Close and WaitUntilClosed, however they got
-- there, and any handlers in its pipelines: while no call begins and no task begins or stops to wait,
-- they and the threads of the pipelines make at most `weight` steps; and as long as any thread is in
-- a call, some step can be made, unless the thread of some pipeline waits in a task, as one does that
-- is in PostSynchronously for a promise that is not set.
pub GoingRun-finishes :
    (c n m : ℕ) (s t : PoolState)
    → PoolReach c n s
    → s.closed ≡ true
    → GoingRun s m t
    → (m + weight t ≤ weight s) × (GoesOrBlocked t ⊎ (total is_busy t.threads ≡ 0))
GoingRun-finishes c n m s t h e r =
    let (le, w, d) = GoingRun-Inv s t m (PoolReach-Inv c n s h) e r in
    (le, threads-CanGo t w (w.when_closed d))
