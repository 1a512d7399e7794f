-- ===== src/Threadpool/Race/Inv.antt =====
-- What the threads in Close and WaitUntilClosed of Race have done so far.
use warlib.Base.{
  ℕ, zero, suc, ◌≤◌, ◌≡◌, refl, true, some, List, length, get_elem?, set, total, total-set,
  length-set, replicate, All, arith, if◌then◌else◌, false,
}
use warlib.Threadpool.Race.{
  Phase, up, closing, ended, close_phase, PoolCaller, outside, back_from_close, asks_lock,
  back_from_join, closes_from, joins_from, PoolState, Going, close_one, close_end, lock_finished,
  lock, join_one, join_end, ends, IsFree, free_outside, free_closed, free_joined, Calling,
  close_again, close_begin, join_begin, PoolReach, here, goes, calls, drains, Working, post, take,
  up_waits, closing_waits, works,
}
use warlib.Threadpool.Race.Phases.{
  IsClosing, is_ended, IsEnded, at_end, Upto, Upto-All, Upto-suc, Upto-set, All-set, All-at,
  All-map, get_elem?-set, at-le, close_phase-IsClosing, close_phase-IsEnded, is_closing,
}

-- What a thread has seen to.
abbrev pub Done : List Phase → PoolCaller → Type 0
Done pool (closes_from k) = Upto IsClosing k pool × (k ≤ length pool)
Done pool (joins_from k) = Upto IsEnded k pool × (k ≤ length pool)
Done pool back_from_close = All IsClosing pool
Done pool back_from_join = All IsEnded pool
Done pool p = Unit

abbrev pub is_joining : PoolCaller → ℕ
is_joining (joins_from k) = 1
is_joining p = 0

pub record Inv (s : PoolState) : Type 0 where
  pub each : All (Done s.pool) s.threads
  pub when_closed : s.closed ≡ true → All IsClosing s.pool
  pub when_finished : s.finished ≡ true → All IsEnded s.pool
  pub holder : total is_joining s.threads ≡ (if s.locked then 1 else 0)

-- A pipeline that goes on takes nothing back.
Done-set :
    (pool : List Phase) (k : ℕ) (x y : Phase)
    → get_elem? pool k ≡ some x
    → (IsClosing x → IsClosing y)
    → (IsEnded x → IsEnded y)
    → (p : PoolCaller) → Done pool p
    → Done (set pool k y) p
Done-set pool k x y e c f outside d = tt
Done-set pool k x y e c f asks_lock d = tt
Done-set pool k x y e c f back_from_close d = All-set IsClosing k pool x y e c d
Done-set pool k x y e c f back_from_join d = All-set IsEnded k pool x y e f d
Done-set pool k x y e c f (closes_from j) d =
    (Upto-set IsClosing j k pool x y e c d.0, omega (arith, d.1, length-set pool k y))
Done-set pool k x y e c f (joins_from j) d =
    (Upto-set IsEnded j k pool x y e f d.0, omega (arith, d.1, length-set pool k y))

module _ (s : PoolState) (v : Inv s) where
  -- Thread `i` goes from `p` to `q`.
  threads-set :
      (i : ℕ) (p q : PoolCaller)
      → get_elem? s.threads i ≡ some p
      → Done s.pool q
      → All (Done s.pool) (set s.threads i q)
  threads-set i p q e d = All-set (Done s.pool) i s.threads p q e (λ h. d) v.each

  pub Done-at : (i : ℕ) (p : PoolCaller) → get_elem? s.threads i ≡ some p → Done s.pool p
  Done-at i p e = All-at (Done s.pool) i s.threads p e v.each

  -- No thread comes to hold the lock, or stops to.
  same_holder :
      (i : ℕ) (p q : PoolCaller)
      → get_elem? s.threads i ≡ some p
      → is_joining p ≡ is_joining q
      → total is_joining (set s.threads i q) ≡ (if s.locked then 1 else 0)
  same_holder i p q e same = omega (arith, total-set is_joining s.threads i p q e, v.holder, same)

  Inv-set_pool :
      (k : ℕ) (x y : Phase)
      → get_elem? s.pool k ≡ some x
      → (IsClosing x → IsClosing y)
      → (IsEnded x → IsEnded y)
      → Inv (record s { pool = set s.pool k y })
  Inv-set_pool k x y e c f = record {
    each =
        All-map (Done s.pool) (Done (set s.pool k y)) s.threads (Done-set s.pool k x y e c f)
          v.each;
    when_closed = λ b. All-set IsClosing k s.pool x y e c (v.when_closed b);
    when_finished = λ b. All-set IsEnded k s.pool x y e f (v.when_finished b);
    holder = v.holder;
  }

  Inv-set_thread :
      (i : ℕ) (p q : PoolCaller)
      → get_elem? s.threads i ≡ some p
      → Done s.pool q
      → is_joining p ≡ is_joining q
      → Inv (record s { threads = set s.threads i q })
  Inv-set_thread i p q e d same = record {
    each = threads-set i p q e d;
    when_closed = v.when_closed;
    when_finished = v.when_finished;
    holder = same_holder i p q e same;
  }

IsFree-joining : (p : PoolCaller) → IsFree p → is_joining p ≡ 0
IsFree-joining p free_outside = refl
IsFree-joining p free_closed = refl
IsFree-joining p free_joined = refl

pub Going-Inv : (s t : PoolState) → Inv s → Going s t → Inv t
Going-Inv s t v (close_one i k p e f) =
    let next = close_phase p in
    let u : PoolState = record s { pool = set s.pool k next } in
    let w = Inv-set_pool s v k p next f (λ h. close_phase-IsClosing p) (close_phase-IsEnded p) in
    let d = Done-at u w i (closes_from k) e in
    Inv-set_thread u w i (closes_from k) (closes_from (suc k)) e
      (
        Upto-suc IsClosing k u.pool next d.0 (get_elem?-set s.pool k p next f)
            (close_phase-IsClosing p),
        omega (arith, at-le s.pool k p f, length-set s.pool k next),
      )
      refl
Going-Inv s t v (close_end i e) =
    let all = Upto-All IsClosing s.pool (Done-at s v i (closes_from (length s.pool)) e).0 in
    record {
      each = threads-set s v i _ back_from_close e all;
      when_closed = λ b. all;
      when_finished = v.when_finished;
      holder = same_holder s v i _ back_from_close e refl;
    }
Going-Inv s t v (lock_finished i e free f) =
    Inv-set_thread s v i asks_lock back_from_join e (v.when_finished f) refl
Going-Inv s t v (lock i e free f) = record {
  each = threads-set s v i asks_lock (joins_from 0) e (tt, omega arith);
  when_closed = v.when_closed;
  when_finished = v.when_finished;
  holder = ground (arith, total-set is_joining s.threads i asks_lock (joins_from 0) e, v.holder);
}
Going-Inv s t v (join_one i k e f) =
    let d = Done-at s v i (joins_from k) e in
    Inv-set_thread s v i (joins_from k) (joins_from (suc k)) e
      (Upto-suc IsEnded k s.pool ended d.0 f at_end, at-le s.pool k ended f) refl
Going-Inv s t v (join_end i e) =
    let all = Upto-All IsEnded s.pool (Done-at s v i (joins_from (length s.pool)) e).0 in
    record {
      each = threads-set s v i _ back_from_join e all;
      when_closed = v.when_closed;
      when_finished = λ b. all;
      holder = ground (
        arith,
        total-set is_joining s.threads i (joins_from (length s.pool)) back_from_join e,
        v.holder,
      );
    }
Going-Inv s t v (drains k left e) =
    Inv-set_pool s v k (closing (suc left) false) (closing left false) e (λ h. is_closing)
      (λ h. elim h [ ])
Going-Inv s t v (ends k e) =
    Inv-set_pool s v k (closing 0 false) ended e (λ h. is_ended) (λ h. at_end)

Working-IsClosing : (x y : Phase) → Working x y → IsClosing x → IsClosing y
Working-IsClosing x y (post left blocked) h = elim h [ ]
Working-IsClosing x y (take left) h = elim h [ ]
Working-IsClosing x y (up_waits left from to) h = elim h [ ]
Working-IsClosing x y (closing_waits left from to) h = is_closing

Working-IsEnded : (x y : Phase) → Working x y → IsEnded x → IsEnded y
Working-IsEnded x y (post left blocked) h = elim h [ ]
Working-IsEnded x y (take left) h = elim h [ ]
Working-IsEnded x y (up_waits left from to) h = elim h [ ]
Working-IsEnded x y (closing_waits left from to) h = elim h [ ]

Calling-Inv : (s t : PoolState) → Inv s → Calling s t → Inv t
Calling-Inv s t v (close_again i p e f c) =
    Inv-set_thread s v i p back_from_close e (v.when_closed c) (IsFree-joining p f)
Calling-Inv s t v (close_begin i p e f c) =
    Inv-set_thread s v i p (closes_from 0) e (tt, omega arith) (IsFree-joining p f)
Calling-Inv s t v (join_begin i p e f) = Inv-set_thread s v i p asks_lock e tt (IsFree-joining p f)

each-outside : (pool : List Phase) (n : ℕ) → All (Done pool) (replicate n outside)
each-outside pool zero = tt
each-outside pool (suc n) = (tt, each-outside pool n)

none-joining : (n : ℕ) → total is_joining (replicate n outside) ≡ 0
none-joining zero = refl
none-joining (suc n) = omega (arith, none-joining n)

pub PoolReach-Inv : (c n : ℕ) (s : PoolState) → PoolReach c n s → Inv s
PoolReach-Inv c n s here = record {
  each = each-outside (replicate c (up 0 false)) n;
  when_closed = λ b. cc;
  when_finished = λ b. cc;
  holder = none-joining n;
}
PoolReach-Inv c n s (goes {s = r} h g) = Going-Inv r s (PoolReach-Inv c n r h) g
PoolReach-Inv c n s (calls {s = r} h g) = Calling-Inv r s (PoolReach-Inv c n r h) g
PoolReach-Inv c n s (works {s = r} k x y h e w) =
    Inv-set_pool r (PoolReach-Inv c n r h) k x y e (Working-IsClosing x y w) (Working-IsEnded x y w)
