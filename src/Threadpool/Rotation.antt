-- ===== src/Threadpool/Rotation.antt =====
-- The constructor and GetAnyPipeline of core/src/WarThreadpool.cpp: indices within the pool, and
-- every pipeline in its turn.
use warlib.Base.{
  ℕ, zero, suc, ◌+◌, ◌-◌, ◌%◌, ◌≤◌, ◌<◌, ◌≡◌, ◌≢◌, refl, sym, ap, ◌∙◌, Option, some, List, [], ◌∷◌,
  length, get_elem?, set, length-set, arith, ◌⊎◌, inl, inr, subst,
}
use native.Mathlib.Nat.{mod-eq_of_lt, mod-add-mod, mod-eq-sub-mod}
use warlib.Pipeline.{Pipeline, Outcome, Action}
use warlib.Threadpool.{
  Threadpool, unsigned_word, get_capacity, workers, pipelines, construct, get_any_pipeline, act,
  on_any,
}

-- A pool has its pipelines, and at least one.
pub record IsWell (t : Threadpool) : Type 0 where
  pub full : length t.pool ≡ t.capacity
  pub some_thread : 0 < t.capacity
  pub fits : t.capacity < unsigned_word

length-workers :
    (left i c : ℕ) (ps : Option (List (Option ℕ))) → length (pipelines (workers left i c ps)) ≡ left
length-workers zero i c ps = refl
length-workers (suc left) i c ps = ap suc (length-workers left (suc i) c ps)

-- The constructor gives a pool with as many pipelines as its capacity, which is at least one and
-- within `unsigned`, whatever the hardware has, for any number of threads within `unsigned`.
pub construct-IsWell :
    (n hardware c : ℕ) (ps : Option (List (Option ℕ)))
    → n < unsigned_word
    → IsWell (construct n hardware c ps)
unfolding construct
construct-IsWell n hardware c ps h = record {
  full = length-workers (get_capacity n hardware) 0 c ps;
  some_thread = unfold get_capacity in ground arith;
  fits = unfold get_capacity in ground arith;
}

lt-or-le : (m n : ℕ) → (m < n) ⊎ (n ≤ m)
lt-or-le m n = omega arith

le-zero : 1 ≤ 0 → ⊥
le-zero h = omega (arith, h)

get_elem?-lt {ℓ} :
    {A : Type ℓ} (xs : List A) (i : ℕ) → i < length xs → (x : A) × (get_elem? xs i ≡ some x)
get_elem?-lt [] i h = let none_there : 1 ≤ 0 = omega (arith, h) in elim (le-zero none_there) [ ]
get_elem?-lt (x ∷ xs) zero h = (x, refl)
get_elem?-lt (x ∷ xs) (suc i) h = get_elem?-lt xs i (omega (arith, h))

-- An operation that returns, on some pipeline, and leaves a pool.
pub record Acts (f : Action) (t : Threadpool) (o : Option (Outcome × Threadpool)) : Type 0 where
  pub index : ℕ
  pub chosen : Pipeline
  pub after : Threadpool
  pub is_next : index ≡ (t.round_robin_next_thread + 1) % unsigned_word % t.capacity
  pub was_there : get_elem? t.pool index ≡ some chosen
  pub ends : o ≡ some ((f chosen).0, after)
  pub replaced : after.pool ≡ set t.pool index (f chosen).1
  pub well : IsWell after

-- In a pool that has its pipelines, Post and PostWithTimer, as any operation of a pipeline, do not
-- look outside `pool_`: they act on the pipeline whose turn it is, replace that pipeline only, and
-- leave a pool that has its pipelines.
pub on_any-Acts : (f : Action) (t : Threadpool) → IsWell t → Acts f t (on_any f t)
unfolding get_any_pipeline
on_any-Acts f t w =
    let i = (t.round_robin_next_thread + 1) % unsigned_word % t.capacity in
    let (p, there) = get_elem?-lt t.pool i (omega (arith, w.full, w.some_thread)) in
    record {
      index = i;
      chosen = p;
      after = record t {
        pool = set t.pool i (f p).1;
        round_robin_next_thread = (t.round_robin_next_thread + 1) % unsigned_word;
      };
      is_next = refl;
      was_there = there;
      ends =
          ap
            (λ (o : Option Pipeline). act f i o (record t {
              round_robin_next_thread = (t.round_robin_next_thread + 1) % unsigned_word;
            }))
            there;
      replaced = refl;
      well = record {
        full = length-set t.pool i (f p).1 ∙ w.full;
        some_thread = w.some_thread;
        fits = w.fits;
      };
    }

-- Calls of GetAnyPipeline before the one looked at.
abbrev skip : ℕ → Threadpool → Threadpool
skip zero t = t
skip (suc j) t = skip j (get_any_pipeline t).1

-- The index that a call uses after `j` others.
abbrev pub turn : ℕ → Threadpool → ℕ
turn j t = (get_any_pipeline (skip j t)).0

turn-next :
    (j : ℕ) (t : Threadpool)
    → t.round_robin_next_thread + j + 1 < unsigned_word
    → turn j t ≡ (t.round_robin_next_thread + j + 1) % t.capacity
unfolding get_any_pipeline
turn-next zero t h =
    let e : (t.round_robin_next_thread + 1) % unsigned_word ≡ t.round_robin_next_thread + 0 + 1 =
      omega (arith, h) in
    ap (λ (n : ℕ). n % t.capacity) e
turn-next (suc j) t h =
    let e : (t.round_robin_next_thread + 1) % unsigned_word + j + 1
        ≡ t.round_robin_next_thread + suc j + 1 =
      omega (arith, h) in
    turn-next j (get_any_pipeline t).1 (subst (λ (n : ℕ). n < unsigned_word) (sym e) h)
    ∙ ap (λ (n : ℕ). n % t.capacity) e

-- A remainder of less than twice the modulus.
wrap : (x m : ℕ) → x < m + m → ((x < m) × (x % m ≡ x)) ⊎ ((m ≤ x) × (x % m ≡ x - m))
wrap x m h = elim (lt-or-le x m) [
  | inl l ↦ inl (l, mod-eq_of_lt l)
  | inr l ↦ inr (l, mod-eq-sub-mod l ∙ mod-eq_of_lt (omega (arith, h, l)))
]

-- The turns counted from the one that comes next.
turn-from :
    (t : Threadpool) (j : ℕ)
    → IsWell t
    → t.round_robin_next_thread + t.capacity < unsigned_word
    → j < t.capacity
    → let c = (t.round_robin_next_thread + 1) % t.capacity in
      ((c + j < t.capacity) × (turn j t ≡ c + j))
      ⊎ ((t.capacity ≤ c + j) × (turn j t ≡ c + j - t.capacity))
turn-from t j w room h =
    let c = (t.round_robin_next_thread + 1) % t.capacity in
    let e : turn j t ≡ (c + j) % t.capacity =
      turn-next j t (omega (arith, room, h))
      ∙ sym (
          mod-add-mod (t.round_robin_next_thread + 1) t.capacity j
          ∙ ap (λ (n : ℕ). n % t.capacity) (omega arith)) in
    elim (wrap (c + j) t.capacity (omega (arith, h, w.some_thread))) [
      | inl (l, q) ↦ inl (l, e ∙ q)
      | inr (l, q) ↦ inr (l, e ∙ q)
    ]

-- In a pool that has its pipelines, as long as the counter does not wrap, `capacity` calls of
-- GetAnyPipeline in a row use every pipeline.
turn-covers :
    (t : Threadpool) (i : ℕ)
    → IsWell t
    → t.round_robin_next_thread + t.capacity < unsigned_word
    → i < t.capacity
    → (j : ℕ) × (j < t.capacity) × (turn j t ≡ i)
turn-covers t i w room h =
    let c = (t.round_robin_next_thread + 1) % t.capacity in
    let bound : c < t.capacity = omega (arith, w.some_thread) in
    elim (lt-or-le i c) [
      | inl l ↦
          let from = turn-from t (i + t.capacity - c) w room (omega (arith, l, h, bound)) in
          (i + t.capacity - c, omega (arith, l, h, bound), omega (arith, from, l, h, bound))
      | inr l ↦
          let from = turn-from t (i - c) w room (omega (arith, l, h, bound)) in
          (i - c, omega (arith, l, h, bound), omega (arith, from, l, h, bound))
    ]

-- In a pool that has its pipelines, as long as the counter does not wrap, `capacity` calls of
-- GetAnyPipeline in a row use no pipeline twice.
turn-distinct :
    (t : Threadpool) (j k : ℕ)
    → IsWell t
    → t.round_robin_next_thread + t.capacity < unsigned_word
    → j < k
    → k < t.capacity
    → turn j t ≢ turn k t
turn-distinct t j k w room hj hk e =
    omega (arith, turn-from t j w room (omega (arith, hj, hk)), turn-from t k w room hk, e, hj, hk)
