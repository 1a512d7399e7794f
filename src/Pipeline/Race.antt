-- ===== src/Pipeline/Race.antt =====
-- Many threads in Post of WarPipeline.cpp at once, and the pipeline's thread in ExecTask_: each
-- access to `closing_`, to `count_` and to the io_context is one step.
pub mod Refusal
pub mod Closing
pub mod Waiting
mod Tests
use warlib.Base.{
  ℕ, zero, suc, ◌+◌, ◌-◌, ◌%◌, ◌<◌, ◌≤◌, ◌≡◌, refl, Bool, true, false, some, List, [], ◌∷◌,
  get_elem?, set, total, total-set, length, length-set, arith, replicate, subst,
}
use warlib.Pipeline.{word}

-- Where a posting thread stands: outside, past the test of `closing_`, past a `++count_` that gave
-- more than `capacity_`, past one that did not.
pub data Pc : Type 0 where
  outside checked over admitted : Pc

-- `took` is between taking a handler and the `--count_` of ExecTask_.
pub data Worker : Type 0 where
  resting took : Worker

pub record Shared : Type 0 where
  pub count : ℕ
  pub closing : Bool
  pub waiting : ℕ
  pub posters : List Pc
  pub worker : Worker

abbrev pub start : ℕ → Shared
start n = record {
  count = 0;
  closing = false;
  waiting = 0;
  posters = replicate n outside;
  worker = resting;
}

pub data Step (cap : ℕ) (s : Shared) : Shared → Type 0 where
  dismiss : (i : ℕ) → get_elem? s.posters i ≡ some outside → s.closing ≡ true → Step cap s s
  check :
      (i : ℕ)
      → get_elem? s.posters i ≡ some outside
      → s.closing ≡ false
      → Step cap s (record s { posters = set s.posters i checked })
  raise :
      (i : ℕ)
      → get_elem? s.posters i ≡ some checked
      → (s.count + 1) % word ≤ cap
      → Step cap s (record s { count = (s.count + 1) % word; posters = set s.posters i admitted })
  refuse :
      (i : ℕ)
      → get_elem? s.posters i ≡ some checked
      → cap < (s.count + 1) % word
      → Step cap s (record s { count = (s.count + 1) % word; posters = set s.posters i over })
  throw :
      (i : ℕ)
      → get_elem? s.posters i ≡ some over
      → Step cap s
          (record s { count = (s.count + (word - 1)) % word; posters = set s.posters i outside })
  hand_in :
      (i : ℕ)
      → get_elem? s.posters i ≡ some admitted
      → Step cap s (record s { waiting = s.waiting + 1; posters = set s.posters i outside })
  take :
      s.worker ≡ resting
      → 0 < s.waiting
      → Step cap s (record s { waiting = s.waiting - 1; worker = took })
  count_down :
      s.worker ≡ took
      → Step cap s (record s { count = (s.count + (word - 1)) % word; worker = resting })
  close : Step cap s (record s { closing = true })

pub data Reach (cap n : ℕ) : Shared → Type 0 where
  here : Reach cap n (start n)
  next : {s t : Shared} → Reach cap n s → Step cap s t → Reach cap n t

abbrev pub is_over : Pc → ℕ
is_over over = 1
is_over p = 0

abbrev pub is_admitted : Pc → ℕ
is_admitted admitted = 1
is_admitted p = 0

abbrev pub is_took : Worker → ℕ
is_took resting = 0
is_took took = 1

-- `count_` is what waits, what is about to, what has just been taken, and what is about to be refused.
pub record Inv (cap n : ℕ) (s : Shared) : Type 0 where
  pub threads : length s.posters ≡ n
  pub room : cap + n < word
  pub counted :
      s.count ≡ s.waiting + is_took s.worker + total is_admitted s.posters + total is_over s.posters
  pub bounded : s.waiting + is_took s.worker + total is_admitted s.posters ≤ cap

total-outside : (w : Pc → ℕ) (n : ℕ) → w outside ≡ 0 → total w (replicate n outside) ≡ 0
total-outside w zero h = refl
total-outside w (suc n) h = omega (arith, total-outside w n h)

over-le-length : (ps : List Pc) → total is_over ps ≤ length ps
over-le-length [] = omega arith
over-le-length (outside ∷ ps) = omega (arith, over-le-length ps)
over-le-length (checked ∷ ps) = omega (arith, over-le-length ps)
over-le-length (over ∷ ps) = omega (arith, over-le-length ps)
over-le-length (admitted ∷ ps) = omega (arith, over-le-length ps)

length-replicate : (n : ℕ) → length (replicate n outside) ≡ n
length-replicate zero = refl
length-replicate (suc n) = omega (arith, length-replicate n)

start-Inv : (cap n : ℕ) → cap + n < word → Inv cap n (start n)
start-Inv cap n h =
    omega
      (arith, length-replicate n, total-outside is_admitted n refl, total-outside is_over n refl)

module _ {cap n : ℕ} {s : Shared} (v : Inv cap n s) where
  over-lt : (i : ℕ) → get_elem? s.posters i ≡ some checked → total is_over s.posters < n
  over-lt i e = omega (
    arith,
    total-set is_over s.posters i checked over e,
    over-le-length (set s.posters i over),
    length-set s.posters i over,
  )

  -- What moving thread `i` does to the sums.
  record Moved (i : ℕ) (old new : Pc) : Type 0 where
    same : length (set s.posters i new) ≡ n
    admit :
        total is_admitted (set s.posters i new) + is_admitted old
        ≡ total is_admitted s.posters + is_admitted new
    overs :
        total is_over (set s.posters i new) + is_over old ≡ total is_over s.posters + is_over new

  moved : (i : ℕ) (old new : Pc) → get_elem? s.posters i ≡ some old → Moved i old new
  moved i old new e = record {
    same = omega (arith, length-set s.posters i new);
    admit = total-set is_admitted s.posters i old new e;
    overs = total-set is_over s.posters i old new e;
  }

  Step-Inv : {t : Shared} → Step cap s t → Inv cap n t
  Step-Inv (dismiss i e c) = v
  Step-Inv (check i e c) = ground (arith, moved i outside checked e)
  Step-Inv (raise i e c) = ground (arith, moved i checked admitted e, over-lt i e)
  Step-Inv (refuse i e c) = ground (arith, moved i checked over e, over-lt i e)
  Step-Inv (throw i e) = ground (arith, moved i over outside e, over-le-length s.posters)
  Step-Inv (hand_in i e) = ground (arith, moved i admitted outside e)
  Step-Inv (take e h) = ground arith
  Step-Inv (count_down e) = ground (arith, over-le-length s.posters)
  Step-Inv close = ground arith

Reach-Inv : {cap n : ℕ} {s : Shared} → cap + n < word → Reach cap n s → Inv cap n s
Reach-Inv {cap} {n} h here = start-Inv cap n h
Reach-Inv h (next r st) = Step-Inv (Reach-Inv h r) st

-- However `n` posting threads interleave, if the capacity plus `n` is below 2 ^ 64: what waits,
-- what is on its way in and what has just been taken are never more than the capacity, and
-- `count_` is at most the capacity plus `n`.
pub bounded-by-capacity :
    {cap n : ℕ} {s : Shared}
    → cap + n < word
    → Reach cap n s
    → (s.waiting + is_took s.worker + total is_admitted s.posters ≤ cap) × (s.count ≤ cap + n)
bounded-by-capacity {s} h r =
    let v = Reach-Inv h r in
    (v.bounded, omega (arith, v.counted, v.bounded, v.threads, over-le-length s.posters))

-- However `n` posting threads interleaved, if the capacity plus `n` is below 2 ^ 64: when no
-- thread stands between `++count_` and the end of its Post, and the pipeline's thread not before
-- its `--count_`, `count_` is the number of tasks that wait.
count-at_rest :
    {cap n : ℕ} {s : Shared}
    → cap + n < word
    → Reach cap n s
    → total is_admitted s.posters ≡ 0
    → total is_over s.posters ≡ 0
    → s.worker ≡ resting
    → s.count ≡ s.waiting
count-at_rest h r a o w = let v = Reach-Inv h r in ground (arith, v.counted)

-- However `n` posting threads interleaved, if the capacity plus `n` is below 2 ^ 64: a refusal is
-- justified when no other refusal is under way, since the capacity is then used up by tasks that
-- wait, are on their way in, or have just been taken.
refuse-justified :
    {cap n : ℕ} {s : Shared}
    → cap + n < word
    → Reach cap n s
    → (i : ℕ) → get_elem? s.posters i ≡ some checked
    → cap < (s.count + 1) % word
    → total is_over s.posters ≡ 0
    → s.waiting + is_took s.worker + total is_admitted s.posters ≡ cap
refuse-justified {s} h r i e full none_over =
    let v = Reach-Inv h r in omega (arith, v.counted, v.bounded, v.room, over-lt v i e)
