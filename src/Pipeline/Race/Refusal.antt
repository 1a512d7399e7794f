-- ===== src/Pipeline/Race/Refusal.antt =====
-- A schedule of two threads in Post of core/src/WarPipeline.cpp at a full queue.
use warlib.Base.{
  ℕ, zero, suc, ◌+◌, ◌%◌, ◌<◌, ◌≤◌, ◌≡◌, refl, false, some, [], ◌∷◌, get_elem?, total, arith, subst,
}
use warlib.Pipeline.{word}
use warlib.Pipeline.Race.{
  outside, checked, resting, Shared, check, raise, refuse, hand_in, take, count_down, Reach, here,
  next, is_admitted,
}

-- Two posting threads outside, and `k` tasks that wait.
filled : ℕ → Shared
filled k = record {
  count = k;
  closing = false;
  waiting = k;
  posters = outside ∷ outside ∷ [];
  worker = resting;
}

one_more :
    (cap k : ℕ) → cap + 2 < word → k < cap → Reach cap 2 (filled k) → Reach cap 2 (filled (k + 1))
unfolding filled
one_more cap k fits h r =
    subst (λ (c : ℕ). Reach cap 2 (record (filled (k + 1)) { count = c })) (omega arith)
      (next (next (next r (check 0 refl refl)) (raise 0 refl (omega arith))) (hand_in 0 refl))

fill : (cap k : ℕ) → cap + 2 < word → k ≤ cap → Reach cap 2 (filled k)
unfolding filled
fill cap zero fits h = here
fill cap (suc k) fits h =
    subst (λ (c : ℕ). Reach cap 2 (filled c)) (omega arith)
      (one_more cap k fits (omega arith) (fill cap k fits (omega arith)))

-- With two posting threads a Post can be refused although a place is free: at any capacity from 1
-- to 2 ^ 64 - 3 some reachable state has fewer tasks than the capacity and nothing on its way, and
-- yet the second thread's `++count_` gives more than the capacity, since the first has not taken
-- back its own.
pub spurious-refusal :
    (cap : ℕ)
    → 0 < cap
    → cap + 2 < word
    → (s : Shared) × Reach cap 2 s
      × (s.waiting < cap)
      × (s.worker ≡ resting)
      × (total is_admitted s.posters ≡ 0)
      × (get_elem? s.posters 1 ≡ some checked)
      × (cap < (s.count + 1) % word)
unfolding filled
spurious-refusal cap pos fits = (
  _,
  next
      (next
        (next
          (next (next (fill cap cap fits (omega arith)) (check 0 refl refl))
            (refuse 0 refl (omega arith)))
          (take refl (omega arith)))
        (count_down refl))
      (check 1 refl refl),
  omega arith,
  refl,
  refl,
  refl,
  omega arith,
)
