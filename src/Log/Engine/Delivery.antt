-- ===== src/Log/Engine/Delivery.antt =====
-- Which messages LogEngine of WarLog.h and WarLog.cpp takes, and which handlers get them.
use mathlib.Core.Option
use warlib.Base.{
  ℕ, suc, ◌≤◌, ◌≡◌, ◌≢◌, refl, sym, ap, ◌∙◌, subst, ◌⊎◌, inl, inr, true, some, List, [], ◌∷◌, ltb,
  bit_and, bit_or, arith, if_elim, All, Any, get_elem?, zero, ◌++◌,
}
use warlib.Base.Bits.{
  bit, bit-le-one, bit-bit_and, bit-bit_or, bit_and-zero, set_bit, ne-zero_of_bit,
}
use warlib.Log.Level.{LogLevel, fatal, value}
use warlib.Log.Engine.{
  SubmitInfo, LogEventHandler, Logger, is_relevant, offer, offer_all, max_level, all_filters,
  louder,
}

-- The static members agree with these handlers.
pub record IsSynced (hs : List LogEventHandler) (s : Logger) : Type 0 where
  pub runs : s.engine ≡ some hs
  pub level : s.current_level ≡ max_level fatal hs
  pub filter : s.current_filter ≡ all_filters 0 hs

level-offer : (si : SubmitInfo) (h : LogEventHandler) → (offer si h).level ≡ h.level
level-offer si h = ground arith

filter-offer : (si : SubmitInfo) (h : LogEventHandler) → (offer si h).filter ≡ h.filter
filter-offer si h = ground arith

pub max_level-offer_all :
    (si : SubmitInfo) (l : LogLevel) (hs : List LogEventHandler)
    → max_level l (offer_all si hs) ≡ max_level l hs
max_level-offer_all si l [] = refl
max_level-offer_all si l (h ∷ hs) =
    max_level-offer_all si (louder l (offer si h).level) hs
    ∙ ap (λ (k : LogLevel). max_level (louder l k) hs) (level-offer si h)

pub all_filters-offer_all :
    (si : SubmitInfo) (f : ℕ) (hs : List LogEventHandler)
    → all_filters f (offer_all si hs) ≡ all_filters f hs
all_filters-offer_all si f [] = refl
all_filters-offer_all si f (h ∷ hs) =
    all_filters-offer_all si (bit_or f (offer si h).filter) hs
    ∙ ap (λ (g : ℕ). all_filters (bit_or f g) hs) (filter-offer si h)

pub max_level-append :
    (l : LogLevel) (hs gs : List LogEventHandler)
    → max_level l (hs ++ gs) ≡ max_level (max_level l hs) gs
max_level-append l [] gs = refl
max_level-append l (h ∷ hs) gs = max_level-append (louder l h.level) hs gs

pub all_filters-append :
    (f : ℕ) (hs gs : List LogEventHandler)
    → all_filters f (hs ++ gs) ≡ all_filters (all_filters f hs) gs
all_filters-append f [] gs = refl
all_filters-append f (h ∷ hs) gs = all_filters-append (bit_or f h.filter) hs gs

louder_ge : (l k : LogLevel) → (value l ≤ value (louder l k)) × (value k ≤ value (louder l k))
louder_ge l k =
    if_elim (λ (m : LogLevel). (value l ≤ value m) × (value k ≤ value m)) (ltb (value l) (value k))
      k l (λ e. ground arith) (λ e. ground arith)

-- What is in the loop's variables stays below what comes out of the loop.
max_level-ge : (l : LogLevel) (hs : List LogEventHandler) → value l ≤ value (max_level l hs)
max_level-ge l [] = omega arith
max_level-ge l (h ∷ hs) = omega (arith, louder_ge l h.level, max_level-ge (louder l h.level) hs)

all_filters-ge : (k f : ℕ) (hs : List LogEventHandler) → bit f k ≤ bit (all_filters f hs) k
all_filters-ge k f [] = omega arith
all_filters-ge k f (h ∷ hs) =
    omega (arith, all_filters-ge k (bit_or f h.filter) hs, bit-bit_or f h.filter k)

max_level-All :
    (l : LogLevel) (hs : List LogEventHandler)
    → All (λ h. value h.level ≤ value (max_level l hs)) hs
max_level-All l [] = tt
max_level-All l (h ∷ hs) = (
  omega (arith, louder_ge l h.level, max_level-ge (louder l h.level) hs),
  max_level-All (louder l h.level) hs,
)

all_filters-All :
    (f : ℕ) (hs : List LogEventHandler)
    → All (λ h. (k : ℕ) → bit h.filter k ≤ bit (all_filters f hs) k) hs
all_filters-All f [] = tt
all_filters-All f (h ∷ hs) = (
  λ k. omega (arith, all_filters-ge k (bit_or f h.filter) hs, bit-bit_or f h.filter k),
  all_filters-All (bit_or f h.filter) hs,
)

-- The loudest handler is there.
max_level-Any :
    (l k : LogLevel) (hs : List LogEventHandler)
    → value k ≤ value (max_level l hs)
    → (value k ≤ value l) ⊎ Any (λ h. value k ≤ value h.level) hs
max_level-Any l k [] e = inl e
max_level-Any l k (h ∷ hs) e = heard (max_level-Any (louder l h.level) k hs e)
  where
    heard :
        (value k ≤ value (louder l h.level)) ⊎ Any (λ g. value k ≤ value g.level) hs
        → (value k ≤ value l) ⊎ ((value k ≤ value h.level) ⊎ Any (λ g. value k ≤ value g.level) hs)
    heard (inl c) =
        if_elim
          (λ (m : LogLevel).
            value k ≤ value m
            → (value k ≤ value l)
              ⊎ ((value k ≤ value h.level) ⊎ Any (λ g. value k ≤ value g.level) hs))
          (ltb (value l) (value h.level)) h.level l (λ t d. inr (inl d)) (λ t d. inl d) c
    heard (inr a) = inr (inr a)

-- A handler wants a message by its own level and its own filter.
abbrev pub Wants : LogLevel → ℕ → LogEventHandler → Type 0
Wants l f h = (value l ≤ value h.level) × (bit_and f h.filter ≢ 0)

Wants-relevant :
    (l : LogLevel) (f : ℕ) (s : Logger) (h : LogEventHandler)
    → value h.level ≤ value s.current_level
    → ((k : ℕ) → bit h.filter k ≤ bit s.current_filter k)
    → Wants l f h
    → is_relevant l f s ≡ true
unfolding is_relevant
Wants-relevant l f s h le below (loud, about) =
    let (k, set) = set_bit (bit_and f h.filter) about in
    ground (
      arith,
      ne-zero_of_bit (bit_and f s.current_filter) k (
          omega (
            arith,
            set,
            below k,
            bit-bit_and f h.filter k,
            bit-bit_and f s.current_filter k,
            bit-le-one f k,
            bit-le-one s.current_filter k,
          )),
    )

All-at :
    (P : LogEventHandler → Type 0) (hs : List LogEventHandler) (i : ℕ) (h : LogEventHandler)
    → All P hs
    → get_elem? hs i ≡ some h
    → P h
All-at P [] i h a e = cc
All-at P (g ∷ hs) zero h a e = subst P (Option.some-injective g h e) a.0
All-at P (g ∷ hs) (suc i) h a e = All-at P hs i h a.1 e

pub level-le-current :
    (hs : List LogEventHandler) (s : Logger) (i : ℕ) (h : LogEventHandler)
    → IsSynced hs s
    → get_elem? hs i ≡ some h
    → value h.level ≤ value s.current_level
level-le-current hs s i h v there =
    subst (λ (m : LogLevel). value h.level ≤ value m) (sym v.level)
      (All-at (λ g. value g.level ≤ value (max_level fatal hs)) hs i h (max_level-All fatal hs)
        there)

-- No wanted message is dropped by the global test: when the static members are what
-- UpdateLevelAndFilter computes from the handlers, a message that some handler wants by its own
-- level and filter is relevant.
pub is_relevant-of_wanted :
    (l : LogLevel) (f : ℕ) (hs : List LogEventHandler) (s : Logger) (i : ℕ) (h : LogEventHandler)
    → IsSynced hs s
    → get_elem? hs i ≡ some h
    → Wants l f h
    → is_relevant l f s ≡ true
is_relevant-of_wanted l f hs s i h v there w =
    Wants-relevant l f s h (level-le-current hs s i h v there)
      (subst (λ (g : ℕ). (k : ℕ) → bit h.filter k ≤ bit g k) (sym v.filter)
        (All-at (λ g. (k : ℕ) → bit g.filter k ≤ bit (all_filters 0 hs) k) hs i h
          (all_filters-All 0 hs) there))
      w

Any-of_ne_zero :
    (f : ℕ) (hs : List LogEventHandler)
    → bit_and f (all_filters 0 hs) ≢ 0
    → Any (λ (h : LogEventHandler). Unit) hs
Any-of_ne_zero f [] e = ground (arith, bit_and-zero f)
Any-of_ne_zero f (h ∷ hs) e = inl tt

loud_fatal :
    (l : LogLevel) (hs : List LogEventHandler)
    → value l ≤ 0
    → Any (λ (h : LogEventHandler). Unit) hs
    → Any (λ h. value l ≤ value h.level) hs
loud_fatal l [] z a = elim a [ ]
loud_fatal l (h ∷ hs) z a = inl (omega (arith, z))

-- A message that passes the global test reaches some handler's level: when the static members are
-- what UpdateLevelAndFilter computes from the handlers, some handler's level admits it.
is_relevant-Any :
    (l : LogLevel) (f : ℕ) (hs : List LogEventHandler) (s : Logger)
    → IsSynced hs s
    → is_relevant l f s ≡ true
    → Any (λ h. value l ≤ value h.level) hs
unfolding is_relevant
is_relevant-Any l f hs s v e =
    elim (max_level-Any fatal l hs
      (subst (λ (m : LogLevel). value l ≤ value m) v.level (ground arith))) [
        | inl z ↦
            loud_fatal l hs z (
              Any-of_ne_zero f hs (subst (λ (g : ℕ). bit_and f g ≢ 0) v.filter (λ q. ground arith)))
        | inr a ↦ a
      ]
