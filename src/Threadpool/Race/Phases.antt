-- ===== src/Threadpool/Race/Phases.antt =====
-- How far the pipelines of Race are, from the first up to some index.
use warlib.Base.{
  ℕ, zero, suc, ◌≤◌, ◌<◌, ◌≡◌, refl, subst, some, List, [], ◌∷◌, length, get_elem?, set, All, arith,
  Bool,
}
use warlib.Threadpool.Race.{Phase, up, closing, ended, close_phase}

pub data IsClosing : Phase → Type 0 where
  is_closing : {left : ℕ} {blocked : Bool} → IsClosing (closing left blocked)
  is_ended : IsClosing ended

pub data IsEnded : Phase → Type 0 where
  at_end : IsEnded ended

module _ {ℓ} {A : Type ℓ} where
  -- The first `k` entries of a list.
  abbrev pub Upto : (A → Type 0) → ℕ → List A → Type 0
  Upto P zero xs = Unit
  Upto P (suc k) [] = Unit
  Upto P (suc k) (x ∷ xs) = P x × Upto P k xs

  pub Upto-All : (P : A → Type 0) (xs : List A) → Upto P (length xs) xs → All P xs
  Upto-All P [] u = tt
  Upto-All P (x ∷ xs) u = (u.0, Upto-All P xs u.1)

  -- One entry more.
  pub Upto-suc :
      (P : A → Type 0) (k : ℕ) (xs : List A) (x : A)
      → Upto P k xs
      → get_elem? xs k ≡ some x
      → P x
      → Upto P (suc k) xs
  Upto-suc P k [] x u e h = tt
  Upto-suc P zero (y ∷ xs) x u e h = let q : x ≡ y = cc in (subst P q h, tt)
  Upto-suc P (suc k) (y ∷ xs) x u e h = (u.0, Upto-suc P k xs x u.1 e h)

  -- A change of one entry that keeps the property.
  pub Upto-set :
      (P : A → Type 0) (k j : ℕ) (xs : List A) (x y : A)
      → get_elem? xs j ≡ some x
      → (P x → P y)
      → Upto P k xs
      → Upto P k (set xs j y)
  Upto-set P zero j xs x y e f u = tt
  Upto-set P (suc k) j [] x y e f u = tt
  Upto-set P (suc k) zero (z ∷ xs) x y e f u = let q : z ≡ x = cc in (f (subst P q u.0), u.1)
  Upto-set P (suc k) (suc j) (z ∷ xs) x y e f u = (u.0, Upto-set P k j xs x y e f u.1)

  pub All-set :
      (P : A → Type 0) (j : ℕ) (xs : List A) (x y : A)
      → get_elem? xs j ≡ some x
      → (P x → P y)
      → All P xs
      → All P (set xs j y)
  All-set P j [] x y e f u = tt
  All-set P zero (z ∷ xs) x y e f u = let q : z ≡ x = cc in (f (subst P q u.0), u.1)
  All-set P (suc j) (z ∷ xs) x y e f u = (u.0, All-set P j xs x y e f u.1)

  pub All-at :
      (P : A → Type 0) (j : ℕ) (xs : List A) (x : A) → get_elem? xs j ≡ some x → All P xs → P x
  All-at P j [] x e u = cc
  All-at P zero (z ∷ xs) x e u = let q : z ≡ x = cc in subst P q u.0
  All-at P (suc j) (z ∷ xs) x e u = All-at P j xs x e u.1

  pub All-map : (P Q : A → Type 0) (xs : List A) → ((x : A) → P x → Q x) → All P xs → All Q xs
  All-map P Q [] f u = tt
  All-map P Q (x ∷ xs) f u = (f x u.0, All-map P Q xs f u.1)

  pub get_elem?-set :
      (xs : List A) (j : ℕ) (x y : A) → get_elem? xs j ≡ some x → get_elem? (set xs j y) j ≡ some y
  get_elem?-set [] j x y e = cc
  get_elem?-set (z ∷ xs) zero x y e = refl
  get_elem?-set (z ∷ xs) (suc j) x y e = get_elem?-set xs j x y e

  pub at-le : (xs : List A) (j : ℕ) (x : A) → get_elem? xs j ≡ some x → suc j ≤ length xs
  at-le [] j x e = cc
  at-le (z ∷ xs) zero x e = omega arith
  at-le (z ∷ xs) (suc j) x e = omega (arith, at-le xs j x e)

  pub elem_below : (xs : List A) (j : ℕ) → j < length xs → (x : A) × (get_elem? xs j ≡ some x)
  elem_below [] j h = absurd (omega (arith, h))
  elem_below (z ∷ xs) zero h = (z, refl)
  elem_below (z ∷ xs) (suc j) h = elem_below xs j (omega (arith, h))

pub close_phase-IsClosing : (p : Phase) → IsClosing (close_phase p)
close_phase-IsClosing (up left blocked) = is_closing
close_phase-IsClosing (closing left blocked) = is_closing
close_phase-IsClosing ended = is_ended

pub close_phase-IsEnded : (p : Phase) → IsEnded p → IsEnded (close_phase p)
close_phase-IsEnded (up left blocked) h = elim h [ ]
close_phase-IsEnded (closing left blocked) h = elim h [ ]
close_phase-IsEnded ended at_end = at_end
