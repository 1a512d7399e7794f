-- ===== src/Helper.antt =====
-- WarMapAddUnique of core/include/warlib/helper.h.
-- A map is a list of its entries, without a key twice; `same` is the equality of its keys.
pub mod Tree
mod Tests
use mathlib.Core.Option
use warlib.Base.{
  ℕ, ◌≡◌, ◌≢◌, refl, sym, ap, ◌∙◌, Bool, true, false, Option, none, some, List, [], ◌∷◌, ◌++◌, map,
  if◌then◌else◌, Text, append-nil, append_assoc, arith, All, if_elim, ◌⊎◌, inl, inr, Option-cases,
  Bool-cases, if_true, if_false,
}

module _ {ℓ κ} {K : Type ℓ} {V : Type κ} (same : K → K → Bool) where
  -- find
  abbrev pub find : K → List (K × V) → Option V
  find key [] = none
  find key ((k, v) ∷ entries) = if same key k then some v else find key entries

  -- operator[] and the assignment to its result.
  abbrev pub assign : K → V → List (K × V) → List (K × V)
  assign key val [] = (key, val) ∷ []
  assign key val ((k, v) ∷ entries) =
      let rest = assign key val entries in if same key k then (k, val) ∷ entries else (k, v) ∷ rest

  -- WarMapAddUnique, by the entry that it finds; `none` is ExceptionAlreadyExist.
  abbrev pub add_case : K → V → List (K × V) → Option V → Option (List (K × V))
  add_case key val container none = some (assign key val container)
  add_case key val container (some old) = none

  abbrev pub war_map_add_unique : K → V → List (K × V) → Option (List (K × V))
  war_map_add_unique key val container = add_case key val container (find key container)

  assign-fresh :
      (key : K) (val : V) (m : List (K × V))
      → find key m ≡ none
      → assign key val m ≡ m ++ (key, val) ∷ []
  assign-fresh key val [] e = refl
  assign-fresh key val ((k, v) ∷ m) e = elim (Bool-cases (same key k)) [
    | inl t ↦ let q : some v ≡ none = sym (if_true _ _ _ t) ∙ e in cc
    | inr t ↦
        let rest = assign-fresh key val m (sym (if_false _ _ _ t) ∙ e) in
        if_false _ _ _ t ∙ ap (◌∷◌ (k, v)) rest
  ]

  -- What adding a unique entry promises: a key that is there is refused, and for one that is not the
  -- entry is new and every old entry stays.
  war_map_add_unique_lem :
      (key : K) (val : V) (m : List (K × V))
      → ((find key m ≡ none) × (war_map_add_unique key val m ≡ some (m ++ (key, val) ∷ [])))
        ⊎ (((old : V) × (find key m ≡ some old)) × (war_map_add_unique key val m ≡ none))
  war_map_add_unique_lem key val m = elim (Option-cases (find key m)) [
    | inl e ↦ inl (e, ap (add_case key val m) e ∙ ap some (assign-fresh key val m e))
    | inr (old, e) ↦ inr ((old, e), ap (add_case key val m) e)
  ]
