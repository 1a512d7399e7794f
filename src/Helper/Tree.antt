-- ===== src/Helper/Tree.antt =====
-- The copying functions of core/include/warlib/boost_ptree_helper.h.
-- A property tree is the list of its children, each with its name; `get_value`, which throws on a
-- value that cannot be read, is boost's, and `none` where it throws. A result is the container, which
-- is filled in place, and whether the loop came to its end.
use mathlib.Core.Option.{or_else}
use warlib.Base.{
  ◌≡◌, refl, sym, ap, ◌∙◌, Bool, true, false, Option, none, some, List, [], ◌∷◌, ◌++◌, Text,
  text_eq, eq-of-text_eq, append-nil, append_assoc, inl, inr, Bool-cases, Option-cases,
}
use warlib.Helper.{find}

-- What is done with a value, and what without one.
abbrev pub on_value {ℓ κ} : {V : Type ℓ} {R : Type κ} → Option V → (V → R) → R → R
on_value none f r = r
on_value (some value) f r = f value

-- `cont.insert`: an entry with that key stays.
insert {κ} : {V : Type κ} → Text → V → List (Text × V) → List (Text × V)
insert key value cont = on_value (find text_eq key cont) (λ old. cont) (cont ++ (key, value) ∷ [])

module _ {ℓ κ} {N : Type ℓ} {V : Type κ} (get_value : N → Option V) where
  -- CopyToContainer, for a container of pairs that has push_back.
  copy_to_container : List (Text × N) → List (Text × V) → List (Text × V) × Bool
  copy_to_container [] cont = (cont, true)
  copy_to_container ((name, child) ∷ tree) cont =
      on_value (get_value child) (λ value. copy_to_container tree (cont ++ (name, value) ∷ []))
        ((cont, false))

  -- CopyToMap, for a container with one entry for a key.
  pub copy_to_map : List (Text × N) → List (Text × V) → List (Text × V) × Bool
  unfolding insert
  copy_to_map [] cont = (cont, true)
  copy_to_map ((name, child) ∷ tree) cont =
      on_value (get_value child) (λ value. copy_to_map tree (insert name value cont))
        ((cont, false))

  -- Without a container: the values up to the first that cannot be read.
  abbrev pub readable : List (Text × N) → List (Text × V)
  readable [] = []
  readable ((name, child) ∷ tree) =
      on_value (get_value child) (λ value. (name, value) ∷ readable tree) ([])

  abbrev pub all_readable : List (Text × N) → Bool
  all_readable [] = true
  all_readable ((name, child) ∷ tree) =
      on_value (get_value child) (λ value. all_readable tree) (false)

-- CopySingleValueToContainer
copy_single_value_to_container {ℓ} : {N : Type ℓ} → List (Text × N) → List Text → List Text
copy_single_value_to_container [] cont = cont
copy_single_value_to_container ((name, child) ∷ tree) cont =
    copy_single_value_to_container tree (cont ++ name ∷ [])

module _ {ℓ κ} {N : Type ℓ} {V : Type κ} (get_value : N → Option V) where
  -- CopyToContainer appends the children that come before the first one whose value cannot be read,
  -- in their order, and comes to its end exactly if there is no such child.
  copy_to_container_lem :
      (tree : List (Text × N)) (cont : List (Text × V))
      → copy_to_container get_value tree cont
        ≡ (cont ++ readable get_value tree, all_readable get_value tree)
  unfolding copy_to_container
  copy_to_container_lem [] cont = ap (λ c. (c, true)) (sym (append-nil cont))
  copy_to_container_lem ((name, child) ∷ tree) cont = elim (Option-cases (get_value child)) [
    | inl e ↦ rw e (ap (λ c. (c, false)) (sym (append-nil cont)))
    | inr (value, e) ↦ rw e (
        copy_to_container_lem tree (cont ++ (name, value) ∷ [])
        ∙ ap (λ c. (c, all_readable get_value tree)) (append_assoc cont ((name, value) ∷ []) _))
  ]

  find-append :
      (key : Text) (m n : List (Text × V))
      → find text_eq key (m ++ n) ≡ or_else (find text_eq key m) (find text_eq key n)
  unfolding or_else
  find-append key [] n = refl
  find-append key ((k, v) ∷ m) n = elim (Bool-cases (text_eq key k)) [
    | inl e ↦ rw e refl
    | inr e ↦ rw e (find-append key m n)
  ]

  or_else_assoc : (a b c : Option V) → or_else (or_else a b) c ≡ or_else a (or_else b c)
  unfolding or_else
  or_else_assoc none b c = refl
  or_else_assoc (some a) b c = refl

  or_else-none : (a : Option V) → or_else a none ≡ a
  unfolding or_else
  or_else-none none = refl
  or_else-none (some a) = refl

  find-insert :
      (key k : Text) (v : V) (m : List (Text × V))
      → find text_eq key (insert k v m)
        ≡ or_else (find text_eq key m) (find text_eq key ((k, v) ∷ []))
  unfolding insert or_else
  find-insert key k v m = elim (Option-cases (find text_eq k m)) [
    | inl e ↦ rw e (find-append key m ((k, v) ∷ []))
    | inr (old, e) ↦ elim (Bool-cases (text_eq key k)) [
      | inl same ↦
          let q = ap (λ i. find text_eq i m) (eq-of-text_eq key k same) ∙ e in rw (e, q) refl
      | inr other ↦ rw (e, other) (sym (or_else-none (find text_eq key m)))
    ]
  ]

  -- After CopyToMap a key that was there has its old value, and any other has the value of the first
  -- child of that name, among those before the first one whose value cannot be read. The loop comes to
  -- its end exactly if there is no such child.
  pub find-copy_to_map :
      (key : Text) (tree : List (Text × N)) (cont : List (Text × V))
      → (find text_eq key (copy_to_map get_value tree cont).0
          ≡ or_else (find text_eq key cont) (find text_eq key (readable get_value tree)))
        × ((copy_to_map get_value tree cont).1 ≡ all_readable get_value tree)
  unfolding copy_to_map
  find-copy_to_map key [] cont = (sym (or_else-none (find text_eq key cont)), refl)
  find-copy_to_map key ((name, child) ∷ tree) cont = elim (Option-cases (get_value child)) [
    | inl e ↦ rw e (sym (or_else-none (find text_eq key cont)), refl)
    | inr (value, e) ↦
        let rest = find-copy_to_map key tree (insert name value cont) in
        let one = find text_eq key ((name, value) ∷ []) in
        rw e (
          rest.0
              ∙ ap (λ o. or_else o (find text_eq key (readable get_value tree)))
                  (find-insert key name value cont)
              ∙ or_else_assoc (find text_eq key cont) one
                  (find text_eq key (readable get_value tree))
              ∙ ap (or_else (find text_eq key cont))
                  (sym (find-append key ((name, value) ∷ []) (readable get_value tree))),
          rest.1,
        )
  ]
