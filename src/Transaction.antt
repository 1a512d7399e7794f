-- ===== src/Transaction.antt =====
-- Transaction of core/include/warlib/transaction.h.
-- An undo operation is a function on the state that it repairs.
mod Tests
use warlib.Base.{ℕ, ◌≡◌, refl, sym, ap, ◌∙◌, Bool, true, false, List, [], ◌∷◌, ◌++◌, if◌then◌else◌}

pub record Transaction {ℓ} (S : Type ℓ) : Type ℓ where
  pub undoers : List (S → S)
  pub committed : Bool

abbrev pub begin {ℓ} : {S : Type ℓ} → Transaction S
begin = record { undoers = []; committed = false }

-- A change of the state with the undo operation that belongs to it.
pub record Change {ℓ} (S : Type ℓ) : Type ℓ where
  pub apply : S → S
  pub undo : S → S
  pub undo-apply : (s : S) → undo (apply s) ≡ s

module _ {ℓ} {S : Type ℓ} where
  -- Commit
  abbrev pub commit : Transaction S → Transaction S
  commit t = record t { committed = true }

  -- AddUndo, which inserts at the front.
  abbrev pub add_undo : (S → S) → Transaction S → Transaction S
  add_undo undo t = record t { undoers = undo ∷ t.undoers }

  -- The loop of the destructor.
  abbrev pub undo_all : List (S → S) → S → S
  undo_all [] s = s
  undo_all (undo ∷ undoers) s = undo_all undoers (undo s)

  -- ~Transaction
  abbrev pub roll_back : Transaction S → S → S
  roll_back t s = if t.committed then s else undo_all t.undoers s

  -- The code that a transaction guards: each change is made and its undo operation added.
  abbrev pub perform : List (Change S) → Transaction S → S → Transaction S × S
  perform [] t s = (t, s)
  perform (c ∷ cs) t s = perform cs (add_undo c.undo t) (c.apply s)

  -- Without the stack: what the changes make of the state.
  abbrev pub apply_all : List (Change S) → S → S
  apply_all [] s = s
  apply_all (c ∷ cs) s = apply_all cs (c.apply s)

  undo_all-perform :
      (cs : List (Change S)) (t : Transaction S) (s : S)
      → undo_all (perform cs t s).0.undoers (perform cs t s).1 ≡ undo_all t.undoers s
  undo_all-perform [] t s = refl
  undo_all-perform (c ∷ cs) t s =
      undo_all-perform cs (add_undo c.undo t) (c.apply s) ∙ ap (undo_all t.undoers) (c.undo-apply s)

  committed-perform :
      (cs : List (Change S)) (t : Transaction S) (s : S)
      → (perform cs t s).0.committed ≡ t.committed
  committed-perform [] t s = refl
  committed-perform (c ∷ cs) t s = committed-perform cs (add_undo c.undo t) (c.apply s)

  -- A transaction that is destroyed without Commit gives back the state that it began with, whatever
  -- changes were made in it, if each change's undo operation undoes that change.
  pub roll_back-perform :
      (cs : List (Change S)) (s : S) → (roll_back (perform cs begin s).0 (perform cs begin s).1) ≡ s
  roll_back-perform cs s =
      ap
        (λ (b : Bool).
          if b
          then (perform cs begin s).1
          else undo_all (perform cs begin s).0.undoers (perform cs begin s).1)
        (committed-perform cs begin s)
      ∙ undo_all-perform cs begin s

  state-perform :
      (cs : List (Change S)) (t : Transaction S) (s : S) → (perform cs t s).1 ≡ apply_all cs s
  state-perform [] t s = refl
  state-perform (c ∷ cs) t s = state-perform cs (add_undo c.undo t) (c.apply s)

  -- A transaction on which Commit is called after its changes keeps them all.
  roll_back-commit :
      (cs : List (Change S)) (s : S)
      → roll_back (commit (perform cs begin s).0) (perform cs begin s).1 ≡ apply_all cs s
  roll_back-commit cs s = state-perform cs begin s
