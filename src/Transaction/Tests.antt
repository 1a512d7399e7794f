-- ===== src/Transaction/Tests.antt =====
-- A transaction on a number.
use native.Mathlib.Omega.{arith}
use warlib.Base.{ℕ, ◌+◌, ◌-◌, ◌≡◌, List, [], ◌∷◌}
use warlib.Transaction.{Change, begin, roll_back, perform, roll_back-perform}

-- Adding a number, undone by taking it away.
abbrev adds : ℕ → Change ℕ
adds n = record { apply = λ s. s + n; undo = λ s. s - n; undo-apply = λ s. omega arith }

abbrev changes : List (Change ℕ)
changes = adds 3 ∷ adds 4 ∷ []

roll_back-perform_example : roll_back (perform changes begin 10).0 (perform changes begin 10).1 ≡ 10
roll_back-perform_example = roll_back-perform changes 10
