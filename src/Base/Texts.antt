-- ===== src/Base/Texts.antt =====
-- Texts as lists of bytes: the comparison of `std::string`, and what `<<` writes for a number.
use Prim.Native.Nat.{ℕ, zero, suc, ◌+◌, ◌*◌, ◌/◌, ◌%◌, ◌<◌, ◌-◌, ◌^◌, ◌≤◌}
use mathlib.Core.Path.{◌≡◌, refl, ap, ◌∙◌}
use mathlib.Core.Bool.{Bool, true, false, ◌&&◌}
use mathlib.Core.List.{[], ◌∷◌}
use native.Mathlib.Omega.{arith}
use warlib.Base.Lists.{All, length}
use warlib.Base.Tests.{ltb, ◌==◌, if◌then◌else◌, Text, if_elim}

unfoldable pub text_eq : Text → Text → Bool
text_eq [] [] = true
text_eq [] (d ∷ t) = false
text_eq (c ∷ s) [] = false
text_eq (c ∷ s) (d ∷ t) = c == d && text_eq s t

pub eq-of-text_eq : (s t : Text) → text_eq s t ≡ true → s ≡ t
unfolding text_eq
eq-of-text_eq [] [] h = refl
eq-of-text_eq [] (d ∷ t) h = cc
eq-of-text_eq (c ∷ s) [] h = cc
eq-of-text_eq (c ∷ s) (d ∷ t) h = ground (arith, eq-of-text_eq s t)

pub text_eq_refl : (s : Text) → text_eq s s ≡ true
unfolding text_eq
text_eq_refl [] = refl
text_eq_refl (c ∷ s) = ground (arith, text_eq_refl s)

-- The decimal digits of `n`, in front of a text. There are fewer digits than `n + 1`.
abbrev digits_before : ℕ → ℕ → Text → Text
digits_before zero n t = t
digits_before (suc fuel) n t =
    let more = digits_before fuel (n / 10) ((b'0' + n % 10) ∷ t) in
    if ltb n 10 then (b'0' + n % 10) ∷ t else more

unfoldable pub decimal : ℕ → Text
decimal n = digits_before (suc n) n []

-- The number that a text of digits stands for, and one read after another number.
abbrev pub read_from : ℕ → Text → ℕ
read_from n [] = n
read_from n (c ∷ t) = read_from (n * 10 + (c - b'0')) t

read-digits_before :
    (fuel n : ℕ) (t : Text) → n < fuel → read_from 0 (digits_before fuel n t) ≡ read_from n t
read-digits_before zero n t h = absurd (omega arith)
read-digits_before (suc fuel) n t h =
    if_elim (λ (x : Text). read_from 0 x ≡ read_from n t) (ltb n 10) _ _
      (λ e. ap (λ (m : ℕ). read_from m t) (ground arith))
      (λ e.
        read-digits_before fuel (n / 10) ((b'0' + n % 10) ∷ t) (ground arith)
        ∙ ap (λ (m : ℕ). read_from m t) (omega arith))

-- Reading back what is written gives the number.
pub read-decimal : (n : ℕ) → read_from 0 (decimal n) ≡ n
unfolding decimal
read-decimal n = read-digits_before (suc n) n [] (omega arith)

digits_before-All {ℓ} :
    (P : ℕ → Type ℓ) (fuel n : ℕ) (t : Text)
    → ((d : ℕ) → d < 10 → P (b'0' + d))
    → All P t
    → All P (digits_before fuel n t)
digits_before-All P zero n t p h = h
digits_before-All P (suc fuel) n t p h =
    if_elim (All P) (ltb n 10) _ _ (λ e. (p (n % 10) (omega arith), h))
      (λ e. digits_before-All P fuel (n / 10) _ p (p (n % 10) (omega arith), h))

-- What holds of the ten digits holds of all that a number is written with.
pub decimal-All {ℓ} :
    (P : ℕ → Type ℓ) (n : ℕ) → ((d : ℕ) → d < 10 → P (b'0' + d)) → All P (decimal n)
unfolding decimal
decimal-All P n p = digits_before-All P (suc n) n [] p tt

digits_before-length :
    (k fuel n : ℕ) (t : Text) → n < 10 ^ suc k → length (digits_before fuel n t) ≤ suc k + length t
digits_before-length k zero n t h = omega arith
digits_before-length zero (suc fuel) n t h =
    if_elim (λ x. length x ≤ 1 + length t) (ltb n 10) _ _ (λ e. omega arith) (λ e. ground arith)
digits_before-length (suc k) (suc fuel) n t h =
    if_elim (λ x. length x ≤ suc (suc k) + length t) (ltb n 10) _ _ (λ e. omega arith)
      (λ e.
        omega
          (arith, digits_before-length k fuel (n / 10) ((b'0' + n % 10) ∷ t) (omega (arith, h))))

-- A number below a power of ten is written with as many digits, or fewer.
pub length-decimal : (k n : ℕ) → n < 10 ^ suc k → length (decimal n) ≤ suc k
unfolding decimal
length-decimal k n h = omega (arith, digits_before-length k (suc n) n [] h)
