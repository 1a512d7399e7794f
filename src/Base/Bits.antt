-- ===== src/Base/Bits.antt =====
-- `&` and `|` of machine words, bit by bit, at variables.
use Prim.Native.Nat.{
  ℕ, zero, suc, ◌+◌, ◌*◌, ◌/◌, ◌%◌, ◌^◌, ◌≤◌, min, max, bit_and, bit_or, digits, bit_and-bitwise,
  bit_or-bitwise, ◌<◌, ◌-◌,
}
use mathlib.Core.Path.{◌≡◌, refl, ap}
use mathlib.Core.Logic.{◌≢◌}
use native.Mathlib.Decide.{ℕ_discrete}
use native.Mathlib.Omega.{arith}
use native.Mathlib.Nat.{pow-suc}

-- Bit `k` of `a`, as 0 or 1.
abbrev pub bit : ℕ → ℕ → ℕ
bit a zero = a % 2
bit a (suc k) = bit (a / 2) k

pub bit-le-one : (a k : ℕ) → bit a k ≤ 1
bit-le-one a zero = omega arith
bit-le-one a (suc k) = bit-le-one (a / 2) k

-- The native operations are recursions on digits with fuel; more fuel than digits changes nothing.
module _ (z : ℕ → ℕ) (f : ℕ → ℕ → ℕ) where
  digits_more : (n m a b : ℕ) → a ≤ n → a ≤ m → digits z f n a b ≡ digits z f m a b
  digits_more zero zero a b p q = refl
  digits_more zero (suc m) zero b p q = refl
  digits_more (suc n) zero zero b p q = refl
  digits_more (suc n) (suc m) zero b p q = refl
  digits_more zero (suc m) (suc a) b p q = absurd (omega arith)
  digits_more (suc n) zero (suc a) b p q = absurd (omega arith)
  digits_more (suc n) (suc m) (suc a) b p q =
      omega (arith, digits_more n m (suc a / 2) (b / 2) (omega arith) (omega arith))

bit_and-half : (a b : ℕ) → bit_and a b ≡ bit_and (a / 2) (b / 2) * 2 + min (a % 2) (b % 2)
bit_and-half zero b = omega (arith, bit_and-bitwise 0 b, bit_and-bitwise 0 (b / 2))
bit_and-half (suc a) b = omega (
  arith,
  bit_and-bitwise (suc a) b,
  bit_and-bitwise (suc a / 2) (b / 2),
  digits_more (λ y. 0) min a (suc a / 2) (suc a / 2) (b / 2) (omega arith) (omega arith),
)

bit_or-half : (a b : ℕ) → bit_or a b ≡ bit_or (a / 2) (b / 2) * 2 + max (a % 2) (b % 2)
bit_or-half zero b = omega (arith, bit_or-bitwise 0 b, bit_or-bitwise 0 (b / 2))
bit_or-half (suc a) b = omega (
  arith,
  bit_or-bitwise (suc a) b,
  bit_or-bitwise (suc a / 2) (b / 2),
  digits_more (λ y. y) max a (suc a / 2) (suc a / 2) (b / 2) (omega arith) (omega arith),
)

bit_and-div : (a b : ℕ) → bit_and a b / 2 ≡ bit_and (a / 2) (b / 2)
bit_and-div a b = omega (arith, bit_and-half a b)

bit_or-div : (a b : ℕ) → bit_or a b / 2 ≡ bit_or (a / 2) (b / 2)
bit_or-div a b = omega (arith, bit_or-half a b)

-- Bit `k` of a conjunction and of a disjunction.
pub bit-bit_and : (a b k : ℕ) → bit (bit_and a b) k ≡ min (bit a k) (bit b k)
bit-bit_and a b zero = omega (arith, bit_and-half a b)
bit-bit_and a b (suc k) = rw bit_and-div (bit-bit_and (a / 2) (b / 2) k)

pub bit-bit_or : (a b k : ℕ) → bit (bit_or a b) k ≡ max (bit a k) (bit b k)
bit-bit_or a b zero = omega (arith, bit_or-half a b)
bit-bit_or a b (suc k) = rw bit_or-div (bit-bit_or (a / 2) (b / 2) k)

bit-zero : (k : ℕ) → bit 0 k ≡ 0
bit-zero zero = refl
bit-zero (suc k) = bit-zero k

bit_and-zero_below : (n a : ℕ) → a ≤ n → bit_and a 0 ≡ 0
bit_and-zero_below n zero h = refl
bit_and-zero_below zero (suc a) h = absurd (omega arith)
bit_and-zero_below (suc n) (suc a) h =
    omega (arith, bit_and-half (suc a) 0, bit_and-zero_below n (suc a / 2) (omega arith))

pub bit_and-zero : (a : ℕ) → bit_and a 0 ≡ 0
bit_and-zero a = bit_and-zero_below a a (omega arith)

pow_half : (k : ℕ) → 2 ^ suc k / 2 ≡ 2 ^ k
pow_half k = omega (arith, pow-suc 2 k)

-- A conjunction with one bit is that bit in its place.
pub bit_and-pow : (a k : ℕ) → bit_and a (2 ^ k) ≡ bit a k * 2 ^ k
bit_and-pow a zero = omega (arith, bit_and-half a 1, bit_and-zero (a / 2))
bit_and-pow a (suc k) = omega (
  arith,
  bit_and-half a (2 ^ suc k),
  pow-suc 2 k,
  ap (bit_and (a / 2)) (pow_half k),
  bit_and-pow (a / 2) k,
  ap (λ (t : ℕ). bit (a / 2) k * t) (pow-suc 2 k),
)

bit_and_comm_below : (n a b : ℕ) → a + b ≤ n → bit_and a b ≡ bit_and b a
bit_and_comm_below n zero b h = omega (arith, bit_and-zero b, bit_and-bitwise 0 b)
bit_and_comm_below zero (suc a) b h = absurd (omega arith)
bit_and_comm_below (suc n) (suc a) b h = omega (
  arith,
  bit_and-half (suc a) b,
  bit_and-half b (suc a),
  bit_and_comm_below n (suc a / 2) (b / 2) (omega arith),
)

pub bit_and_comm : (a b : ℕ) → bit_and a b ≡ bit_and b a
bit_and_comm a b = bit_and_comm_below (a + b) a b (omega arith)

bit-eq-zero_below : (n a : ℕ) → a ≤ n → ((k : ℕ) → bit a k ≡ 0) → a ≡ 0
bit-eq-zero_below n zero h all = refl
bit-eq-zero_below zero (suc a) h all = absurd (omega arith)
bit-eq-zero_below (suc n) (suc a) h all =
    omega (arith, all 0, bit-eq-zero_below n (suc a / 2) (omega arith) (λ k. all (suc k)))

-- A word with no bit set is 0.
pub bit-eq-zero : (a : ℕ) → ((k : ℕ) → bit a k ≡ 0) → a ≡ 0
bit-eq-zero a = bit-eq-zero_below a a (omega arith)

pub ne-zero_of_bit : (a k : ℕ) → bit a k ≡ 1 → a ≢ 0
ne-zero_of_bit a k h e = omega (arith, ap (λ (t : ℕ). bit t k) e, bit-zero k)

set_bit_below : (n a : ℕ) → a ≤ n → a ≢ 0 → (k : ℕ) × (bit a k ≡ 1)
set_bit_below n zero h ne = absurd (ne refl)
set_bit_below zero (suc a) h ne = absurd (omega arith)
set_bit_below (suc n) (suc a) h ne = elim (ℕ_discrete (suc a % 2) 1) [
  | yes odd ↦ (0, odd)
  | no even ↦ let (k, e) = set_bit_below n (suc a / 2) (omega arith) (omega arith) in (suc k, e)
]

-- A word that is not 0 has a bit set.
pub set_bit : (a : ℕ) → a ≢ 0 → (k : ℕ) × (bit a k ≡ 1)
set_bit a = set_bit_below a a (omega arith)

-- The complement within `w` bits turns each of them round.
pub bit-complement : (w a k : ℕ) → a < 2 ^ w → k < w → bit (2 ^ w - 1 - a) k + bit a k ≡ 1
bit-complement zero a k fits small = absurd (omega arith)
bit-complement (suc w) a zero fits small = omega (arith, pow-suc 2 w)
bit-complement (suc w) a (suc k) fits small = omega (
  arith,
  ap (λ (t : ℕ). bit t k) (half_complement w a fits),
  bit-complement w (a / 2) k (omega (arith, pow-suc 2 w)) (omega arith),
)
  where
    half_complement : (w a : ℕ) → a < 2 ^ suc w → (2 ^ suc w - 1 - a) / 2 ≡ 2 ^ w - 1 - a / 2
    half_complement w a h = omega (arith, pow-suc 2 w)

-- One bit, and the rest, of three words joined.
bit_or_or-half :
    (a b c : ℕ)
    → bit_or (bit_or a b) c
      ≡ bit_or (bit_or (a / 2) (b / 2)) (c / 2) * 2 + max (max (a % 2) (b % 2)) (c % 2)
bit_or_or-half a b c = omega (
  arith,
  bit_or-half (bit_or a b) c,
  bit_or-half a b,
  ap (λ (t : ℕ). bit_or t (c / 2)) (bit_or-div a b),
)

bit_or_swap_below : (n a b c : ℕ) → a + b + c ≤ n → bit_or (bit_or a b) c ≡ bit_or (bit_or a c) b
bit_or_swap_below zero zero zero zero h = refl
bit_or_swap_below zero (suc a) b c h = absurd (omega arith)
bit_or_swap_below zero a (suc b) c h = absurd (omega arith)
bit_or_swap_below zero a b (suc c) h = absurd (omega arith)
bit_or_swap_below (suc n) a b c h = omega (
  arith,
  bit_or_or-half a b c,
  bit_or_or-half a c b,
  bit_or_swap_below n (a / 2) (b / 2) (c / 2) (omega arith),
)

-- Words are joined in any order.
pub bit_or_swap : (a b c : ℕ) → bit_or (bit_or a b) c ≡ bit_or (bit_or a c) b
bit_or_swap a b c = bit_or_swap_below (a + b + c) a b c (omega arith)
