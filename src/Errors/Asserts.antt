-- ===== src/Errors/Asserts.antt =====
-- The WAR_ASSERT macros of core/include/warlib/error_handling.h, on the expressions that they are
-- given. A macro puts its tokens where it is used: `!` in front of an expression belongs to the
-- expression's first operand. `assert` of <cassert> puts parentheses round its argument, and aborts.
use warlib.Base.{ℕ, ◌≡◌, ◌≢◌, ◌⊎◌, ◌↔◌, Bool, true, false, not, ◌==◌, ltb, if◌then◌else◌, arith}

pub data Operator : Type 0 where
  equal different less both either : Operator

-- An expression of numbers, as it is parsed.
pub data Expr : Type 0 where
  number : ℕ → Expr
  parens negated : Expr → Expr
  binary : Operator → Expr → Expr → Expr

abbrev pub truth : Bool → ℕ
truth true = 1
truth false = 0

abbrev pub is_true : ℕ → Bool
is_true n = not (n == 0)

abbrev pub apply : Operator → ℕ → ℕ → ℕ
apply equal a b = truth (a == b)
apply different a b = truth (not (a == b))
apply less a b = truth (ltb a b)
apply both a b = if is_true a then truth (is_true b) else 0
apply either a b = if is_true a then 1 else truth (is_true b)

abbrev pub eval : Expr → ℕ
eval (number n) = n
eval (parens e) = eval e
eval (negated e) = truth (not (is_true (eval e)))
eval (binary o a b) = apply o (eval a) (eval b)

-- `!` in front of the tokens of an expression.
abbrev pub put_not : Expr → Expr
put_not (binary o a b) = binary o (put_not a) b
put_not e = negated e

pub data Build : Type 0 where
  debug_build release_build : Build

pub data Outcome : Type 0 where
  passes throws aborts : Outcome

-- WAR_ASSERT
war_assert : Build → Expr → Outcome
war_assert debug_build e = if is_true (eval e) then passes else aborts
war_assert release_build e = passes

-- WAR_ASSERT_OR_THROW
war_assert_or_throw : Build → Expr → Outcome
war_assert_or_throw debug_build e = if is_true (eval e) then passes else aborts
war_assert_or_throw release_build e = if is_true (eval (put_not e)) then throws else passes

-- WAR_ASSERT_OR_THROW_T
war_assert_or_throw_t : Build → (is_debugging : Bool) → Expr → Outcome
war_assert_or_throw_t debug_build is_debugging e =
    if is_true (eval (put_not e))
    then (if is_debugging then (if is_true (eval e) then throws else aborts) else throws)
    else passes
war_assert_or_throw_t release_build is_debugging e =
    if is_true (eval (put_not e)) then throws else passes

-- An expression that `!` negates as a whole.
abbrev pub is_operand : Expr → Bool
is_operand (binary o a b) = false
is_operand e = true

put_not_lem : (e : Expr) → is_operand e ≡ true → is_true (eval (put_not e)) ≡ not (is_true (eval e))
put_not_lem (number n) h = ground arith
put_not_lem (parens e) h = ground arith
put_not_lem (negated e) h = ground arith
put_not_lem (binary o a b) h = cc

-- Given one operand, such as an expression in parentheses, WAR_ASSERT_OR_THROW and
-- WAR_ASSERT_OR_THROW_T let it pass in every build exactly if it is true.
war_assert_or_throw_lem :
    (build : Build) (is_debugging : Bool) (e : Expr)
    → is_operand e ≡ true
    → ((war_assert_or_throw build e ≡ passes) ↔ (eval e ≢ 0))
      × ((war_assert_or_throw_t build is_debugging e ≡ passes) ↔ (eval e ≢ 0))
unfolding war_assert_or_throw war_assert_or_throw_t
war_assert_or_throw_lem debug_build is_debugging e h = let n = put_not_lem e h in ground arith
war_assert_or_throw_lem release_build is_debugging e h = let n = put_not_lem e h in ground arith

-- Given a comparison `a == b` without parentheses, WAR_ASSERT_OR_THROW throws in a release build
-- exactly if a is 0 and b is 1, or a is not 0 and b is 0.
war_assert_or_throw-equal :
    (a b : ℕ)
    → (war_assert_or_throw release_build (binary equal (number a) (number b)) ≡ throws)
      ↔ (((a ≡ 0) × (b ≡ 1)) ⊎ ((a ≢ 0) × (b ≡ 0)))
unfolding war_assert_or_throw
war_assert_or_throw-equal a b = ground arith
