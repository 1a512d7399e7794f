-- ===== src/Errors/Likely.antt =====
-- LIKELY and UNLIKELY of core/include/warlib/basics.h, on the expressions that they are given: for gcc they
-- are a call round `!!(expr)`, for other compilers just the tokens of the expression.
use warlib.Base.{◌≡◌, not, arith}
use warlib.Errors.Asserts.{Expr, parens, negated, is_true, eval, put_not}

pub data Compiler : Type 0 where
  gnuc another : Compiler

abbrev pub likely : Compiler → Expr → Expr
likely gnuc e = parens (negated (negated (parens e)))
likely another e = e

abbrev unlikely : Compiler → Expr → Expr
unlikely gnuc e = parens (negated (negated (parens e)))
unlikely another e = e

-- As a condition, LIKELY and UNLIKELY of an expression are the expression, for every compiler; with `!`
-- in front, they are its negation for gcc.
likely_lem :
    (c : Compiler) (e : Expr)
    → (is_true (eval (likely c e)) ≡ is_true (eval e))
      × (is_true (eval (unlikely c e)) ≡ is_true (eval e))
      × (is_true (eval (put_not (likely gnuc e))) ≡ not (is_true (eval e)))
likely_lem gnuc e = ground arith
likely_lem another e = ground arith
