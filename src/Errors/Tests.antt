-- ===== src/Errors/Tests.antt =====
-- One exception for each theorem on the WAR_CATCH macros.
use warlib.Base.{true, false, Text, codes, ℕ, ◌≡◌, refl}
use warlib.Errors.{Exn, other, war_catch_all_e, war_catch_all_ef, war_catch_all_log}
use warlib.Errors.Likely.{gnuc, another, likely}
use warlib.Errors.Catching.{Stops, catch_all-Stops}
use warlib.Errors.Asserts.{Expr, Operator, equal, number, parens, binary, is_true, eval, put_not}

abbrev fn : Text
fn = codes "void f()"

abbrev pointer_name : Text
pointer_name = codes "St13exception_ptr"

abbrev type_name : Exn → Text
type_name e = codes "E"

abbrev what : Exn → Text
what e = codes "what"

catch_all-Stops_example :
    Stops (war_catch_all_e fn pointer_name type_name what) false (other 3)
    × Stops (war_catch_all_ef fn pointer_name type_name what) true (other 3)
    × Stops (war_catch_all_log fn pointer_name type_name what (codes "here")) false (other 3)
catch_all-Stops_example = catch_all-Stops fn pointer_name type_name what (codes "here") (other 3)

-- `(n == 3)` for an n of 2, in parentheses.
abbrev wrong_size : Expr
wrong_size = parens (binary equal (number 2) (number 3))

abbrev size : ℕ
size = 2

abbrev three : ℕ
three = 3

-- `!LIKELY(3 == 2)` is true for gcc and false for another compiler.
not-likely :
    (is_true
        (eval (put_not (likely gnuc (Expr.binary Operator.equal (Expr.number 3) (Expr.number 2)))))
      ≡ true)
    × (is_true (
          eval
            (put_not (likely another (Expr.binary Operator.equal (Expr.number 3) (Expr.number 2)))))
        ≡ false)
not-likely = (refl, refl)
