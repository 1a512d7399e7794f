-- ===== src/CleanUp/Tests.antt =====
-- A counter whose clean-up function subtracts one, and one that throws.
use warlib.Base.{ℕ, ◌≡◌, ◌-◌, none, some, List, [], ◌∷◌, Text, codes, map}
use warlib.Errors.{Exn, other}
use warlib.CleanUp.{
  left, unwind, wrong_thread, unwind-guard_of, Origin, made, moved_to, moved_from, guard_of,
  name_of,
}

abbrev fn : Text
fn = codes "void f()"

abbrev pointer_name : Text
pointer_name = codes "St13exception_ptr"

abbrev type_name : Exn → Text
type_name e = codes "E"

abbrev what : Exn → Text
what e = codes "what"

-- A guard, one that it is moved to, and what that leaves of it, whose function would throw.
abbrev origins : List (Origin ℕ)
origins =
    made (λ n. (n - 1, none)) (codes "one")
    ∷ moved_to (λ n. (0, some (other 2))) (made (λ n. (n - 1, none)) (codes "two"))
    ∷ moved_from (λ n. (0, some (other 2))) (made (λ n. (n - 1, none)) (codes "two"))
    ∷ []

unwind-guard_of_example :
    unwind fn pointer_name type_name what 7 (map guard_of origins) 5
    ≡ left 5 (map (λ o. wrong_thread (name_of o)) origins)
unwind-guard_of_example = unwind-guard_of fn pointer_name type_name what 7 origins 5
