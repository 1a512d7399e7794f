-- ===== src/Threadpool/Naming.antt =====
-- The names of the pipelines that the constructor of core/src/WarThreadpool.cpp makes, which their
-- threads bear by SetThreadName.
use warlib.Base.{
  ℕ, zero, suc, ◌+◌, ◌≤◌, ◌<◌, ◌≡◌, sym, ap, ◌∙◌, some, none, Option, List, [], ◌∷◌, Text, codes,
  decimal, read_from, read-decimal, length-decimal, length, length-append, get_elem?, leb, true,
  if_true, arith,
}
use warlib.Errors.Asserts.{Build, debug_build, release_build}
use warlib.ThreadName.{Named, named, asserts, set_thread_name, KeepsShort}
use warlib.Pipeline.{Pipeline, init}
use warlib.Threadpool.{worker_name, get_capacity, workers, pipelines, construct}

abbrev name_at : Option Pipeline → Text
name_at none = []
name_at (some p) = p.name

name-workers :
    (left k c i : ℕ) (ps : Option (List (Option ℕ))) (p : Pipeline)
    → get_elem? (pipelines (workers left k c ps)) i ≡ some p
    → p.name ≡ worker_name (k + i)
unfolding init
name-workers zero k c i ps p e = cc
name-workers (suc left) k c zero ps p e = sym (ap name_at e) ∙ ap worker_name (omega arith)
name-workers (suc left) k c (suc i) ps p e =
    name-workers left (suc k) c i ps p e ∙ ap worker_name (omega arith)

short-worker_name : (i : ℕ) → i < 1000 → length (worker_name i) ≤ 15
short-worker_name i h =
    omega (arith, length-append (codes "Pool-worker_") (decimal i), length-decimal 2 i h)

named-short :
    (prctl : Text → Text) (build : Build) (name : Text)
    → KeepsShort prctl
    → length name ≤ 15
    → set_thread_name prctl build name ≡ named name
unfolding set_thread_name
named-short prctl debug_build name v h =
    let fits : leb (length name) 16 ≡ true = ground arith in
    if_true _ _ _ fits ∙ ap named (v.keeps name h)
named-short prctl release_build name v h = ap named (v.keeps name h)

abbrev name_of : Named → Text
name_of (named n) = n
name_of asserts = []

-- The number behind `Pool-worker_`.
abbrev number_in : Text → ℕ
number_in (a ∷ b ∷ c ∷ d ∷ e ∷ f ∷ g ∷ h ∷ i ∷ j ∷ k ∷ l ∷ t) = read_from 0 t
number_in t = 0

-- On a system that keeps names of at most 15 bytes, the threads of the first thousand pipelines of a
-- new pool bear different names, in every build: two that bear the same name have the same place.
set_thread_name-construct :
    (prctl : Text → Text) (build : Build) (n hardware c : ℕ) (ps : Option (List (Option ℕ)))
    (i j : ℕ) (p q : Pipeline)
    → KeepsShort prctl
    → i < 1000
    → j < 1000
    → get_elem? (construct n hardware c ps).pool i ≡ some p
    → get_elem? (construct n hardware c ps).pool j ≡ some q
    → set_thread_name prctl build p.name ≡ set_thread_name prctl build q.name
    → i ≡ j
unfolding construct
set_thread_name-construct prctl build n hardware c ps i j p q v hi hj ei ej same =
    let at_p =
      name-workers (get_capacity n hardware) 0 c i ps p ei ∙ ap worker_name (omega arith) in
    let at_q =
      name-workers (get_capacity n hardware) 0 c j ps q ej ∙ ap worker_name (omega arith) in
    let p_bears =
      ap (set_thread_name prctl build) at_p
      ∙ named-short prctl build (worker_name i) v (short-worker_name i hi) in
    let q_bears =
      ap (set_thread_name prctl build) at_q
      ∙ named-short prctl build (worker_name j) v (short-worker_name j hj) in
    sym (read-decimal i)
    ∙ ap (λ m. number_in (name_of m)) (sym p_bears ∙ same ∙ q_bears)
    ∙ read-decimal j
