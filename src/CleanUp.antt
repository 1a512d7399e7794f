-- ===== src/CleanUp.antt =====
-- WarCleanUp of core/include/warlib/WarCleanUp.h: a clean-up function that a destructor calls.
-- The function works on the state that it cleans up, and may throw. A thread has a number; the id of
-- no thread is `none`.
mod Tests
use warlib.Base.{
  ℕ, ◌≡◌, refl, sym, ap, ◌∙◌, ◌⊎◌, inl, inr, Bool, true, false, Option, none, some, List, [], ◌∷◌,
  ◌++◌, map, ◌≢◌, ==_iff, ==-refl, subst, ◌==◌, Text, codes, if◌then◌else◌, if_elim, if_true,
  if_false, Bool-cases,
}
use warlib.Log.Level.{debug, trace1}
use warlib.Errors.{Exn, Line, Caught, logged, escapes, handle, war_catch_error}
use warlib.Errors.Catching.{is_foreign, catch_typed-escapes}

pub record WarCleanUp {ℓ} (S : Type ℓ) : Type ℓ where
  pub thread_id : Option ℕ
  pub fn : S → S × Option Exn
  pub name : Text

-- What a destructor leaves behind: the state and the log, or a call of std::terminate, since a
-- destructor throws nothing.
pub data Unwound {ℓ} (S : Type ℓ) : Type ℓ where
  left : S → List Line → Unwound S
  terminated : S → List Line → Unwound S

-- `thread_id_ == std::this_thread::get_id()`
abbrev pub is_thread : Option ℕ → ℕ → Bool
is_thread none this = false
is_thread (some id) this = id == this

abbrev pub wrong_thread : Text → Line
wrong_thread name = record {
  level = debug;
  text = name ++ codes ": Executing under the wrong thread! Will do nothing.";
}

abbrev pub calling : Text → Line
calling name = record { level = trace1; text = name ++ codes ": Calling the cleanup handler" }

is_thread-some : (id : Option ℕ) (this : ℕ) → is_thread id this ≡ true → id ≡ some this
is_thread-some none this e = cc
is_thread-some (some id) this e = ap some ((==_iff id this).0 e)

is_thread-false : (id : Option ℕ) (this : ℕ) → is_thread id this ≡ false → id ≢ some this
is_thread-false id this e q =
    let own : is_thread id this ≡ true =
      subst (λ o. is_thread o this ≡ true) (sym q) (==-refl this) in
    cc

abbrev pub throws_foreign : Option Exn → Bool
throws_foreign none = false
throws_foreign (some e) = is_foreign e

module _ {ℓ} {S : Type ℓ} where
  -- The constructor, which does not initialise `thread_id_`.
  pub construct : (S → S × Option Exn) → Text → WarCleanUp S
  construct fn name = record { thread_id = none; fn = fn; name = name }

  -- WarCleanUpFactory
  war_clean_up_factory : (S → S × Option Exn) → Text → WarCleanUp S
  unfolding construct
  war_clean_up_factory fn name = construct fn name

  -- The move constructor copies `thread_id_` and `name_`; `left_fn` is what it leaves of `fn_`. First
  -- the new guard, then the old one, which has its destructor still to run.
  move_construct : (left_fn : S → S × Option Exn) → WarCleanUp S → WarCleanUp S × WarCleanUp S
  move_construct left_fn g = (g, record g { fn = left_fn })

  -- The end of the `try` block when the clean-up function threw.
  abbrev pub after_catch : Text → S → Caught → Unwound S
  after_catch name s (logged line ran_func) = left s (calling name ∷ line ∷ [])
  after_catch name s (escapes e) = terminated s (calling name ∷ [])

  abbrev pub state_of : Unwound S → S
  state_of (left s lines) = s
  state_of (terminated s lines) = s

  abbrev pub is_terminated : Unwound S → Bool
  is_terminated (left s lines) = false
  is_terminated (terminated s lines) = true

  abbrev pub prepend : List Line → Unwound S → Unwound S
  prepend lines (left s more) = left s (lines ++ more)
  prepend lines (terminated s more) = terminated s (lines ++ more)

  abbrev pub and_then : Unwound S → (S → Unwound S) → Unwound S
  and_then (left s lines) f = prepend lines (f s)
  and_then (terminated s lines) f = terminated s lines

-- How a guard came about.
pub data Origin {ℓ} (S : Type ℓ) : Type ℓ where
  made : (fn : S → S × Option Exn) → (name : Text) → Origin S
  moved_to moved_from : (left_fn : S → S × Option Exn) → Origin S → Origin S

module _ {ℓ} {S : Type ℓ} where
  pub guard_of : Origin S → WarCleanUp S
  unfolding war_clean_up_factory move_construct
  guard_of (made fn name) = war_clean_up_factory fn name
  guard_of (moved_to left_fn o) = (move_construct left_fn (guard_of o)).0
  guard_of (moved_from left_fn o) = (move_construct left_fn (guard_of o)).1

  pub name_of : Origin S → Text
  name_of (made fn name) = name
  name_of (moved_to left_fn o) = name_of o
  name_of (moved_from left_fn o) = name_of o

  thread_id-guard_of : (o : Origin S) → (guard_of o).thread_id ≡ none
  unfolding guard_of
  thread_id-guard_of (made fn name) = refl
  thread_id-guard_of (moved_to left_fn o) = thread_id-guard_of o
  thread_id-guard_of (moved_from left_fn o) = thread_id-guard_of o

  name-guard_of : (o : Origin S) → (guard_of o).name ≡ name_of o
  unfolding guard_of name_of
  name-guard_of (made fn name) = refl
  name-guard_of (moved_to left_fn o) = name-guard_of o
  name-guard_of (moved_from left_fn o) = name-guard_of o

-- The texts of the catch clauses: the function's name, and what the compiler knows of exceptions.
module _ {ℓ} {S : Type ℓ} (function_name pointer_name : Text) (type_name what : Exn → Text) where
  abbrev pub after_fn : Text → S × Option Exn → Unwound S
  after_fn name (s, none) = left s (calling name ∷ [])
  after_fn name (s, some e) =
      after_catch name s (handle (war_catch_error function_name pointer_name type_name what) e)

  -- ~WarCleanUp
  pub destroy : (this_thread : ℕ) → WarCleanUp S → S → Unwound S
  destroy this_thread g s =
      if is_thread g.thread_id this_thread
      then after_fn g.name (g.fn s)
      else left s (wrong_thread g.name ∷ [])

  -- The guards of a scope that is left, the last first, until std::terminate.
  abbrev pub unwind : (this_thread : ℕ) → List (WarCleanUp S) → S → Unwound S
  unwind this_thread [] s = left s []
  unwind this_thread (g ∷ gs) s = and_then (destroy this_thread g s) (unwind this_thread gs)

  after_fn_lem :
      (name : Text) (r : S × Option Exn)
      → (state_of (after_fn name r) ≡ r.0) × (is_terminated (after_fn name r) ≡ throws_foreign r.1)
  after_fn_lem name (s, none) = (refl, refl)
  after_fn_lem name (s, some e) =
      elim (catch_typed-escapes function_name pointer_name type_name what e) [
        | inl (f, n, h) ↦ (
          ap (λ c. state_of (after_catch name s c)) h,
          ap (λ c. is_terminated (after_catch name s c)) h ∙ sym f,
        )
        | inr (f, n, h) ↦ (
          ap (λ c. state_of (after_catch name s c)) h.ends,
          ap (λ c. is_terminated (after_catch name s c)) h.ends ∙ sym f,
        )
      ]

  -- A guard that is destroyed in the thread whose id it holds leaves the state that its clean-up
  -- function makes, and ends the program exactly if the function throws an exception that derives
  -- neither from std::exception nor from boost::exception. In any other thread the state stays as it
  -- is.
  destroy_lem :
      (this_thread : ℕ) (g : WarCleanUp S) (s : S)
      → ((g.thread_id ≡ some this_thread)
          × (state_of (destroy this_thread g s) ≡ (g.fn s).0)
          × (is_terminated (destroy this_thread g s) ≡ throws_foreign (g.fn s).1))
        ⊎ ((g.thread_id ≢ some this_thread)
            × (destroy this_thread g s ≡ left s (wrong_thread g.name ∷ [])))
  unfolding destroy
  destroy_lem this_thread g s = elim (Bool-cases (is_thread g.thread_id this_thread)) [
    | inl e ↦
        let q = if_true (is_thread g.thread_id this_thread) _ _ e in
        let own = after_fn_lem g.name (g.fn s) in
        inl (
          is_thread-some g.thread_id this_thread e,
          ap state_of q ∙ own.0,
          ap is_terminated q ∙ own.1,
        )
    | inr e ↦ inr (is_thread-false g.thread_id this_thread e, if_false _ _ _ e)
  ]

  destroy-none :
      (this_thread : ℕ) (g : WarCleanUp S) (s : S)
      → g.thread_id ≡ none
      → destroy this_thread g s ≡ left s (wrong_thread g.name ∷ [])
  unfolding destroy
  destroy-none this_thread g s e = if_false _ _ _ (ap (λ o. is_thread o this_thread) e)

  -- Leaving a scope destroys its guards. Whether they were made by the factory, by a move, or are what
  -- a move left, in any number of moves: none of their functions is called, in whatever thread, the
  -- state is as before, and each guard writes that the thread is wrong.
  pub unwind-guard_of :
      (this_thread : ℕ) (os : List (Origin S)) (s : S)
      → unwind this_thread (map guard_of os) s ≡ left s (map (λ o. wrong_thread (name_of o)) os)
  unwind-guard_of this_thread [] s = refl
  unwind-guard_of this_thread (o ∷ os) s =
      let others : S → Unwound S = unwind this_thread (map guard_of os) in
      let lines : List Line = map (λ x. wrong_thread (name_of x)) os in
      ap (λ r. and_then r others) (destroy-none this_thread (guard_of o) s (thread_id-guard_of o))
      ∙ ap (prepend (wrong_thread (guard_of o).name ∷ [])) (unwind-guard_of this_thread os s)
      ∙ ap (λ n. left s (wrong_thread n ∷ lines)) (name-guard_of o)
