-- ===== src/Log/Level.antt =====
-- `enum LogLevel` of WarLog.h, the names of the levels, and the search by name of WarLog.cpp.
use warlib.Base.{
  ℕ, Bool, leb, Text, codes, List, [], ◌∷◌, Option, none, some, text_eq, eq-of-text_eq, ◌≡◌, ◌↔◌,
  refl, subst, if◌then◌else◌, if_elim, ap, get_elem?,
}

pub data LogLevel : Type 0 where
  fatal error warning info notice debug trace1 trace2 trace3 trace4 : LogLevel

-- The value of the enumerator.
abbrev pub value : LogLevel → ℕ
value fatal = 0
value error = 1
value warning = 2
value info = 3
value notice = 4
value debug = 5
value trace1 = 6
value trace2 = 7
value trace3 = 8
value trace4 = 9

-- The `<=` of the enumerators.
infix 50 ◌⊑◌
abbrev pub ◌⊑◌ : LogLevel → LogLevel → Bool
a ⊑ b = leb (value a) (value b)

-- LogEventHandler::GetLevelName
unfoldable pub get_level_name : LogLevel → Text
get_level_name fatal = codes "FATAL"
get_level_name error = codes "ERROR"
get_level_name warning = codes "WARN"
get_level_name info = codes "INFO"
get_level_name notice = codes "NOTICE"
get_level_name debug = codes "DEBUG"
get_level_name trace1 = codes "TRACE1"
get_level_name trace2 = codes "TRACE2"
get_level_name trace3 = codes "TRACE3"
get_level_name trace4 = codes "TRACE4"

-- The values of `ll` in the loop of GetLevelFromName.
abbrev all_levels : List LogLevel
all_levels =
    fatal ∷ error ∷ warning ∷ info ∷ notice ∷ debug ∷ trace1 ∷ trace2 ∷ trace3 ∷ trace4 ∷ []

search_name : Text → List LogLevel → Option LogLevel
search_name name [] = none
search_name name (l ∷ ls) =
    let rest = search_name name ls in if text_eq name (get_level_name l) then some l else rest

-- LogEngine::GetLevelFromName; `none` is the throw behind the loop, which the `noexcept` of the
-- function turns into the end of the program.
get_level_from_name : Text → Option LogLevel
unfolding search_name
get_level_from_name name = search_name name all_levels

search_name_sound :
    (name : Text) (ls : List LogLevel) (l : LogLevel)
    → search_name name ls ≡ some l
    → get_level_name l ≡ name
unfolding search_name
search_name_sound name [] l e = cc
search_name_sound name (k ∷ ls) l e =
    if_elim (λ (o : Option LogLevel). o ≡ some l → get_level_name l ≡ name)
      (text_eq name (get_level_name k)) (some k) (search_name name ls)
      (λ same q. cc (eq-of-text_eq name (get_level_name k) same))
      (λ other q. search_name_sound name ls l q) e

-- The search by name finds a level exactly under the name that GetLevelName gives it.
get_level_from_name_iff :
    (name : Text) (l : LogLevel) → (get_level_from_name name ≡ some l) ↔ (get_level_name l ≡ name)
unfolding get_level_from_name get_level_name text_eq
get_level_from_name_iff name l = (
  search_name_sound name all_levels l,
  λ e. subst (λ (n : Text). get_level_from_name n ≡ some l) e (found l),
)
  where
    found : (l : LogLevel) → get_level_from_name (get_level_name l) ≡ some l
    found fatal = refl
    found error = refl
    found warning = refl
    found info = refl
    found notice = refl
    found debug = refl
    found trace1 = refl
    found trace2 = refl
    found trace3 = refl
    found trace4 = refl

all_levels-value : (l : LogLevel) → get_elem? all_levels (value l) ≡ some l
all_levels-value l = elim l as (λ k. get_elem? all_levels (value k) ≡ some k) [
  | fatal ↦ refl
  | error ↦ refl
  | warning ↦ refl
  | info ↦ refl
  | notice ↦ refl
  | debug ↦ refl
  | trace1 ↦ refl
  | trace2 ↦ refl
  | trace3 ↦ refl
  | trace4 ↦ refl
]

-- Different enumerators have different values.
pub value-inj : (l k : LogLevel) → value l ≡ value k → l ≡ k
value-inj l k e =
    let p = all_levels-value l in
    let q = all_levels-value k in let r = ap (get_elem? all_levels) e in cc
