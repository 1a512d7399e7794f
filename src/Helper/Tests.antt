-- ===== src/Helper/Tests.antt =====
-- A property tree of numbers, one of which cannot be read.
use mathlib.Core.Option.{or_else}
use warlib.Base.{ℕ, ◌≡◌, Option, none, some, List, [], ◌∷◌, Text, text_eq, codes}
use warlib.Helper.{find}
use warlib.Helper.Tree.{copy_to_map, readable, all_readable, find-copy_to_map}

abbrev get_value : Option ℕ → Option ℕ
get_value o = o

abbrev ports : List (Text × Option ℕ)
ports =
    (codes "http", some 80)
    ∷ (codes "http", some 8080)
    ∷ (codes "bad", none)
    ∷ (codes "ssh", some 22)
    ∷ []

find-copy_to_map_example :
    (find text_eq (codes "http") (copy_to_map get_value ports []).0
      ≡ or_else none (find text_eq (codes "http") (readable get_value ports)))
    × ((copy_to_map get_value ports []).1 ≡ all_readable get_value ports)
find-copy_to_map_example = find-copy_to_map get_value (codes "http") ports []
