-- ===== src/Pipeline/Getters.antt =====
-- The members of core/include/warlib/WarPipeline.h that tell of a pipeline, and the
-- stream operator of core/src/WarPipeline.cpp.
use warlib.Base.{ℕ, Bool, Option, Text, none, some, codes, decimal, ◌++◌}
use warlib.Pipeline.{Pipeline}

-- IsClosed, IsClosing, GetCapacity, GetCount, GetId, GetName
abbrev pub is_closed : Pipeline → Bool
is_closed p = p.closed

abbrev pub is_closing : Pipeline → Bool
is_closing p = p.closing

abbrev pub get_capacity : Pipeline → ℕ
get_capacity p = p.capacity

abbrev pub get_count : Pipeline → ℕ
get_count p = p.count

abbrev pub get_id : Pipeline → Option ℕ
get_id p = p.id

abbrev pub get_name : Pipeline → Text
get_name p = p.name

-- An id of -1 is `none`.
write_id : Option ℕ → Text
write_id none = codes "-1"
write_id (some id) = decimal id

-- operator << (Pipeline)
unfoldable pub write_pipeline : Pipeline → Text
unfolding write_id
write_pipeline p =
    codes "{ pipeline: " ++ get_name p ++ codes " #" ++ write_id (get_id p) ++ codes "}"
