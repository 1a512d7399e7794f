-- ===== src/Log/Output/Platform.antt =====
-- The wrappers of core/include/warlib/impl.h round the functions of <ctime>, on both systems, and what
-- core/src/WarLog.cpp makes of them; and the stream operators of core/src/ostream_operators.cpp.
-- Also core/include/warlib/filecheck.h and core/include/warlib/uuid.h.
-- What the function of the system answers is an argument, `none` where it fails.
use warlib.Base.{
  ℕ, ◌≡◌, refl, Bool, true, false, Option, none, some, ◌++◌, Text, codes, if◌then◌else◌,
}
use warlib.Errors.{Exn}
use warlib.Log.Output.{Timer, stream, Tm, date_and_time, esc, write_timestamp, time_parts}
use warlib.Log.Engine.{SubmitInfo}

pub data System : Type 0 where
  linux windows : System

abbrev pub succeeds : Option Tm → Bool
succeeds none = false
succeeds (some tm) = true

-- war_localtime and war_gmtime: `localtime_r(..) != nullptr`, and `localtime_s(..) != 0`, where 0 is
-- success.
pub war_localtime : System → (answer : Option Tm) → Bool
war_localtime linux answer = succeeds answer
war_localtime windows none = true
war_localtime windows (some tm) = false

-- The `tm` that war_localtime leaves: on a failure, what was there before, or what the system writes.
abbrev pub tm_after : (left : Tm) → (answer : Option Tm) → Tm
tm_after left none = left
tm_after left (some tm) = tm

-- What WriteTimestamp writes from: the `tm`, where war_localtime says that it succeeded.
local_time_of : System → (left : Tm) → (answer : ℕ → Option Tm) → ℕ → Option Tm
unfolding war_localtime
local_time_of system left answer when =
    if war_localtime system (answer when) then some (tm_after left (answer when)) else none

-- Where localtime_r or localtime_s gives the local time of a message, WriteTimestamp writes that time
-- on Linux, and zeros on Windows.
write_timestamp-local_time_of :
    (left : Tm) (answer : ℕ → Option Tm) (tm : Tm) (si : SubmitInfo)
    → answer (time_parts si.time).0 ≡ some tm
    → (write_timestamp (local_time_of linux left answer) si
        ≡ date_and_time (some tm) (time_parts si.time).1)
      × (write_timestamp (local_time_of windows left answer) si ≡ codes "0000-00-00 00:00:00.000")
unfolding write_timestamp local_time_of war_localtime
write_timestamp-local_time_of left answer tm si e = (rw e refl, rw e refl)

-- operator << for boost::system::error_code, by the three texts that boost gives.
write_error_code : (value category message : Text) → Text
unfolding esc
write_error_code value category message =
    codes "{ error-code="
    ++ value
    ++ codes ", category="
    ++ esc category
    ++ codes ", message="
    ++ esc message
    ++ codes " }"

-- The type as which an exception is written.
pub data Written : Type 0 where
  as_std as_war as_boost : Written

-- operator << for exceptions: `what()`, or what boost::diagnostic_information says.
write_exception : (what diagnostic_information : Exn → Text) → Written → Exn → Text
write_exception what diagnostic_information as_std e = what e
write_exception what diagnostic_information as_war e = diagnostic_information e
write_exception what diagnostic_information as_boost e = diagnostic_information e

-- operator << for a Timer.
write_timer : (now : ℕ) → Timer → Text
write_timer now t = stream now t

-- validate_filename_as_safe, but for Windows.
validate_filename_as_safe : (path : Text) → Bool
validate_filename_as_safe path = true

-- core/include/warlib/uuid.h, by what boost::uuids does.
module _ {ℓ} {Uuid : Type ℓ} where
  get_uuid_as_string : (to_string : Uuid → Text) → (random : Uuid) → Text
  get_uuid_as_string to_string random = to_string random

  get_uuid_from_string : (string_generator : Text → Option Uuid) → Text → Option Uuid
  get_uuid_from_string string_generator str = string_generator str
