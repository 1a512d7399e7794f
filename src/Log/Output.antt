-- ===== src/Log/Output.antt =====
-- WriteTimestamp and WriteDefaulInfo of core/src/WarLog.cpp, Errno::Explain, Esc, and the Timer of
-- core/include/warlib/WarLog.h.
-- A time is the number of nanoseconds since the epoch, from the epoch on. `war_localtime`, the text of
-- a thread id and the text of `strerror_r` are the platform's, and arguments.
pub mod Entry
pub mod Head
pub mod Clock
pub mod Platform
use warlib.Base.{
  ℕ, zero, suc, ◌+◌, ◌-◌, ◌*◌, ◌/◌, ◌^◌, Bool, true, false, Option, none, some, List, [], ◌∷◌, ◌++◌,
  Text, codes, decimal, ltb, length, if◌then◌else◌, replicate, ◌==◌,
}
use warlib.Log.Level.{LogLevel, get_level_name}
use warlib.Log.Filter.{flag, general, write_filter}
use warlib.Log.Message.{Locale, write_message}
use warlib.Log.Engine.{SubmitInfo}

-- The fields of `std::tm` that are written.
pub record Tm : Type 0 where
  pub tm_year : ℕ
  pub tm_mon : ℕ
  pub tm_mday : ℕ
  pub tm_hour : ℕ
  pub tm_min : ℕ

-- A second of the system's clock.
abbrev pub second : ℕ
second = 10 ^ 9

-- `when` and `milliseconds`: to_time_t, from_time_t, and the correction if that is later.
unfoldable pub time_parts : (time : ℕ) → ℕ × ℕ
time_parts time =
    let rounded = time / second in
    let when = if ltb time (rounded * second) then rounded - 1 else rounded in
    let when_rounded =
      if ltb time (rounded * second) then rounded * second - second else rounded * second in
    (when, (time - when_rounded) / 10 ^ 6)

-- `std::setfill('0') << std::setw(n)` and a number
unfoldable pub zero_filled : ℕ → ℕ → Text
zero_filled n k = replicate (n - length (decimal k)) b'0' ++ decimal k

abbrev pub date_and_time : Option Tm → ℕ → Text
date_and_time none milliseconds = codes "0000-00-00 00:00:00.000"
date_and_time (some tm) milliseconds =
    zero_filled 4 (tm.tm_year + 1900)
    ++ codes "-"
    ++ zero_filled 2 (tm.tm_mon + 1)
    ++ codes "-"
    ++ zero_filled 2 tm.tm_mday
    ++ codes " "
    ++ zero_filled 2 tm.tm_hour
    ++ codes ":"
    ++ zero_filled 2 tm.tm_min
    ++ codes "."
    ++ zero_filled 3 milliseconds

-- WriteTimestamp
unfoldable pub write_timestamp : (local_time : ℕ → Option Tm) → SubmitInfo → Text
unfolding time_parts zero_filled
write_timestamp local_time si =
    let (when, milliseconds) = time_parts si.time in date_and_time (local_time when) milliseconds

-- WriteLevel, with operator << for a LogLevel.
abbrev pub write_level : SubmitInfo → Text
write_level si = get_level_name si.level

-- The member WriteFilter, with the default of `hide`.
abbrev pub write_own_filter : SubmitInfo → Text
write_own_filter si = write_filter si.filter (flag general)

-- WriteDefaulInfo
unfoldable pub write_default_info :
    Locale → (local_time : ℕ → Option Tm) → (thread_id : Text) → SubmitInfo → Text
unfolding write_timestamp
write_default_info l local_time thread_id si =
    write_timestamp local_time si
    ++ codes " "
    ++ thread_id
    ++ codes " "
    ++ write_level si
    ++ codes ": "
    ++ write_own_filter si
    ++ write_message l si.buf
    ++ codes "\n"

-- Errno::Explain
explain : (strerror : ℕ → Text) → (err : ℕ) → Text
explain strerror err = codes "{errno " ++ decimal err ++ codes ": " ++ strerror err ++ codes "}"

-- A text of C, up to its first zero byte.
abbrev c_string : Text → Text
c_string [] = []
c_string (c ∷ t) = let rest = c_string t in if c == 0 then [] else c ∷ rest

-- Esc of a `const char *`, where `none` is a null pointer.
esc_of_pointer : Option Text → Text
esc_of_pointer none = []
esc_of_pointer (some v) = c_string v

-- operator << (Esc)
pub esc : Text → Text
esc val = codes "\"" ++ val ++ codes "\""

-- war::log::Timer, with the steady clock in nanoseconds.
pub record Timer : Type 0 where
  pub end : ℕ
  pub is_running : Bool
  pub started_at : ℕ

abbrev pub start_timer : (now : ℕ) → Timer
start_timer now = record { end = 0; is_running = true; started_at = now }

-- Stop
abbrev pub stop : (now : ℕ) → Timer → Timer
stop now t = record t { end = now; is_running = false }

pub data TimeUnit : Type 0 where
  minutes seconds milliseconds microseconds : TimeUnit

-- Nanoseconds in a unit.
abbrev pub scale : TimeUnit → ℕ
scale minutes = 60 * 10 ^ 9
scale seconds = 10 ^ 9
scale milliseconds = 10 ^ 6
scale microseconds = 10 ^ 3

abbrev pub unit_name : TimeUnit → Text
unit_name minutes = codes " minutes"
unit_name seconds = codes " seconds"
unit_name milliseconds = codes " milliseconds"
unit_name microseconds = codes " microseconds"

-- The unit that Stream picks for a duration.
pub choose : (duration : ℕ) → TimeUnit
choose duration =
    if ltb 5 (duration / scale minutes)
    then minutes
    else (if ltb 5 (duration / scale seconds)
        then seconds
        else (if ltb 5 (duration / scale milliseconds) then milliseconds else microseconds))

abbrev pub elapsed : (now : ℕ) → Timer → ℕ
elapsed now t = (if t.is_running then now else t.end) - t.started_at

-- Stream
pub stream : (now : ℕ) → Timer → Text
unfolding choose
stream now t =
    decimal (elapsed now t / scale (choose (elapsed now t))) ++ unit_name (choose (elapsed now t))
