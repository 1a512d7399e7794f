-- ===== src/Log/Engine.antt =====
-- LogEventHandler, LogEngine, Log and the logging macros of WarLog.h and WarLog.cpp.
-- A handler is seen through the messages that its Submit is given. `lock_` makes DoSubmit, and the
-- two parts of AddHandler, single steps. One engine lives at a time: `this` is `*instance_`.
pub mod Relevance
pub mod Delivery
pub mod Serving
pub mod Adding
pub mod Order
pub mod History
pub mod Concurrent
use mathlib.Core.Option
use warlib.Base.{
  ℕ, suc, Bool, true, false, not, ◌&&◌, Option, none, some, List, [], ◌∷◌, ◌++◌, Text, codes,
  decimal, ltb, ◌==◌, bit_and, bit_or, if◌then◌else◌,
}
use warlib.Log.Level.{LogLevel, fatal, debug, value, ◌⊑◌, get_level_name}
use warlib.Log.Filter.{flag, general, write_filter}

pub record SubmitInfo : Type 0 where
  pub level : LogLevel
  pub filter : ℕ
  pub buf : Text
  pub time : ℕ

pub record LogEventHandler : Type 0 where
  pub name : Text
  pub level : LogLevel
  pub filter : ℕ
  pub received : List SubmitInfo

-- The static members. `engine` is `*instance_`, by its handlers.
pub record Logger : Type 0 where
  pub engine : Option (List LogEventHandler)
  pub current_level : LogLevel
  pub current_filter : ℕ

-- Before any constructor: static members are zero.
abbrev pub initial : Logger
initial = record { engine = none; current_level = fatal; current_filter = 0 }

-- LogEngine() and ~LogEngine(); the assertions are for debug builds.
abbrev pub construct : Logger → Logger
construct s = record s { engine = some [] }

abbrev pub destroy : Logger → Logger
destroy s = record { engine = none; current_level = fatal; current_filter = 0 }

-- LogEngine::IsRelevant
unfoldable pub is_relevant : LogLevel → (filter : ℕ) → Logger → Bool
is_relevant level filter s = level ⊑ s.current_level && not (bit_and filter s.current_filter == 0)

-- LogEngine::DoSubmit, for one handler and for all.
abbrev pub offer : SubmitInfo → LogEventHandler → LogEventHandler
offer si h = if si.level ⊑ h.level then record h { received = h.received ++ si ∷ [] } else h

abbrev pub offer_all : SubmitInfo → List LogEventHandler → List LogEventHandler
offer_all si [] = []
offer_all si (h ∷ hs) = offer si h ∷ offer_all si hs

abbrev pub do_submit : SubmitInfo → Option (List LogEventHandler) → Logger → Option Logger
do_submit si none s = none
do_submit si (some hs) s = some (record s { engine = some (offer_all si hs) })

-- Log, with what was written to its stream.
pub record Log : Type 0 where
  pub level : LogLevel
  pub filter : ℕ
  pub buf : Text

-- LogEngine::Submit, through `instance_`, of what DoSubmit makes of a Log at some time. `none` is the
-- use of a null `instance_`.
abbrev pub submit_log : Log → (now : ℕ) → Logger → Option Logger
submit_log log now s =
    do_submit (record { level = log.level; filter = log.filter; buf = log.buf; time = now })
      s.engine s

-- A LOG_ statement: the macro's test, and the destructor of the Log that it makes.
unfoldable pub log_statement :
    LogLevel → (filter : ℕ) → (text : Text) → (now : ℕ) → Logger → Option Logger
unfolding is_relevant
log_statement level filter text now s =
    if is_relevant level filter s
    then submit_log (record { level = level; filter = filter; buf = text }) now s
    else some s

abbrev pub louder : LogLevel → LogLevel → LogLevel
louder l k = if ltb (value l) (value k) then k else l

-- The loop of UpdateLevelAndFilter.
abbrev pub max_level : LogLevel → List LogEventHandler → LogLevel
max_level l [] = l
max_level l (h ∷ hs) = max_level (louder l h.level) hs

abbrev pub all_filters : ℕ → List LogEventHandler → ℕ
all_filters f [] = f
all_filters f (h ∷ hs) = all_filters (bit_or f h.filter) hs

abbrev pub update : List LogEventHandler → Logger → Logger
update hs s = record s { current_level = max_level fatal hs; current_filter = all_filters 0 hs }

abbrev pub level_message : Logger → Text
level_message s =
    codes "Log-level is now "
    ++ get_level_name s.current_level
    ++ codes " and filter is "
    ++ write_filter s.current_filter 0
    ++ codes "("
    ++ decimal s.current_filter
    ++ codes ")"

abbrev pub added_message : LogEventHandler → Text
added_message h = codes "Added log-handler \"" ++ h.name ++ codes "\"."

abbrev pub and_then : Option Logger → (Logger → Option Logger) → Option Logger
and_then none f = none
and_then (some s) f = f s

abbrev pub update_case : Option (List LogEventHandler) → ℕ → Logger → Option Logger
update_case none now s = none
update_case (some hs) now s =
    log_statement debug (flag general) (level_message (update hs s)) now (update hs s)

-- UpdateLevelAndFilter
pub update_level_and_filter : ℕ → Logger → Option Logger
unfolding log_statement
update_level_and_filter now s = update_case s.engine now s

abbrev pub push_back : LogEventHandler → Option (List LogEventHandler) → Logger → Option Logger
push_back h none s = none
push_back h (some hs) s = some (record s { engine = some (hs ++ h ∷ []) })

-- AddHandler, at the times of its two messages.
pub add_handler : LogEventHandler → (now later : ℕ) → Logger → Option Logger
unfolding log_statement update_level_and_filter
add_handler h now later s = and_then (push_back h s.engine s) λ t.
    and_then (log_statement debug (flag general) (added_message h) now t)
      (update_level_and_filter later)

abbrev pub set_at : ℕ → LogLevel → List LogEventHandler → List LogEventHandler
set_at i l [] = []
set_at ℕ.zero l (h ∷ hs) = record h { level = l } ∷ hs
set_at (suc i) l (h ∷ hs) = h ∷ set_at i l hs

-- SetLevel of the `i`-th handler, through a pointer that the program kept.
abbrev pub set_level : ℕ → LogLevel → Logger → Logger
set_level i l s = record s { engine = Option.map (set_at i l) s.engine }

-- What a program does with the library.
pub data Op : Type 0 where
  constructs destroys : Op
  adds : LogEventHandler → (now later : ℕ) → Op
  says : LogLevel → (filter : ℕ) → Text → (now : ℕ) → Op
  sets : ℕ → LogLevel → Op

unfoldable pub perform : Op → Logger → Option Logger
unfolding add_handler log_statement
perform constructs s = some (construct s)
perform destroys s = some (destroy s)
perform (adds h now later) s = add_handler h now later s
perform (says l f t now) s = log_statement l f t now s
perform (sets i l) s = some (set_level i l s)

unfoldable pub perform_all : List Op → Logger → Option Logger
perform_all [] s = some s
perform_all (o ∷ os) s = and_then (perform o s) (perform_all os)
