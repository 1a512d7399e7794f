-- ===== src/Log/Tests.antt =====
-- The log on small inputs, and one input for each of its theorems.
use mathlib.Core.Quot
use warlib.Base.{
  ◌≤◌, ◌≡◌, ◌≢◌, refl, true, ◌&&◌, none, some, [], ◌∷◌, Text, codes, ltb, leb, ◌==◌, if◌then◌else◌,
  arith, Option, decimal, ℕ, Bool, ◌++◌, map, ◌+◌, total, ◌⊎◌,
}
use warlib.Log.Level.{fatal, error, info, notice, debug, value, get_level_name, trace3}
use warlib.Log.Filter.{write_filter, listing, shown, all_about, write_filter_lem}
use warlib.Log.Message.{Locale, write_message}
use warlib.Log.Message.Safety.{IsSane, chop, without_returns, put_all, write_message_lem}
use warlib.Log.Engine.{
  SubmitInfo, LogEventHandler, Logger, initial, is_relevant, log_statement, add_handler, constructs,
  says, perform, perform_all, max_level,
}
use warlib.Log.Output.{Tm, write_timestamp, write_default_info}
use warlib.Log.Output.Entry.{IsEntry, write_default_info-IsEntry}
use warlib.Log.Engine.Relevance.{log_statement-ne-none}
use warlib.Log.Engine.Delivery.{IsSynced, Wants}
use warlib.Log.Engine.Serving.{Serves}
use warlib.Log.Engine.Adding.{Syncs, add_handler-Syncs}
use warlib.Log.Engine.Order.{swap, add_handlers, SameStatics, add_handlers-SameStatics}
use warlib.Log.Engine.Concurrent.{
  outside, Engine, push, refresh, EngineReach, here, next, Agrees, reach-Agrees, is_pushed,
}
use warlib.Log.File.{Disk, write, contents, LogToFile, opened, create, submit_all}
use warlib.Log.File.Splitting.{split_entries, nothing}
use warlib.Log.File.Logged.{Reads, log_file-Reads}
use warlib.Log.Engine.History.{say, says-Serves}
use warlib.Log.FunctionCall.{
  LogFunctionCall, Calls, done, call, run_calls, brackets, run_calls-brackets,
}

write_filter_lem_example : write_filter 34 1 ≡ listing (shown 34 1 all_about)
write_filter_lem_example = write_filter_lem 34 1 (omega arith)

two_flags : write_filter 34 1 ≡ codes "SECURITY|NETWORK "
unfolding write_filter
two_flags = refl

-- The locale "C".
abbrev classic : Locale
classic = record {
  is_cntrl = λ c. if ltb c 32 then true else c == 127;
  is_space = λ c. if c == 32 then true else leb 9 c && leb c 13;
}

classic-IsSane : IsSane classic
classic-IsSane = record {
  newline_is_space = refl;
  blank_is_safe = refl;
  percent_is_safe = refl;
  digits_are_safe = λ c h. ground arith;
}

abbrev nasty : Text
nasty = b'a' ∷ 13 ∷ 10 ∷ 7 ∷ b'b' ∷ 10 ∷ []

nasty_written :
    write_message classic nasty ≡ b'a' ∷ 10 ∷ b' ' ∷ b' ' ∷ b'%' ∷ b'0' ∷ b'7' ∷ b'b' ∷ []
unfolding write_message
nasty_written = refl

write_message_lem_example :
    write_message classic nasty ≡ put_all classic (without_returns (chop nasty))
write_message_lem_example = write_message_lem classic nasty

-- A console that takes notices about the network, and a file that takes debug messages.
abbrev console : LogEventHandler
console = record { name = codes "console"; level = notice; filter = 32; received = [] }

abbrev file : LogEventHandler
file = record { name = codes "file"; level = debug; filter = 1; received = [] }

abbrev both : Logger
both = record { engine = some (console ∷ file ∷ []); current_level = debug; current_filter = 33 }

both-IsSynced : IsSynced (console ∷ file ∷ []) both
both-IsSynced = record { runs = refl; level = refl; filter = refl }

abbrev connected : SubmitInfo
connected = record { level = info; filter = 32; buf = codes "Connected"; time = 5 }

debug_is_relevant : is_relevant debug 32 both ≡ true
unfolding is_relevant
debug_is_relevant = refl

abbrev detail : SubmitInfo
detail = record { level = debug; filter = 1; buf = codes "Detail"; time = 5 }

add_handler-Syncs_example : Syncs (console ∷ file ∷ file ∷ []) (add_handler file 5 6 both)
add_handler-Syncs_example = add_handler-Syncs file 5 6 (console ∷ file ∷ []) both refl

abbrev started_log : Logger
started_log = record { engine = some []; current_level = fatal; current_filter = 0 }

starts : perform_all (constructs ∷ says error 1 (codes "Lost") 3 ∷ []) initial ≡ some started_log
unfolding perform_all perform log_statement is_relevant
starts = refl

add_handlers-SameStatics_example :
    SameStatics
      (perform_all (add_handlers (λ n. n) (console ∷ file ∷ [])) started_log)
      (perform_all (add_handlers (λ n. n + 9) (file ∷ console ∷ [])) started_log)
add_handlers-SameStatics_example =
    add_handlers-SameStatics (λ n. n) (λ n. n + 9) (console ∷ file ∷ []) (file ∷ console ∷ []) []
      started_log (record { runs = refl; level = refl; filter = refl })
      (Quot.sound (swap [] console file []))

log_statement-ne-none_example : log_statement info 32 (codes "Connected") 5 started_log ≢ none
log_statement-ne-none_example =
    log_statement-ne-none (constructs ∷ says error 1 (codes "Lost") 3 ∷ []) started_log info 32
      (codes "Connected") 5 starts

-- A local time for every second, and none.
abbrev new_year : ℕ → Option Tm
new_year when = some (record { tm_year = 124; tm_mon = 0; tm_mday = 1; tm_hour = 9; tm_min = 5 })

connected_entry :
    write_default_info classic new_year
      (codes "77")
      (record { level = info; filter = 33; buf = codes "On\nline\n"; time = 1704099900250000000 })
    ≡ codes "2024-01-01 09:05.250 77 INFO: NETWORK On\n  line\n"
unfolding write_default_info write_timestamp get_level_name write_filter write_message decimal
connected_entry = refl

write_default_info-IsEntry_example :
    IsEntry (write_default_info classic new_year (codes "77") connected)
write_default_info-IsEntry_example =
    write_default_info-IsEntry classic new_year (codes "77") connected (omega arith)

-- Two threads that add a handler each: the second to push is the first to refresh.
abbrev joined : Engine
joined = record {
  handlers = console ∷ file ∷ [];
  current_level = debug;
  current_filter = 33;
  threads = outside ∷ outside ∷ [];
}

joined_reached : EngineReach 2 joined
joined_reached =
    next (next (next (next here (push 0 console refl)) (push 1 file refl)) (refresh 1 refl))
      (refresh 0 refl)

reach-Agrees_example :
    (value joined.current_level ≤ value (max_level fatal joined.handlers))
    × ((1 ≤ total is_pushed joined.threads) ⊎ Agrees joined)
reach-Agrees_example = reach-Agrees {n = 2} {s = joined} joined_reached

abbrev empty_disk : Disk
empty_disk path = none

abbrev log_file : LogToFile
log_file = record { handler = file; path = codes "war.log" }

abbrev all_regular : Text → Bool
all_regular path = true

-- The file is not there, and is made.
created_file :
    create all_regular all_regular (codes "war.log") true (codes "file") debug 1 empty_disk
    ≡ opened log_file (write (codes "war.log") [] empty_disk)
unfolding create
created_file = refl

-- A function that calls another, and a handler that takes their messages.
abbrev tracer : LogEventHandler
tracer = record { name = codes "trace"; level = trace3; filter = 512; received = [] }

abbrev tracing : Logger
tracing = record { engine = some (tracer ∷ []); current_level = trace3; current_filter = 512 }

abbrev function_at : ℕ → LogFunctionCall
function_at n = record { function_name = codes "f"; file = codes "a.cpp"; line = n; level = trace3 }

abbrev two_calls : Calls
two_calls = call (function_at 10) 1 4 (call (function_at 20) 2 3 done done) done

tracer-Wants : Wants trace3 512 tracer
tracer-Wants = (omega arith, λ e. omega (arith, e))

run_calls-brackets_example :
    Serves 0 (record tracer { received = brackets two_calls }) (run_calls two_calls tracing)
run_calls-brackets_example =
    run_calls-brackets two_calls (tracer ∷ []) tracing 0 tracer
      (record { runs = refl; level = refl; filter = refl }) refl
      (tracer-Wants, (tracer-Wants, tt, tt), tt)

-- A message with a line that looks like an entry.
abbrev forged : SubmitInfo
forged = record connected { buf = codes "a\n2026-01-01 00:00.000 77 ERROR: b" }

-- Too quiet for the file.
abbrev chatter : SubmitInfo
chatter = record detail { level = trace3 }

log_file-Reads_example :
    Reads
      (perform_all (map say (forged ∷ chatter ∷ detail ∷ [])) both)
      1
      (λ received. split_entries (
        contents (
          submit_all classic new_year
            (codes "77")
            log_file
            received
            (write (codes "war.log") [] empty_disk)
            (codes "war.log"))))
      (split_entries (
          if true && all_regular (codes "war.log")
          then []
          else contents (empty_disk (codes "war.log")))
        ++ map (write_default_info classic new_year (codes "77")) (forged ∷ detail ∷ []))
log_file-Reads_example =
    log_file-Reads classic new_year (codes "77") (omega arith) all_regular all_regular
      (codes "war.log") (codes "file") true debug 1 empty_disk
      (write (codes "war.log") [] empty_disk) log_file (forged ∷ chatter ∷ detail ∷ [])
      (console ∷ file ∷ []) both 1 created_file nothing both-IsSynced refl

says-Serves_example :
    Serves 0
      (record console { received = connected ∷ forged ∷ [] })
      (perform_all (map say (connected ∷ detail ∷ forged ∷ [])) both)
says-Serves_example =
    says-Serves (connected ∷ detail ∷ forged ∷ []) (console ∷ file ∷ []) both 0 console
      both-IsSynced refl
