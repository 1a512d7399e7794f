-- ===== src/Log/FunctionCall.antt =====
-- LogFunctionCall of core/include/warlib/WarLog.h, which WAR_LOG_FUNCTION puts at the beginning of a
-- function: its constructor and its destructor write to the log, around what the function does.
use warlib.Base.{
  ℕ, ◌≡◌, refl, sym, ap, ◌∙◌, subst, Option, some, List, [], ◌∷◌, ◌++◌, append-nil, append_assoc,
  Text, codes, decimal, get_elem?,
}
use warlib.Log.Level.{LogLevel}
use warlib.Log.Filter.{flag, function_call}
use warlib.Log.Engine.{SubmitInfo, LogEventHandler, Logger, and_then, log_statement}
use warlib.Log.Engine.Delivery.{IsSynced, Wants}
use warlib.Log.Engine.Serving.{Serves, log_statement-gets}

pub record LogFunctionCall : Type 0 where
  pub function_name : Text
  pub file : Text
  pub line : ℕ
  pub level : LogLevel

abbrev pub place : LogFunctionCall → Text
place c = c.function_name ++ codes " " ++ c.file ++ codes " " ++ decimal c.line

-- The messages of the constructor and of the destructor.
abbrev pub entering : LogFunctionCall → (now : ℕ) → SubmitInfo
entering c now = record {
  level = c.level;
  filter = flag function_call;
  buf = codes "Entering: " ++ place c;
  time = now;
}

abbrev pub leaving : LogFunctionCall → (now : ℕ) → SubmitInfo
leaving c now = record {
  level = c.level;
  filter = flag function_call;
  buf = codes "Leaving: " ++ place c;
  time = now;
}

-- The constructor and the destructor.
enter : LogFunctionCall → (now : ℕ) → Logger → Option Logger
unfolding log_statement
enter c now s = log_statement c.level (flag function_call) (codes "Entering: " ++ place c) now s

pub leave : LogFunctionCall → (now : ℕ) → Logger → Option Logger
unfolding log_statement
leave c now s = log_statement c.level (flag function_call) (codes "Leaving: " ++ place c) now s

-- Calls of functions that log themselves, one after the other, each with the calls inside it and the
-- times at which it begins and ends.
pub data Calls : Type 0 where
  done : Calls
  call : LogFunctionCall → (begins ends : ℕ) → (inside after : Calls) → Calls

pub run_calls : Calls → Logger → Option Logger
unfolding enter leave
run_calls done s = some s
run_calls (call c begins ends inside after) s =
    and_then (enter c begins s)
      λ t. and_then (run_calls inside t) λ u. and_then (leave c ends u) (run_calls after)

-- Without the engine: each call's two messages, as brackets round those of the calls inside it.
abbrev pub brackets : Calls → List SubmitInfo
brackets done = []
brackets (call c begins ends inside after) =
    entering c begins ∷ brackets inside ++ leaving c ends ∷ brackets after

-- A handler that wants the messages of every call.
abbrev pub WantsCalls : LogEventHandler → Calls → Type 0
WantsCalls h done = Unit
WantsCalls h (call c begins ends inside after) =
    Wants c.level (flag function_call) h × WantsCalls h inside × WantsCalls h after

abbrev pub receive : LogEventHandler → List SubmitInfo → LogEventHandler
receive h sis = record h { received = h.received ++ sis }

and_then-Serves :
    (i : ℕ) (g g' : LogEventHandler) (o : Option Logger) (f : Logger → Option Logger)
    → Serves i g o
    → ((hs : List LogEventHandler) (s : Logger)
        → IsSynced hs s
        → get_elem? hs i ≡ some g
        → Serves i g' (f s))
    → Serves i g' (and_then o f)
and_then-Serves i g g' o f v k =
    subst (λ p. Serves i g' (and_then p f)) (sym v.ends) (k v.handlers v.after v.synced v.served)

WantsCalls-receive :
    (h : LogEventHandler) (sis : List SubmitInfo) (cs : Calls)
    → WantsCalls h cs
    → WantsCalls (receive h sis) cs
WantsCalls-receive h sis done w = tt
WantsCalls-receive h sis (call c begins ends inside after) w =
    (w.0, WantsCalls-receive h sis inside w.1, WantsCalls-receive h sis after w.2)

-- When the static members are what UpdateLevelAndFilter computes from the handlers, running calls that
-- log themselves returns, and a handler that wants all their messages has received them behind what it
-- had: each call's two messages enclose those of the calls made inside it.
pub run_calls-brackets :
    (cs : Calls) (hs : List LogEventHandler) (s : Logger) (i : ℕ) (h : LogEventHandler)
    → IsSynced hs s
    → get_elem? hs i ≡ some h
    → WantsCalls h cs
    → Serves i (record h { received = h.received ++ brackets cs }) (run_calls cs s)
unfolding run_calls enter leave
run_calls-brackets done hs s i h v there w =
    let same = append-nil h.received in
    record {
      after = s;
      handlers = hs;
      ends = refl;
      synced = v;
      served = there ∙ ap (λ sis. some (record h { received = sis })) (sym same);
    }
run_calls-brackets (call c begins ends inside after) hs s i h v there w =
    let h1 = receive h (entering c begins ∷ []) in
    let h2 = receive h1 (brackets inside) in
    let h3 = receive h2 (leaving c ends ∷ []) in
    let w1 = WantsCalls-receive h (entering c begins ∷ []) inside w.1 in
    subst
      (λ sis.
        Serves i (record h { received = sis }) (run_calls (call c begins ends inside after) s))
      (append_assoc ((h.received ++ entering c begins ∷ []) ++ brackets inside)
          (leaving c ends ∷ []) (brackets after)
        ∙ append_assoc (h.received ++ entering c begins ∷ []) (brackets inside) _
        ∙ append_assoc h.received (entering c begins ∷ []) _)
      (and_then-Serves i h1 (receive h3 (brackets after)) _ _
        (log_statement-gets (entering c begins) hs s i h v there w.0)
        (λ hs1 s1 v1 there1.
          and_then-Serves i h2 (receive h3 (brackets after)) _ _
            (run_calls-brackets inside hs1 s1 i h1 v1 there1 w1)
            (λ hs2 s2 v2 there2.
              and_then-Serves i h3 (receive h3 (brackets after)) _ _
                (log_statement-gets (leaving c ends) hs2 s2 i h2 v2 there2 w.0)
                (λ hs3 s3 v3 there3. run_calls-brackets after hs3 s3 i h3 v3 there3 (
                  WantsCalls-receive h2 (leaving c ends ∷ []) after (
                    WantsCalls-receive h1 (brackets inside) after
                      (WantsCalls-receive h (entering c begins ∷ []) after w.2)))))))
