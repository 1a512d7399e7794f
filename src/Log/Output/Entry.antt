-- ===== src/Log/Output/Entry.antt =====
-- One entry of a log: what WriteDefaulInfo of core/src/WarLog.cpp writes for one message.
use warlib.Base.{
  ℕ, zero, suc, ◌+◌, ◌≡◌, ◌≢◌, refl, sym, subst, inl, Option, none, some, List, [], ◌∷◌, ◌++◌, Text,
  codes, decimal, arith, All, All-append, decimal-All, replicate,
}
use warlib.Log.Level.{
  LogLevel, get_level_name, fatal, error, warning, info, notice, debug, trace1, trace2, trace3,
  trace4,
}
use warlib.Log.Filter.{
  LogAbout, flag, general, security, transfer, auth, io, network, threads, ipc, stats,
  function_call, about_name, bars, listing, shown, all_about, write_filter, write_filter_lem,
}
use warlib.Log.Message.{Locale, write_message}
use warlib.Log.Message.Safety.{IsIndented, IsIndented-append, write_message-IsIndented}
use warlib.Log.Engine.{SubmitInfo}
use warlib.Log.Output.{Tm, zero_filled, date_and_time, write_timestamp, write_default_info}

-- A text without a newline.
abbrev pub IsPlain : Text → Type 0
IsPlain t = All (λ c. c ≢ b'\n') t

IsIndented-of_plain : (t : Text) → IsPlain t → IsIndented t
IsIndented-of_plain [] h = tt
IsIndented-of_plain (c ∷ t) h = (inl h.0, IsIndented-of_plain t h.1)

decimal-IsPlain : (n : ℕ) → IsPlain (decimal n)
decimal-IsPlain n = decimal-All (λ c. c ≢ b'\n') n (λ d h. omega arith)

replicate-IsPlain : (n : ℕ) → IsPlain (replicate n b'0')
replicate-IsPlain zero = tt
replicate-IsPlain (suc n) = (omega arith, replicate-IsPlain n)

IsPlain-append : (s t : Text) → IsPlain s → IsPlain t → IsPlain (s ++ t)
IsPlain-append = All-append (λ c. c ≢ b'\n')

zero_filled-IsPlain : (n k : ℕ) → IsPlain (zero_filled n k)
unfolding zero_filled
zero_filled-IsPlain n k = IsPlain-append _ _ (replicate-IsPlain _) (decimal-IsPlain k)

-- A text, a character that is no newline, and another text.
joined :
    (s : Text) (c : ℕ) (t : Text) → IsPlain s → c ≢ b'\n' → IsPlain t → IsPlain (s ++ c ∷ [] ++ t)
joined s c t hs hc ht = IsPlain-append (s ++ c ∷ []) t (IsPlain-append s (c ∷ []) hs (hc, tt)) ht

date_and_time-IsPlain : (o : Option Tm) (ms : ℕ) → IsPlain (date_and_time o ms)
date_and_time-IsPlain none ms = omega arith
date_and_time-IsPlain (some tm) ms =
    joined _ b'.' _
      (joined _ b':' _
        (joined _ b' ' _
          (joined _ b'-' _
            (joined _ b'-' _ (zero_filled-IsPlain 4 (tm.tm_year + 1900)) (omega arith)
              (zero_filled-IsPlain 2 (tm.tm_mon + 1)))
            (omega arith) (zero_filled-IsPlain 2 tm.tm_mday))
          (omega arith) (zero_filled-IsPlain 2 tm.tm_hour))
        (omega arith) (zero_filled-IsPlain 2 tm.tm_min))
      (omega arith) (zero_filled-IsPlain 3 ms)

get_level_name-IsPlain : (l : LogLevel) → IsPlain (get_level_name l)
unfolding get_level_name
get_level_name-IsPlain fatal = omega arith
get_level_name-IsPlain error = omega arith
get_level_name-IsPlain warning = omega arith
get_level_name-IsPlain info = omega arith
get_level_name-IsPlain notice = omega arith
get_level_name-IsPlain debug = omega arith
get_level_name-IsPlain trace1 = omega arith
get_level_name-IsPlain trace2 = omega arith
get_level_name-IsPlain trace3 = omega arith
get_level_name-IsPlain trace4 = omega arith

about_name-IsPlain : (a : LogAbout) → IsPlain (about_name a)
about_name-IsPlain general = omega arith
about_name-IsPlain security = omega arith
about_name-IsPlain transfer = omega arith
about_name-IsPlain auth = omega arith
about_name-IsPlain io = omega arith
about_name-IsPlain network = omega arith
about_name-IsPlain threads = omega arith
about_name-IsPlain ipc = omega arith
about_name-IsPlain stats = omega arith
about_name-IsPlain function_call = omega arith

bars-IsPlain : (as' : List LogAbout) → IsPlain (bars as')
bars-IsPlain [] = tt
bars-IsPlain (a ∷ as') = (omega arith, IsPlain-append _ _ (about_name-IsPlain a) (bars-IsPlain as'))

listing-IsPlain : (as' : List LogAbout) → IsPlain (listing as')
listing-IsPlain [] = tt
listing-IsPlain (a ∷ as') =
    IsPlain-append (about_name a ++ bars as') (codes " ")
      (IsPlain-append (about_name a) (bars as') (about_name-IsPlain a) (bars-IsPlain as'))
      (omega arith, tt)

write_filter-IsPlain : (filter : ℕ) → IsPlain (write_filter filter (flag general))
write_filter-IsPlain filter =
    subst IsPlain (sym (write_filter_lem filter (flag general) (omega arith)))
      (listing-IsPlain (shown filter (flag general) all_about))

-- The text of an entry without the newline at its end.
pub record IsEntry (t : Text) : Type 0 where
  pub body : Text
  pub ends : t ≡ body ++ b'\n' ∷ []
  pub one_line : IsIndented body

-- Whatever the message, the level, the filter, the time and the locale, an entry ends by a newline,
-- and each newline before that is followed by two blanks, if the text of a thread id has no newline:
-- no message can pass for another entry.
pub write_default_info-IsEntry :
    (l : Locale) (local_time : ℕ → Option Tm) (thread_id : Text) (si : SubmitInfo)
    → IsPlain thread_id
    → IsEntry (write_default_info l local_time thread_id si)
unfolding write_default_info write_timestamp
write_default_info-IsEntry l local_time thread_id si h =
    let stamp = write_timestamp local_time si in
    let level = get_level_name si.level in
    let filter = write_filter si.filter (flag general) in
    let message = write_message l si.buf in
    let head = stamp ++ codes " " ++ thread_id ++ codes " " ++ level ++ codes ": " ++ filter in
    let before : IsPlain (stamp ++ codes " " ++ thread_id ++ codes " " ++ level) =
      joined _ b' ' level (joined stamp b' ' thread_id (date_and_time-IsPlain _ _) (omega arith) h)
        (omega arith) (get_level_name-IsPlain si.level) in
    let plain : IsPlain head =
      IsPlain-append _ filter
        (IsPlain-append _ (codes ": ") before (omega arith, (omega arith, tt)))
        (write_filter-IsPlain si.filter) in
    record {
      body = head ++ message;
      ends = refl;
      one_line =
          IsIndented-append head message (IsIndented-of_plain head plain)
            (write_message-IsIndented l si.buf);
    }
