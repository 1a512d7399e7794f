-- ===== src/Log/File/Splitting.antt =====
-- A log file of core/src/WarLog.cpp read back: where one entry ends and the next begins.
use warlib.Base.{
  ℕ, ◌≡◌, ◌≢◌, refl, sym, ap, ◌∙◌, ◌⊎◌, inl, inr, Bool, true, false, ◌&&◌, Option, List, [], ◌∷◌,
  ◌++◌, Text, ◌==◌, arith, map, append_assoc, if◌then◌else◌, if_elim,
}
use warlib.Log.Level.{LogLevel}
use warlib.Log.Message.{Locale}
use warlib.Log.Message.Safety.{IsIndented}
use warlib.Log.Engine.{SubmitInfo}
use warlib.Log.Output.{Tm, write_default_info}
use warlib.Log.Output.Entry.{IsPlain, write_default_info-IsEntry}
use warlib.Log.Output.Head.{HasHead, HasHead-append, write_default_info-HasHead}
use warlib.Log.File.{Disk, contents, LogToFile, opened, create, submit_all}
use warlib.Log.File.Contents.{entries, create-submit_all}

-- A text that does not begin with two blanks.
abbrev pub begins_entry : Text → Bool
begins_entry [] = true
begins_entry (c ∷ []) = true
begins_entry (c ∷ d ∷ t) = if c == b' ' && d == b' ' then false else true

-- One character more for the first entry.
abbrev pub put_first : ℕ → List Text → List Text
put_first c [] = (c ∷ []) ∷ []
put_first c (e ∷ es) = (c ∷ e) ∷ es

-- The last character of an entry, or one of the first entry's.
abbrev pub put_char : (ends : Bool) → ℕ → List Text → List Text
put_char true c es = (c ∷ []) ∷ es
put_char false c es = put_first c es

-- A reader of logs: an entry ends with a newline that no two blanks follow.
unfoldable pub split_entries : Text → List Text
split_entries [] = []
split_entries (c ∷ t) = put_char (c == b'\n' && begins_entry t) c (split_entries t)

-- Nothing, or a text that ends with a newline.
pub data IsWhole : Text → Type 0 where
  nothing : IsWhole []
  ends_line : (t : Text) → IsWhole (t ++ b'\n' ∷ [])

begins_entry-append : (s t : Text) → begins_entry (s ++ b'\n' ∷ t) ≡ begins_entry (s ++ b'\n' ∷ [])
begins_entry-append [] [] = refl
begins_entry-append [] (c ∷ t) = refl
begins_entry-append (c ∷ []) t = refl
begins_entry-append (c ∷ d ∷ s) t = refl

put_char-append :
    (b : Bool) (c : ℕ) (e : Text) (es fs : List Text)
    → put_char b c ((e ∷ es) ++ fs) ≡ put_char b c (e ∷ es) ++ fs
put_char-append true c e es fs = refl
put_char-append false c e es fs = refl

put_char-cons :
    (b : Bool) (c : ℕ) (es : List Text) → (e : Text) × (fs : List Text) × (put_char b c es ≡ e ∷ fs)
put_char-cons true c es = (_, _, refl)
put_char-cons false c [] = (_, _, refl)
put_char-cons false c (e ∷ es) = (_, _, refl)

-- A text with a character in it has an entry.
split_entries-cons :
    (s : Text) (c : ℕ) → (e : Text) × (fs : List Text) × (split_entries (s ++ c ∷ []) ≡ e ∷ fs)
unfolding split_entries
split_entries-cons [] c = put_char-cons _ c []
split_entries-cons (d ∷ s) c = put_char-cons _ d (split_entries (s ++ c ∷ []))

-- A text that ends with a newline is read by itself, whatever entry comes behind it.
split_entries-append :
    (s t : Text)
    → begins_entry t ≡ true
    → split_entries (s ++ b'\n' ∷ t) ≡ split_entries (s ++ b'\n' ∷ []) ++ split_entries t
unfolding split_entries
split_entries-append [] t b = ap (λ x. put_char x b'\n' (split_entries t)) b
split_entries-append (c ∷ s) t b =
    let (e, fs, q) = split_entries-cons s b'\n' in
    let rest = split_entries-append s t b in
    let first = begins_entry-append s t in
    ap (λ x. put_char (c == b'\n' && x) c (split_entries (s ++ b'\n' ∷ t))) first
    ∙ ap (put_char (c == b'\n' && begins_entry (s ++ b'\n' ∷ [])) c)
        (rest ∙ ap (λ x. x ++ split_entries t) q)
    ∙ put_char-append _ c e fs (split_entries t)
    ∙ ap (λ x. put_char (c == b'\n' && begins_entry (s ++ b'\n' ∷ [])) c x ++ split_entries t)
        (sym q)

-- Inside of an entry nothing ends it.
inside :
    (c : ℕ) (s : Text)
    → (c ≢ b'\n') ⊎ ((r : Text) × (s ≡ b' ' ∷ b' ' ∷ r))
    → (c == b'\n' && begins_entry (s ++ b'\n' ∷ [])) ≡ false
inside c s (inl ne) = ground arith
inside c s (inr (r, e)) = ap (λ x. c == b'\n' && begins_entry (x ++ b'\n' ∷ [])) e ∙ ground arith

split_entries-one :
    (s : Text) → IsIndented s → split_entries (s ++ b'\n' ∷ []) ≡ (s ++ b'\n' ∷ []) ∷ []
unfolding split_entries
split_entries-one [] h = refl
split_entries-one (c ∷ s) h =
    ap (λ b. put_char b c (split_entries (s ++ b'\n' ∷ []))) (inside c s h.0)
    ∙ ap (put_first c) (split_entries-one s h.1)

begins_entry-HasHead : (t : Text) → HasHead t → begins_entry t ≡ true
begins_entry-HasHead [] h = refl
begins_entry-HasHead (c ∷ []) h = refl
begins_entry-HasHead (c ∷ d ∷ t) h = ground arith

module _ (l : Locale) (local_time : ℕ → Option Tm) (thread_id : Text)
    (plain : IsPlain thread_id) where
  entries-begins :
      (sis : List SubmitInfo) → begins_entry (entries l local_time thread_id sis) ≡ true
  entries-begins [] = refl
  entries-begins (si ∷ sis) = begins_entry-HasHead _ (
      HasHead-append _ (entries l local_time thread_id sis)
        (write_default_info-HasHead l local_time thread_id si))

  split_entries-entries :
      (sis : List SubmitInfo)
      → split_entries (entries l local_time thread_id sis)
        ≡ map (write_default_info l local_time thread_id) sis
  unfolding split_entries
  split_entries-entries [] = refl
  split_entries-entries (si ∷ sis) =
      let e = write_default_info-IsEntry l local_time thread_id si plain in
      let rest = entries l local_time thread_id sis in
      ap (λ t. split_entries (t ++ rest)) e.ends
      ∙ ap split_entries (append_assoc e.body (b'\n' ∷ []) rest)
      ∙ split_entries-append e.body rest (entries-begins sis)
      ∙ ap (λ es. es ++ split_entries rest) (split_entries-one e.body e.one_line)
      ∙ ap (λ t. t ∷ split_entries rest) (sym e.ends)
      ∙ ap (λ es. write_default_info l local_time thread_id si ∷ es) (split_entries-entries sis)

  -- The same behind a text that ends with a newline.
  split_entries-behind :
      (now : Text) (sis : List SubmitInfo)
      → IsWhole now
      → split_entries (now ++ entries l local_time thread_id sis)
        ≡ split_entries now ++ map (write_default_info l local_time thread_id) sis
  unfolding split_entries
  split_entries-behind [] sis nothing = split_entries-entries sis
  split_entries-behind _ sis (ends_line t) =
      ap split_entries (append_assoc t (b'\n' ∷ []) (entries l local_time thread_id sis))
      ∙ split_entries-append t (entries l local_time thread_id sis) (entries-begins sis)
      ∙ ap (λ es. split_entries (t ++ b'\n' ∷ []) ++ es) (split_entries-entries sis)

  -- What a log file holds, after it was opened and any messages were written to it, is read back by the
  -- rule that an entry ends with a newline that no two blanks follow: as the entries that were there
  -- before, unless the file was truncated, and then exactly one for each message, in their order,
  -- whatever the messages hold. The file was empty or ended with a newline, and the text
  -- of the thread id has no newline.
  pub create-split_entries :
      (is_regular_file can_open : Text → Bool) (path name : Text) (truncate : Bool)
      (level : LogLevel) (filter : ℕ) (disk after : Disk) (f : LogToFile) (sis : List SubmitInfo)
      → create is_regular_file can_open path truncate name level filter disk ≡ opened f after
      → IsWhole (contents (disk path))
      → split_entries (contents (submit_all l local_time thread_id f sis after path))
        ≡ split_entries (if truncate && is_regular_file path then [] else contents (disk path))
          ++ map (write_default_info l local_time thread_id) sis
  create-split_entries is_regular_file can_open path name truncate level filter disk after f sis e
        w =
      ap (λ o. split_entries (contents o))
        (create-submit_all l local_time thread_id is_regular_file can_open path name truncate level
          filter disk after f sis e)
      ∙ split_entries-behind _ sis (
          if_elim IsWhole (truncate && is_regular_file path) [] (contents (disk path))
            (λ b. nothing) (λ b. w))
