-- ===== src/Log/File/Logged.antt =====
-- From log statements through LogEngine of core/src/WarLog.cpp to the file of a LogToFile.
use warlib.Base.{
  ℕ, ◌≡◌, ap, ◌∙◌, subst, Bool, ◌&&◌, Option, some, List, [], ◌++◌, Text, map, if◌then◌else◌,
  get_elem?, if_elim, refl,
}
use warlib.Log.Level.{LogLevel}
use warlib.Log.Message.{Locale}
use warlib.Log.Output.{Tm, write_default_info}
use warlib.Log.Output.Entry.{IsPlain}
use warlib.Log.Engine.{SubmitInfo, LogEventHandler, Logger, all_filters, perform_all}
use warlib.Log.Engine.Delivery.{IsSynced}
use warlib.Log.Engine.History.{taken, say, says-Serves, receive}
use warlib.Log.File.{Disk, contents, LogToFile, opened, throws, create, submit_all, Opened}
use warlib.Log.File.Splitting.{split_entries, IsWhole, create-split_entries}

-- A run that returns, where reading back what the handler in place `i` was given makes `expected`.
pub record Reads (o : Option Logger) (i : ℕ) (read : List SubmitInfo → List Text)
    (expected : List Text) : Type 0 where
  pub after : Logger
  pub handlers : List LogEventHandler
  pub handler : LogEventHandler
  pub ends : o ≡ some after
  pub runs : after.engine ≡ some handlers
  pub there : get_elem? handlers i ≡ some handler
  pub reads : read handler.received ≡ expected

abbrev IsNew : LogLevel → Opened → Type 0
IsNew level (opened f after) = (f.handler.level ≡ level) × (f.handler.received ≡ [])
IsNew level (throws e) = Unit

create-IsNew :
    (is_regular_file can_open : Text → Bool) (path name : Text) (truncate : Bool) (level : LogLevel)
    (filter : ℕ) (disk : Disk)
    → IsNew level (create is_regular_file can_open path truncate name level filter disk)
unfolding create
create-IsNew is_regular_file can_open path name truncate level filter disk =
    if_elim (IsNew level) (can_open path) _ _ (λ e. (refl, refl)) (λ e. tt)

module _ (l : Locale) (local_time : ℕ → Option Tm) (thread_id : Text)
    (plain : IsPlain thread_id) where
  -- When a LogToFile was made, stands in the engine and has received no message yet, and the
  -- static members are what UpdateLevelAndFilter computes from the handlers, any log statements
  -- of one thread return, and its file is then read back as the entries that were there before,
  -- unless the file was truncated, and exactly one entry for each message that the handler's
  -- level takes and whose filter shares a flag with the filter of some handler, in the order of
  -- the statements, whatever the messages hold. The file was empty or ended with a newline, and
  -- the text of the thread id has no newline.
  pub log_file-Reads :
      (is_regular_file can_open : Text → Bool) (path name : Text) (truncate : Bool)
      (level : LogLevel) (filter : ℕ) (disk opened_disk : Disk) (f : LogToFile)
      (sis : List SubmitInfo) (hs : List LogEventHandler) (s : Logger) (i : ℕ)
      → create is_regular_file can_open path truncate name level filter disk ≡ opened f opened_disk
      → IsWhole (contents (disk path))
      → IsSynced hs s
      → get_elem? hs i ≡ some f.handler
      → Reads
          (perform_all (map say sis) s)
          i
          (λ received.
            split_entries
              (contents (submit_all l local_time thread_id f received opened_disk path)))
          (split_entries (if truncate && is_regular_file path then [] else contents (disk path))
            ++ map (write_default_info l local_time thread_id) (taken (all_filters 0 hs) level sis))
  log_file-Reads is_regular_file can_open path name truncate level filter disk opened_disk f sis hs
        s i e w v there =
      let (same, empty) =
        subst (IsNew level) e
          (create-IsNew is_regular_file can_open path name truncate level filter disk) in
      let done = says-Serves sis hs s i f.handler v there in
      let received : f.handler.received ++ taken (all_filters 0 hs) f.handler.level sis
          ≡ taken (all_filters 0 hs) level sis =
        ap (λ r. r ++ taken (all_filters 0 hs) f.handler.level sis) empty
        ∙ ap (λ (k : LogLevel). taken (all_filters 0 hs) k sis) same in
      record {
        after = done.after;
        handlers = done.handlers;
        handler = receive (taken (all_filters 0 hs) f.handler.level sis) f.handler;
        ends = done.ends;
        runs = done.synced.runs;
        there = done.served;
        reads =
            ap
              (λ r.
                split_entries (contents (submit_all l local_time thread_id f r opened_disk path)))
              received
            ∙ create-split_entries l local_time thread_id plain is_regular_file can_open path name
                truncate level filter disk opened_disk f (taken (all_filters 0 hs) level sis) e w;
      }
