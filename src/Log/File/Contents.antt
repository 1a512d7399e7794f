-- ===== src/Log/File/Contents.antt =====
-- What stands in the file of a LogToFile of core/src/WarLog.cpp.
use warlib.Base.{
  ℕ, ◌≡◌, sym, ap, ◌∙◌, subst, Bool, ◌&&◌, Option, some, List, [], ◌∷◌, ◌++◌, Text, text_eq_refl,
  append-nil, append_assoc, if_true, if_elim, if◌then◌else◌, if_false,
}
use warlib.Log.Level.{LogLevel}
use warlib.Log.Message.{Locale}
use warlib.Log.Engine.{SubmitInfo}
use warlib.Log.Output.{Tm, write_default_info}
use warlib.Log.File.{
  Disk, write, contents, OpenMode, out_app, out_trunc, open_mode, open_file, LogToFile, Opened,
  opened, throws, create, submit_to_file, submit_all,
}

write-here : (path text : Text) (disk : Disk) → write path text disk path ≡ some text
write-here path text disk = if_true _ _ _ (text_eq_refl path)

-- The entries of some messages, one behind the other.
abbrev pub entries : Locale → (ℕ → Option Tm) → Text → List SubmitInfo → Text
entries l local_time thread_id [] = []
entries l local_time thread_id (si ∷ sis) =
    write_default_info l local_time thread_id si ++ entries l local_time thread_id sis

module _ (l : Locale) (local_time : ℕ → Option Tm) (thread_id : Text) where
  submit_all-contents :
      (f : LogToFile) (sis : List SubmitInfo) (disk : Disk) (text : Text)
      → disk f.path ≡ some text
      → submit_all l local_time thread_id f sis disk f.path
        ≡ some (text ++ entries l local_time thread_id sis)
  unfolding submit_to_file
  submit_all-contents f [] disk text e = e ∙ ap some (sym (append-nil text))
  submit_all-contents f (si ∷ sis) disk text e =
      submit_all-contents f sis (submit_to_file l local_time thread_id f si disk)
        (text ++ write_default_info l local_time thread_id si)
        (write-here f.path _ disk
          ∙ ap
              (λ (o : Option Text).
                some (contents o ++ write_default_info l local_time thread_id si))
              e)
      ∙ ap some (append_assoc text (write_default_info l local_time thread_id si) _)

  open_file-contents :
      (path : Text) (truncate regular : Bool) (disk : Disk)
      → open_file path (open_mode truncate regular) disk path
        ≡ some (if truncate && regular then [] else contents (disk path))
  unfolding open_mode
  open_file-contents path truncate regular disk =
      if_elim
        (λ (m : OpenMode).
          open_file path m disk path
          ≡ some (if truncate && regular then [] else contents (disk path)))
        (truncate && regular) out_trunc out_app
        (λ e. write-here path [] disk ∙ ap some (sym (if_true _ _ _ e)))
        (λ e. write-here path _ disk ∙ ap some (sym (if_false _ _ _ e)))

  module _ (path : Text) (now : Text) (sis : List SubmitInfo) where
    abbrev IsWritten : Opened → Type 0
    IsWritten (opened f after) =
        submit_all l local_time thread_id f sis after path
        ≡ some (now ++ entries l local_time thread_id sis)
    IsWritten (throws x) = Unit

  -- A log file that was opened holds, after any messages, what was in it before, unless it was
  -- truncated, and then the entry of each message, in their order. It is truncated exactly if that
  -- was asked for and the path is a regular file.
  pub create-submit_all :
      (is_regular_file can_open : Text → Bool) (path name : Text) (truncate : Bool)
      (level : LogLevel) (filter : ℕ) (disk after : Disk) (f : LogToFile) (sis : List SubmitInfo)
      → create is_regular_file can_open path truncate name level filter disk ≡ opened f after
      → submit_all l local_time thread_id f sis after path
        ≡ some (
            (if truncate && is_regular_file path then [] else contents (disk path))
            ++ entries l local_time thread_id sis)
  unfolding create
  create-submit_all is_regular_file can_open path name truncate level filter disk after f sis e =
      let now = if truncate && is_regular_file path then [] else contents (disk path) in
      subst (IsWritten path now sis) e (
        if_elim (IsWritten path now sis) (can_open path) _ _
          (λ p.
            submit_all-contents _ sis _ now
              (open_file-contents path truncate (is_regular_file path) disk))
          (λ p. tt))
