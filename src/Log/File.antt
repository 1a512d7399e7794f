-- ===== src/Log/File.antt =====
-- LogToFile and LogToStream of core/include/warlib/WarLog.h and core/src/WarLog.cpp.
-- A file is its contents, by its path; which paths are regular files, and which can be opened, is the
-- file system's business, and an argument. Every entry ends by a flush.
pub mod Contents
pub mod Splitting
pub mod Logged
use warlib.Base.{
  ℕ, Bool, true, false, ◌&&◌, Option, none, some, List, [], ◌∷◌, ◌++◌, Text, codes, text_eq,
  if◌then◌else◌,
}
use warlib.Errors.{Exn, war, handler_exception}
use warlib.Log.Level.{LogLevel, notice}
use warlib.Log.Filter.{default_enable}
use warlib.Log.Message.{Locale}
use warlib.Log.Engine.{SubmitInfo, LogEventHandler}
use warlib.Log.Output.{Tm, write_default_info}

abbrev pub Disk : Type 0
Disk = Text → Option Text

abbrev pub write : Text → Text → Disk → Disk
write path text disk q = if text_eq q path then some text else disk q

-- What is in a file, or what a file that is not there is created with.
abbrev pub contents : Option Text → Text
contents none = []
contents (some text) = text

pub data OpenMode : Type 0 where
  out_app out_trunc : OpenMode

unfoldable pub open_mode : (truncate is_regular_file : Bool) → OpenMode
open_mode truncate is_regular_file = if truncate && is_regular_file then out_trunc else out_app

-- `std::ofstream::open`
abbrev pub open_file : Text → OpenMode → Disk → Disk
open_file path out_app disk = write path (contents (disk path)) disk
open_file path out_trunc disk = write path [] disk

pub record LogToFile : Type 0 where
  pub handler : LogEventHandler
  pub path : Text

pub data Opened : Type 0 where
  opened : LogToFile → Disk → Opened
  throws : Exn → Opened

abbrev pub cannot_open : Exn
cannot_open = war handler_exception (codes "Failed to open log-file for append")

-- What can be opened, and what is a regular file.
module _ (is_regular_file can_open : Text → Bool) where
  -- The constructor, and Create.
  unfoldable pub create :
      (path : Text) → (truncate : Bool) → (name : Text) → LogLevel → (filter : ℕ) → Disk → Opened
  unfolding open_mode
  create path truncate name level filter disk =
      if can_open path
      then opened
          (record {
            handler = record { name = name; level = level; filter = filter; received = [] };
            path = path;
          })
          (open_file path (open_mode truncate (is_regular_file path)) disk)
      else throws cannot_open

module _ (l : Locale) (local_time : ℕ → Option Tm) (thread_id : Text) where
  -- LogToFile::Submit
  pub submit_to_file : LogToFile → SubmitInfo → Disk → Disk
  unfolding write_default_info
  submit_to_file f si disk =
      write f.path (contents (disk f.path) ++ write_default_info l local_time thread_id si) disk

  abbrev pub submit_all : LogToFile → List SubmitInfo → Disk → Disk
  submit_all f [] disk = disk
  submit_all f (si ∷ sis) disk = submit_all f sis (submit_to_file f si disk)

  -- LogToStream::Submit, on what the stream shows.
  submit_to_stream : SubmitInfo → (shown : Text) → Text
  unfolding write_default_info
  submit_to_stream si shown = shown ++ write_default_info l local_time thread_id si
