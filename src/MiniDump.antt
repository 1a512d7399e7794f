-- ===== src/MiniDump.antt =====
-- core/src/win/minidump.cpp: the crash dump of an unhandled exception on Windows.
-- What the Windows API answers is an argument; the state is what stays open, and what was written.
use warlib.Base.{
  ℕ, ◌≡◌, ◌≢◌, ◌<◌, refl, if_true, ◌+◌, ◌-◌, Bool, true, false, Option, none, some, List, [], ◌∷◌,
  ◌++◌, Text, codes, decimal, if◌then◌else◌, length, ltb, arith,
}

-- `MAX_PATH`
abbrev pub max_path : ℕ
max_path = 260

-- The process, as far as a dump is concerned: `dump_path`, the filter that is installed, the open
-- handles of files and of libraries, and the files that MiniDumpWriteDump was called on.
pub record Process : Type 0 where
  pub dump_path : Text
  pub filter_installed : Bool
  pub open_files : ℕ
  pub open_libraries : ℕ
  pub dumped : List Text

-- CreateFile gives a handle that is neither null nor invalid; LoadLibrary finds DbgHelp.dll;
-- GetProcAddress finds MiniDumpWriteDump in it.
pub record Windows : Type 0 where
  pub creates_file : Bool
  pub loads_library : Bool
  pub finds_function : Bool

-- `crashed` is the call of a null pointer.
pub data Ended : Type 0 where
  returned crashed : Process → Ended

abbrev pub write_dump : (finds_function : Bool) → Process → Ended
write_dump false p = crashed p
write_dump true p = returned (record p {
  dumped = p.dump_path ∷ p.dumped;
  open_files = p.open_files - 1;
  open_libraries = p.open_libraries - 1;
})

abbrev pub with_library : Windows → Process → Ended
with_library w p =
    if w.creates_file
    then write_dump w.finds_function p
    else returned (record p { open_libraries = p.open_libraries - 1 })

abbrev pub with_file : Windows → Process → Ended
with_file w p =
    if w.loads_library
    then with_library w (record p { open_libraries = p.open_libraries + 1 })
    else returned p

-- CreateMiniDump
unfoldable create_mini_dump : Windows → Process → Ended
create_mini_dump w p =
    with_file w (if w.creates_file then record p { open_files = p.open_files + 1 } else p)

-- `if (dump_path[0])`
unfoldable dump_if : Text → Windows → Process → Ended
unfolding create_mini_dump
dump_if [] w p = returned p
dump_if (c ∷ path) w p = create_mini_dump w p

-- UnhandledExceptionFilter, whose answer is always EXCEPTION_EXECUTE_HANDLER.
unhandled_exception_filter : Windows → Process → Ended
unfolding create_mini_dump dump_if
unhandled_exception_filter w p = dump_if p.dump_path w p

abbrev pub dump_name : (temp base_name : Text) → (time pid : ℕ) → Text
dump_name temp base_name time pid =
    temp ++ codes "\\" ++ base_name ++ decimal time ++ codes "_" ++ decimal pid ++ codes ".dmp"

-- EnableMinidump, with what GetTempPath answers; `none` is the end of the process by strcpy_s, which
-- refuses a text that does not fit with its terminating zero.
enable_minidump :
    (get_temp_path : Option Text) → (base_name : Text) → (time pid : ℕ) → Process → Option Process
enable_minidump none base_name time pid p = some p
enable_minidump (some temp) base_name time pid p =
    if ltb (length (dump_name temp base_name time pid)) max_path
    then some (record p { dump_path = dump_name temp base_name time pid; filter_installed = true })
    else none

-- A Windows on which the calls succeed.
pub record Works (w : Windows) : Type 0 where
  pub file : w.creates_file ≡ true
  pub library : w.loads_library ≡ true
  pub function : w.finds_function ≡ true

dump_if-Works :
    (path : Text) (w : Windows) (p : Process)
    → Works w
    → path ≢ []
    → dump_if path w p ≡ returned (record p { dumped = p.dump_path ∷ p.dumped })
unfolding dump_if create_mini_dump
dump_if-Works [] w p v full = absurd (full refl)
dump_if-Works (c ∷ path) w p v full =
    let a = v.file in
    let b = v.library in
    let d = v.function in
    let files : p.open_files + 1 - 1 ≡ p.open_files = omega arith in
    let libraries : p.open_libraries + 1 - 1 ≡ p.open_libraries = omega arith in
    rw (a, b, d, files, libraries) refl

dump_name-nil : (temp base_name : Text) (time pid : ℕ) → dump_name temp base_name time pid ≢ []
dump_name-nil [] base_name time pid = λ e. cc
dump_name-nil (c ∷ temp) base_name time pid = λ e. cc

-- Where the path of the dump is short enough and the calls of Windows succeed, EnableMinidump installs
-- its filter, and the filter writes one dump, to the file of that path, and closes every handle that it opened.
enable_minidump-unhandled_exception_filter :
    (temp base_name : Text) (time pid : ℕ) (p : Process) (w : Windows)
    → length (dump_name temp base_name time pid) < max_path
    → Works w
    → (q : Process) × (enable_minidump (some temp) base_name time pid p ≡ some q)
      × (q.filter_installed ≡ true)
      × (unhandled_exception_filter w q
          ≡ returned (record q { dumped = dump_name temp base_name time pid ∷ p.dumped }))
      × (q.open_files ≡ p.open_files)
      × (q.open_libraries ≡ p.open_libraries)
unfolding enable_minidump unhandled_exception_filter
enable_minidump-unhandled_exception_filter temp base_name time pid p w short v =
    let q : Process = record p {
      dump_path = dump_name temp base_name time pid;
      filter_installed = true;
    } in
    let fits : ltb (length (dump_name temp base_name time pid)) max_path ≡ true = ground arith in
    let named = dump_name-nil temp base_name time pid in
    (q, if_true _ _ _ fits, refl, dump_if-Works q.dump_path w q v named, refl, refl)
