-- ===== src/ThreadName.antt =====
-- SetThreadName of core/include/warlib/debug_helper.h, on Linux and on Windows.
-- `prctl` is the system's: the name that a thread bears after PR_SET_NAME.
use warlib.Base.{
  ℕ, Bool, true, false, Option, some, none, ◌≤◌, ◌≡◌, Text, length, leb, if◌then◌else◌,
}
use warlib.Errors.Asserts.{Build, debug_build, release_build}

pub data Named : Type 0 where
  named : Text → Named
  asserts : Named

module _ (prctl : Text → Text) where
  -- SetThreadName
  unfoldable pub set_thread_name : Build → (thread_name : Text) → Named
  set_thread_name debug_build thread_name =
      if leb (length thread_name) 16 then named (prctl thread_name) else asserts
  set_thread_name release_build thread_name = named (prctl thread_name)

-- A system that keeps a name of at most 15 bytes as it is; with the zero behind it, these are 16.
pub record KeepsShort (prctl : Text → Text) : Type 0 where
  pub keeps : (thread_name : Text) → length thread_name ≤ 15 → prctl thread_name ≡ thread_name

-- THREADNAME_INFO
pub record ThreadnameInfo : Type 0 where
  pub dw_type : ℕ
  pub sz_name : Text
  pub dw_thread_id : ℕ
  pub dw_flags : ℕ

-- MS_VC_EXCEPTION
abbrev ms_vc_exception : ℕ
ms_vc_exception = 1080890248

-- SetThreadName on Windows: the exception that the debugger sees, if there is one. The handler around
-- RaiseException lets none of it out. -1 in a DWORD is the calling thread.
set_thread_name_for_debugger :
    (is_debugger_present : Bool) → (name : Text) → Option (ℕ × ThreadnameInfo)
set_thread_name_for_debugger true name = some (
  ms_vc_exception,
  record { dw_type = 4096; sz_name = name; dw_thread_id = 4294967295; dw_flags = 0 },
)
set_thread_name_for_debugger false name = none
