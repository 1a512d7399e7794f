-- ===== src/Pipeline/Start.antt =====
-- The constructor and the destructor of WarPipeline.cpp, and the part of Run before its loop: pinning, the name of the
-- thread, and the hand-over of early exceptions.
-- What the system answers is an argument: whether `pthread_setaffinity_np` takes a set of CPUs, and
-- the exception that the set-up of the thread throws, if any.
use warlib.Base.{
  ℕ, ◌*◌, ◌≤◌, ◌<◌, ◌≡◌, refl, fun_ext, Bool, true, false, ◌&&◌, Option, none, some, Text, ltb,
  ◌==◌, arith, if◌then◌else◌, if_elim,
}
use warlib.Errors.{Exn}
use warlib.Pipeline.{Pipeline, Status, ended, init}

-- `cpu_set_t`
abbrev pub CpuSet : Type 0
CpuSet = ℕ → Bool

-- `cpu_set_t cs{}` and CPU_SET
abbrev pub only : (cpu : ℕ) → CpuSet
only cpu k = k == cpu

-- The part of a set that lies in its first `size` bytes.
abbrev pub first_bytes : (size : ℕ) → CpuSet → CpuSet
first_bytes size s k = s k && ltb k (8 * size)

pub data Pinning : Type 0 where
  not_asked pinned failed : Pinning

-- The block that pins the thread; the second argument of the system call is 1.
pub pin_thread : (set_affinity : CpuSet → Bool) → (pin_to : Option ℕ) → Pinning
pin_thread set_affinity none = not_asked
pin_thread set_affinity (some cpu) =
    if set_affinity (first_bytes 1 (only cpu)) then pinned else failed

-- How the constructor ends. After an early exception `future.get()` throws in the constructor, whose
-- `thread_` is destroyed without a join, and that ends the program.
pub data Constructed : Type 0 where
  constructed : Pinning → Pipeline → Constructed
  terminates : Exn → Constructed

construct_pipeline :
    (set_affinity : CpuSet → Bool)
    → (early : Option Exn) → Text
    → Option ℕ
    → ℕ
    → (pin_to : Option ℕ) → Constructed
unfolding pin_thread init
construct_pipeline set_affinity none name id capacity pin_to =
    constructed (pin_thread set_affinity pin_to) (init name id capacity)
construct_pipeline set_affinity (some e) name id capacity pin_to = terminates e

-- ~Pipeline joins the thread, and comes back when the thread has ended.
unfoldable pub joins : Status → Bool
joins ended = true
joins s = false

-- A system that refuses a set without a CPU.
pub record RefusesEmpty (set_affinity : CpuSet → Bool) : Type 0 where
  pub refuses : set_affinity (λ k. false) ≡ false

first_bytes-low : (cpu : ℕ) → cpu < 8 → first_bytes 1 (only cpu) ≡ only cpu
first_bytes-low cpu h = fun_ext (λ k. ground arith)

first_bytes-high : (cpu : ℕ) → 8 ≤ cpu → first_bytes 1 (only cpu) ≡ (λ k. false)
first_bytes-high cpu h = fun_ext (λ k. ground arith)

-- A CPU below 8 is asked for as it is; for any other CPU the thread is never pinned, on a system that
-- refuses a set without a CPU, since only the first byte of the set is passed on.
pub pin_thread_lem :
    (set_affinity : CpuSet → Bool) (cpu : ℕ)
    → RefusesEmpty set_affinity
    → pin_thread set_affinity (some cpu)
      ≡ (if ltb cpu 8 then (if set_affinity (only cpu) then pinned else failed) else failed)
unfolding pin_thread
pin_thread_lem set_affinity cpu r =
    if_elim
      (λ (x : Pinning). (if set_affinity (first_bytes 1 (only cpu)) then pinned else failed) ≡ x)
      (ltb cpu 8) (if set_affinity (only cpu) then pinned else failed) failed
      (λ low. let e = first_bytes-low cpu (ground arith) in rw e refl)
      (λ high. let e = first_bytes-high cpu (ground arith) in let n = r.refuses in rw (e, n) refl)
