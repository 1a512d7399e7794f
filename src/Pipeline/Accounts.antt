-- ===== src/Pipeline/Accounts.antt =====
-- What becomes of the tasks that clients give to a pipeline of core/src/WarPipeline.cpp, for tasks that do
-- not call the pipeline themselves.
pub mod Waiting
pub mod Balance
pub mod Moves
use warlib.Base.{
  ℕ, ◌+◌, ◌%◌, ◌≡◌, refl, ap, ◌∙◌, Bool, true, false, Option, none, some, List, [], ◌∷◌, Text, leb,
  arith, if_elim, if◌then◌else◌, All, ◌-◌,
}
use warlib.Task.{
  Task, task, synchronously, with_promise, Script, return, throw, fulfil, call, Call, post,
  dispatch, post_with_timer, post_token, post_with_timer_token, post_with_promise,
  post_synchronously, close, label,
}
use warlib.Pipeline.{
  Handler, exec, exec_token, shut, Timer, Promise, unset, value, exception, Event, executing,
  dismissed, timer_failed, caught, completed, Pipeline, Outcome, returned, threw, waits, note,
  after_task, exec_task, on_timer, set_promise, set_case,
}
use warlib.Pipeline.Thread.{
  Move, takes, fires, leaves, calls, passes, run_task, run_script, and_then, run_timer, step,
}
use warlib.Pipeline.Count.{execs}

-- A script that does not call the pipeline: it sets promises, and returns or throws.
abbrev pub IsQuietScript : Script → Type 0
IsQuietScript return = Unit
IsQuietScript (throw e) = Unit
IsQuietScript (fulfil k s) = IsQuietScript s
IsQuietScript (call c s) = ⊥

abbrev pub IsLeaf : Task → Type 0
IsLeaf (task n s) = IsQuietScript s
IsLeaf (synchronously k t) = ⊥
IsLeaf (with_promise k t) = ⊥

-- A move of clients that give such tasks to Post, Dispatch and PostWithTimer, and call Close.
abbrev pub IsClient : Move → Type 0
IsClient (calls (post t)) = IsLeaf t
IsClient (calls (dispatch t)) = IsLeaf t
IsClient (calls (post_with_timer t ms)) = IsLeaf t
IsClient (calls close) = Unit
IsClient (calls c) = ⊥
IsClient m = Unit

-- Tasks are counted by a weight of their names.
module _ (w : Text → ℕ) where
  -- What a move gives to the pipeline.
  abbrev pub asked : Move → ℕ
  asked (calls (post t)) = w (label t)
  asked (calls (dispatch t)) = w (label t)
  asked (calls (post_with_timer t ms)) = w (label t)
  asked m = 0

  abbrev no_room : Pipeline → Task → ℕ
  no_room p t = if p.closing then 0 else (if leb p.capacity (execs p.queue) then w (label t) else 0)

  -- What a move gives to an open pipeline in which as many tasks wait as its capacity is.
  abbrev pub refused : Move → Pipeline → ℕ
  refused (calls (post t)) p = no_room p t
  refused (calls (dispatch t)) p = no_room p t
  refused m p = 0

  abbrev pub all_refused : List Move → Pipeline → ℕ
  all_refused [] p = 0
  all_refused (m ∷ ms) p = refused m p + all_refused ms (step m p)

  -- The executions that have begun, the dismissals, and the failures of timers.
  abbrev pub begun : List Event → ℕ
  begun [] = 0
  begun (executing n ∷ es) = w n + begun es
  begun (e ∷ es) = begun es

  abbrev pub dropped : List Event → ℕ
  dropped [] = 0
  dropped (dismissed n ∷ es) = w n + dropped es
  dropped (e ∷ es) = dropped es

  abbrev pub failures : List Event → ℕ
  failures [] = 0
  failures (timer_failed n ∷ es) = w n + failures es
  failures (e ∷ es) = failures es

  -- What waits in the queue, and with a timer.
  abbrev pub waiting : List Handler → ℕ
  waiting [] = 0
  waiting (exec t ∷ hs) = w (label t) + waiting hs
  waiting (h ∷ hs) = waiting hs

  abbrev pub timed : List Timer → ℕ
  timed [] = 0
  timed (t ∷ ts) = w (label t.job) + timed ts

  -- `q` is `p` with the weight `x` begun, dismissed or failed; nothing is dismissed while it is open.
  pub record Settles (x : ℕ) (p q : Pipeline) : Type 0 where
    pub queue : q.queue ≡ p.queue
    pub timers : q.timers ≡ p.timers
    pub closing : q.closing ≡ p.closing
    pub sum :
        begun q.events + dropped q.events + failures q.events
        ≡ x + (begun p.events + dropped p.events + failures p.events)
    pub early : p.closing ≡ false → dropped q.events ≡ dropped p.events

  set_promise-Settles : (k : ℕ) (v : Promise) (p : Pipeline) → Settles 0 p (set_promise k v p).1
  unfolding set_promise
  set_promise-Settles k v p =
      elim (p.promises k) as (λ (o : Promise). Settles 0 p (set_case o k v p).1) [
        | unset ↦ ground arith
        | value ↦ ground arith
        | exception e ↦ ground arith
      ]

  Settles-then : {p q r : Pipeline} → Settles 0 p q → Settles 0 q r → Settles 0 p r
  Settles-then a b = ground arith

  then-Settles :
      (s : Script) (p : Pipeline) (r : Outcome × Pipeline)
      → Settles 0 p r.1
      → ((q : Pipeline) → Settles 0 q (run_script s q).1)
      → Settles 0 p (and_then r (run_script s)).1
  then-Settles s p (returned, q) v f = Settles-then v (f q)
  then-Settles s p (threw e, q) v f = v
  then-Settles s p (waits k, q) v f = v

  run_script-Settles :
      (s : Script) → IsQuietScript s → (p : Pipeline) → Settles 0 p (run_script s p).1
  unfolding run_script
  run_script-Settles return h p = ground arith
  run_script-Settles (throw e) h p = ground arith
  run_script-Settles (fulfil k s) h p =
      then-Settles s p (set_promise k value p) (set_promise-Settles k value p)
        (run_script-Settles s h)
  run_script-Settles (call c s) h p = elim h [ ]

  after_task-Settles :
      (x : ℕ) (p : Pipeline) (r : Outcome × Pipeline)
      → Settles x p r.1
      → Settles x p (after_task true r).1
  after_task-Settles x p (returned, q) v = ground arith
  after_task-Settles x p (threw e, q) v = ground arith
  after_task-Settles x p (waits k, q) v = v

  run_task-Settles : (t : Task) → IsLeaf t → (p : Pipeline) → Settles 0 p (run_task t p).1
  unfolding run_task
  run_task-Settles (task n s) h p = run_script-Settles s h p
  run_task-Settles (synchronously k t) h p = elim h [ ]
  run_task-Settles (with_promise k t) h p = elim h [ ]

  began-Settles :
      (t : Task) (p q : Pipeline)
      → IsLeaf t
      → p.closing ≡ false
      → q.queue ≡ p.queue
      → q.timers ≡ p.timers
      → q.closing ≡ p.closing
      → q.events ≡ executing (label t) ∷ p.events
      → Settles (w (label t)) p (after_task true (run_task t q)).1
  began-Settles t p q h c a b d e =
      let b0 = ap begun e in
      let d0 = ap dropped e in
      let f0 = ap failures e in
      after_task-Settles (w (label t)) p (run_task t q)
        (let v = run_task-Settles t h q in ground arith)

  -- ExecTask_ begins the task once, or dismisses it.
  pub exec_task-Settles :
      (t : Task) (counting : Bool) (p : Pipeline)
      → IsLeaf t
      → Settles (w (label t)) p (exec_task (label t) (run_task t) counting true p).1
  unfolding exec_task
  exec_task-Settles t true p h =
      if_elim (λ (r : Outcome × Pipeline). Settles (w (label t)) p r.1) p.closing _ _
        (λ c. ground arith) (λ c. began-Settles t p _ h c refl refl refl refl)
  exec_task-Settles t false p h =
      if_elim (λ (r : Outcome × Pipeline). Settles (w (label t)) p r.1) p.closing _ _
        (λ c. ground arith) (λ c. began-Settles t p _ h c refl refl refl refl)
