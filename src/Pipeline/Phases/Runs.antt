-- ===== src/Pipeline/Phases/Runs.antt =====
-- The moves of a pipeline of core/src/WarPipeline.cpp keep what Phases says of it.
use warlib.Base.{
  ℕ, ◌+◌, ◌≡◌, ◌≤◌, refl, false, not, ◌&&◌, ◌||◌, Option, none, some, List, [], ◌∷◌, Text, arith,
  if_elim, ltb,
}
use warlib.Pipeline.{Handler, exec, exec_token, shut, Pipeline, Outcome, init, shut_down}
use warlib.Pipeline.Thread.{
  take_handler, run_handler, take_at, Move, takes, fires, leaves, calls, passes, is_running,
  may_leave, step, run,
}
use warlib.Pipeline.Stable.{run_call-keeps}
use warlib.Pipeline.Stable.Moves.{
  IsBlind, exec-keeps, exec_token-keeps, settle-keeps, fire_timer-keeps,
}
use warlib.Pipeline.Getters.{is_closed, is_closing, get_capacity, get_id, get_name}
use warlib.Pipeline.Phases.{is_shut, shuts, one_if, shuts-take_at, HasPhase, HasPhase-IsStable}

module _ (name : Text) (id : Option ℕ) (cap : ℕ) where
  abbrev Has : Pipeline → Type 0
  Has = HasPhase name id cap

  abbrev After : Outcome × Pipeline → Type 0
  After r = Has r.1

  Has-IsBlind : IsBlind Has
  Has-IsBlind = record {
    stable = HasPhase-IsStable name id cap;
    blind = λ p count tasks_run now events timers thread v. v;
  }

  run_handler-HasPhase :
      (h : Handler) (rest : List Handler) (p : Pipeline)
      → shuts p.queue ≡ is_shut h + shuts rest
      → Has p
      → After (run_handler h (record p { queue = rest }))
  unfolding run_handler shut_down
  run_handler-HasPhase (exec t) rest p e v =
      (exec-keeps Has Has-IsBlind t).at (record p { queue = rest }) (ground arith)
  run_handler-HasPhase (exec_token t k) rest p e v =
      (exec_token-keeps Has Has-IsBlind t k).at (record p { queue = rest }) (ground arith)
  run_handler-HasPhase shut rest p e v =
      if_elim Has p.closed _ _ (λ c. ground arith) (λ c. ground arith)

  take_handler-HasPhase :
      (i : ℕ) (o : Option (Handler × List Handler)) (p : Pipeline)
      → take_at i p.queue ≡ o
      → Has p
      → Has (take_handler o p)
  unfolding take_handler
  take_handler-HasPhase i none p e v = v
  take_handler-HasPhase i (some (h, rest)) p e v =
      settle-keeps Has Has-IsBlind _ (run_handler-HasPhase h rest p (shuts-take_at i p.queue e) v)

  step-HasPhase : (m : Move) → (p : Pipeline) → Has p → Has (step m p)
  unfolding step
  step-HasPhase (takes i) p v =
      if_elim Has (is_running p.thread && not p.stopped) _ _
        (λ e. take_handler-HasPhase i (take_at i p.queue) p refl v) (λ e. v)
  step-HasPhase (fires i error) p v =
      if_elim Has (is_running p.thread && not p.stopped) _ _
        (λ e. fire_timer-keeps Has Has-IsBlind (take_at i p.timers) error p v) (λ e. v)
  step-HasPhase leaves p v = if_elim Has (is_running p.thread && may_leave p) _ _ (λ e. v) (λ e. v)
  step-HasPhase (calls c) p v = (run_call-keeps Has (HasPhase-IsStable name id cap) c false).at p v
  step-HasPhase (passes n) p v = v

  run-HasPhase : (ms : List Move) (p : Pipeline) → Has p → Has (run ms p)
  unfolding run
  run-HasPhase [] p v = v
  run-HasPhase (m ∷ ms) p v = run-HasPhase ms (step m p) (step-HasPhase m p v)

  init-HasPhase : Has (init name id cap)
  unfolding init
  init-HasPhase = ground arith

-- Over any moves of a new pipeline: GetName, GetId and GetCapacity give what its constructor was given;
-- it is stopped, and its work guard reset, just if it is closed; IsClosing holds just if it is
-- closed or a handler of Close waits; and of those there is at most one, and none when it is closed.
pub run-phases :
    (name : Text) (id : Option ℕ) (cap : ℕ) (ms : List Move)
    → let p = run ms (init name id cap) in
      (get_name p ≡ name)
      × (get_id p ≡ id)
      × (get_capacity p ≡ cap)
      × (p.stopped ≡ is_closed p)
      × (p.work_guard ≡ not (is_closed p))
      × (is_closing p ≡ (is_closed p || ltb 0 (shuts p.queue)))
      × (shuts p.queue + one_if (is_closed p) ≤ 1)
run-phases name id cap ms =
    let v = run-HasPhase name id cap ms (init name id cap) (init-HasPhase name id cap) in
    ground arith
