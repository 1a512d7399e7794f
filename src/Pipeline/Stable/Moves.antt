-- ===== src/Pipeline/Stable/Moves.antt =====
-- A property that every task keeps, and that only looks at the queue, the promises and the flags of a
-- pipeline of core/src/WarPipeline.cpp, is kept by its handlers and its timers.
use warlib.Base.{ℕ, Bool, true, false, not, ◌&&◌, Option, none, some, List, leb, if_elim, ◌∷◌}
use warlib.Task.{Task, label}
use warlib.Pipeline.{
  exec, exec_token, Timer, Event, Status, Pipeline, Outcome, returned, threw, waits, exec_task,
  on_timer,
}
use warlib.Pipeline.Thread.{
  complete, complete_timer, fire_timer, run_task, run_handler, run_timer, settle,
}
use warlib.Pipeline.Stable.{Keeps, IsStable, run_task-keeps}

pub record IsBlind (P : Pipeline → Type 0) : Type 0 where
  pub stable : IsStable P
  pub blind :
      (p : Pipeline) (count tasks_run now : ℕ) (events : List Event) (timers : List Timer)
      (thread : Status)
      → P p
      → P (record p {
        count = count;
        tasks_run = tasks_run;
        now = now;
        events = events;
        timers = timers;
        thread = thread;
      })

module _ (P : Pipeline → Type 0) (b : IsBlind P) where
  abbrev After : Outcome × Pipeline → Type 0
  After r = P r.1

  pub complete-keeps :
      (k : ℕ) (ok : Bool) (r : Outcome × Pipeline) → After r → After (complete k ok r)
  complete-keeps k ok (returned, p) v =
      b.blind p p.count p.tasks_run p.now (Event.completed k ok ∷ p.events) p.timers p.thread v
  complete-keeps k ok (threw e, p) v = v
  complete-keeps k ok (waits j, p) v = v

  complete_timer-keeps :
      (token : Option ℕ) (error : Bool) (r : Outcome × Pipeline)
      → After r
      → After (complete_timer token error r)
  complete_timer-keeps none error r v = v
  complete_timer-keeps (some k) error r v = complete-keeps k (not error) r v

  pub settle-keeps : (r : Outcome × Pipeline) → After r → P (settle r)
  unfolding settle
  settle-keeps (returned, p) v = v
  settle-keeps (threw e, p) v =
      b.blind p p.count p.tasks_run p.now (Event.caught e ∷ p.events) p.timers Status.ended v
  settle-keeps (waits k, p) v =
      b.blind p p.count p.tasks_run p.now p.events p.timers (Status.stuck k) v

  task_of-keeps : (t : Task) → Keeps P (exec_task (label t) (run_task t) false true)
  task_of-keeps t = b.stable.executed (label t) (run_task t) true (run_task-keeps P b.stable t)

  counted-keeps : (t : Task) → Keeps P (exec_task (label t) (run_task t) true true)
  unfolding exec_task
  counted-keeps t = record {
    at = λ p v. (task_of-keeps t).at _ (b.blind p _ p.tasks_run p.now p.events p.timers p.thread v);
  }

  -- A handler that is not that of Close.
  pub exec-keeps : (t : Task) → Keeps P (run_handler (exec t))
  unfolding run_handler
  exec-keeps t = record { at = (counted-keeps t).at }

  pub exec_token-keeps : (t : Task) (k : ℕ) → Keeps P (run_handler (exec_token t k))
  unfolding run_handler
  exec_token-keeps t k = record { at = λ p v. complete-keeps k true _ ((counted-keeps t).at p v) }

  run_timer-keeps : (t : Timer) (error : Bool) → Keeps P (run_timer t error)
  unfolding run_timer on_timer
  run_timer-keeps t error = record {
    at = λ p v. complete_timer-keeps t.token error _ (
        if_elim After error _ _ (λ e. b.blind p p.count p.tasks_run p.now _ p.timers p.thread v)
          (λ e. (task_of-keeps t.job).at p v));
  }

  pub fire_timer-keeps :
      (o : Option (Timer × List Timer)) (error : Bool) (p : Pipeline)
      → P p
      → P (fire_timer o error p)
  unfolding fire_timer
  fire_timer-keeps none error p v = v
  fire_timer-keeps (some (t, rest)) error p v =
      if_elim P (not error && not (leb t.expires p.now)) _ _ (λ early. v)
        (λ due. settle-keeps _ (
          (run_timer-keeps t error).at _
            (b.blind p p.count p.tasks_run p.now p.events rest p.thread v)))
