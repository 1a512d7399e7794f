-- ===== src/Pipeline/Order.antt =====
-- The order of execution in WarPipeline.cpp when the io_context hands out its oldest handler first,
-- as one thread in `run()` does.
use warlib.Pipeline.Post.{taken, post_task-room}
use warlib.Base.{
  ◌+◌, ◌-◌, ◌%◌, ◌<◌, ◌≤◌, ◌≡◌, refl, sym, ap, ◌∙◌, false, List, [], ◌∷◌, ◌++◌, map, append-nil,
  append_assoc, length, All, replicate, Text, arith, subst,
}
use mathlib.Core.List.{reverse, reverse-cons}
use warlib.Task.{Task, post, label}
use warlib.Pipeline.{
  word, Handler, exec, executing, looping, Pipeline, Outcome, returned, exec_task,
}
use warlib.Pipeline.Thread.{
  run_task, run_call, run_handler, settle, take_handler, Move, takes, calls, is_running, step, run,
}
use warlib.Pipeline.Closing.{started}

-- Open for tasks, with a thread that takes handlers.
pub record IsOpen (p : Pipeline) : Type 0 where
  pub not_closing : p.closing ≡ false
  pub loops : p.thread ≡ looping
  pub not_stopped : p.stopped ≡ false

-- A task that does nothing to its pipeline.
abbrev pub IsQuiet : Task → Type 0
IsQuiet t = (p : Pipeline) → run_task t p ≡ (returned, p)

ran : Task → List Handler → Pipeline → Pipeline
ran t hs p = record p {
  queue = hs;
  count = (p.count + (word - 1)) % word;
  tasks_run = p.tasks_run + 1;
  events = executing (label t) ∷ p.events;
}

step-quiet :
    (t : Task) (hs : List Handler) (p : Pipeline)
    → IsOpen p
    → IsQuiet t
    → p.queue ≡ exec t ∷ hs
    → step (takes 0) p ≡ ran t hs p
unfolding step is_running take_handler run_handler exec_task settle ran
step-quiet t hs p v q e = ground (
  arith,
  q (record p {
    queue = hs;
    count = (p.count + (word - 1)) % word;
    events = executing (label t) ∷ p.events;
  }),
)

-- What is left when the tasks of the queue have run.
record Drained (ts : List Task) (p q : Pipeline) : Type 0 where
  empty : q.queue ≡ []
  emptied : q.count + length ts ≡ p.count
  all_run : q.tasks_run ≡ p.tasks_run + length ts
  in_order : started q.events ≡ reverse (map label ts) ++ started p.events
  still : q.closing ≡ p.closing

Drained-cons :
    (t : Task) (ts : List Task) (p q : Pipeline)
    → 1 ≤ p.count
    → p.count < word
    → Drained ts (ran t (map exec ts) p) q
    → Drained (t ∷ ts) p q
unfolding ran
Drained-cons t ts p q h fits d = record {
  empty = d.empty;
  emptied = omega (arith, d.emptied);
  all_run = omega (arith, d.all_run);
  in_order =
      d.in_order
      ∙ sym (append_assoc (reverse (map label ts)) (label t ∷ []) (started p.events))
      ∙ ap (λ (l : List Text). l ++ started p.events) (sym (reverse-cons (label t) (map label ts)));
  still = d.still;
}

ran-IsOpen : (t : Task) (hs : List Handler) (p : Pipeline) → IsOpen p → IsOpen (ran t hs p)
unfolding ran
ran-IsOpen t hs p v = record {
  not_closing = v.not_closing;
  loops = v.loops;
  not_stopped = v.not_stopped;
}

drain :
    (ts : List Task) (p : Pipeline)
    → IsOpen p
    → All IsQuiet ts
    → p.queue ≡ map exec ts
    → length ts ≤ p.count
    → p.count < word
    → Drained ts p (run (replicate (length ts) (takes 0)) p)
unfolding run ran
drain [] p v q e h fits = ground arith
drain (t ∷ ts) p v q e h fits =
    subst (λ (r : Pipeline). Drained (t ∷ ts) p (run (replicate (length ts) (takes 0)) r))
      (sym (step-quiet t (map exec ts) p v q.0 e))
      (Drained-cons t ts p _ (omega arith) fits (
        drain ts (ran t (map exec ts) p) (ran-IsOpen t (map exec ts) p v) q.1 refl (omega arith)
          (omega arith)))

-- Another thread posts the tasks one after the other.
abbrev pub posts : List Task → List Move
posts = map (λ t. calls (post t))

posted : List Task → Pipeline → Pipeline
posted ts p = record p { count = p.count + length ts; queue = p.queue ++ map exec ts }

posted-taken :
    (t : Task) (ts : List Task) (p : Pipeline) → posted ts (taken t p) ≡ posted (t ∷ ts) p
unfolding posted taken
posted-taken t ts p = ground (arith, append_assoc p.queue (exec t ∷ []) (map exec ts))

run-posts :
    (ts : List Task) (p : Pipeline)
    → p.closing ≡ false
    → p.count + length ts ≤ p.capacity
    → p.capacity + 1 < word
    → run (posts ts) p ≡ posted ts p
unfolding run posted step run_call
run-posts [] p c h fits = ground (arith, append-nil p.queue)
run-posts (t ∷ ts) p c h fits =
    ap (λ (r : Outcome × Pipeline). run (posts ts) r.1) (post_task-room t p c fits (omega arith))
    ∙ run-posts ts (taken t p) (unfold taken in c) (unfold taken in omega arith)
        (unfold taken in fits)
    ∙ posted-taken t ts p

-- Another thread posts tasks, not more than the capacity, to an open pipeline whose queue is empty and
-- whose count is 0, and none is taken until all are posted; then the thread takes the oldest handler
-- as often as there are tasks. In that schedule the tasks run in the order of the calls, each once,
-- and leave an empty queue and a count of 0. The capacity is below 2 ^ 64 - 1, and the tasks return
-- and do nothing to their pipeline.
pub run-posts-in_order :
    (ts : List Task) (p : Pipeline)
    → IsOpen p
    → p.queue ≡ []
    → p.count ≡ 0
    → length ts ≤ p.capacity
    → p.capacity + 1 < word
    → All IsQuiet ts
    → let q = run (replicate (length ts) (takes 0)) (run (posts ts) p) in
      (started q.events ≡ reverse (map label ts) ++ started p.events)
      × (q.tasks_run ≡ p.tasks_run + length ts)
      × (q.queue ≡ [])
      × (q.count ≡ 0)
unfolding posted
run-posts-in_order ts p v e z room fits quiet =
    subst
      (λ (r : Pipeline).
        let q = run (replicate (length ts) (takes 0)) r in
        (started q.events ≡ reverse (map label ts) ++ started p.events)
        × (q.tasks_run ≡ p.tasks_run + length ts)
        × (q.queue ≡ [])
        × (q.count ≡ 0))
      (sym (run-posts ts p v.not_closing (omega arith) fits))
      (drained (
        drain ts (posted ts p)
          (record { not_closing = v.not_closing; loops = v.loops; not_stopped = v.not_stopped })
          quiet (rw e) (omega arith) (omega arith)))
  where
    drained :
        {q : Pipeline}
        → Drained ts (posted ts p) q
        → (started q.events ≡ reverse (map label ts) ++ started p.events)
          × (q.tasks_run ≡ p.tasks_run + length ts)
          × (q.queue ≡ [])
          × (q.count ≡ 0)
    drained d = (d.in_order, d.all_run, d.empty, omega (arith, d.emptied))
