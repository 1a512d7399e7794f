-- ===== src/Pipeline/Shutdown.antt =====
-- From Close to the return of WaitUntilClosed, in WarPipeline.cpp.
use warlib.Base.{
  ℕ, zero, suc, ◌+◌, ◌-◌, ◌%◌, ◌≡◌, refl, sym, ap, subst, true, false, List, [], ◌∷◌, ◌++◌, length,
  replicate, arith, if_false, length-append,
}
use warlib.Task.{Task, close, label}
use warlib.Pipeline.{
  word, Handler, exec, exec_token, shut, looping, ended, Pipeline, Outcome, dismissed, completed,
  exec_task, close_pipeline, shut_down, unset, enqueue, note,
}
use warlib.Pipeline.Thread.{
  run_call, run_handler, settle, take_handler, Move, takes, leaves, calls, is_running, may_leave,
  may_return, step, run,
}
use warlib.Pipeline.Closing.{started, IsFrozen, run-IsFrozen}

-- Close has been called, and its lambda waits in the queue.
record IsDying (p : Pipeline) : Type 0 where
  closing : p.closing ≡ true
  open_still : p.closed ≡ false
  loops : p.thread ≡ looping
  not_stopped : p.stopped ≡ false

-- The lambda has run.
record IsDown (p : Pipeline) : Type 0 where
  closed : p.closed ≡ true
  loops : p.thread ≡ looping
  stopped : p.stopped ≡ true

dismissal : Task → Pipeline → Pipeline
dismissal t p = record p {
  count = (p.count + (word - 1)) % word;
  events = dismissed (label t) ∷ p.events;
}

-- A closing pipeline dismisses a handler.
dropped : Handler → Pipeline → Pipeline
unfolding dismissal shut_down
dropped (exec t) p = dismissal t p
dropped (exec_token t k) p = note (completed k true) (dismissal t p)
dropped shut p = shut_down p

step-dropped :
    (h : Handler) (hs : List Handler) (p : Pipeline)
    → IsDying p
    → p.queue ≡ h ∷ hs
    → step (takes 0) p ≡ dropped h (record p { queue = hs })
unfolding step is_running take_handler run_handler exec_task settle dropped
step-dropped (exec t) hs p v e = ground arith
step-dropped (exec_token t k) hs p v e = ground arith
step-dropped shut hs p v e = ground arith

step-IsDown : (p : Pipeline) → IsDown p → IsDown (step (takes 0) p)
unfolding step is_running
step-IsDown p v = ground arith

run-IsDown : (n : ℕ) (p : Pipeline) → IsDown p → IsDown (run (replicate n (takes 0)) p)
unfolding run
run-IsDown zero p v = v
run-IsDown (suc n) p v = run-IsDown n (step (takes 0) p) (step-IsDown p v)

shut_down-IsDown : (p : Pipeline) → IsDying p → IsDown (shut_down p)
unfolding shut_down
shut_down-IsDown p v = ground arith

-- The rest of the queue, after one handler.
dropped-IsDown :
    (h : Handler) (hs : List Handler) (p : Pipeline)
    → IsDying p
    → p.queue ≡ hs ++ shut ∷ []
    → ((q : Pipeline)
        → IsDying q
        → q.queue ≡ hs ++ shut ∷ []
        → IsDown (run (replicate (suc (length hs)) (takes 0)) q))
    → IsDown (run (replicate (suc (length hs)) (takes 0)) (dropped h p))
unfolding dropped
dropped-IsDown (exec t) hs p v e rest = rest (dismissal t p) (unfold dismissal in ground arith) e
dropped-IsDown (exec_token t k) hs p v e rest =
    rest (note (completed k true) (dismissal t p)) (unfold dismissal in ground arith) e
dropped-IsDown shut hs p v e rest =
    run-IsDown (suc (length hs)) (shut_down p) (shut_down-IsDown p v)

run-dying :
    (hs : List Handler) (p : Pipeline)
    → IsDying p
    → p.queue ≡ hs ++ shut ∷ []
    → IsDown (run (replicate (suc (length hs)) (takes 0)) p)
unfolding run
run-dying [] p v e =
    subst IsDown (sym (step-dropped shut [] p v e))
      (unfold dropped in shut_down-IsDown (record p { queue = [] }) (ground arith))
run-dying (h ∷ hs) p v e =
    subst (λ (q : Pipeline). IsDown (run (replicate (suc (length hs)) (takes 0)) q))
      (sym (step-dropped h (hs ++ shut ∷ []) p v e))
      (dropped-IsDown h hs (record p { queue = hs ++ shut ∷ [] }) (ground arith) refl
        (run-dying hs))

closed_by : Pipeline → Pipeline
closed_by p = record (enqueue shut p) { closing = true }

close_pipeline-open : (p : Pipeline) → p.closing ≡ false → step (calls close) p ≡ closed_by p
unfolding step run_call close_pipeline closed_by
close_pipeline-open p c = ap (λ (r : Outcome × Pipeline). r.1) (if_false p.closing _ _ c)

-- The moves of an orderly end: Close, each waiting handler in turn, then the lambda of Close, and the
-- return of `run()`.
abbrev pub orderly : Pipeline → List Move
orderly p = calls close ∷ replicate (suc (length p.queue)) (takes 0) ++ leaves ∷ []

pub run-append : (ms ns : List Move) (p : Pipeline) → run (ms ++ ns) p ≡ run ns (run ms p)
unfolding run
run-append [] ns p = refl
run-append (m ∷ ms) ns p = run-append ms ns (step m p)

leaves-ends :
    (p : Pipeline)
    → IsDown p
    → (run (leaves ∷ []) p).thread ≡ ended × ((run (leaves ∷ []) p).closed ≡ true)
unfolding run step is_running may_leave
leaves-ends p v = ground arith

closed_by-IsDying :
    (p : Pipeline)
    → p.closed ≡ false
    → p.thread ≡ looping
    → p.stopped ≡ false
    → IsDying (closed_by p)
unfolding closed_by
closed_by-IsDying p o l s = record { closing = refl; open_still = o; loops = l; not_stopped = s }

orderly-down :
    (p : Pipeline)
    → IsDying (closed_by p)
    → let q = run (replicate (suc (length p.queue)) (takes 0) ++ leaves ∷ []) (closed_by p) in
      (q.thread ≡ ended) × (q.closed ≡ true)
unfolding closed_by
orderly-down p v =
    subst (λ (q : Pipeline). (q.thread ≡ ended) × (q.closed ≡ true))
      (sym (run-append (replicate (suc (length p.queue)) (takes 0)) (leaves ∷ []) (closed_by p)))
      (leaves-ends _ (run-dying p.queue (closed_by p) v refl))

-- After Close of an open pipeline, as many steps as handlers wait, and the return of `run()`.
pub winding_up-ends :
    (p : Pipeline)
    → p.closing ≡ false
    → p.closed ≡ false
    → p.thread ≡ looping
    → p.stopped ≡ false
    → let q = (close_pipeline p).1 in
      (run (replicate (length q.queue) (takes 0) ++ leaves ∷ []) q).thread ≡ ended
unfolding close_pipeline closed_by
winding_up-ends p c o l s =
    let e : suc (length p.queue) ≡ length (p.queue ++ shut ∷ []) =
      omega (arith, length-append p.queue (shut ∷ [])) in
    subst
      (λ (q : Pipeline).
        (run (replicate (length q.queue) (takes 0) ++ leaves ∷ []) q).thread ≡ ended)
      (sym (ap (λ (r : Outcome × Pipeline). r.1) (if_false p.closing _ _ c)))
      (subst (λ (n : ℕ). (run (replicate n (takes 0) ++ leaves ∷ []) (closed_by p)).thread ≡ ended)
        e (orderly-down p (closed_by-IsDying p o l s)).0)

-- Close of an open pipeline whose thread is in its loop, with any tasks in the queue, and whose
-- io_context is not stopped: as many steps of the thread as handlers wait, and one more, bring
-- `closed_`, the end of the thread and the return of WaitUntilClosed; no waiting task is executed,
-- and a promise that was not set, such as that of a PostSynchronously that waits, is never set.
pub close-ends :
    (p : Pipeline) (k : ℕ)
    → p.closing ≡ false
    → p.closed ≡ false
    → p.thread ≡ looping
    → p.stopped ≡ false
    → p.promises k ≡ unset
    → let q = run (orderly p) p in
      (may_return q.thread ≡ true)
      × (q.closed ≡ true)
      × (started q.events ≡ started p.events)
      × (q.tasks_run ≡ p.tasks_run)
      × (q.promises k ≡ unset)
unfolding run closed_by may_return
close-ends p k c o l s u =
    subst
      (λ (r : Pipeline).
        let q = run (replicate (suc (length p.queue)) (takes 0) ++ leaves ∷ []) r in
        (may_return q.thread ≡ true)
        × (q.closed ≡ true)
        × (started q.events ≡ started p.events)
        × (q.tasks_run ≡ p.tasks_run)
        × (q.promises k ≡ unset))
      (sym (close_pipeline-open p c))
      (ended-frozen (orderly-down p (closed_by-IsDying p o l s)) (
        run-IsFrozen (started p.events) p.tasks_run k
          (replicate (suc (length p.queue)) (takes 0) ++ leaves ∷ []) (closed_by p)
          (record { is_closing = refl; same_names = refl; same_runs = refl; not_set = u })))
  where
    ended-frozen :
        {q : Pipeline}
        → (q.thread ≡ ended) × (q.closed ≡ true)
        → IsFrozen (started p.events) p.tasks_run k q
        → (may_return q.thread ≡ true)
          × (q.closed ≡ true)
          × (started q.events ≡ started p.events)
          × (q.tasks_run ≡ p.tasks_run)
          × (q.promises k ≡ unset)
    ended-frozen e v = (rw e.0, e.1, v.same_names, v.same_runs, v.not_set)
