-- ===== src/Pipeline/Work/Termination.antt =====
-- The loop `io_context_->run()` of WarPipeline.cpp against the work that waits.
use warlib.Base.{
  ℕ, zero, suc, ◌+◌, ◌≤◌, ◌<◌, ◌≡◌, refl, sym, ap, ◌∙◌, subst, ◌⊎◌, inl, inr, Bool, true, false,
  not, ◌&&◌, List, [], ◌∷◌, arith, if_elim, Bool-cases, replicate, if_false, if_true,
}
use warlib.Task.{Task, label}
use warlib.Pipeline.{
  Handler, exec, exec_token, shut, Pipeline, Outcome, returned, threw, waits, exec_task, shut_down,
}
use warlib.Pipeline.Thread.{
  complete, run_task, run_handler, settle, take_handler, takes, is_running, step, run, take_at,
}
use warlib.Pipeline.Work.{task_work, work}
use warlib.Pipeline.Work.Adds.{Within, exec_task-Adds, run_task-Adds}

settle-work : (n : ℕ) (r : Outcome × Pipeline) → Within n r → work (settle r).queue ≤ n
unfolding settle
settle-work n (returned, p) h = h
settle-work n (threw e, p) h = h
settle-work n (waits j, p) h = h

complete-Within :
    (j n : ℕ) (ok : Bool) (r : Outcome × Pipeline) → Within n r → Within n (complete j ok r)
complete-Within j n ok (returned, p) h = h
complete-Within j n ok (threw e, p) h = h
complete-Within j n ok (waits i, p) h = h

counted-Within :
    (t : Task) (p : Pipeline) (rest : List Handler)
    → Within
        (work rest + task_work t)
        (exec_task (label t) (run_task t) true true (record p { queue = rest }))
counted-Within t p rest =
    (exec_task-Adds (label t) (task_work t) (run_task t) true true (run_task-Adds t)).at
      (record p { queue = rest })

work_pos : (h : Handler) (hs : List Handler) → 0 < work (h ∷ hs)
unfolding work
work_pos (exec t) hs = omega arith
work_pos (exec_token t k) hs = omega arith
work_pos shut hs = omega arith

-- Whatever a handler does, less work waits afterwards than with it.
run_handler-lt :
    (h : Handler) (p : Pipeline) (rest : List Handler)
    → work (settle (run_handler h (record p { queue = rest }))).queue < work (h ∷ rest)
unfolding run_handler work shut_down settle
run_handler-lt (exec t) p rest = omega (
  arith,
  settle-work (work rest + task_work t)
      (exec_task (label t) (run_task t) true true (record p { queue = rest }))
      (counted-Within t p rest),
)
run_handler-lt (exec_token t k) p rest = omega (
  arith,
  settle-work (work rest + task_work t)
      (complete k true (exec_task (label t) (run_task t) true true (record p { queue = rest })))
      (complete-Within k (work rest + task_work t) true _ (counted-Within t p rest)),
)
run_handler-lt shut p rest =
    if_elim (λ (q : Pipeline). work q.queue < 1 + work rest) p.closed _ _ (λ e. omega arith)
      (λ e. omega arith)

-- Nothing to take, or no thread that takes.
abbrev pub IsIdle : Pipeline → Type 0
IsIdle p = (p.queue ≡ []) ⊎ (is_running p.thread && not p.stopped ≡ false)

step-idle : (p : Pipeline) → IsIdle p → step (takes 0) p ≡ p
unfolding step take_handler
step-idle p (inl e) = ground arith
step-idle p (inr e) = if_false _ _ _ e

run-idle : (n : ℕ) (p : Pipeline) → IsIdle p → run (replicate n (takes 0)) p ≡ p
unfolding run
run-idle zero p v = refl
run-idle (suc n) p v =
    ap (λ (q : Pipeline). run (replicate n (takes 0)) q) (step-idle p v) ∙ run-idle n p v

taken_first :
    (p : Pipeline) (h : Handler) (rest : List Handler)
    → p.queue ≡ h ∷ rest
    → is_running p.thread && not p.stopped ≡ true
    → step (takes 0) p ≡ settle (run_handler h (record p { queue = rest }))
unfolding step take_handler
taken_first p h rest e b =
    if_true _ _ _ b ∙ ap (λ (q : List Handler). take_handler (take_at 0 q) p) e

step-work :
    (p : Pipeline) (h : Handler) (rest : List Handler)
    → p.queue ≡ h ∷ rest
    → is_running p.thread && not p.stopped ≡ true
    → work (step (takes 0) p).queue < work (h ∷ rest)
unfolding step take_handler
step-work p h rest e b =
    subst (λ (q : Pipeline). work q.queue < work (h ∷ rest)) (sym (taken_first p h rest e b))
      (run_handler-lt h p rest)

drains :
    (n : ℕ) (p : Pipeline) (hs : List Handler)
    → p.queue ≡ hs
    → work hs ≤ n
    → IsIdle (run (replicate n (takes 0)) p)
unfolding run
drains n p [] e h = subst IsIdle (sym (run-idle n p (inl e))) (inl e)
drains zero p (g ∷ hs) e h = absurd (omega (arith, work_pos g hs, h))
drains (suc n) p (g ∷ hs) e h = elim (Bool-cases (is_running p.thread && not p.stopped)) [
  | inl b ↦
      drains n (step (takes 0) p) (step (takes 0) p).queue refl
        (omega (arith, step-work p g hs e b, h))
  | inr b ↦ subst IsIdle (sym (run-idle (suc n) p (inr b))) (inr b)
]

-- The loop of a pipeline's thread comes to an end of the work: whatever tasks wait, and whatever
-- these post, run, close or throw, after at most `work` steps of the thread (a number that the queue
-- gives beforehand) the queue is empty, unless the io_context was stopped or the thread has left
-- its loop or waits for a promise.
pub run-terminates : (p : Pipeline) → IsIdle (run (replicate (work p.queue) (takes 0)) p)
run-terminates p = drains (work p.queue) p p.queue refl (omega arith)
