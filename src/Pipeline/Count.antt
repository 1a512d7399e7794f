-- ===== src/Pipeline/Count.antt =====
-- `count_` of WarPipeline.cpp against the handlers that wait in the io_context.
use warlib.Base.{
  ℕ, zero, suc, ◌+◌, ◌-◌, ◌%◌, ◌≤◌, ◌<◌, ◌≡◌, refl, ◌⊎◌, inl, inr, Bool, true, false, not, ◌&&◌,
  Option, none, some, List, [], ◌∷◌, ◌++◌, Text, arith, if_elim, leb, Option-cases, subst, ltb,
  if◌then◌else◌,
}
use warlib.Task.{Task, label}
use warlib.Pipeline.{
  executing, word, Handler, exec, exec_token, shut, Timer, Pipeline, Outcome, returned, threw,
  waits, Action, init, after_task, then_enqueue, note, post_task, exec_task, post_timer,
  post_with_token, timer_with_token, close_pipeline, set_promise, on_timer, shut_down,
}
use warlib.Pipeline.Thread.{
  complete, complete_timer, take_handler, fire_timer, run_task, run_handler, run_timer, settle,
  take_at, Move, takes, fires, leaves, calls, passes, is_running, step, run,
}
use warlib.Pipeline.Getters.{get_count, get_capacity}
use warlib.Pipeline.Stable.{Keeps, IsStable, run_task-keeps, run_call-keeps}

-- The handlers that `Post` put into the queue.
abbrev pub weight : Handler → ℕ
weight (exec t) = 1
weight (exec_token t k) = 0
weight shut = 0

abbrev pub execs : List Handler → ℕ
execs [] = 0
execs (h ∷ hs) = weight h + execs hs

execs-append : (hs gs : List Handler) → execs (hs ++ gs) ≡ execs hs + execs gs
execs-append [] gs = omega arith
execs-append (h ∷ hs) gs = omega (arith, execs-append hs gs)

-- With `k` coroutine tasks run so far, `count_` is `k` less than the waiting tasks, modulo 2 ^ 64.
pub record Counts (cap k : ℕ) (p : Pipeline) : Type 0 where
  pub same : p.capacity ≡ cap
  pub fits : cap + 1 < word
  pub small : p.count < word
  pub agrees : (p.count + k) % word ≡ execs p.queue % word
  pub bounded : (0 < k) ⊎ (execs p.queue ≤ cap)

pub init-Counts :
    (name : Text) (id : Option ℕ) (cap : ℕ) → cap + 1 < word → Counts cap 0 (init name id cap)
unfolding init
init-Counts name id cap h = omega arith

module _ (cap k : ℕ) where
  post_task-Counts : (t : Task) (p : Pipeline) → Counts cap k p → Counts cap k (post_task t p).1
  unfolding post_task
  post_task-Counts t p v =
      if_elim (λ (r : Outcome × Pipeline). Counts cap k r.1) p.closing _ _ (λ e. omega arith)
        λ e.
          if_elim (λ (r : Outcome × Pipeline). Counts cap k (then_enqueue (exec t) r).1)
            (ltb p.capacity ((p.count + 1) % word)) _ _ (λ full. ground arith)
            (λ room. ground (arith, execs-append p.queue (exec t ∷ [])))

  after_task-Counts :
      (a : Bool) (r : Outcome × Pipeline) → Counts cap k r.1 → Counts cap k (after_task a r).1
  after_task-Counts a (returned, p) v = omega arith
  after_task-Counts true (threw e, p) v = omega arith
  after_task-Counts false (threw e, p) v = v
  after_task-Counts a (waits j, p) v = v

  exec_task-Counts :
      (name : Text) (body : Action) (a : Bool)
      → Keeps (Counts cap k) body
      → Keeps (Counts cap k) (exec_task name body false a)
  unfolding exec_task
  exec_task-Counts name body a h = record {
    at = λ p v.
        if_elim (λ (r : Outcome × Pipeline). Counts cap k r.1) p.closing _ _ (λ e. omega arith)
          (λ e. after_task-Counts a _ (h.at (note (executing name) p) (omega arith)));
  }

  Counts-IsStable : IsStable (Counts cap k)
  unfolding post_timer post_with_token timer_with_token close_pipeline set_promise
  Counts-IsStable = record {
    noted = λ t p v. omega arith;
    posted = λ t. record { at = post_task-Counts t };
    executed = exec_task-Counts;
    timed = λ t ms. record { at = λ p v. ground arith };
    tokened =
        λ t j. record { at = λ p v. ground (arith, execs-append p.queue (exec_token t j ∷ [])) };
    timer_tokened = λ t ms j. record { at = λ p v. ground arith };
    closed_by = record { at = λ p v. ground (arith, execs-append p.queue (shut ∷ [])) };
    promised = λ j x. record { at = λ p v. ground arith };
    freshened = λ j p v. omega arith;
  }

-- Whether a handler is a coroutine's task, as a number.
abbrev pub token : Handler → ℕ
token (exec t) = 0
token (exec_token t k) = 1
token shut = 0

-- The handlers of coroutine tasks that a list of moves takes.
unfoldable pub token_at : Option (Handler × List Handler) → ℕ
token_at none = 0
token_at (some (h, rest)) = token h

unfoldable pub token_of : Move → Pipeline → ℕ
unfolding token_at
token_of (takes i) p =
    if is_running p.thread && not p.stopped then token_at (take_at i p.queue) else 0
token_of m p = 0

unfoldable pub tokens_taken : List Move → Pipeline → ℕ
tokens_taken [] p = 0
tokens_taken (m ∷ ms) p = token_of m p + tokens_taken ms (step m p)

-- Taking a handler out of the queue takes it out of the count.
execs-take_at :
    (i : ℕ) (hs : List Handler) {h : Handler} {rest : List Handler}
    → take_at i hs ≡ some (h, rest)
    → execs hs ≡ weight h + execs rest
execs-take_at i [] e = cc
execs-take_at zero (g ∷ hs) e = ground arith
execs-take_at (suc i) (g ∷ hs) e = elim (Option-cases (take_at i hs)) [
  | inl n ↦ ground arith
  | inr ((h', r), s) ↦ ground (arith, execs-take_at i hs s)
]

module _ {cap k : ℕ} where
  settle-Counts : (r : Outcome × Pipeline) → Counts cap k r.1 → Counts cap k (settle r)
  unfolding settle
  settle-Counts (returned, p) v = v
  settle-Counts (threw e, p) v = omega arith
  settle-Counts (waits j, p) v = omega arith

  complete-Counts :
      (j : ℕ) (ok : Bool) (r : Outcome × Pipeline)
      → Counts cap k r.1
      → Counts cap k (complete j ok r).1
  complete-Counts j ok (returned, p) v = omega arith
  complete-Counts j ok (threw e, p) v = v
  complete-Counts j ok (waits i, p) v = v

  complete_timer-Counts :
      (o : Option ℕ) (error : Bool) (r : Outcome × Pipeline)
      → Counts cap k r.1
      → Counts cap k (complete_timer o error r).1
  complete_timer-Counts none error r v = v
  complete_timer-Counts (some j) error r v = complete-Counts j (not error) r v

  run_timer-Counts :
      (t : Timer) (error : Bool) (p : Pipeline)
      → Counts cap k p
      → Counts cap k (run_timer t error p).1
  unfolding run_timer on_timer
  run_timer-Counts t error p v = complete_timer-Counts t.token error _ (
      if_elim (λ (r : Outcome × Pipeline). Counts cap k r.1) error _ _ (λ e. omega arith)
        (λ e.
          (exec_task-Counts cap k (label t.job) (run_task t.job) true
              (run_task-keeps (Counts cap k) (Counts-IsStable cap k) t.job)).at
            p v))

  -- The counting ExecTask_ of a state whose count has gone down.
  counted-Counts :
      (t : Task) (p : Pipeline)
      → Counts cap k (record p { count = (p.count + (word - 1)) % word })
      → Counts cap k (exec_task (label t) (run_task t) true true p).1
  unfolding exec_task
  counted-Counts t p v =
      (exec_task-Counts cap k (label t) (run_task t) true
          (run_task-keeps (Counts cap k) (Counts-IsStable cap k) t)).at
        _ v

take_handler-Counts :
    {cap k : ℕ} (p : Pipeline) (h : Handler) (rest : List Handler)
    → Counts cap k p
    → execs p.queue ≡ weight h + execs rest
    → Counts cap (token h + k) (settle (run_handler h (record p { queue = rest })))
unfolding run_handler settle shut_down
take_handler-Counts p (exec t) rest v e =
    settle-Counts _ (counted-Counts t (record p { queue = rest }) (ground arith))
take_handler-Counts p (exec_token t j) rest v e =
    settle-Counts _
      (complete-Counts j true _ (counted-Counts t (record p { queue = rest }) (ground arith)))
take_handler-Counts p shut rest v e = ground arith

recount : {cap j k : ℕ} {p : Pipeline} → j ≡ k → Counts cap j p → Counts cap k p
recount {cap} {p} e v = subst (λ (i : ℕ). Counts cap i p) e v

takes-Counts :
    {cap k : ℕ} (b : Bool) (o : Option (Handler × List Handler)) (i : ℕ) (p : Pipeline)
    → take_at i p.queue ≡ o
    → Counts cap k p
    → Counts cap ((if b then token_at o else 0) + k) (if b then take_handler o p else p)
unfolding token_at take_handler
takes-Counts false o i p e v = recount (omega arith) v
takes-Counts true none i p e v = recount (omega arith) v
takes-Counts true (some (h, rest)) i p e v =
    take_handler-Counts p h rest v (execs-take_at i p.queue e)

fires-Counts :
    {cap k : ℕ} (o : Option (Timer × List Timer)) (error : Bool) (p : Pipeline)
    → Counts cap k p
    → Counts cap k (fire_timer o error p)
unfolding fire_timer
fires-Counts none error p v = v
fires-Counts {cap} {k} (some (t, rest)) error p v =
    if_elim (Counts cap k) (not error && not (leb t.expires p.now)) _ _ (λ early. v)
      λ due. settle-Counts _ (run_timer-Counts t error (record p { timers = rest }) (omega arith))

pub step-Counts :
    {cap k : ℕ} (m : Move) (p : Pipeline)
    → Counts cap k p
    → Counts cap (token_of m p + k) (step m p)
unfolding step token_of
step-Counts (takes i) p v =
    takes-Counts (is_running p.thread && not p.stopped) (take_at i p.queue) i p refl v
step-Counts {cap} {k} (fires i error) p v = recount (omega arith) (
    if_elim (Counts cap k) (is_running p.thread && not p.stopped) _ _
      (λ e. fires-Counts (take_at i p.timers) error p v) (λ e. v))
step-Counts leaves p v = ground arith
step-Counts {cap} {k} (calls c) p v =
    recount (omega arith) ((run_call-keeps (Counts cap k) (Counts-IsStable cap k) c false).at p v)
step-Counts (passes n) p v = omega arith

run-Counts :
    {cap : ℕ} (ms : List Move) (k : ℕ) (p : Pipeline)
    → Counts cap k p
    → Counts cap (tokens_taken ms p + k) (run ms p)
unfolding run tokens_taken
run-Counts [] k p v = recount (omega arith) v
run-Counts (m ∷ ms) k p v =
    recount (omega arith) (run-Counts ms (token_of m p + k) (step m p) (step-Counts m p v))

-- For a capacity below 2 ^ 64 - 1, over any moves of a new pipeline (any schedule, any tasks),
-- `count_` plus the number of coroutine tasks that were taken is the number of posted tasks that
-- wait, modulo 2 ^ 64.
pub count-run :
    (name : Text) (id : Option ℕ) (cap : ℕ) (ms : List Move)
    → cap + 1 < word
    → let p = run ms (init name id cap) in
      (p.count + tokens_taken ms (init name id cap)) % word ≡ execs p.queue % word
count-run name id cap ms h =
    ground (arith, (run-Counts ms 0 (init name id cap) (init-Counts name id cap h)).agrees)

-- For a capacity below 2 ^ 64 - 1, over any moves of a new pipeline in which no coroutine task is
-- taken, GetCount gives exactly the number of posted tasks that wait, that is never more than the
-- capacity, and GetCapacity gives what the constructor was given.
pub count-le-capacity :
    (name : Text) (id : Option ℕ) (cap : ℕ) (ms : List Move)
    → cap + 1 < word
    → tokens_taken ms (init name id cap) ≡ 0
    → let p = run ms (init name id cap) in
      (get_count p ≡ execs p.queue) × (get_count p ≤ cap) × (get_capacity p ≡ cap)
count-le-capacity name id cap ms h none_taken =
    ground (arith, run-Counts ms 0 (init name id cap) (init-Counts name id cap h))
