-- ===== src/Pipeline/Accounts/Moves.antt =====
-- The account of Pipeline/Accounts over the moves of a pipeline.
use warlib.Base.{
  ℕ, ◌+◌, ◌%◌, ◌<◌, ◌≡◌, refl, sym, ap, ◌∙◌, subst, ◌⊎◌, inl, inr, true, not, ◌&&◌, Option, none,
  some, List, [], ◌∷◌, Text, leb, ltb, total, arith, if_elim, All, Bool-cases,
}
use warlib.Task.{
  Task, post, dispatch, post_with_timer, post_token, post_with_timer_token, post_with_promise,
  post_synchronously, close, label,
}
use warlib.Pipeline.{
  word, Handler, exec, exec_token, shut, Pipeline, Outcome, init, then_enqueue, post_task,
  dispatch_task, post_timer, close_pipeline,
}
use warlib.Pipeline.Thread.{
  Move, takes, fires, leaves, calls, passes, take_at, run_call, is_running, may_leave, step, run,
}
use warlib.Pipeline.Count.{execs, Counts, init-Counts, step-Counts, token_at, token_of, token}
use warlib.Pipeline.Accounts.{
  IsLeaf, IsClient, asked, refused, all_refused, begun, dropped, failures, waiting, timed,
}
use warlib.Pipeline.Accounts.Waiting.{
  IsPlainHandler, IsPlainTimer, take_at-All, All-append, waiting-append,
}
use warlib.Pipeline.Accounts.Balance.{
  Balanced, BalancedAfter, take_handler-Balanced, fire_timer-Balanced,
}

module _ (w : Text → ℕ) where
  full_as_counted :
      {cap : ℕ} (p : Pipeline)
      → Counts cap 0 p
      → ltb p.capacity ((p.count + 1) % word) ≡ leb p.capacity (execs p.queue)
  full_as_counted p c = ground arith

  post_task-Balanced :
      {cap : ℕ} (a r : ℕ) (t : Task) (p : Pipeline)
      → Counts cap 0 p
      → IsLeaf t
      → Balanced w a r p
      → Balanced w (a + w (label t)) (r + refused w (calls (post t)) p) (post_task t p).1
  unfolding post_task
  post_task-Balanced a r t p c h v =
      if_elim (BalancedAfter w (a + w (label t)) (r + refused w (calls (post t)) p)) p.closing _ _
        (λ b. record {
          handlers = v.handlers;
          timers = v.timers;
          sum = ground (arith, v.sum);
          early = λ o. cc;
        })
        (λ b.
          if_elim
            (λ (o : Outcome × Pipeline).
              BalancedAfter w (a + w (label t)) (r + refused w (calls (post t)) p)
                (then_enqueue (exec t) o))
            (ltb p.capacity ((p.count + 1) % word)) _ _
            (λ full. record {
              handlers = v.handlers;
              timers = v.timers;
              sum = ground (arith, v.sum, full_as_counted p c, full);
              early = v.early;
            })
            (λ room. record {
              handlers = All-append IsPlainHandler p.queue (exec t) v.handlers h;
              timers = v.timers;
              sum =
                  ground
                    (arith, v.sum, full_as_counted p c, room, waiting-append w p.queue (exec t));
              early = v.early;
            }))

  post_timer-Balanced :
      (a r ms : ℕ) (t : Task) (p : Pipeline)
      → IsLeaf t
      → Balanced w a r p
      → Balanced w (a + w (label t)) r (post_timer t ms p).1
  unfolding post_timer
  post_timer-Balanced a r ms t p h v =
      if_elim (BalancedAfter w (a + w (label t)) r) p.closing _ _
        (λ c. record {
          handlers = v.handlers;
          timers = v.timers;
          sum = omega (arith, v.sum);
          early = λ o. cc;
        })
        (λ c. record {
          handlers = v.handlers;
          timers = ((h, refl), v.timers);
          sum = omega (arith, v.sum);
          early = v.early;
        })

  close-Balanced :
      (a r : ℕ) (p : Pipeline) → Balanced w a r p → BalancedAfter w a r (close_pipeline p)
  unfolding close_pipeline
  close-Balanced a r p v =
      if_elim (BalancedAfter w a r) p.closing _ _ (λ c. v)
        (λ c. record {
          handlers = All-append IsPlainHandler p.queue shut v.handlers tt;
          timers = v.timers;
          sum = omega (arith, v.sum, waiting-append w p.queue shut);
          early = λ o. cc;
        })

  no_more : {a r : ℕ} {p : Pipeline} → Balanced w a r p → Balanced w (a + 0) (r + 0) p
  no_more v = record {
    handlers = v.handlers;
    timers = v.timers;
    sum = omega (arith, v.sum);
    early = v.early;
  }

  same_account :
      {a r : ℕ} (p q : Pipeline)
      → q.queue ≡ p.queue
      → q.timers ≡ p.timers
      → q.events ≡ p.events
      → q.closing ≡ p.closing
      → Balanced w a r p
      → Balanced w a r q
  same_account p q h t e c v = record {
    handlers = subst (All IsPlainHandler) (sym h) v.handlers;
    timers = subst (All IsPlainTimer) (sym t) v.timers;
    sum = omega (
      arith,
      v.sum,
      ap (waiting w) h,
      ap (timed w) t,
      ap (begun w) e,
      ap (dropped w) e,
      ap (failures w) e,
    );
    early = λ o. ap (dropped w) e ∙ v.early (sym c ∙ o);
  }

  step-Balanced :
      {cap : ℕ} (a r : ℕ) (m : Move) (p : Pipeline)
      → Counts cap 0 p
      → IsClient m
      → Balanced w a r p
      → Balanced w (a + asked w m) (r + refused w m p) (step m p)
  unfolding step run_call dispatch_task
  step-Balanced a r (takes i) p c h v = no_more (
      if_elim (Balanced w a r) (is_running p.thread && not p.stopped) _ _
        (λ b. take_handler-Balanced w a r i (take_at i p.queue) p refl v) (λ b. v))
  step-Balanced a r (fires i error) p c h v = no_more (
      if_elim (Balanced w a r) (is_running p.thread && not p.stopped) _ _
        (λ b. fire_timer-Balanced w a r i error (take_at i p.timers) p refl v) (λ b. v))
  step-Balanced a r leaves p c h v = no_more (
      if_elim (Balanced w a r) (is_running p.thread && may_leave p) _ _
        (λ b. same_account p _ refl refl refl refl v) (λ b. v))
  step-Balanced a r (calls (post t)) p c h v = post_task-Balanced a r t p c h v
  step-Balanced a r (calls (dispatch t)) p c h v =
      if_elim (BalancedAfter w (a + w (label t)) (r + refused w (calls (post t)) p)) p.closing _ _
        (λ b. record {
          handlers = v.handlers;
          timers = v.timers;
          sum = ground (arith, v.sum);
          early = λ o. cc;
        })
        (λ b. post_task-Balanced a r t p c h v)
  step-Balanced a r (calls (post_with_timer t ms)) p c h v =
      subst (λ (k : ℕ). Balanced w (a + w (label t)) k (post_timer t ms p).1) (omega arith)
        (post_timer-Balanced a r ms t p h v)
  step-Balanced a r (calls (post_token t k)) p c h v = elim h [ ]
  step-Balanced a r (calls (post_with_timer_token t ms k)) p c h v = elim h [ ]
  step-Balanced a r (calls (post_with_promise t k)) p c h v = elim h [ ]
  step-Balanced a r (calls (post_synchronously t k)) p c h v = elim h [ ]
  step-Balanced a r (calls close) p c h v = no_more (close-Balanced a r p v)
  step-Balanced a r (passes n) p c h v = no_more (same_account p _ refl refl refl refl v)

token-zero : (h : Handler) → IsPlainHandler h → token h ≡ 0
token-zero (exec t) v = refl
token-zero (exec_token t k) v = elim v [ ]
token-zero shut v = refl

token_at-zero :
    (i : ℕ) (o : Option (Handler × List Handler)) (hs : List Handler)
    → take_at i hs ≡ o
    → All IsPlainHandler hs
    → token_at o ≡ 0
unfolding token_at
token_at-zero i none hs e v = refl
token_at-zero i (some (h, rest)) hs e v =
    token-zero h (take_at-All IsPlainHandler i hs rest h e v).0

token_of-zero : (m : Move) (p : Pipeline) → All IsPlainHandler p.queue → token_of m p ≡ 0
unfolding token_of
token_of-zero (takes i) p v =
    if_elim (λ (n : ℕ). n ≡ 0) (is_running p.thread && not p.stopped) _ _
      (λ b. token_at-zero i (take_at i p.queue) p.queue refl v) (λ b. refl)
token_of-zero (fires i error) p v = refl
token_of-zero leaves p v = refl
token_of-zero (calls c) p v = refl
token_of-zero (passes n) p v = refl

run-Balanced :
    {cap : ℕ} (w : Text → ℕ) (a r : ℕ) (ms : List Move) (p : Pipeline)
    → Counts cap 0 p
    → All IsClient ms
    → Balanced w a r p
    → Balanced w (a + total (asked w) ms) (r + all_refused w ms p) (run ms p)
unfolding run
run-Balanced w a r [] p c h v = no_more w v
run-Balanced {cap} w a r (m ∷ ms) p c h v =
    let counted : Counts cap 0 (step m p) =
      subst (λ (k : ℕ). Counts cap k (step m p)) (omega (arith, token_of-zero m p v.handlers))
        (step-Counts m p c) in
    let rest : Balanced w (a + asked w m + total (asked w) ms)
        (r + refused w m p + all_refused w ms (step m p)) (run ms (step m p)) =
      run-Balanced w (a + asked w m) (r + refused w m p) ms (step m p) counted h.1
        (step-Balanced w a r m p c h.0 v) in
    record {
      handlers = rest.handlers;
      timers = rest.timers;
      sum = omega (arith, rest.sum);
      early = rest.early;
    }

-- For a capacity below 2 ^ 64 - 1, over any moves of a new pipeline whose clients give tasks that do not
-- call it to Post, Dispatch and PostWithTimer, and call Close: by any weight of the names of tasks
-- (such as 1 for one name and 0 for all others), what was given is what Post and Dispatch refused
-- while the pipeline was open and as many tasks waited as its capacity is, what has begun to
-- execute, what was dismissed, the timers that failed, and what waits in the queue or with a timer;
-- so each task is executed, dismissed or refused at most once. While the pipeline is not closing,
-- nothing is dismissed.
pub run-accounts :
    (w : Text → ℕ) (name : Text) (id : Option ℕ) (cap : ℕ) (ms : List Move)
    → cap + 1 < word
    → All IsClient ms
    → let p = run ms (init name id cap) in
      (total (asked w) ms
        ≡ all_refused w ms (init name id cap)
          + begun w p.events
          + dropped w p.events
          + failures w p.events
          + waiting w p.queue
          + timed w p.timers)
      × ((p.closing ≡ true) ⊎ (dropped w p.events ≡ 0))
run-accounts w name id cap ms h clients =
    let start : Balanced w 0 0 (init name id cap) =
      unfold init in record { handlers = tt; timers = tt; sum = refl; early = λ o. refl } in
    let v = run-Balanced w 0 0 ms (init name id cap) (init-Counts name id cap h) clients start in
    (
      omega (arith, v.sum),
      elim (Bool-cases (run ms (init name id cap)).closing) [
        | inl c ↦ inl c
        | inr c ↦ inr (v.early c)
      ],
    )
