-- ===== src/Pipeline/Token.antt =====
-- Post(task, token) of WarPipeline.h: ExecTask_ counts down what nothing counted up.
use warlib.Base.{ℕ, ◌+◌, ◌-◌, ◌%◌, ◌<◌, ◌≡◌, refl, sym, ap, ◌∙◌, subst, Bool, true, [], ◌∷◌, arith}
use warlib.Task.{Task, post_token, post, label}
use warlib.Pipeline.{
  word, Pipeline, threw, executing, completed, out_of_capacity, exec_task, post_with_token,
  post_task,
}
use warlib.Pipeline.Thread.{
  run_call, run_handler, settle, take_handler, takes, calls, is_running, step, run,
}
use warlib.Pipeline.Order.{IsOpen, IsQuiet}
use warlib.Pipeline.Post.{post_task-full}

-- A pipeline with one coroutine task more behind it.
after_token : Task → ℕ → Pipeline → Pipeline
after_token t k p = record p {
  count = (p.count + (word - 1)) % word;
  queue = [];
  tasks_run = p.tasks_run + 1;
  events = completed k true ∷ executing (label t) ∷ p.events;
}

run-token :
    (t : Task) (k : ℕ) (p : Pipeline)
    → IsOpen p
    → IsQuiet t
    → p.queue ≡ []
    → run (calls (post_token t k) ∷ takes 0 ∷ []) p ≡ after_token t k p
unfolding run step is_running take_handler run_handler run_call post_with_token exec_task settle
    after_token
run-token t k p v q e = ground (
  arith,
  q (record p {
    queue = [];
    count = (p.count + (word - 1)) % word;
    events = executing (label t) ∷ p.events;
  }),
)

after_token-IsOpen : (t : Task) (k : ℕ) (p : Pipeline) → IsOpen p → IsOpen (after_token t k p)
unfolding after_token
after_token-IsOpen t k p v = record {
  not_closing = v.not_closing;
  loops = v.loops;
  not_stopped = v.not_stopped;
}

run-tokens :
    (t u : Task) (j k : ℕ) (p : Pipeline)
    → IsOpen p
    → IsQuiet t
    → IsQuiet u
    → p.queue ≡ []
    → run (calls (post_token t j) ∷ takes 0 ∷ calls (post_token u k) ∷ takes 0 ∷ []) p
      ≡ after_token u k (after_token t j p)
unfolding run
run-tokens t u j k p v qt qu e =
    ap (run (calls (post_token u k) ∷ takes 0 ∷ [])) (run-token t j p v qt e)
    ∙ run-token u k (after_token t j p) (after_token-IsOpen t j p v) qu (unfold after_token in refl)

-- Two coroutine tasks that return and do nothing to their pipeline, run on an open pipeline with
-- an empty queue and a count of 0, leave `count_` at 2 ^ 64 - 2. With the queue empty, the next
-- Post of any task from any thread throws ExceptionCapacityExceeded and changes nothing, whatever
-- the capacity below 2 ^ 64 - 1.
pub post_token-exhausts :
    (t u w : Task) (j k : ℕ) (b : Bool) (p : Pipeline)
    → IsOpen p
    → IsQuiet t
    → IsQuiet u
    → p.queue ≡ []
    → p.count ≡ 0
    → p.capacity + 1 < word
    → let q = run (calls (post_token t j) ∷ takes 0 ∷ calls (post_token u k) ∷ takes 0 ∷ []) p in
      (q.queue ≡ [])
      × (q.count ≡ word - 2)
      × (run_call (post w) b q ≡ (threw (out_of_capacity p), q))
unfolding run_call after_token
post_token-exhausts t u w j k b p v qt qu e z fits =
    subst
      (λ (q : Pipeline).
        (q.queue ≡ []) × (q.count ≡ word - 2) × (post_task w q ≡ (threw (out_of_capacity p), q)))
      (sym (run-tokens t u j k p v qt qu e))
      (
        refl,
        counted,
        post_task-full w (after_token u k (after_token t j p)) v.not_closing
            (omega (arith, counted)) (omega (arith, counted)),
      )
  where
    counted : (after_token u k (after_token t j p)).count ≡ word - 2
    counted = omega arith
