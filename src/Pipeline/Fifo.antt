-- ===== src/Pipeline/Fifo.antt =====
-- The order of the handlers of core/src/WarPipeline.cpp when the io_context hands out its oldest handler
-- first, as one thread in `run()` does: for any tasks, whatever these do to their pipeline.
use warlib.Base.{
  ℕ, zero, suc, ◌≡◌, refl, sym, ap, ◌∙◌, subst, Bool, true, false, not, ◌&&◌, List, [], ◌∷◌, ◌++◌,
  append-nil, append_assoc, length, All, if_elim, if◌then◌else◌,
}
use warlib.Pipeline.{Handler, exec, exec_token, shut, Pipeline, shut_down}
use warlib.Pipeline.Thread.{
  Move, takes, fires, leaves, calls, passes, take_at, take_handler, run_handler, is_running,
  may_leave, step, run,
}
use warlib.Pipeline.Stable.{run_call-keeps}
use warlib.Pipeline.Stable.Moves.{
  IsBlind, settle-keeps, exec-keeps, exec_token-keeps, fire_timer-keeps,
}
use warlib.Pipeline.Post.{Extends, Grown, Extends-IsStable}

-- A move that takes the oldest handler, if it takes one.
abbrev pub IsOldest : Move → Type 0
IsOldest (takes i) = i ≡ 0
IsOldest m = Unit

-- Whether the move lets the thread take a handler.
abbrev pub lets_take : Move → Pipeline → Bool
lets_take (takes i) p = is_running p.thread && not p.stopped
lets_take m p = false

abbrev pub first : List Handler → List Handler
first [] = []
first (h ∷ hs) = h ∷ []

abbrev pub rest_of : List Handler → List Handler
rest_of [] = []
rest_of (h ∷ hs) = hs

abbrev pub drop : ℕ → List Handler → List Handler
drop zero hs = hs
drop (suc n) [] = []
drop (suc n) (h ∷ hs) = drop n hs

-- The handler that a move takes, and what it leaves of the queue before any is added.
unfoldable pub taken_by : Move → Pipeline → List Handler
taken_by m p = if lets_take m p then first p.queue else []

unfoldable pub left_by : Move → Pipeline → List Handler
left_by m p = if lets_take m p then rest_of p.queue else p.queue

-- The handlers that some moves take, and those that they add behind the queue, in their order.
unfoldable pub all_taken : List Move → Pipeline → List Handler
unfolding taken_by
all_taken [] p = []
all_taken (m ∷ ms) p = taken_by m p ++ all_taken ms (step m p)

unfoldable pub all_given : List Move → Pipeline → List Handler
unfolding left_by
all_given [] p = []
all_given (m ∷ ms) p = drop (length (left_by m p)) (step m p).queue ++ all_given ms (step m p)

module _ (base : List Handler) where
  Grown-IsBlind : IsBlind (Grown base)
  Grown-IsBlind = record {
    stable = Extends-IsStable base;
    blind = λ p count tasks_run now events timers thread v. v;
  }

  same-Extends : Extends base base
  same-Extends = record { extra = []; is_queue = sym (append-nil base) }

  run_handler-Grown : (h : Handler) (p : Pipeline) → Grown base p → Grown base (run_handler h p).1
  unfolding run_handler shut_down
  run_handler-Grown (exec t) p v = (exec-keeps (Grown base) Grown-IsBlind t).at p v
  run_handler-Grown (exec_token t k) p v = (exec_token-keeps (Grown base) Grown-IsBlind t k).at p v
  run_handler-Grown shut p v = if_elim (Grown base) p.closed _ _ (λ c. v) (λ c. v)

-- A move adds behind what it leaves.
take-Extends :
    (q : List Handler) (p : Pipeline)
    → p.queue ≡ q
    → Extends (rest_of q) (take_handler (take_at 0 q) p).queue
unfolding take_handler
take-Extends [] p e = subst (Extends []) (sym e) (same-Extends [])
take-Extends (h ∷ hs) p e =
    settle-keeps (Grown hs) (Grown-IsBlind hs) _
      (run_handler-Grown hs h (record p { queue = hs }) (same-Extends hs))

both-Extends :
    (b : Bool) (x y : List Handler) (u w : Pipeline)
    → Extends x u.queue
    → Extends y w.queue
    → Extends (if b then x else y) (if b then u else w).queue
both-Extends true x y u w f g = f
both-Extends false x y u w f g = g

step-Extends : (m : Move) (p : Pipeline) → IsOldest m → Extends (left_by m p) (step m p).queue
unfolding step left_by
step-Extends (takes i) p old =
    subst (λ j. Extends (left_by (takes j) p) (step (takes j) p).queue) (sym old)
      (both-Extends (is_running p.thread && not p.stopped) (rest_of p.queue) p.queue
        (take_handler (take_at 0 p.queue) p) p (take-Extends p.queue p refl) (same-Extends p.queue))
step-Extends (fires i error) p old =
    if_elim (Grown p.queue) (is_running p.thread && not p.stopped) _ _
      (λ b.
        fire_timer-keeps (Grown p.queue) (Grown-IsBlind p.queue) (take_at i p.timers) error p
          (same-Extends p.queue))
      (λ b. same-Extends p.queue)
step-Extends leaves p old =
    if_elim (Grown p.queue) (is_running p.thread && may_leave p) _ _ (λ b. same-Extends p.queue)
      (λ b. same-Extends p.queue)
step-Extends (calls c) p old =
    (run_call-keeps (Grown p.queue) (Extends-IsStable p.queue) c false).at p (same-Extends p.queue)
step-Extends (passes n) p old = same-Extends p.queue

drop-append : (base extra : List Handler) → drop (length base) (base ++ extra) ≡ extra
drop-append [] extra = refl
drop-append (h ∷ base) extra = drop-append base extra

Extends-drop : (base q : List Handler) → Extends base q → base ++ drop (length base) q ≡ q
Extends-drop base q v =
    ap (λ x. base ++ drop (length base) x) v.is_queue
    ∙ ap (λ x. base ++ x) (drop-append base v.extra)
    ∙ sym v.is_queue

first-rest_of : (q : List Handler) → first q ++ rest_of q ≡ q
first-rest_of [] = refl
first-rest_of (h ∷ hs) = refl

taken_by-left_by : (m : Move) (p : Pipeline) → taken_by m p ++ left_by m p ≡ p.queue
unfolding taken_by left_by
taken_by-left_by m p = by_test (lets_take m p)
  where
    by_test :
        (b : Bool)
        → (if b then first p.queue else []) ++ (if b then rest_of p.queue else p.queue) ≡ p.queue
    by_test true = first-rest_of p.queue
    by_test false = refl

-- A pipeline's queue is first in, first out, over any moves in which the io_context hands out its oldest
-- handler, whatever tasks do, throw, post or close, whoever posts: the handlers that waited, followed by
-- those that were added, in the order in which they were, are those that were taken, in the order in
-- which they were, followed by those that still wait.
pub run-fifo :
    (ms : List Move) (p : Pipeline)
    → All IsOldest ms
    → p.queue ++ all_given ms p ≡ all_taken ms p ++ (run ms p).queue
unfolding run all_given all_taken
run-fifo [] p old = append-nil p.queue
run-fifo (m ∷ ms) p old =
    let q = step m p in
    let added = drop (length (left_by m p)) q.queue in
    ap (λ x. x ++ (added ++ all_given ms q)) (sym (taken_by-left_by m p))
    ∙ append_assoc (taken_by m p) (left_by m p) (added ++ all_given ms q)
    ∙ ap (λ x. taken_by m p ++ x)
        (sym (append_assoc (left_by m p) added (all_given ms q))
          ∙ ap (λ x. x ++ all_given ms q)
              (Extends-drop (left_by m p) q.queue (step-Extends m p old.0))
          ∙ run-fifo ms q old.1)
    ∙ sym (append_assoc (taken_by m p) (all_taken ms q) (run ms q).queue)
