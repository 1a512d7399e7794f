-- ===== src/Network/Calls.antt =====
-- Post, Dispatch, PostSynchronously and Close of Network against those of Pipeline.
use warlib.Base.{
  ℕ, ◌+◌, ◌<◌, ◌≡◌, ◌≢◌, refl, sym, ap, ◌%◌, ◌∙◌, subst, true, false, some, none, List, [], ◌∷◌,
  ◌==◌, arith, if_true, if_false, Bool-cases, inl, inr, ==-refl,
}
use warlib.Task.{Call, Task, label, synchronously, post, dispatch, post_synchronously, close}
use warlib.Pipeline.{
  word, Pipeline, Handler, unset, get, note, dismissed, then_get, Action, enqueue, then_enqueue,
  adding_task, Outcome, returned, post_task, dispatch_task, post_and_wait, close_pipeline,
}
use warlib.Pipeline.Thread.{run_task, run_call}
use warlib.Pipeline.Stable.{fresh_promise}
use warlib.Network.{
  Prog, shut, Frame, Net, run_op, new_promise, close_node, op_post, op_dispatch, op_sync, op_close,
}
use warlib.Network.Inv.{put_at-same}
use warlib.Network.Matches.{
  Matches, Agree, ends-Agree, if-Agree, give-Agree, Agree-same, waiting-append,
}

module _ (i j : ℕ) (ne : j ≢ i) (rest : Prog) (frames : List Frame) where
  post_task-Agree :
      (u : Net) (task : Prog) (t : Task) (p : Pipeline)
      → Matches (u.nodes j) p
      → p.count + 1 < word
      → Agree i j rest frames (op_post i j task rest frames u) (post_task t p)
  unfolding post_task
  post_task-Agree u task t p m fits =
      if-Agree i j ne rest frames _ _ _ _ _ _ m.same_closing
        (λ c. ends-Agree i j ne rest frames u _ _ refl (record {
          same_closing = m.same_closing;
          same_capacity = m.same_capacity;
          counted = m.counted;
        }))
        (λ c.
          give-Agree i j ne rest frames (λ r. r) u task none (Handler.exec t) p returned
            (λ e q. refl) refl m fits)

  module _ (u : Net) (t : Task) (p : Pipeline) (m : Matches (u.nodes j) p)
      (fits : p.count + 1 < word) where
    dispatch_task-Agree :
        (task : Prog) (body : Action)
        → i ≢ j
        → Agree i j rest frames (op_dispatch i j task rest frames u) (dispatch_task false t body p)
    unfolding dispatch_task
    dispatch_task-Agree task body far =
        if-Agree i j ne rest frames _ _ _ _ _ _ m.same_closing
          (λ c. ends-Agree i j ne rest frames u _ _ refl (record {
            same_closing = m.same_closing;
            same_capacity = m.same_capacity;
            counted = m.counted;
          }))
          (λ c.
            subst (λ w. Agree i j rest frames w (post_task t p))
              (sym (if_false (i == j) _ _ (ground arith))) (post_task-Agree u task t p m fits))

    asked : Pipeline
    asked = fresh_promise u.fresh p

    asked-unset : asked.promises u.fresh ≡ unset
    unfolding asked
    asked-unset = if_true (u.fresh == u.fresh) _ _ (==-refl u.fresh)

    sync-closing :
        (body : Action)
        → p.closing ≡ true
        → post_and_wait false t u.fresh body p
          ≡ (Outcome.waits u.fresh, note (dismissed (label (synchronously u.fresh t))) asked)
    unfolding post_and_wait dispatch_task asked
    sync-closing body c =
        ap (then_get u.fresh) (if_true p.closing _ _ c)
        ∙ ap (λ q. (get u.fresh q, note (dismissed (label (synchronously u.fresh t))) asked))
            asked-unset

    sync-open :
        (body : Action)
        → p.closing ≡ false
        → post_and_wait false t u.fresh body p
          ≡ then_get u.fresh
              (then_enqueue (Handler.exec (synchronously u.fresh t)) (adding_task asked))
    unfolding post_and_wait dispatch_task post_task asked
    sync-open body c = rw c refl

    asked-Matches : Matches ((new_promise u).nodes j) asked
    unfolding asked
    asked-Matches = record {
      same_closing = m.same_closing;
      same_capacity = m.same_capacity;
      counted = m.counted;
    }

    post_and_wait-Agree :
        (task : Prog) (body : Action)
        → i ≢ j
        → Agree i j rest frames
            (op_sync i j task rest frames u)
            (post_and_wait false t u.fresh body p)
    unfolding asked
    post_and_wait-Agree task body far = elim (Bool-cases p.closing) [
      | inl c ↦
          Agree-same i j ne rest frames _ _ _ _ (if_true _ _ _ (m.same_closing ∙ c))
            (sync-closing body c)
            (ends-Agree i j ne rest frames (new_promise u) _ _ refl (record {
              same_closing = m.same_closing;
              same_capacity = m.same_capacity;
              counted = m.counted;
            }))
      | inr c ↦
          Agree-same i j ne rest frames _ _ _ _
            (if_false _ _ _ (m.same_closing ∙ c) ∙ if_false (i == j) _ _ (ground arith))
            (sync-open body c)
            (give-Agree i j ne rest frames (then_get u.fresh) (new_promise u) task (some u.fresh)
              (Handler.exec (synchronously u.fresh t)) asked (Outcome.waits u.fresh) (λ e q. refl)
              (ap
                (λ q. (
                  get u.fresh q,
                  enqueue (Handler.exec (synchronously u.fresh t))
                      (record asked { count = (asked.count + 1) % word }),
                ))
                asked-unset)
              asked-Matches fits)
    ]

    close_pipeline-Agree : Agree i j rest frames (op_close i j rest frames u) (close_pipeline p)
    unfolding close_pipeline
    close_pipeline-Agree =
        if-Agree i j ne rest frames _ _ _ _ _ _ m.same_closing
          (λ c. ends-Agree i j ne rest frames u _ _ refl m)
          (λ c. ends-Agree i j ne rest frames (close_node j u) _ _ refl (
            subst (λ v. Matches v (record (enqueue Handler.shut p) { closing = true }))
              (sym (put_at-same j _ u.nodes))
              (record {
                same_closing = refl;
                same_capacity = m.same_capacity;
                counted = omega (arith, waiting-append (u.nodes j).queue (shut ∷ []), m.counted);
              })))

-- A call of another pipeline.
pub data Asked : Type 0 where
  posts dispatches syncs : Asked
  closes : Asked

-- The call in Network, in a task of which `rest` is left.
abbrev pub in_net : Asked → ℕ → Prog → Prog → Prog
in_net posts j task rest = Prog.post j task rest
in_net dispatches j task rest = Prog.dispatch j task rest
in_net syncs j task rest = Prog.sync j task rest
in_net closes j task rest = Prog.close j rest

-- The call in Pipeline.
abbrev pub in_pipeline : Asked → Task → ℕ → Call
in_pipeline posts t k = post t
in_pipeline dispatches t k = dispatch t
in_pipeline syncs t k = post_synchronously t k
in_pipeline closes t k = close

-- Post, Dispatch, PostSynchronously or Close of pipeline `j`, made in a task of another pipeline `i`: if
-- the models of several pipelines and of a single one agree on `j`, and its count is
-- below 2 ^ 64 - 1, then they agree on it after the call, on every branch, and the thread of `i` goes on
-- with the rest of its task, throws or waits as the outcome of the call in the model of a single one says.
run_op-run_call :
    (a : Asked) (i j : ℕ) (task rest : Prog) (frames : List Frame) (u : Net) (t : Task)
    (p : Pipeline)
    → i ≢ j
    → Matches (u.nodes j) p
    → p.count + 1 < word
    → Agree i j rest frames
        (run_op i (in_net a j task rest) frames u)
        (run_call (in_pipeline a t u.fresh) false p)
unfolding run_call
run_op-run_call posts i j task rest frames u t p ne m fits =
    post_task-Agree i j (λ e. ne (sym e)) rest frames u task t p m fits
run_op-run_call dispatches i j task rest frames u t p ne m fits =
    dispatch_task-Agree i j (λ e. ne (sym e)) rest frames u t p m fits task (run_task t) ne
run_op-run_call syncs i j task rest frames u t p ne m fits =
    post_and_wait-Agree i j (λ e. ne (sym e)) rest frames u t p m fits task (run_task t) ne
run_op-run_call closes i j task rest frames u t p ne m fits =
    close_pipeline-Agree i j (λ e. ne (sym e)) rest frames u t p m fits
