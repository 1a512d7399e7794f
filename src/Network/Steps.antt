-- ===== src/Network/Steps.antt =====
-- A step of a thread of Network, under the invariant of Network/Ranked.
use warlib.Base.{
  ℕ, ◌<◌, ◌≡◌, refl, sym, ap, ◌∙◌, subst, ◌⊎◌, inl, inr, Bool, true, false, ◌||◌, Option, none,
  some, List, [], ◌∷◌, All, arith, if_elim,
}
use warlib.Network.{
  Prog, return, throws, post, dispatch, sync, close, Job, exec, shut, Frame, NodeThread, idle,
  ended, busy, waits, Net, reply_frames, set_rest, take_job, get_result, run_op, act_on, move,
}
use warlib.Network.Ranked.{
  IsRanked, JobIsRanked, FrameIsRanked, ThreadIsRanked, is_reply, queue_sets, frames_set,
  thread_sets, WaitIsServed, Inv,
}
use warlib.Network.Inv.{Inv-set_node, or_cases, or_left, Inv-set_thread}
use warlib.Network.Moves.{
  At, op_post-Inv, op_dispatch-Inv, op_sync-Inv, op_close-Inv, finish_task-Inv,
}

-- The invariant behind a step that was made.
abbrev pub InvAfter : ℕ → Option Net → Type 0
InvAfter n none = Unit
InvAfter n (some s) = Inv n s

module _ (n : ℕ) where
  -- A thread that takes a handler.
  set_rest-Inv :
      (s : Net) (i : ℕ) (t : NodeThread) (job : Job) (rest : List Job)
      → Inv n s
      → (s.nodes i).thread ≡ idle
      → (s.nodes i).queue ≡ job ∷ rest
      → ThreadIsRanked n i (s.nodes i).closing t
      → ((k : ℕ)
          → queue_sets k (job ∷ rest) ≡ true
          → ((queue_sets k rest || thread_sets k t) ≡ true)
            ⊎ ((i < n) × ((s.nodes i).closing ≡ true)))
      → WaitIsServed n (set_rest i t rest s) i t
      → Inv n (set_rest i t rest s)
  set_rest-Inv s i t job rest h calm first r c w =
      let jobs = subst (All (JobIsRanked n i (s.nodes i).closing)) first (h.ranked i).queue in
      Inv-set_node n s i (record (s.nodes i) { thread = t; queue = rest }) h
        (record {
          sets = λ k e. elim (or_cases n (queue_sets k (s.nodes i).queue) _ e) [
            | inl q ↦ elim (c k (sym (ap (queue_sets k) first) ∙ q)) [
              | inl f ↦ inl f
              | inr f ↦ inr (inr f)
            ]
            | inr f ↦ let g : false ≡ true = sym (ap (thread_sets k) calm) ∙ f in cc
          ];
          closes = λ e. e;
        })
        (record { queue = jobs.1; thread = r }) w

  reply_frames-sets :
      (k : ℕ) (reply : Option ℕ) → is_reply k reply ≡ frames_set k (reply_frames reply)
  reply_frames-sets k none = refl
  reply_frames-sets k (some j) = ground arith

  reply_frames-ranked : (i : ℕ) (reply : Option ℕ) → All (FrameIsRanked n i) (reply_frames reply)
  reply_frames-ranked i none = tt
  reply_frames-ranked i (some k) = (tt, tt)

  or_swap : (a b : Bool) → (a || b) ≡ (b || a)
  or_swap true b = ground arith
  or_swap false b = ground arith

  take_job-Inv :
      (s : Net) (i : ℕ) (jobs : List Job)
      → Inv n s
      → i < n
      → (s.nodes i).thread ≡ idle
      → (s.nodes i).queue ≡ jobs
      → InvAfter n (take_job i jobs s)
  take_job-Inv s i [] h low calm first = tt
  take_job-Inv s i (exec task reply ∷ rest) h low calm first =
      let jobs = subst (All (JobIsRanked n i (s.nodes i).closing)) first (h.ranked i).queue in
      if_elim (Inv n) (s.nodes i).closing _ _
        (λ e. set_rest-Inv s i idle (exec task reply) rest h calm first tt (λ k f. inr (low, e)) tt)
        (λ e.
          set_rest-Inv s i (busy task (reply_frames reply)) (exec task reply) rest h calm first
            (jobs.0, reply_frames-ranked i reply)
            (λ k f. inl (
              or_swap (queue_sets k rest) _
              ∙ ap (λ b. b || queue_sets k rest) (sym (reply_frames-sets k reply))
              ∙ f))
            tt)
  take_job-Inv s i (shut ∷ rest) h low calm first =
      let jobs = subst (All (JobIsRanked n i (s.nodes i).closing)) first (h.ranked i).queue in
      set_rest-Inv s i ended shut rest h calm first jobs.0
        (λ k f. inl (or_left n (queue_sets k rest) false f)) tt

  get_result-Inv :
      (s : Net) (i k : ℕ) (rest : Prog) (frames : List Frame) (result : Option Bool)
      → Inv n s
      → (s.nodes i).thread ≡ waits k rest frames
      → InvAfter n (get_result i result rest frames s)
  get_result-Inv s i k rest frames none h here = tt
  get_result-Inv s i k rest frames (some true) h here =
      let r = subst (ThreadIsRanked n i (s.nodes i).closing) here (h.ranked i).thread in
      Inv-set_thread n s i (busy rest frames) h r (λ j e. inl (sym (ap (thread_sets j) here) ∙ e))
        tt
  get_result-Inv s i k rest frames (some false) h here =
      let r = subst (ThreadIsRanked n i (s.nodes i).closing) here (h.ranked i).thread in
      Inv-set_thread n s i (busy throws frames) h (tt, r.1)
        (λ j e. inl (sym (ap (thread_sets j) here) ∙ e)) tt

  run_op-Inv :
      (s : Net) (i : ℕ) (p : Prog) (frames : List Frame)
      → At n s i p frames
      → IsRanked n i p
      → Inv n (run_op i p frames s)
  run_op-Inv s i return frames a r = finish_task-Inv n s i return true frames a
  run_op-Inv s i throws frames a r = finish_task-Inv n s i throws false frames a
  run_op-Inv s i (post j task rest) frames a r =
      op_post-Inv n s i j (post j task rest) task rest frames a r.1 r.2
  run_op-Inv s i (dispatch j task rest) frames a r =
      op_dispatch-Inv n s i j (dispatch j task rest) task rest frames a r.1 r.2
  run_op-Inv s i (sync j task rest) frames a r =
      op_sync-Inv n s i j (sync j task rest) task rest frames a r.0 r.1 r.2 r.3
  run_op-Inv s i (close j rest) frames a r = op_close-Inv n s i j (close j rest) rest frames a r.1

  act_on-Inv :
      (s : Net) (i : ℕ) (t : NodeThread)
      → Inv n s
      → i < n
      → (s.nodes i).thread ≡ t
      → InvAfter n (act_on i t s)
  act_on-Inv s i idle h low here = take_job-Inv s i (s.nodes i).queue h low here refl
  act_on-Inv s i ended h low here = tt
  act_on-Inv s i (busy p frames) h low here =
      let r = subst (ThreadIsRanked n i (s.nodes i).closing) here (h.ranked i).thread in
      run_op-Inv s i p frames (record { inv = h; here = here; frames_ranked = r.1 }) r.0
  act_on-Inv s i (waits k rest frames) h low here =
      get_result-Inv s i k rest frames (s.results k) h here

  -- A step keeps the invariant.
  pub move-Inv : (s u : Net) (i : ℕ) → Inv n s → i < n → move i s ≡ some u → Inv n u
  unfolding move
  move-Inv s u i h low e = subst (InvAfter n) e (act_on-Inv s i (s.nodes i).thread h low refl)
