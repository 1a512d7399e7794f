-- ===== src/Network/Ends.antt =====
-- Each step of a thread of Network takes from the work.
use warlib.Base.{
  ℕ, ◌≤◌, ◌<◌, ◌≡◌, refl, ap, subst, Bool, true, false, Option, none, some, List, [], ◌∷◌, arith,
  if_elim, total, ◌+◌,
}
use warlib.Network.{
  Prog, return, throws, post, dispatch, sync, close, Job, exec, shut, Frame, answers, resumes,
  resumes_sync, NodeThread, idle, ended, busy, waits, Net, answer, finish_task, reply_frames,
  set_rest, take_job, get_result, run_op, act_on, move,
}
use warlib.Network.Ranked.{IsRanked, ThreadIsRanked, Inv}
use warlib.Network.Work.{
  job_weight, frame_weight, thread_weight, work, prog_weight_pos, net_work-put_at, work-set_thread,
  alone-lt, op_post-lt, op_dispatch-lt, op_sync-lt, op_close-lt,
}

-- A step that was made took from the work.
abbrev LessAfter : ℕ → Net → Option Net → Type 0
LessAfter n s none = Unit
LessAfter n s (some u) = work n u < work n s

module _ (n : ℕ) where
  finish_task-lt :
      (s : Net) (i : ℕ) (p : Prog) (ok : Bool) (frames : List Frame)
      → i < n
      → (s.nodes i).thread ≡ busy p frames
      → work n (finish_task i ok frames s) < work n s
  finish_task-lt s i p ok [] low here =
      let pos = prog_weight_pos p in alone-lt n s i low p [] here idle (omega (arith, pos))
  finish_task-lt s i p ok (answers k ∷ frames) low here =
      let pos = prog_weight_pos p in
      alone-lt n (answer k ok s) i low p (answers k ∷ frames) here (busy return frames)
        (omega (arith, pos))
  finish_task-lt s i p ok (resumes rest ∷ frames) low here =
      let pos = prog_weight_pos p in
      alone-lt n s i low p (resumes rest ∷ frames) here (busy rest frames) (omega (arith, pos))
  finish_task-lt s i p true (resumes_sync rest ∷ frames) low here =
      let pos = prog_weight_pos p in
      alone-lt n s i low p (resumes_sync rest ∷ frames) here (busy rest frames) (omega (arith, pos))
  finish_task-lt s i p false (resumes_sync rest ∷ frames) low here =
      let pos = prog_weight_pos p in
      let some_rest = prog_weight_pos rest in
      alone-lt n s i low p (resumes_sync rest ∷ frames) here (busy throws frames)
        (omega (arith, pos, some_rest))

  set_rest-lt :
      (s : Net) (i : ℕ) (t : NodeThread) (job : Job) (rest : List Job)
      → i < n
      → (s.nodes i).queue ≡ job ∷ rest
      → thread_weight t < job_weight job + thread_weight (s.nodes i).thread
      → work n (set_rest i t rest s) < work n s
  set_rest-lt s i t job rest low first less = omega (
    arith,
    net_work-put_at n i (record (s.nodes i) { thread = t; queue = rest }) s.nodes low,
    ap (total job_weight) first,
    less,
  )

  reply_frames-le : (reply : Option ℕ) → total frame_weight (reply_frames reply) ≤ 1
  reply_frames-le none = omega arith
  reply_frames-le (some k) = omega arith

  take_job-lt :
      (s : Net) (i : ℕ) (jobs : List Job)
      → i < n
      → (s.nodes i).queue ≡ jobs
      → LessAfter n s (take_job i jobs s)
  take_job-lt s i [] low first = tt
  take_job-lt s i (exec task reply ∷ rest) low first =
      if_elim (λ u. work n u < work n s) (s.nodes i).closing _ _
        (λ e. set_rest-lt s i idle (exec task reply) rest low first (omega arith))
        (λ e.
          let few = reply_frames-le reply in
          set_rest-lt s i (busy task (reply_frames reply)) (exec task reply) rest low first
            (omega (arith, few)))
  take_job-lt s i (shut ∷ rest) low first = set_rest-lt s i ended shut rest low first (omega arith)

  get_result-lt :
      (s : Net) (i k : ℕ) (rest : Prog) (frames : List Frame) (result : Option Bool)
      → i < n
      → (s.nodes i).thread ≡ waits k rest frames
      → LessAfter n s (get_result i result rest frames s)
  get_result-lt s i k rest frames none low here = tt
  get_result-lt s i k rest frames (some true) low here =
      omega (arith, work-set_thread n s i (busy rest frames) low, ap thread_weight here)
  get_result-lt s i k rest frames (some false) low here = omega (
    arith,
    work-set_thread n s i (busy throws frames) low,
    ap thread_weight here,
    prog_weight_pos rest,
  )

  run_op-lt :
      (s : Net) (i : ℕ) (p : Prog) (frames : List Frame)
      → i < n
      → (s.nodes i).thread ≡ busy p frames
      → IsRanked n i p
      → work n (run_op i p frames s) < work n s
  run_op-lt s i return frames low here r = finish_task-lt s i return true frames low here
  run_op-lt s i throws frames low here r = finish_task-lt s i throws false frames low here
  run_op-lt s i (post j task rest) frames low here r =
      op_post-lt n s i low (post j task rest) frames here j task rest r.0 (omega arith)
  run_op-lt s i (dispatch j task rest) frames low here r =
      op_dispatch-lt n s i low (dispatch j task rest) frames here j task rest r.0 (omega arith)
  run_op-lt s i (sync j task rest) frames low here r =
      op_sync-lt n s i low (sync j task rest) frames here j task rest r.1 (omega arith)
  run_op-lt s i (close j rest) frames low here r =
      op_close-lt n s i low (close j rest) frames here j rest r.0 (omega arith)

  act_on-lt :
      (s : Net) (i : ℕ) (t : NodeThread)
      → i < n
      → (s.nodes i).thread ≡ t
      → ThreadIsRanked n i (s.nodes i).closing t
      → LessAfter n s (act_on i t s)
  act_on-lt s i idle low here r = take_job-lt s i (s.nodes i).queue low refl
  act_on-lt s i ended low here r = tt
  act_on-lt s i (busy p frames) low here r = run_op-lt s i p frames low here r.0
  act_on-lt s i (waits k rest frames) low here r =
      get_result-lt s i k rest frames (s.results k) low here

  -- A step takes from the work.
  pub move-lt : (s u : Net) (i : ℕ) → Inv n s → i < n → move i s ≡ some u → work n u < work n s
  unfolding move
  move-lt s u i h low e =
      subst (LessAfter n s) e (act_on-lt s i (s.nodes i).thread low refl (h.ranked i).thread)
