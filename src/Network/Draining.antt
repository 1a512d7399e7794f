-- ===== src/Network/Draining.antt =====
-- Pipelines of Network none of whose tasks calls Close come to an end of their work.
use warlib.Base.{
  ℕ, ◌+◌, ◌<◌, ◌≤◌, ◌≡◌, sym, ap, ◌∙◌, subst, ◌⊎◌, inl, inr, Bool, true, false, Option, none, some,
  List, [], ◌∷◌, length, All, if_elim, Option-cases,
}
use warlib.Network.{
  Prog, return, throws, post, dispatch, sync, close, Job, exec, shut, Frame, NodeThread, idle,
  ended, busy, waits, Net, reply_frames, take_job, get_result, run_op, act_on, move, net_then,
  run_net,
}
use warlib.Network.Work.{work}
use warlib.Network.Progress.{AllQuiet, AllBelow, Starts, can_move, closes, quiet, run_net-Goes}
use warlib.Network.Open.{
  NeverCloses, JobIsOpen, FrameIsOpen, ThreadIsOpen, IsOpen, IsOpen-set_thread, IsOpen-set_rest,
  op_post-IsOpen, op_dispatch-IsOpen, op_sync-IsOpen, finish_task-IsOpen,
}

run_op-IsOpen :
    (i : ℕ) (p : Prog) (frames : List Frame) (s : Net)
    → NeverCloses p
    → All FrameIsOpen frames
    → IsOpen s
    → IsOpen (run_op i p frames s)
run_op-IsOpen i return frames s never all o = finish_task-IsOpen i true frames s all o
run_op-IsOpen i throws frames s never all o = finish_task-IsOpen i false frames s all o
run_op-IsOpen i (post j task rest) frames s never all o =
    op_post-IsOpen i frames all j task rest s never.0 never.1 o
run_op-IsOpen i (dispatch j task rest) frames s never all o =
    op_dispatch-IsOpen i frames all j task rest s never.0 never.1 o
run_op-IsOpen i (sync j task rest) frames s never all o =
    op_sync-IsOpen i frames all j task rest s never.0 never.1 o
run_op-IsOpen i (close j rest) frames s never all o = absurd never

AfterIsOpen : Option Net → Type 0
AfterIsOpen none = Unit
AfterIsOpen (some s) = IsOpen s

reply_frames-IsOpen : (reply : Option ℕ) → All FrameIsOpen (reply_frames reply)
reply_frames-IsOpen none = tt
reply_frames-IsOpen (some k) = (tt, tt)

take_job-IsOpen :
    (i : ℕ) (jobs : List Job) (s : Net)
    → All JobIsOpen jobs
    → IsOpen s
    → AfterIsOpen (take_job i jobs s)
unfolding AfterIsOpen
take_job-IsOpen i [] s all o = tt
take_job-IsOpen i (exec task reply ∷ rest) s all o =
    if_elim IsOpen (s.nodes i).closing _ _ (λ e. IsOpen-set_rest i idle rest s tt all.1 o)
      (λ e. IsOpen-set_rest i _ rest s (all.0, reply_frames-IsOpen reply) all.1 o)
take_job-IsOpen i (shut ∷ rest) s all o = absurd all.0

get_result-IsOpen :
    (i : ℕ) (r : Option Bool) (p : Prog) (frames : List Frame) (s : Net)
    → NeverCloses p
    → All FrameIsOpen frames
    → IsOpen s
    → AfterIsOpen (get_result i r p frames s)
unfolding AfterIsOpen
get_result-IsOpen i none p frames s never all o = tt
get_result-IsOpen i (some true) p frames s never all o = IsOpen-set_thread i _ s (never, all) o
get_result-IsOpen i (some false) p frames s never all o = IsOpen-set_thread i _ s (tt, all) o

act_on-IsOpen :
    (i : ℕ) (t : NodeThread) (s : Net) → ThreadIsOpen t → IsOpen s → AfterIsOpen (act_on i t s)
unfolding AfterIsOpen
act_on-IsOpen i idle s g o = take_job-IsOpen i (s.nodes i).queue s (o.open_node i).jobs o
act_on-IsOpen i ended s g o = absurd g
act_on-IsOpen i (busy p frames) s g o = run_op-IsOpen i p frames s g.0 g.1 o
act_on-IsOpen i (waits k p frames) s g o = get_result-IsOpen i (s.results k) p frames s g.0 g.1 o

run_net-IsOpen : (is : List ℕ) (s u : Net) → IsOpen s → run_net is s ≡ some u → IsOpen u
unfolding run_net move AfterIsOpen
run_net-IsOpen [] s u o e = let same : s ≡ u = cc in subst IsOpen same o
run_net-IsOpen (i ∷ is) s u o e = elim (Option-cases (move i s)) [
  | inl f ↦
      let q : net_then none (run_net is) ≡ some u = sym (ap (λ x. net_then x (run_net is)) f) ∙ e in
      cc
  | inr (t, f) ↦
      run_net-IsOpen is t u
        (subst AfterIsOpen f (act_on-IsOpen i (s.nodes i).thread s (o.open_node i).goes_on o))
        (sym (ap (λ x. net_then x (run_net is)) f) ∙ e)
]

-- `n` pipelines whose tasks never call Close, call these `n` only, and PostSynchronously their own or
-- later ones only, whose threads have not begun and which are open: whatever the schedule of their
-- threads, it has at most `work` steps, and behind it some thread can step, or no pipeline has anything to
-- do.
pub run_net-drains :
    (n : ℕ) (is : List ℕ) (s u : Net)
    → Starts n s
    → ((x : ℕ) → All JobIsOpen (s.nodes x).queue)
    → AllBelow n is
    → run_net is s ≡ some u
    → (length is + work n u ≤ work n s)
      × (((i : ℕ) × (i < n) × (w : Net) × (move i u ≡ some w)) ⊎ AllQuiet n u)
run_net-drains n is s u v never low e =
    let begun : IsOpen s = record {
      open_node = λ x. record {
        not_closing = v.open_yet x;
        jobs = never x;
        goes_on = subst ThreadIsOpen (sym (v.calm x)) tt;
      };
    } in
    let later = run_net-IsOpen is s u begun e in
    let (bound, goes) = run_net-Goes n is s u v low e in
    (
      bound,
      elim goes [
        | can_move i below w f ↦ inl (i, below, w, f)
        | closes j below f ↦ let g = (later.open_node j).not_closing in cc
        | quiet q ↦ inr q
      ],
    )
