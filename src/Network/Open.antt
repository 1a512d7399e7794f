-- ===== src/Network/Open.antt =====
-- Pipelines of Network none of whose tasks calls Close.
use warlib.Base.{ℕ, ◌≡◌, Bool, true, false, List, [], ◌∷◌, ◌++◌, ◌==◌, All, All-append, if_elim}
use warlib.Network.{
  Prog, return, throws, post, dispatch, sync, close, Job, exec, shut, Frame, answers, resumes,
  resumes_sync, NodeThread, idle, ended, busy, waits, Node, Net, set_node, set_thread, send,
  set_rest, is_full, op_post, op_dispatch, op_sync, new_promise, finish_task,
}

abbrev pub NeverCloses : Prog → Type 0
NeverCloses return = Unit
NeverCloses throws = Unit
NeverCloses (post j task rest) = NeverCloses task × NeverCloses rest
NeverCloses (dispatch j task rest) = NeverCloses task × NeverCloses rest
NeverCloses (sync j task rest) = NeverCloses task × NeverCloses rest
NeverCloses (close j rest) = ⊥

abbrev pub JobIsOpen : Job → Type 0
JobIsOpen (exec task reply) = NeverCloses task
JobIsOpen shut = ⊥

abbrev pub FrameIsOpen : Frame → Type 0
FrameIsOpen (answers k) = Unit
FrameIsOpen (resumes rest) = NeverCloses rest
FrameIsOpen (resumes_sync rest) = NeverCloses rest

abbrev pub ThreadIsOpen : NodeThread → Type 0
ThreadIsOpen idle = Unit
ThreadIsOpen ended = ⊥
ThreadIsOpen (busy p frames) = NeverCloses p × All FrameIsOpen frames
ThreadIsOpen (waits k p frames) = NeverCloses p × All FrameIsOpen frames

pub record NodeIsOpen (v : Node) : Type 0 where
  pub not_closing : v.closing ≡ false
  pub jobs : All JobIsOpen v.queue
  pub goes_on : ThreadIsOpen v.thread

pub record IsOpen (s : Net) : Type 0 where
  pub open_node : (x : ℕ) → NodeIsOpen (s.nodes x)

IsOpen-set_node : (i : ℕ) (v : Node) (s : Net) → NodeIsOpen v → IsOpen s → IsOpen (set_node i v s)
IsOpen-set_node i v s new o = record {
  open_node = λ x. if_elim NodeIsOpen (x == i) v (s.nodes x) (λ e. new) (λ e. o.open_node x);
}

pub IsOpen-set_thread :
    (i : ℕ) (t : NodeThread) (s : Net) → ThreadIsOpen t → IsOpen s → IsOpen (set_thread i t s)
IsOpen-set_thread i t s new o =
    let v = o.open_node i in
    IsOpen-set_node i (record (s.nodes i) { thread = t }) s
      (record { not_closing = v.not_closing; jobs = v.jobs; goes_on = new }) o

IsOpen-send : (j : ℕ) (job : Job) (s : Net) → JobIsOpen job → IsOpen s → IsOpen (send j job s)
IsOpen-send j job s new o =
    let v = o.open_node j in
    IsOpen-set_node j (record (s.nodes j) { queue = (s.nodes j).queue ++ job ∷ [] }) s
      (record {
        not_closing = v.not_closing;
        jobs = All-append JobIsOpen (s.nodes j).queue (job ∷ []) v.jobs (new, tt);
        goes_on = v.goes_on;
      })
      o

pub IsOpen-set_rest :
    (i : ℕ) (t : NodeThread) (rest : List Job) (s : Net)
    → ThreadIsOpen t
    → All JobIsOpen rest
    → IsOpen s
    → IsOpen (set_rest i t rest s)
IsOpen-set_rest i t rest s new left o =
    let v = o.open_node i in
    IsOpen-set_node i (record (s.nodes i) { thread = t; queue = rest }) s
      (record { not_closing = v.not_closing; jobs = left; goes_on = new }) o

IsOpen-new_promise : (s : Net) → IsOpen s → IsOpen (new_promise s)
IsOpen-new_promise s o = record { open_node = o.open_node }

module _ (i : ℕ) (frames : List Frame) (all : All FrameIsOpen frames) where
  pub op_post-IsOpen :
      (j : ℕ) (task rest : Prog) (s : Net)
      → NeverCloses task
      → NeverCloses rest
      → IsOpen s
      → IsOpen (op_post i j task rest frames s)
  op_post-IsOpen j task rest s t r o =
      if_elim IsOpen (s.nodes j).closing _ _ (λ e. IsOpen-set_thread i _ s (r, all) o)
        (λ e.
          if_elim IsOpen (is_full (s.nodes j)) _ _ (λ f. IsOpen-set_thread i _ s (tt, all) o)
            (λ f. IsOpen-set_thread i _ _ (r, all) (IsOpen-send j _ s t o)))

  pub op_dispatch-IsOpen :
      (j : ℕ) (task rest : Prog) (s : Net)
      → NeverCloses task
      → NeverCloses rest
      → IsOpen s
      → IsOpen (op_dispatch i j task rest frames s)
  op_dispatch-IsOpen j task rest s t r o =
      if_elim IsOpen (s.nodes j).closing _ _ (λ e. IsOpen-set_thread i _ s (r, all) o)
        (λ e.
          if_elim IsOpen (i == j) _ _ (λ f. IsOpen-set_thread i _ s (t, (r, all)) o)
            (λ f. op_post-IsOpen j task rest s t r o))

  pub op_sync-IsOpen :
      (j : ℕ) (task rest : Prog) (s : Net)
      → NeverCloses task
      → NeverCloses rest
      → IsOpen s
      → IsOpen (op_sync i j task rest frames s)
  op_sync-IsOpen j task rest s t r o =
      let p = IsOpen-new_promise s o in
      if_elim IsOpen (s.nodes j).closing _ _ (λ e. IsOpen-set_thread i _ _ (r, all) p)
        (λ e.
          if_elim IsOpen (i == j) _ _ (λ f. IsOpen-set_thread i _ _ (t, (r, all)) p)
            (λ f.
              if_elim IsOpen (is_full (s.nodes j)) _ _ (λ g. IsOpen-set_thread i _ _ (tt, all) p)
                (λ g. IsOpen-set_thread i _ _ (r, all) (IsOpen-send j _ _ t p))))

pub finish_task-IsOpen :
    (i : ℕ) (ok : Bool) (frames : List Frame) (s : Net)
    → All FrameIsOpen frames
    → IsOpen s
    → IsOpen (finish_task i ok frames s)
finish_task-IsOpen i ok [] s all o = IsOpen-set_thread i idle s tt o
finish_task-IsOpen i ok (answers k ∷ frames) s all o =
    IsOpen-set_thread i _ _ (tt, all.1) (record { open_node = o.open_node })
finish_task-IsOpen i ok (resumes rest ∷ frames) s all o = IsOpen-set_thread i _ s all o
finish_task-IsOpen i true (resumes_sync rest ∷ frames) s all o = IsOpen-set_thread i _ s all o
finish_task-IsOpen i false (resumes_sync rest ∷ frames) s all o =
    IsOpen-set_thread i _ s (tt, all.1) o
