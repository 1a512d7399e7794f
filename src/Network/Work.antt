-- ===== src/Network/Work.antt =====
-- How much the pipelines of Network have still to do, and that each call takes from it.
use warlib.Base.{
  ℕ, suc, ◌≤◌, ◌<◌, ◌≡◌, refl, ap, inl, inr, true, none, some, List, [], ◌∷◌, ◌++◌, ◌==◌, ==_iff,
  arith, if_elim, Bool-cases, if_true, if_false, total, zero, ◌+◌,
}
use warlib.Network.{
  Prog, return, throws, post, dispatch, sync, close, Job, exec, shut, Frame, answers, resumes,
  resumes_sync, NodeThread, idle, ended, busy, waits, Node, Net, put_at, set_thread, send, is_full,
  op_post, op_dispatch, op_sync, close_node, op_close,
}
use warlib.Network.Moves.{thread-set_node}

abbrev pub prog_weight : Prog → ℕ
prog_weight return = 1
prog_weight throws = 1
prog_weight (post j task rest) = 5 + prog_weight task + prog_weight rest
prog_weight (dispatch j task rest) = 5 + prog_weight task + prog_weight rest
prog_weight (sync j task rest) = 5 + prog_weight task + prog_weight rest
prog_weight (close j rest) = 5 + prog_weight rest

abbrev pub job_weight : Job → ℕ
job_weight (exec task reply) = 3 + prog_weight task
job_weight shut = 1

abbrev pub frame_weight : Frame → ℕ
frame_weight (answers k) = 1
frame_weight (resumes rest) = 1 + prog_weight rest
frame_weight (resumes_sync rest) = 1 + prog_weight rest

abbrev pub thread_weight : NodeThread → ℕ
thread_weight idle = 0
thread_weight ended = 0
thread_weight (busy p frames) = 1 + prog_weight p + total frame_weight frames
thread_weight (waits k p frames) = 2 + prog_weight p + total frame_weight frames

abbrev pub node_weight : Node → ℕ
node_weight v = total job_weight v.queue + thread_weight v.thread

-- The calls that `n` pipelines have still to make, weighed.
abbrev pub net_work : ℕ → (ℕ → Node) → ℕ
net_work zero f = 0
net_work (suc m) f = node_weight (f m) + net_work m f

pub prog_weight_pos : (p : Prog) → 1 ≤ prog_weight p
prog_weight_pos return = omega arith
prog_weight_pos throws = omega arith
prog_weight_pos (post j task rest) = omega arith
prog_weight_pos (dispatch j task rest) = omega arith
prog_weight_pos (sync j task rest) = omega arith
prog_weight_pos (close j rest) = omega arith

total-append {ℓ} :
    {A : Type ℓ} (w : A → ℕ) (xs ys : List A) → total w (xs ++ ys) ≡ total w xs + total w ys
total-append w [] ys = omega arith
total-append w (x ∷ xs) ys = omega (arith, total-append w xs ys)

net_work_above :
    (m i : ℕ) (v : Node) (f : ℕ → Node) → m ≤ i → net_work m (put_at i v f) ≡ net_work m f
net_work_above zero i v f h = refl
net_work_above (suc m) i v f h =
    let other : put_at i v f m ≡ f m = if_false (m == i) _ _ (ground arith) in
    let rest = net_work_above m i v f (omega (arith, h)) in
    omega (arith, ap node_weight other, rest)

pub net_work-put_at :
    (m i : ℕ) (v : Node) (f : ℕ → Node)
    → i < m
    → net_work m (put_at i v f) + node_weight (f i) ≡ net_work m f + node_weight v
net_work-put_at zero i v f h = absurd (omega (arith, h))
net_work-put_at (suc m) i v f h = elim (Bool-cases (m == i)) [
  | inl e ↦
      let same = (==_iff m i).0 e in
      let now : put_at i v f m ≡ v = if_true (m == i) _ _ e in
      let rest = net_work_above m i v f (omega (arith, same)) in
      let here : f m ≡ f i = ap f same in
      omega (arith, ap node_weight now, ap node_weight here, rest)
  | inr e ↦
      let other : put_at i v f m ≡ f m = if_false (m == i) _ _ e in
      let rest = net_work-put_at m i v f (ground arith) in omega (arith, ap node_weight other, rest)
]

module _ (n : ℕ) where
  abbrev pub work : Net → ℕ
  work s = net_work n s.nodes

  pub work-set_thread :
      (s : Net) (i : ℕ) (t : NodeThread)
      → i < n
      → work (set_thread i t s) + thread_weight (s.nodes i).thread ≡ work s + thread_weight t
  work-set_thread s i t h =
      omega (arith, net_work-put_at n i (record (s.nodes i) { thread = t }) s.nodes h)

  work-send : (s : Net) (j : ℕ) (job : Job) → j < n → work (send j job s) ≡ work s + job_weight job
  work-send s j job h =
      let v : Node = record (s.nodes j) { queue = (s.nodes j).queue ++ job ∷ [] } in
      omega (
        arith,
        net_work-put_at n j v s.nodes h,
        total-append job_weight (s.nodes j).queue (job ∷ []),
      )

  work-close_node : (s : Net) (j : ℕ) → j < n → work (close_node j s) ≡ work s + 1
  work-close_node s j h =
      let v : Node = record (s.nodes j) {
        closing = true;
        queue = (s.nodes j).queue ++ shut ∷ [];
      } in
      omega (
        arith,
        net_work-put_at n j v s.nodes h,
        total-append job_weight (s.nodes j).queue (shut ∷ []),
      )

  -- A thread that goes on, after at most `more` work was handed out.
  goes-lt :
      (s u : Net) (i more : ℕ) (t : NodeThread)
      → i < n
      → (u.nodes i).thread ≡ (s.nodes i).thread
      → work u ≤ work s + more
      → thread_weight t + more < thread_weight (s.nodes i).thread
      → work (set_thread i t u) < work s
  goes-lt s u i more t h same le less =
      omega (arith, work-set_thread u i t h, ap thread_weight same, le, less)

  -- The thread of pipeline `i` is at `p`.
  module _ (s : Net) (i : ℕ) (low : i < n) (p : Prog) (frames : List Frame)
      (here : (s.nodes i).thread ≡ busy p frames) where
    pub alone-lt :
        (t : NodeThread)
        → thread_weight t < thread_weight (busy p frames)
        → work (set_thread i t s) < work s
    alone-lt t less =
        goes-lt s s i 0 t low refl (omega arith) (omega (arith, ap thread_weight here, less))

    send-lt :
        (j : ℕ) (job : Job) (t : NodeThread)
        → j < n
        → thread_weight t + job_weight job < thread_weight (busy p frames)
        → work (set_thread i t (send j job s)) < work s
    send-lt j job t below less =
        goes-lt s (send j job s) i (job_weight job) t low (thread-set_node n s i j _ refl)
          (omega (arith, work-send s j job below)) (omega (arith, ap thread_weight here, less))

    pub op_post-lt :
        (j : ℕ) (task rest : Prog)
        → j < n
        → 5 + prog_weight task + prog_weight rest ≤ prog_weight p
        → work (op_post i j task rest frames s) < work s
    op_post-lt j task rest below less =
        let pos = prog_weight_pos rest in
        if_elim (λ u. work u < work s) (s.nodes j).closing _ _
          (λ e. alone-lt (busy rest frames) (omega (arith, less)))
          (λ e.
            if_elim (λ u. work u < work s) (is_full (s.nodes j)) _ _
              (λ f. alone-lt (busy throws frames) (omega (arith, less)))
              (λ f. send-lt j (exec task none) (busy rest frames) below (omega (arith, less))))

    pub op_dispatch-lt :
        (j : ℕ) (task rest : Prog)
        → j < n
        → 5 + prog_weight task + prog_weight rest ≤ prog_weight p
        → work (op_dispatch i j task rest frames s) < work s
    op_dispatch-lt j task rest below less =
        if_elim (λ u. work u < work s) (s.nodes j).closing _ _
          (λ e. alone-lt (busy rest frames) (omega (arith, less)))
          (λ e.
            if_elim (λ u. work u < work s) (i == j) _ _
              (λ f. alone-lt (busy task (resumes rest ∷ frames)) (omega (arith, less)))
              (λ f. op_post-lt j task rest below less))

    pub op_sync-lt :
        (j : ℕ) (task rest : Prog)
        → j < n
        → 5 + prog_weight task + prog_weight rest ≤ prog_weight p
        → work (op_sync i j task rest frames s) < work s
    op_sync-lt j task rest below less =
        if_elim (λ u. work u < work s) (s.nodes j).closing _ _
          (λ e. alone-lt (waits s.fresh rest frames) (omega (arith, less)))
          (λ e.
            if_elim (λ u. work u < work s) (i == j) _ _
              (λ f. alone-lt (busy task (resumes_sync rest ∷ frames)) (omega (arith, less)))
              (λ f.
                if_elim (λ u. work u < work s) (is_full (s.nodes j)) _ _
                  (λ g. alone-lt (busy throws frames) (omega (arith, less)))
                  (λ g.
                    send-lt j (exec task (some s.fresh)) (waits s.fresh rest frames) below
                      (omega (arith, less)))))

    pub op_close-lt :
        (j : ℕ) (rest : Prog)
        → j < n
        → 5 + prog_weight rest ≤ prog_weight p
        → work (op_close i j rest frames s) < work s
    op_close-lt j rest below less =
        if_elim (λ u. work u < work s) (s.nodes j).closing _ _
          (λ e. alone-lt (busy rest frames) (omega (arith, less)))
          (λ e.
            goes-lt s (close_node j s) i 1 (busy rest frames) low (thread-set_node n s i j _ refl)
              (omega (arith, work-close_node s j below))
              (omega (arith, ap thread_weight here, less)))
