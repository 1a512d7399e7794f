-- ===== src/Network/Moves.antt =====
-- The calls of a task of Network, under the invariant of Network/Ranked.
use warlib.Base.{
  ℕ, ◌≤◌, ◌<◌, ◌≡◌, refl, sym, ap, ◌∙◌, subst, ◌⊎◌, inl, inr, Bool, true, false, none, some, List,
  [], ◌∷◌, ◌==◌, ==_iff, ==-refl, All, arith, if_elim, if_true,
}
use warlib.Network.{
  Prog, return, throws, Job, exec, Frame, answers, resumes, resumes_sync, idle, busy, waits, Node,
  Net, set_node, set_thread, send, answer, is_full, op_post, op_dispatch, op_sync, new_promise,
  close_node, op_close, finish_task,
}
use warlib.Network.Ranked.{
  IsRanked, JobIsRanked, FrameIsRanked, queue_sets, frames_set, thread_sets, node_sets, Served,
  will_set, is_closing, Inv,
}
use warlib.Network.Inv.{
  queue_sets-append, put_at-same, WasSet, put_at-case, or_cases, or_left, or_right, Inv-set_thread,
  Inv-send, Inv-close_node, Inv-answer, Inv-new_promise,
}

module _ (n : ℕ) where
  pub thread-set_node :
      (s : Net) (i j : ℕ) (v : Node)
      → v.thread ≡ (s.nodes j).thread
      → ((set_node j v s).nodes i).thread ≡ (s.nodes i).thread
  thread-set_node s i j v same = elim (put_at-case n s j i v) [
    | inl (e, now) ↦ ap (λ (x : Node). x.thread) now ∙ same ∙ ap (λ y. (s.nodes y).thread) (sym e)
    | inr now ↦ ap (λ (x : Node). x.thread) now
  ]

  -- What is left of a task, in the thread of pipeline `i`.
  pub record At (s : Net) (i : ℕ) (p : Prog) (frames : List Frame) : Type 0 where
    pub inv : Inv n s
    pub here : (s.nodes i).thread ≡ busy p frames
    pub frames_ranked : All (FrameIsRanked n i) frames

  At-goes :
      (s : Net) (i : ℕ) (p q : Prog) (frames more : List Frame)
      → At s i p frames
      → IsRanked n i q
      → All (FrameIsRanked n i) more
      → ((k : ℕ) → frames_set k frames ≡ true → (frames_set k more ≡ true) ⊎ WasSet s k)
      → Inv n (set_thread i (busy q more) s)
  At-goes s i p q frames more a r m c =
      Inv-set_thread n s i (busy q more) a.inv (r, m)
        (λ k e. c k (sym (ap (thread_sets k) a.here) ∙ e)) tt

  At-same :
      (s : Net) (i : ℕ) (p q : Prog) (frames : List Frame)
      → At s i p frames
      → IsRanked n i q
      → Inv n (set_thread i (busy q frames) s)
  At-same s i p q frames a r = At-goes s i p q frames frames a r a.frames_ranked (λ k e. inl e)

  At-waits :
      (s : Net) (i k : ℕ) (p q : Prog) (frames : List Frame)
      → At s i p frames
      → IsRanked n i q
      → Served n s i k
      → Inv n (set_thread i (waits k q frames) s)
  At-waits s i k p q frames a r w =
      Inv-set_thread n s i (waits k q frames) a.inv (r, a.frames_ranked)
        (λ j e. inl (sym (ap (thread_sets j) a.here) ∙ e)) w

  At-send :
      (s : Net) (i j : ℕ) (job : Job) (p : Prog) (frames : List Frame)
      → At s i p frames
      → JobIsRanked n j (s.nodes j).closing job
      → At (send j job s) i p frames
  At-send s i j job p frames a r = record {
    inv = Inv-send n s j job a.inv r;
    here = thread-set_node s i j _ refl ∙ a.here;
    frames_ranked = a.frames_ranked;
  }

  At-new_promise :
      (s : Net) (i : ℕ) (p : Prog) (frames : List Frame)
      → At s i p frames
      → At (new_promise s) i p frames
  At-new_promise s i p frames a = record {
    inv = Inv-new_promise n s a.inv;
    here = a.here;
    frames_ranked = a.frames_ranked;
  }

  pub op_post-Inv :
      (s : Net) (i j : ℕ) (p task rest : Prog) (frames : List Frame)
      → At s i p frames
      → IsRanked n j task
      → IsRanked n i rest
      → Inv n (op_post i j task rest frames s)
  op_post-Inv s i j p task rest frames a rt rr =
      if_elim (Inv n) (s.nodes j).closing _ _ (λ e. At-same s i p rest frames a rr)
        (λ e.
          if_elim (Inv n) (is_full (s.nodes j)) _ _ (λ f. At-same s i p throws frames a tt)
            (λ f.
              At-same (send j (exec task none) s) i p rest frames
                (At-send s i j (exec task none) p frames a rt) rr))

  same_rank : (i j : ℕ) (p : Prog) → (i == j) ≡ true → IsRanked n j p → IsRanked n i p
  same_rank i j p e r = subst (λ x. IsRanked n x p) (sym ((==_iff i j).0 e)) r

  pub op_dispatch-Inv :
      (s : Net) (i j : ℕ) (p task rest : Prog) (frames : List Frame)
      → At s i p frames
      → IsRanked n j task
      → IsRanked n i rest
      → Inv n (op_dispatch i j task rest frames s)
  op_dispatch-Inv s i j p task rest frames a rt rr =
      if_elim (Inv n) (s.nodes j).closing _ _ (λ e. At-same s i p rest frames a rr)
        (λ e.
          if_elim (Inv n) (i == j) _ _
            (λ f.
              At-goes s i p task frames (resumes rest ∷ frames) a (same_rank i j task f rt)
                (rr, a.frames_ranked) (λ k g. inl g))
            (λ f. op_post-Inv s i j p task rest frames a rt rr))

  sent-sets :
      (s : Net) (j k : ℕ) (task : Prog)
      → node_sets k ((send j (exec task (some k)) s).nodes j) ≡ true
  sent-sets s j k task =
      ap (node_sets k) (put_at-same j _ s.nodes)
      ∙ or_left n _ (thread_sets k (s.nodes j).thread) (
          queue_sets-append k (s.nodes j).queue (exec task (some k) ∷ [])
          ∙ or_right n (queue_sets k (s.nodes j).queue) _ (or_left n _ false (==-refl k)))

  pub op_sync-Inv :
      (s : Net) (i j : ℕ) (p task rest : Prog) (frames : List Frame)
      → At s i p frames
      → i ≤ j
      → j < n
      → IsRanked n j task
      → IsRanked n i rest
      → Inv n (op_sync i j task rest frames s)
  op_sync-Inv s i j p task rest frames a above below rt rr =
      let b = At-new_promise s i p frames a in
      let job : Job = exec task (some s.fresh) in
      if_elim (Inv n) (s.nodes j).closing _ _
        (λ e. At-waits (new_promise s) i s.fresh p rest frames b rr (is_closing j below e))
        (λ e.
          if_elim (Inv n) (i == j) _ _
            (λ f.
              At-goes (new_promise s) i p task frames (resumes_sync rest ∷ frames) b
                (same_rank i j task f rt) (rr, a.frames_ranked) (λ k g. inl g))
            (λ f.
              if_elim (Inv n) (is_full (s.nodes j)) _ _
                (λ g. At-same (new_promise s) i p throws frames b tt)
                (λ g.
                  At-waits (send j job (new_promise s)) i s.fresh p rest frames
                    (At-send (new_promise s) i j job p frames b rt) rr
                    (will_set j (ground arith) below (sent-sets (new_promise s) j s.fresh task)))))

  pub op_close-Inv :
      (s : Net) (i j : ℕ) (p rest : Prog) (frames : List Frame)
      → At s i p frames
      → IsRanked n i rest
      → Inv n (op_close i j rest frames s)
  op_close-Inv s i j p rest frames a rr =
      if_elim (Inv n) (s.nodes j).closing _ _ (λ e. At-same s i p rest frames a rr)
        (λ e.
          At-same (close_node j s) i p rest frames
            (record {
              inv = Inv-close_node n s j a.inv;
              here = thread-set_node s i j _ refl ∙ a.here;
              frames_ranked = a.frames_ranked;
            })
            rr)

  -- The end of a task.
  pub finish_task-Inv :
      (s : Net) (i : ℕ) (p : Prog) (ok : Bool) (frames : List Frame)
      → At s i p frames
      → Inv n (finish_task i ok frames s)
  finish_task-Inv s i p ok [] a =
      Inv-set_thread n s i idle a.inv tt (λ k e. inl (sym (ap (thread_sets k) a.here) ∙ e)) tt
  finish_task-Inv s i p ok (answers k ∷ frames) a =
      At-goes (answer k ok s) i p return (answers k ∷ frames) frames
        (record { inv = Inv-answer n s k ok a.inv; here = a.here; frames_ranked = a.frames_ranked })
        tt a.frames_ranked.1
        (λ j e. elim (or_cases n (j == k) (frames_set j frames) e) [
          | inl f ↦ inr (ok, if_true _ _ _ f)
          | inr f ↦ inl f
        ])
  finish_task-Inv s i p ok (resumes rest ∷ frames) a =
      At-goes s i p rest (resumes rest ∷ frames) frames a a.frames_ranked.0 a.frames_ranked.1
        (λ k e. inl e)
  finish_task-Inv s i p true (resumes_sync rest ∷ frames) a =
      At-goes s i p rest (resumes_sync rest ∷ frames) frames a a.frames_ranked.0 a.frames_ranked.1
        (λ k e. inl e)
  finish_task-Inv s i p false (resumes_sync rest ∷ frames) a =
      At-goes s i p throws (resumes_sync rest ∷ frames) frames a tt a.frames_ranked.1 (λ k e. inl e)
