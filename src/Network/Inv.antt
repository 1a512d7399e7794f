-- ===== src/Network/Inv.antt =====
-- Each step of a thread of Network keeps the invariant of Network/Ranked.
use warlib.Base.{
  ℕ, ◌<◌, ◌≡◌, refl, sym, ap, ◌∙◌, subst, ◌⊎◌, inl, inr, Bool, true, false, ◌||◌, some, List, [],
  ◌∷◌, ◌++◌, ◌==◌, ==_iff, ==-refl, All, All-append, arith, Bool-cases, if_true, if_false,
}
use warlib.Network.{
  Job, exec, shut, NodeThread, idle, ended, busy, waits, Node, Net, put_at, set_node, set_thread,
  send, answer, new_promise, close_node,
}
use warlib.Network.Ranked.{
  JobIsRanked, ThreadIsRanked, NodeIsRanked, queue_sets, thread_sets, node_sets, Served, is_set,
  will_set, is_closing, WaitIsServed, Inv,
}

pub queue_sets-append :
    (k : ℕ) (q r : List Job) → queue_sets k (q ++ r) ≡ (queue_sets k q || queue_sets k r)
queue_sets-append k [] r = refl
queue_sets-append k (exec task reply ∷ q) r = ground (arith, queue_sets-append k q r)
queue_sets-append k (shut ∷ q) r = queue_sets-append k q r

pub put_at-same {ℓ} : {A : Type ℓ} (i : ℕ) (a : A) (f : ℕ → A) → put_at i a f i ≡ a
put_at-same i a f = if_true _ _ _ (==-refl i)

-- A promise that was set.
abbrev pub WasSet : Net → ℕ → Type 0
WasSet s k = (ok : Bool) × (s.results k ≡ some ok)

module _ (n : ℕ) where
  -- A change of pipeline `i` that leaves no promise without the one who sets it.
  pub record Keeps (s : Net) (i : ℕ) (v : Node) : Type 0 where
    pub sets :
        (k : ℕ)
        → node_sets k (s.nodes i) ≡ true
        → (node_sets k v ≡ true) ⊎ WasSet s k ⊎ ((i < n) × (v.closing ≡ true))
    pub closes : (s.nodes i).closing ≡ true → v.closing ≡ true

  -- Under that change, what another thread waits for is still to come.
  pub put_at-case :
      (s : Net) (i j : ℕ) (v : Node)
      → ((j ≡ i) × (put_at i v s.nodes j ≡ v)) ⊎ (put_at i v s.nodes j ≡ s.nodes j)
  put_at-case s i j v = elim (Bool-cases (j == i)) [
    | inl e ↦ inl ((==_iff j i).0 e, if_true _ _ _ e)
    | inr e ↦ inr (if_false _ _ _ e)
  ]

  Served-set_node :
      (s : Net) (i : ℕ) (v : Node) (x k : ℕ)
      → Keeps s i v
      → Served n s x k
      → Served n (set_node i v s) x k
  Served-set_node s i v x k c (is_set ok e) = is_set ok e
  Served-set_node s i v x k c (will_set j above below e) = elim (put_at-case s i j v) [
    | inl (same, now) ↦ elim (c.sets k (subst (λ y. node_sets k (s.nodes y) ≡ true) same e)) [
      | inl f ↦ will_set j above below (ap (node_sets k) now ∙ f)
      | inr (inl (ok, f)) ↦ is_set ok f
      | inr (inr (low, f)) ↦ is_closing j below (ap (λ (y : Node). y.closing) now ∙ f)
    ]
    | inr now ↦ will_set j above below (ap (node_sets k) now ∙ e)
  ]
  Served-set_node s i v x k c (is_closing j below e) = elim (put_at-case s i j v) [
    | inl (same, now) ↦ is_closing j below (
        ap (λ (y : Node). y.closing) now
        ∙ c.closes (subst (λ y. (s.nodes y).closing ≡ true) same e))
    | inr now ↦ is_closing j below (ap (λ (y : Node). y.closing) now ∙ e)
  ]

  WaitIsServed-set_node :
      (s : Net) (i : ℕ) (v : Node) (x : ℕ) (t : NodeThread)
      → Keeps s i v
      → WaitIsServed n s x t
      → WaitIsServed n (set_node i v s) x t
  WaitIsServed-set_node s i v x idle c w = tt
  WaitIsServed-set_node s i v x ended c w = tt
  WaitIsServed-set_node s i v x (busy p frames) c w = tt
  WaitIsServed-set_node s i v x (waits k p frames) c w = Served-set_node s i v x k c w

  pub Inv-set_node :
      (s : Net) (i : ℕ) (v : Node)
      → Inv n s
      → Keeps s i v
      → NodeIsRanked n i v
      → WaitIsServed n (set_node i v s) i v.thread
      → Inv n (set_node i v s)
  Inv-set_node s i v h c r w = record {
    ranked = λ x. elim (put_at-case s i x v) [
      | inl (same, now) ↦
          subst (NodeIsRanked n x) (sym now) (subst (λ y. NodeIsRanked n y v) (sym same) r)
      | inr now ↦ subst (NodeIsRanked n x) (sym now) (h.ranked x)
    ];
    served = λ x. elim (put_at-case s i x v) [
      | inl (same, now) ↦
          subst (λ (y : Node). WaitIsServed n (set_node i v s) x y.thread) (sym now)
            (subst (λ y. WaitIsServed n (set_node i v s) y v.thread) (sym same) w)
      | inr now ↦
          subst (λ (y : Node). WaitIsServed n (set_node i v s) x y.thread) (sym now)
            (WaitIsServed-set_node s i v x (s.nodes x).thread c (h.served x))
    ];
  }

  pub or_cases : (a b : Bool) → (a || b) ≡ true → (a ≡ true) ⊎ (b ≡ true)
  or_cases true b e = inl refl
  or_cases false b e = inr e

  pub or_left : (a b : Bool) → a ≡ true → (a || b) ≡ true
  or_left a b e = rw e refl

  pub or_right : (a b : Bool) → b ≡ true → (a || b) ≡ true
  or_right true b e = refl
  or_right false b e = e

  -- The thread of `i` goes on, and what it drops was set.
  pub Inv-set_thread :
      (s : Net) (i : ℕ) (t : NodeThread)
      → Inv n s
      → ThreadIsRanked n i (s.nodes i).closing t
      → ((k : ℕ) → thread_sets k (s.nodes i).thread ≡ true → (thread_sets k t ≡ true) ⊎ WasSet s k)
      → WaitIsServed n s i t
      → Inv n (set_thread i t s)
  Inv-set_thread s i t h r c w =
      let v : Node = record (s.nodes i) { thread = t } in
      let keeps : Keeps s i v = record {
        sets = λ k e. elim (or_cases (queue_sets k (s.nodes i).queue) _ e) [
          | inl q ↦ inl (or_left _ (thread_sets k t) q)
          | inr f ↦ elim (c k f) [
            | inl g ↦ inl (or_right (queue_sets k (s.nodes i).queue) _ g)
            | inr g ↦ inr (inl g)
          ]
        ];
        closes = λ e. e;
      } in
      Inv-set_node s i v h keeps (record { queue = (h.ranked i).queue; thread = r })
        (WaitIsServed-set_node s i v i t keeps w)

  -- A handler more.
  pub Inv-send :
      (s : Net) (j : ℕ) (job : Job)
      → Inv n s
      → JobIsRanked n j (s.nodes j).closing job
      → Inv n (send j job s)
  Inv-send s j job h r =
      let v : Node = record (s.nodes j) { queue = (s.nodes j).queue ++ job ∷ [] } in
      let c : Keeps s j v = record {
        sets = λ k e. elim (or_cases (queue_sets k (s.nodes j).queue) _ e) [
          | inl q ↦ inl (
              or_left _ (thread_sets k (s.nodes j).thread)
                (queue_sets-append k (s.nodes j).queue (job ∷ []) ∙ or_left _ _ q))
          | inr f ↦ inl (or_right (queue_sets k v.queue) _ f)
        ];
        closes = λ e. e;
      } in
      Inv-set_node s j v h c
        (record {
          queue =
              All-append (JobIsRanked n j v.closing) (s.nodes j).queue (job ∷ []) (h.ranked j).queue
                (r, tt);
          thread = (h.ranked j).thread;
        })
        (WaitIsServed-set_node s j v j (s.nodes j).thread c (h.served j))

  closing-jobs :
      (i : ℕ) (c : Bool) (q : List Job) → All (JobIsRanked n i c) q → All (JobIsRanked n i true) q
  closing-jobs i c [] r = tt
  closing-jobs i c (exec task reply ∷ q) r = (r.0, closing-jobs i c q r.1)
  closing-jobs i c (shut ∷ q) r = (refl, closing-jobs i c q r.1)

  closing-thread :
      (i : ℕ) (c : Bool) (t : NodeThread) → ThreadIsRanked n i c t → ThreadIsRanked n i true t
  closing-thread i c idle r = tt
  closing-thread i c ended r = refl
  closing-thread i c (busy p frames) r = r
  closing-thread i c (waits k p frames) r = r

  -- Close.
  pub Inv-close_node : (s : Net) (j : ℕ) → Inv n s → Inv n (close_node j s)
  Inv-close_node s j h =
      let v : Node = record (s.nodes j) {
        closing = true;
        queue = (s.nodes j).queue ++ shut ∷ [];
      } in
      let c : Keeps s j v = record {
        sets = λ k e. elim (or_cases (queue_sets k (s.nodes j).queue) _ e) [
          | inl q ↦ inl (
              or_left _ (thread_sets k (s.nodes j).thread)
                (queue_sets-append k (s.nodes j).queue (shut ∷ []) ∙ or_left _ _ q))
          | inr f ↦ inl (or_right (queue_sets k v.queue) _ f)
        ];
        closes = λ e. refl;
      } in
      Inv-set_node s j v h c
        (record {
          queue =
              All-append (JobIsRanked n j true) (s.nodes j).queue (shut ∷ [])
                (closing-jobs j (s.nodes j).closing (s.nodes j).queue (h.ranked j).queue)
                (refl, tt);
          thread = closing-thread j (s.nodes j).closing (s.nodes j).thread (h.ranked j).thread;
        })
        (WaitIsServed-set_node s j v j (s.nodes j).thread c (h.served j))

  Served-answer :
      (s : Net) (j : ℕ) (b : Bool) (x k : ℕ) → Served n s x k → Served n (answer j b s) x k
  Served-answer s j b x k (is_set ok e) = elim (Bool-cases (k == j)) [
    | inl f ↦ is_set b (if_true _ _ _ f)
    | inr f ↦ is_set ok (if_false _ _ _ f ∙ e)
  ]
  Served-answer s j b x k (will_set i above below e) = will_set i above below e
  Served-answer s j b x k (is_closing i below e) = is_closing i below e

  Served-new_promise : (s : Net) (x k : ℕ) → Served n s x k → Served n (new_promise s) x k
  Served-new_promise s x k (is_set ok e) = is_set ok e
  Served-new_promise s x k (will_set i above below e) = will_set i above below e
  Served-new_promise s x k (is_closing i below e) = is_closing i below e

  WaitIsServed-map :
      (s u : Net) (x : ℕ) (t : NodeThread)
      → ((k : ℕ) → Served n s x k → Served n u x k)
      → WaitIsServed n s x t
      → WaitIsServed n u x t
  WaitIsServed-map s u x idle f w = tt
  WaitIsServed-map s u x ended f w = tt
  WaitIsServed-map s u x (busy p frames) f w = tt
  WaitIsServed-map s u x (waits k p frames) f w = f k w

  pub Inv-answer : (s : Net) (k : ℕ) (ok : Bool) → Inv n s → Inv n (answer k ok s)
  Inv-answer s k ok h = record {
    ranked = h.ranked;
    served = λ x.
        WaitIsServed-map s (answer k ok s) x (s.nodes x).thread (λ j. Served-answer s k ok x j)
          (h.served x);
  }

  pub Inv-new_promise : (s : Net) → Inv n s → Inv n (new_promise s)
  Inv-new_promise s h = record {
    ranked = h.ranked;
    served = λ x.
        WaitIsServed-map s (new_promise s) x (s.nodes x).thread (λ j. Served-new_promise s x j)
          (h.served x);
  }
