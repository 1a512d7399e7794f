-- ===== src/Network/Progress.antt =====
-- Whether the pipelines of Network can go on.
use warlib.Base.{
  ℕ, suc, ◌≤◌, ◌<◌, ◌≡◌, ◌≢◌, refl, sym, ap, ◌∙◌, subst, ◌⊎◌, inl, inr, true, false, Option, none,
  some, List, [], ◌∷◌, ◌==◌, ==_iff, All, arith, Bool-cases, length, zero, ◌+◌, Option-cases,
}
use warlib.Network.{
  Job, exec, shut, NodeThread, idle, ended, busy, waits, Node, Net, take_job, get_result, act_on,
  move, net_then, run_net,
}
use warlib.Network.Ranked.{
  JobIsRanked, ThreadIsRanked, queue_sets, thread_sets, node_sets, is_set, will_set, is_closing,
  WaitIsServed, Inv,
}
use warlib.Network.Steps.{move-Inv}
use warlib.Network.Work.{work}
use warlib.Network.Ends.{move-lt}

-- A pipeline with nothing to do.
pub record IsQuiet (v : Node) : Type 0 where
  pub no_queue : v.queue ≡ []
  pub calm : v.thread ≡ idle

abbrev pub AllQuiet : ℕ → Net → Type 0
AllQuiet zero s = Unit
AllQuiet (suc m) s = IsQuiet (s.nodes m) × AllQuiet m s

-- What can be said of `n` pipelines: a thread can step, one of them is closing, or all are quiet.
pub data Goes (n : ℕ) (s : Net) : Type 0 where
  can_move : (i : ℕ) → i < n → (u : Net) → move i s ≡ some u → Goes n s
  closes : (j : ℕ) → j < n → (s.nodes j).closing ≡ true → Goes n s
  quiet : AllQuiet n s → Goes n s

-- All pipelines from `m` on are quiet, or a case of `Goes`.
data Above (n m : ℕ) (s : Net) : Type 0 where
  moves_above : (i : ℕ) → i < n → (u : Net) → move i s ≡ some u → Above n m s
  closes_above : (j : ℕ) → j < n → (s.nodes j).closing ≡ true → Above n m s
  quiet_above : ((x : ℕ) → m ≤ x → x < n → IsQuiet (s.nodes x)) → Above n m s

module _ (n : ℕ) (s : Net) (h : Inv n s) where
  quiet-sets : (v : Node) (k : ℕ) → IsQuiet v → node_sets k v ≡ false
  quiet-sets v k q =
      let a = ap (queue_sets k) q.no_queue in let b = ap (thread_sets k) q.calm in ground arith

  -- Pipeline `m`, when those behind it are quiet.
  look_at :
      (m : ℕ) (t : NodeThread) (jobs : List Job)
      → m < n
      → (s.nodes m).thread ≡ t
      → (s.nodes m).queue ≡ jobs
      → ((x : ℕ) → suc m ≤ x → x < n → IsQuiet (s.nodes x))
      → Above n m s
  unfolding move
  look_at m idle [] low here first rest = quiet_above (λ x le lt. elim (Bool-cases (x == m)) [
    | inl e ↦
        subst (λ y. IsQuiet (s.nodes y)) (sym ((==_iff x m).0 e))
          (record { no_queue = first; calm = here })
    | inr e ↦ rest x (ground arith) lt
  ])
  look_at m idle (exec task reply ∷ jobs) low here first rest =
      moves_above m low _ (ap (λ t. act_on m t s) here ∙ ap (λ q. take_job m q s) first)
  look_at m idle (shut ∷ jobs) low here first rest =
      moves_above m low _ (ap (λ t. act_on m t s) here ∙ ap (λ q. take_job m q s) first)
  look_at m ended jobs low here first rest =
      closes_above m low (subst (ThreadIsRanked n m (s.nodes m).closing) here (h.ranked m).thread)
  look_at m (busy p frames) jobs low here first rest =
      moves_above m low _ (ap (λ t. act_on m t s) here)
  look_at m (waits k p frames) jobs low here first rest =
      elim (subst (WaitIsServed n s m) here (h.served m)) [
        | is_set true e ↦
            moves_above m low _
              (ap (λ t. act_on m t s) here ∙ ap (λ r. get_result m r p frames s) e)
        | is_set false e ↦
            moves_above m low _
              (ap (λ t. act_on m t s) here ∙ ap (λ r. get_result m r p frames s) e)
        | will_set j above below e ↦
            let none_there = quiet-sets (s.nodes j) k (rest j (omega (arith, above)) below) in cc
        | is_closing j below e ↦ closes_above j below e
      ]

  climb : (d m : ℕ) → m + d ≡ n → Above n m s
  climb zero m e = quiet_above (λ x le lt. absurd (omega (arith, e, le, lt)))
  climb (suc d) m e = elim (climb d (suc m) (omega (arith, e))) [
    | moves_above i low u f ↦ moves_above i low u f
    | closes_above j below f ↦ closes_above j below f
    | quiet_above rest ↦
        look_at m (s.nodes m).thread (s.nodes m).queue (omega (arith, e)) refl refl rest
  ]

  all_quiet : (m : ℕ) → m ≤ n → ((x : ℕ) → 0 ≤ x → x < n → IsQuiet (s.nodes x)) → AllQuiet m s
  all_quiet zero le q = tt
  all_quiet (suc m) le q =
      (q m (omega arith) (omega (arith, le)), all_quiet m (omega (arith, le)) q)

  Inv-Goes : Goes n s
  Inv-Goes = elim (climb n 0 (omega arith)) [
    | moves_above i low u f ↦ can_move i low u f
    | closes_above j below f ↦ closes j below f
    | quiet_above rest ↦ quiet (all_quiet n (omega arith) rest)
  ]

-- A net before its threads have done anything, with tasks for its pipelines that keep to their order.
pub record Starts (n : ℕ) (s : Net) : Type 0 where
  pub calm : (x : ℕ) → (s.nodes x).thread ≡ idle
  pub open_yet : (x : ℕ) → (s.nodes x).closing ≡ false
  pub ranked : (x : ℕ) → All (JobIsRanked n x false) (s.nodes x).queue

Starts-Inv : (n : ℕ) (s : Net) → Starts n s → Inv n s
Starts-Inv n s v = record {
  ranked = λ x. record {
    queue =
        subst (λ c. All (JobIsRanked n x c) (s.nodes x).queue) (sym (v.open_yet x)) (v.ranked x);
    thread = subst (ThreadIsRanked n x (s.nodes x).closing) (sym (v.calm x)) tt;
  };
  served = λ x. subst (WaitIsServed n s x) (sym (v.calm x)) tt;
}

-- A schedule that names the `n` pipelines only.
abbrev pub AllBelow : ℕ → List ℕ → Type 0
AllBelow n is = All (λ i. i < n) is

net_then-none :
    (is : List ℕ) (o : Option Net) (u : Net) → o ≡ none → net_then o (run_net is) ≢ some u
net_then-none is o u e f =
    let q : none ≡ some u = sym (ap (λ x. net_then x (run_net is)) e) ∙ f in cc

run_net-Inv :
    (n : ℕ) (is : List ℕ) (s u : Net)
    → Inv n s
    → AllBelow n is
    → run_net is s ≡ some u
    → (length is + work n u ≤ work n s) × Inv n u
unfolding run_net
run_net-Inv n [] s u h low e =
    let same : s ≡ u = cc in (omega (arith, ap (work n) same), subst (Inv n) same h)
run_net-Inv n (i ∷ is) s u h low e = elim (Option-cases (move i s)) [
  | inl f ↦ absurd (net_then-none is (move i s) u f e)
  | inr (t, f) ↦
      let rest =
        run_net-Inv n is t u (move-Inv n s t i h low.0 f) low.1
          (sym (ap (λ x. net_then x (run_net is)) f) ∙ e) in
      (omega (arith, rest.0, move-lt n s t i h low.0 f), rest.1)
]

-- `n` pipelines whose tasks call these `n` only, and PostSynchronously their own or later ones only,
-- whose threads have not begun and which are open: whatever the schedule of their threads, it has at
-- most `work` steps, and behind it some thread can step, or no pipeline has anything to do, or one of
-- them is closing.
pub run_net-Goes :
    (n : ℕ) (is : List ℕ) (s u : Net)
    → Starts n s
    → AllBelow n is
    → run_net is s ≡ some u
    → (length is + work n u ≤ work n s) × Goes n u
run_net-Goes n is s u v low e =
    let done = run_net-Inv n is s u (Starts-Inv n s v) low e in (done.0, Inv-Goes n u done.1)

-- Where a schedule can lead.
pub data Finishes (n : ℕ) (s : Net) : Type 0 where
  finishes :
      (is : List ℕ) (u : Net)
      → AllBelow n is
      → run_net is s ≡ some u
      → AllQuiet n u ⊎ ((j : ℕ) × (j < n) × ((u.nodes j).closing ≡ true))
      → Finishes n s

cons-Finishes : (n i : ℕ) (s u : Net) → i < n → move i s ≡ some u → Finishes n u → Finishes n s
unfolding run_net
cons-Finishes n i s u low e (finishes is v below f end) =
    finishes (i ∷ is) v (low, below) (ap (λ o. net_then o (run_net is)) e ∙ f) end

drains : (n fuel : ℕ) (s : Net) → Inv n s → work n s ≤ fuel → Finishes n s
unfolding run_net
drains n zero s h le = elim (Inv-Goes n s h) [
  | closes j below e ↦ finishes [] s tt refl (inr (j, below, e))
  | quiet q ↦ finishes [] s tt refl (inl q)
  | can_move i low u e ↦ absurd (omega (arith, move-lt n s u i h low e, le))
]
drains n (suc fuel) s h le = elim (Inv-Goes n s h) [
  | closes j below e ↦ finishes [] s tt refl (inr (j, below, e))
  | quiet q ↦ finishes [] s tt refl (inl q)
  | can_move i low u e ↦
      cons-Finishes n i s u low e
        (drains n fuel u (move-Inv n s u i h low e) (omega (arith, move-lt n s u i h low e, le)))
]

-- Some schedule of `n` pipelines whose tasks call these `n` only, and PostSynchronously their own or
-- later ones only, whose threads have not begun and which are open, brings them to a state in which
-- none has anything to do, or one of them is closing.
run_net-Finishes : (n : ℕ) (s : Net) → Starts n s → Finishes n s
run_net-Finishes n s v = drains n (work n s) s (Starts-Inv n s v) (omega arith)
