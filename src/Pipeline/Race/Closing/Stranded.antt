-- ===== src/Pipeline/Race/Closing/Stranded.antt =====
-- What becomes of tasks that Post of core/src/WarPipeline.cpp gives to a pipeline that is closed.
use warlib.Base.{
  ℕ, zero, suc, ◌+◌, ◌≡◌, refl, true, false, ◌∷◌, arith, replicate, subst, ◌<◌, ◌≤◌, ◌%◌,
}
use warlib.Pipeline.{word}
use warlib.Pipeline.Race.Closing.{
  outside, given, Contended, all_open, CloseStep, close_again, close_test, close_give, close_set,
  post_dismiss, post_test, post_admit, post_refuse, post_throw, post_give, shut_first, shut_again,
  exec_run, exec_dismiss, Later, here, next, Later-Inv, all_open-Inv,
}

-- What stays when a pipeline is closed.
record Stays (s t : Contended) : Type 0 where
  closed_yet : t.closed ≡ true
  stopped_yet : t.stopped ≡ true
  no_more_run : t.ran ≡ s.ran
  no_more_dropped : t.dropped ≡ s.dropped
  no_more_stops : t.stops ≡ s.stops
  strands : t.tasks + s.given_tasks ≡ s.tasks + t.given_tasks

CloseStep-Stays : {s t u : Contended} → Stays s t → CloseStep t u → Stays s u
CloseStep-Stays v (close_again i e c) = v
CloseStep-Stays v (close_test i e c) = ground arith
CloseStep-Stays v (close_give i e) = ground arith
CloseStep-Stays v (close_set i e) = ground arith
CloseStep-Stays v (post_dismiss i e c) = v
CloseStep-Stays v (post_test i e c) = ground arith
CloseStep-Stays v (post_admit i e room) = ground arith
CloseStep-Stays v (post_refuse i e full) = ground arith
CloseStep-Stays v (post_throw i e) = ground arith
CloseStep-Stays v (post_give i e) = ground arith
CloseStep-Stays v (shut_first r w c) = ground arith
CloseStep-Stays v (shut_again r w c) = ground arith
CloseStep-Stays v (exec_run r w c) = ground arith
CloseStep-Stays v (exec_dismiss r w c) = ground arith

Later-Stays : {s t : Contended} → s.stopped ≡ true → s.closed ≡ true → Later s t → Stays s t
Later-Stays r c here = ground arith
Later-Stays r c (next l st) = CloseStep-Stays (Later-Stays r c l) st

-- However the threads interleave: from a state in which the pipeline is closed on, no task runs or is
-- dismissed by ExecTask_, there is no second shut-down, and all tasks that are still given to the
-- io_context go on waiting.
pub closed-strands :
    (cap n : ℕ) (s t : Contended)
    → Later (all_open cap n) s
    → s.closed ≡ true
    → Later s t
    → (t.closed ≡ true)
      × (t.ran ≡ s.ran)
      × (t.dropped ≡ s.dropped)
      × (t.stops ≡ 1)
      × (t.tasks + s.given_tasks ≡ s.tasks + t.given_tasks)
closed-strands cap n s t l c m =
    let v = Later-Inv (all_open-Inv cap n) l in
    let w = Later-Stays (ground arith) c m in ground arith

-- Thread 0 in Close behind its `post`, the handler of Close at its end, and `k` tasks given since.
early : (cap n k : ℕ) → Contended
early cap n k = record {
  capacity = cap;
  count = k;
  closing = false;
  closed = true;
  stopped = true;
  tasks = k;
  shuts = 0;
  threads = given ∷ outside ∷ replicate n outside;
  given_tasks = k;
  ran = 0;
  dropped = 0;
  stops = 1;
}

early-Later :
    (cap n k : ℕ) → k ≤ cap → cap + 1 < word → Later (all_open cap (suc (suc n))) (early cap n k)
unfolding early
early-Later cap n zero room fits =
    next (next (next here (close_test 0 refl refl)) (close_give 0 refl))
      (shut_first refl (omega arith) refl)
early-Later cap n (suc k) room fits =
    let before = early-Later cap n k (omega arith) fits in
    let one_more : (k + 1) % word ≡ suc k = omega (arith, room, fits) in
    subst
      (λ (c : ℕ). Later (all_open cap (suc (suc n))) (record (early cap n (suc k)) { count = c }))
      one_more
      (subst
        (λ (c : ℕ).
          Later (all_open cap (suc (suc n)))
            (record (early cap n k) { count = (k + 1) % word; tasks = c; given_tasks = c }))
        (omega arith)
        (next
          (next (next before (post_test 1 refl refl))
            (post_admit 1 refl (omega (arith, one_more, room))))
          (post_give 1 refl)))

-- With two threads or more, a capacity below 2 ^ 64 - 1, and any number `k` up to the capacity: in some
-- reachable state IsClosed holds and IsClosing does not, and Post has given `k` tasks to the
-- io_context, all of which wait.
pub early-accepts :
    (cap n k : ℕ)
    → k ≤ cap
    → cap + 1 < word
    → (s : Contended) × Later (all_open cap (suc (suc n))) s
      × (s.closed ≡ true)
      × (s.closing ≡ false)
      × (s.given_tasks ≡ k)
      × (s.tasks ≡ k)
unfolding early
early-accepts cap n k room fits =
    (early cap n k, early-Later cap n k room fits, refl, refl, refl, refl)
