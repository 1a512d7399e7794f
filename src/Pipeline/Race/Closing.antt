-- ===== src/Pipeline/Race/Closing.antt =====
-- Many threads in Close and in Post of core/src/WarPipeline.cpp at once, and the pipeline's thread: each
-- access to `closing_`, to `count_` and to the io_context is one step; the worker's `--count_` goes with
-- its test of `closing_`.
pub mod Stranded
use warlib.Base.{
  ℕ, zero, suc, ◌+◌, ◌-◌, ◌<◌, ◌≤◌, ◌≡◌, refl, Bool, true, false, some, List, [], ◌∷◌, get_elem?,
  set, total, ◌%◌, total-set, length, length-set, arith, replicate, if◌then◌else◌, subst, ◌||◌, ltb,
  ◌⊎◌, inl, inr, Bool-cases,
}
use warlib.Pipeline.{word}

-- Where a thread stands: outside; past the test of `closing_` in Close, past the `boost::asio::post`
-- there; past the test of `closing_` in Post, past an AddingTask that has found a place, and in one
-- that has found none, before its `--count_`.
pub data Caller : Type 0 where
  outside tested given posting admitted refused : Caller

-- `tasks` and `shuts` are the handlers that wait. The last four are counters of the model: the
-- tasks that Post gave to the io_context, those that ran, those that ExecTask_ dismissed, and how
-- often the body of Close's handler was run.
pub record Contended : Type 0 where
  pub capacity : ℕ
  pub count : ℕ
  pub closing : Bool
  pub closed : Bool
  pub stopped : Bool
  pub tasks : ℕ
  pub shuts : ℕ
  pub threads : List Caller
  pub given_tasks : ℕ
  pub ran : ℕ
  pub dropped : ℕ
  pub stops : ℕ

abbrev pub all_open : (cap n : ℕ) → Contended
all_open cap n = record {
  capacity = cap;
  count = 0;
  closing = false;
  closed = false;
  stopped = false;
  tasks = 0;
  shuts = 0;
  threads = replicate n outside;
  given_tasks = 0;
  ran = 0;
  dropped = 0;
  stops = 0;
}

pub data CloseStep (s : Contended) : Contended → Type 0 where
  close_again : (i : ℕ) → get_elem? s.threads i ≡ some outside → s.closing ≡ true → CloseStep s s
  close_test :
      (i : ℕ)
      → get_elem? s.threads i ≡ some outside
      → s.closing ≡ false
      → CloseStep s (record s { threads = set s.threads i tested })
  close_give :
      (i : ℕ)
      → get_elem? s.threads i ≡ some tested
      → CloseStep s (record s { shuts = s.shuts + 1; threads = set s.threads i given })
  close_set :
      (i : ℕ)
      → get_elem? s.threads i ≡ some given
      → CloseStep s (record s { closing = true; threads = set s.threads i outside })
  post_dismiss : (i : ℕ) → get_elem? s.threads i ≡ some outside → s.closing ≡ true → CloseStep s s
  post_test :
      (i : ℕ)
      → get_elem? s.threads i ≡ some outside
      → s.closing ≡ false
      → CloseStep s (record s { threads = set s.threads i posting })
  post_admit :
      (i : ℕ)
      → get_elem? s.threads i ≡ some posting
      → (s.count + 1) % word ≤ s.capacity
      → CloseStep s (record s { count = (s.count + 1) % word; threads = set s.threads i admitted })
  post_refuse :
      (i : ℕ)
      → get_elem? s.threads i ≡ some posting
      → s.capacity < (s.count + 1) % word
      → CloseStep s (record s { count = (s.count + 1) % word; threads = set s.threads i refused })
  post_throw :
      (i : ℕ)
      → get_elem? s.threads i ≡ some refused
      → CloseStep s
          (record s { count = (s.count + (word - 1)) % word; threads = set s.threads i outside })
  post_give :
      (i : ℕ)
      → get_elem? s.threads i ≡ some admitted
      → CloseStep s (record s {
        tasks = s.tasks + 1;
        given_tasks = s.given_tasks + 1;
        threads = set s.threads i outside;
      })
  shut_first :
      s.stopped ≡ false
      → 0 < s.shuts
      → s.closed ≡ false
      → CloseStep s
          (record s { shuts = s.shuts - 1; closed = true; stopped = true; stops = s.stops + 1 })
  shut_again :
      s.stopped ≡ false
      → 0 < s.shuts
      → s.closed ≡ true
      → CloseStep s (record s { shuts = s.shuts - 1 })
  exec_run :
      s.stopped ≡ false
      → 0 < s.tasks
      → s.closing ≡ false
      → CloseStep s
          (record s { count = (s.count + (word - 1)) % word; tasks = s.tasks - 1; ran = s.ran + 1 })
  exec_dismiss :
      s.stopped ≡ false
      → 0 < s.tasks
      → s.closing ≡ true
      → CloseStep s (record s {
        count = (s.count + (word - 1)) % word;
        tasks = s.tasks - 1;
        dropped = s.dropped + 1;
      })

-- The states behind `s`.
pub data Later (s : Contended) : Contended → Type 0 where
  here : Later s s
  next : {t u : Contended} → Later s t → CloseStep t u → Later s u

abbrev pub is_given : Caller → ℕ
is_given given = 1
is_given p = 0

abbrev pub is_tested : Caller → ℕ
is_tested tested = 1
is_tested p = 0

pub record Inv (n : ℕ) (s : Contended) : Type 0 where
  pub size : length s.threads ≡ n
  pub stopped_closed : s.stopped ≡ s.closed
  pub once : s.stops ≡ (if s.closed then 1 else 0)
  pub all_tasks : s.given_tasks ≡ s.ran + s.dropped + s.tasks
  pub before : s.closing ≡ false → s.shuts + s.stops ≡ total is_given s.threads
  pub behind :
      s.closing ≡ true
      → (1 ≤ s.shuts + s.stops) × (s.shuts + s.stops + total is_tested s.threads ≤ n)

total-replicate : (w : Caller → ℕ) (n : ℕ) → w outside ≡ 0 → total w (replicate n outside) ≡ 0
total-replicate w zero h = refl
total-replicate w (suc n) h = omega (arith, total-replicate w n h)

length-outside : (n : ℕ) → length (replicate n outside) ≡ n
length-outside zero = refl
length-outside (suc n) = omega (arith, length-outside n)

in_close-le-length : (ps : List Caller) → total is_given ps + total is_tested ps ≤ length ps
in_close-le-length [] = omega arith
in_close-le-length (outside ∷ ps) = omega (arith, in_close-le-length ps)
in_close-le-length (tested ∷ ps) = omega (arith, in_close-le-length ps)
in_close-le-length (given ∷ ps) = omega (arith, in_close-le-length ps)
in_close-le-length (posting ∷ ps) = omega (arith, in_close-le-length ps)
in_close-le-length (admitted ∷ ps) = omega (arith, in_close-le-length ps)
in_close-le-length (refused ∷ ps) = omega (arith, in_close-le-length ps)

pub all_open-Inv : (cap n : ℕ) → Inv n (all_open cap n)
all_open-Inv cap n =
    ground
      (arith, length-outside n, total-replicate is_given n refl, total-replicate is_tested n refl)

module _ {n : ℕ} {s : Contended} (v : Inv n s) where
  -- What moving thread `i` does to the sums.
  record Moved (i : ℕ) (old new : Caller) : Type 0 where
    same : length (set s.threads i new) ≡ n
    gives :
        total is_given (set s.threads i new) + is_given old
        ≡ total is_given s.threads + is_given new
    tests :
        total is_tested (set s.threads i new) + is_tested old
        ≡ total is_tested s.threads + is_tested new

  moved : (i : ℕ) (old new : Caller) → get_elem? s.threads i ≡ some old → Moved i old new
  moved i old new e = record {
    same = omega (arith, length-set s.threads i new, v.size);
    gives = total-set is_given s.threads i old new e;
    tests = total-set is_tested s.threads i old new e;
  }

  CloseStep-Inv : {t : Contended} → CloseStep s t → Inv n t
  CloseStep-Inv (close_again i e c) = v
  CloseStep-Inv (close_test i e c) = ground (arith, moved i outside tested e)
  CloseStep-Inv (close_give i e) = ground (arith, moved i tested given e)
  CloseStep-Inv (close_set i e) =
      ground (arith, moved i given outside e, in_close-le-length s.threads)
  CloseStep-Inv (post_dismiss i e c) = v
  CloseStep-Inv (post_test i e c) = ground (arith, moved i outside posting e)
  CloseStep-Inv (post_admit i e room) = ground (arith, moved i posting admitted e)
  CloseStep-Inv (post_refuse i e full) = ground (arith, moved i posting refused e)
  CloseStep-Inv (post_throw i e) = ground (arith, moved i refused outside e)
  CloseStep-Inv (post_give i e) = ground (arith, moved i admitted outside e)
  CloseStep-Inv (shut_first r w c) = ground arith
  CloseStep-Inv (shut_again r w c) = ground arith
  CloseStep-Inv (exec_run r w c) = ground arith
  CloseStep-Inv (exec_dismiss r w c) = ground arith

pub Later-Inv : {n : ℕ} {s t : Contended} → Inv n s → Later s t → Inv n t
Later-Inv v here = v
Later-Inv v (next l st) = CloseStep-Inv (Later-Inv v l) st

-- However `n` threads in Close and Post interleave, at every moment: the handler of Close shuts down at
-- most once; at most `n` threads give it to the io_context; each task that was given to the
-- io_context has run, was dismissed or waits; before `closing_` is set, the handlers of Close that
-- were given and have shut the pipeline down or wait are as many as the threads that stand in Close
-- between its `post` and its write to `closing_`, and once it is set, there is one of them at least.
pub all_open-closes :
    (cap n : ℕ) (s : Contended)
    → Later (all_open cap n) s
    → (s.stops ≡ (if s.closed then 1 else 0))
      × (s.shuts + s.stops ≤ n)
      × (s.given_tasks ≡ s.ran + s.dropped + s.tasks)
      × (((s.closing ≡ false) × (s.shuts + s.stops ≡ total is_given s.threads))
          ⊎ ((s.closing ≡ true) × (1 ≤ s.shuts + s.stops)))
all_open-closes cap n s l =
    let v = Later-Inv (all_open-Inv cap n) l in
    let few = in_close-le-length s.threads in
    (
      v.once,
      ground (arith, few, v.size),
      v.all_tasks,
      elim (Bool-cases s.closing) [ inl c ↦ inr (c, (v.behind c).0) | inr c ↦ inl (c, v.before c) ],
    )
