-- ===== src/Pipeline/Race/Tests.antt =====
-- Interleavings of Close and Post of core/src/WarPipeline.cpp, and one input for each theorem on them.
use warlib.Base.{◌+◌, ◌≡◌, ◌≤◌, refl, true, false, [], ◌∷◌, arith, if◌then◌else◌, ◌⊎◌, total}
use warlib.Pipeline.Race.Closing.{
  outside, admitted, Contended, all_open, close_test, close_give, close_set, post_test, post_admit,
  post_give, shut_first, exec_dismiss, Later, here, next, all_open-closes, is_given,
}
use warlib.Pipeline.Race.Closing.Stranded.{closed-strands, early-accepts}

-- Thread 0 has closed the pipeline, and a task of thread 1 was dismissed.
abbrev done : Contended
done = record {
  capacity = 4;
  count = 0;
  closing = true;
  closed = true;
  stopped = true;
  tasks = 0;
  shuts = 0;
  threads = outside ∷ outside ∷ [];
  given_tasks = 1;
  ran = 0;
  dropped = 1;
  stops = 1;
}

done-Later : Later (all_open 4 2) done
done-Later =
    next
      (next
        (next
          (next
            (next
              (next (next (next here (post_test 1 refl refl)) (post_admit 1 refl (omega arith)))
                (close_test 0 refl refl))
              (close_give 0 refl))
            (close_set 0 refl))
          (post_give 1 refl))
        (exec_dismiss refl (omega arith) refl))
      (shut_first refl (omega arith) refl)

all_open-closes_example :
    (done.stops ≡ (if done.closed then 1 else 0))
    × (done.shuts + done.stops ≤ 2)
    × (done.given_tasks ≡ done.ran + done.dropped + done.tasks)
    × (((done.closing ≡ false) × (done.shuts + done.stops ≡ total is_given done.threads))
        ⊎ ((done.closing ≡ true) × (1 ≤ done.shuts + done.stops)))
all_open-closes_example = all_open-closes 4 2 done done-Later

-- The same, with thread 1 still in its Post.
abbrev before_give : Contended
before_give = record {
  capacity = 4;
  count = 1;
  closing = true;
  closed = true;
  stopped = true;
  tasks = 0;
  shuts = 0;
  threads = outside ∷ admitted ∷ [];
  given_tasks = 0;
  ran = 0;
  dropped = 0;
  stops = 1;
}

before_give-Later : Later (all_open 4 2) before_give
before_give-Later =
    next
      (next
        (next
          (next (next (next here (post_test 1 refl refl)) (post_admit 1 refl (omega arith)))
            (close_test 0 refl refl))
          (close_give 0 refl))
        (close_set 0 refl))
      (shut_first refl (omega arith) refl)

abbrev stranded : Contended
stranded = record before_give { tasks = 1; given_tasks = 1; threads = outside ∷ outside ∷ [] }

closed-strands_example :
    (stranded.closed ≡ true)
    × (stranded.ran ≡ before_give.ran)
    × (stranded.dropped ≡ before_give.dropped)
    × (stranded.stops ≡ 1)
    × (stranded.tasks + before_give.given_tasks ≡ before_give.tasks + stranded.given_tasks)
closed-strands_example =
    closed-strands 4 2 before_give stranded before_give-Later refl (next here (post_give 1 refl))

early-accepts_example :
    (s : Contended) × Later (all_open 4 2) s
    × (s.closed ≡ true)
    × (s.closing ≡ false)
    × (s.given_tasks ≡ 3)
    × (s.tasks ≡ 3)
early-accepts_example = early-accepts 4 0 3 (omega arith) (omega arith)
