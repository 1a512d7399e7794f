-- ===== src/Pipeline/Drained.antt =====
-- The loop `io_context_->run()` of core/src/WarPipeline.cpp until the work is done: which handlers it
-- takes, and in which order.
use warlib.Base.{
  ℕ, zero, suc, ◌≡◌, refl, sym, ap, ◌∙◌, ◌⊎◌, inl, inr, false, not, ◌&&◌, List, [], ◌++◌,
  append-nil, All, replicate,
}
use warlib.Pipeline.{Pipeline}
use warlib.Pipeline.Thread.{Move, takes, is_running, run}
use warlib.Pipeline.Work.{work}
use warlib.Pipeline.Work.Termination.{run-terminates}
use warlib.Pipeline.Fifo.{IsOldest, all_taken, all_given, run-fifo}

-- So many turns of the loop as there is work.
abbrev pub turns : Pipeline → List Move
turns p = replicate (work p.queue) (takes 0)

-- Everything that waited, and everything that was added, is taken.
pub record TakesAll (p : Pipeline) : Type 0 where
  pub empty : (run (turns p) p).queue ≡ []
  pub taken : all_taken (turns p) p ≡ p.queue ++ all_given (turns p) p

replicate-IsOldest : (n : ℕ) → All IsOldest (replicate n (takes 0))
replicate-IsOldest zero = tt
replicate-IsOldest (suc n) = (refl, replicate-IsOldest n)

-- The loop of a pipeline's thread comes to an end of the work, and misses none of it: whatever tasks
-- wait, and whatever these post, run, close or throw, after `work` turns (a number that the queue
-- gives beforehand), each of which takes the oldest handler, the handlers that waited, and behind
-- them those that were added meanwhile, have been taken, in this order and each once, and none
-- waits; unless the io_context was stopped or the thread has left its loop or waits for a promise.
pub run-TakesAll :
    (p : Pipeline)
    → (is_running (run (turns p) p).thread && not (run (turns p) p).stopped ≡ false) ⊎ TakesAll p
run-TakesAll p = elim (run-terminates p) [
  | inl e ↦ inr (record {
    empty = e;
    taken =
        sym (append-nil (all_taken (turns p) p))
        ∙ ap (λ q. all_taken (turns p) p ++ q) (sym e)
        ∙ sym (run-fifo (turns p) p (replicate-IsOldest (work p.queue)));
  })
  | inr b ↦ inl b
]
