-- ===== src/Threadpool/Closing.antt =====
-- Close of core/src/WarThreadpool.cpp, and what Post does afterwards.
use warlib.Base.{
  ℕ, zero, suc, ◌≡◌, refl, ap, ◌∙◌, Bool, true, false, some, List, [], ◌∷◌, length, get_elem?,
  arith, if_true, All, ◌⊎◌, inl, inr, if_elim,
}
use warlib.Task.{Task, label}
use warlib.Pipeline.{Pipeline, returned, dismissed, note, post_task, close_pipeline}
use warlib.Threadpool.{Threadpool, close_all, close, post}
use warlib.Threadpool.Rotation.{IsWell, Acts, on_any-Acts}

-- Closing pipelines.
pub record AreClosing (ps : List Pipeline) : Type 0 where
  pub all : All (λ (p : Pipeline). p.closing ≡ true) ps

close_pipeline-closing : (p : Pipeline) → (close_pipeline p).1.closing ≡ true
unfolding close_pipeline
close_pipeline-closing p = ground arith

close_all-AreClosing :
    (ps : List Pipeline) → All (λ (p : Pipeline). p.closing ≡ true) (close_all ps)
close_all-AreClosing [] = tt
close_all-AreClosing (p ∷ ps) = (close_pipeline-closing p, close_all-AreClosing ps)

pub length-close_all : (ps : List Pipeline) → length (close_all ps) ≡ length ps
length-close_all [] = refl
length-close_all (p ∷ ps) = ap suc (length-close_all ps)

All-get_elem? :
    (ps : List Pipeline) (i : ℕ) (p : Pipeline)
    → All (λ (p : Pipeline). p.closing ≡ true) ps
    → get_elem? ps i ≡ some p
    → p.closing ≡ true
All-get_elem? [] i p a e = cc
All-get_elem? (q ∷ ps) zero p a e = let h = a.0 in cc
All-get_elem? (q ∷ ps) (suc i) p a e = All-get_elem? ps i p a.1 e

-- A pool whose flag is set has closing pipelines only.
pub record IsConsistent (t : Threadpool) : Type 0 where
  pub flagged : (t.closed ≡ false) ⊎ AreClosing t.pool

-- What Close leaves.
pub record IsClosed (t : Threadpool) : Type 0 where
  pub set : t.closed ≡ true
  pub closing : AreClosing t.pool
  pub well : IsWell t

shut_already :
    (b : Bool) (ps : List Pipeline) → b ≡ true → (b ≡ false) ⊎ AreClosing ps → AreClosing ps
shut_already b ps e (inl f) = cc
shut_already b ps e (inr a) = a

close-IsClosed : (t : Threadpool) → IsWell t → IsConsistent t → IsClosed (close t)
unfolding close
close-IsClosed t w c =
    if_elim IsClosed t.closed t _
      (λ e. record { set = e; closing = shut_already t.closed t.pool e c.flagged; well = w })
      (λ e. record {
        set = refl;
        closing = record { all = close_all-AreClosing t.pool };
        well = record {
          full = length-close_all t.pool ∙ w.full;
          some_thread = w.some_thread;
          fits = w.fits;
        };
      })

-- In a pool that has its pipelines and whose flag is set only if they are closing, Close sets the
-- flag, leaves every pipeline closing and the pool whole; closing again changes nothing.
pub close-again :
    (t : Threadpool) → IsWell t → IsConsistent t → IsClosed (close t) × (close (close t) ≡ close t)
close-again t w c =
    let done = close-IsClosed t w c in (done, unfold close in if_true _ _ _ done.set)

dismissing :
    (job : Task) (p : Pipeline)
    → p.closing ≡ true
    → post_task job p ≡ (returned, note (dismissed (label job)) p)
unfolding post_task
dismissing job p e = if_true _ _ _ e

-- In a pool that has its pipelines and whose flag is set only if they are closing, after Close,
-- Post returns normally: it picks a pipeline, which dismisses the task and only logs that.
post-close :
    (job : Task) (t : Threadpool)
    → IsWell t
    → IsConsistent t
    → (acts : Acts (post_task job) (close t) (post job (close t))) × (post_task job acts.chosen
        ≡ (returned, note (dismissed (label job)) acts.chosen))
unfolding post
post-close job t w c =
    let done = close-IsClosed t w c in
    let acts = on_any-Acts (post_task job) (close t) done.well in
    (
      acts,
      dismissing job acts.chosen
          (All-get_elem? _ acts.index acts.chosen done.closing.all acts.was_there),
    )
