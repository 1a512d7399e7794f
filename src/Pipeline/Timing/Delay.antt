-- ===== src/Pipeline/Timing/Delay.antt =====
-- How long a task of PostWithTimer of core/src/WarPipeline.cpp waits.
use warlib.Base.{
  ℕ, zero, suc, ◌+◌, ◌≤◌, ◌<◌, ◌≡◌, refl, sym, ap, ◌∙◌, subst, ◌⊎◌, inl, inr, true, false, not,
  ◌&&◌, Option, none, some, List, [], ◌∷◌, get_elem?, total, leb, arith, if_elim, if_false, All,
  Option-cases, if_true,
}
use warlib.Task.{Task}
use warlib.Pipeline.{Timer, Pipeline, Outcome, returned, post_timer}
use warlib.Pipeline.Thread.{
  Move, takes, fires, leaves, calls, passes, take_at, fire_timer, is_running, may_leave, step, run,
}
use warlib.Pipeline.Stable.{run_call-keeps}
use warlib.Pipeline.Timing.{
  Ready, passed, IsFair, Waiting, same_timers, take_handler-Ready, run_timer-Ready, settle-Ready,
  Ready-IsStable,
}

-- What taking an entry out of a list gives, with one entry more in front.
abbrev behind {ℓ} : {A : Type ℓ} → A → Option (A × List A) → Option (A × List A)
behind z o = elim o [ none ↦ none | some (y, ys) ↦ some (y, z ∷ ys) ]

-- A list without one entry has the others.
take_at-other {ℓ} :
    {A : Type ℓ} (i j : ℕ) (xs rest : List A) (x y : A)
    → take_at i xs ≡ some (x, rest)
    → get_elem? xs j ≡ some y
    → (x ≡ y) ⊎ ((k : ℕ) × (get_elem? rest k ≡ some y))
take_at-other i j [] rest x y e there = cc
take_at-other zero zero (z ∷ xs) rest x y e there = inl cc
take_at-other zero (suc j) (z ∷ xs) rest x y e there = inr (j, cc)
take_at-other (suc i) zero (z ∷ xs) rest x y e there = elim (Option-cases (take_at i xs)) [
  | inl f ↦ let q : behind z none ≡ some (x, rest) = sym (ap (behind z) f) ∙ e in cc
  | inr ((w, ws), f) ↦
      let q : behind z (some (w, ws)) ≡ some (x, rest) = sym (ap (behind z) f) ∙ e in
      let r : rest ≡ z ∷ ws = cc in inr (0, ap (λ l. get_elem? l 0) r ∙ there)
]
take_at-other (suc i) (suc j) (z ∷ xs) rest x y e there = elim (Option-cases (take_at i xs)) [
  | inl f ↦ let q : behind z none ≡ some (x, rest) = sym (ap (behind z) f) ∙ e in cc
  | inr ((w, ws), f) ↦
      let q : behind z (some (w, ws)) ≡ some (x, rest) = sym (ap (behind z) f) ∙ e in
      let r : rest ≡ z ∷ ws = cc in
      let s : w ≡ x = cc in
      elim (take_at-other i j xs ws w y f there) [
        | inl h ↦ inl (sym s ∙ h)
        | inr (k, h) ↦ inr (suc k, ap (λ l. get_elem? l (suc k)) r ∙ h)
      ]
]

module _ (timer : Timer) (time : ℕ) where
  -- Before its time a timer does not fire.
  fire_timer-Ready :
      (o : Option (Timer × List Timer)) (i : ℕ) (p : Pipeline)
      → time < timer.expires
      → take_at i p.timers ≡ o
      → Waiting timer time p
      → (Waiting timer time) (fire_timer o false p)
  unfolding fire_timer
  fire_timer-Ready none i p early e v = v
  fire_timer-Ready (some (t, rest)) i p early e v =
      if_elim (Waiting timer time) (not (leb t.expires p.now)) p _ (λ late. v)
        (λ due. elim (take_at-other i v.index p.timers rest t timer e v.there) [
          | inl same ↦
              let ex : t.expires ≡ timer.expires = ap (λ (x : Timer). x.expires) same in
              let le : t.expires ≤ p.now = ground arith in
              absurd (omega (arith, le, ex, v.clock, early))
          | inr (k, there) ↦ settle-Ready timer time _ (
              (run_timer-Ready timer time t).at _
                (record { index = k; there = there; clock = v.clock }))
        ])

  step-Ready :
      (m : Move) (p : Pipeline)
      → time < timer.expires
      → IsFair m
      → Waiting timer time p
      → Ready timer (time + passed m) (step m p)
  unfolding step
  step-Ready (takes i) p early fair v =
      subst (λ (n : ℕ). Ready timer n (step (takes i) p)) (omega arith)
        (if_elim (Waiting timer time) (is_running p.thread && not p.stopped) _ _
          (λ b. take_handler-Ready timer time (take_at i p.queue) p v) (λ b. v))
  step-Ready (fires i true) p early fair v = cc
  step-Ready (fires i false) p early fair v =
      subst (λ (n : ℕ). Ready timer n (step (fires i false) p)) (omega arith)
        (if_elim (Waiting timer time) (is_running p.thread && not p.stopped) _ _
          (λ b. fire_timer-Ready (take_at i p.timers) i p early refl v) (λ b. v))
  step-Ready leaves p early fair v =
      subst (λ (n : ℕ). Ready timer n (step leaves p)) (omega arith)
        (if_elim (Waiting timer time) (is_running p.thread && may_leave p) _ _
          (λ b. same_timers timer time p _ refl refl v) (λ b. v))
  step-Ready (calls c) p early fair v =
      subst (λ (n : ℕ). Ready timer n (step (calls c) p)) (omega arith)
        ((run_call-keeps (Waiting timer time) (Ready-IsStable timer time) c false).at p v)
  step-Ready (passes n) p early fair v = record {
    index = v.index;
    there = v.there;
    clock = ap (λ k. k + n) v.clock;
  }

run-Ready :
    (timer : Timer) (ms : List Move) (time : ℕ) (p : Pipeline)
    → time + total passed ms < timer.expires
    → All IsFair ms
    → Ready timer time p
    → Ready timer (time + total passed ms) (run ms p)
unfolding run
run-Ready timer [] time p early fair v = subst (λ (n : ℕ). Ready timer n p) (omega arith) v
run-Ready timer (m ∷ ms) time p early fair v =
    subst (λ (n : ℕ). Ready timer n (run (m ∷ ms) p)) (omega arith)
      (run-Ready timer ms (time + passed m) (step m p) (omega (arith, early)) fair.1
        (step-Ready timer time m p (omega (arith, early)) fair.0 v))

-- What is to hold of a timer before its time: it waits, and where the thread is given its entry
-- nothing happens.
pub record Holds (timer : Timer) (time : ℕ) (p : Pipeline) : Type 0 where
  pub ready : Ready timer time p
  pub idle : (i : ℕ) → get_elem? p.timers i ≡ some timer → step (fires i false) p ≡ p

take_at-at {ℓ} :
    {A : Type ℓ} (i : ℕ) (xs : List A) (x : A)
    → get_elem? xs i ≡ some x
    → (rest : List A) × (take_at i xs ≡ some (x, rest))
take_at-at i [] x e = cc
take_at-at zero (y ∷ xs) x e = (xs, cc)
take_at-at (suc i) (y ∷ xs) x e = let (rest, t) = take_at-at i xs x e in (y ∷ rest, ap (behind y) t)

fires-early :
    (i : ℕ) (timer : Timer) (p : Pipeline)
    → p.now < timer.expires
    → get_elem? p.timers i ≡ some timer
    → step (fires i false) p ≡ p
unfolding step fire_timer
fires-early i timer p early e =
    let (rest, t) = take_at-at i p.timers timer e in
    if_elim (λ (q : Pipeline). q ≡ p) (is_running p.thread && not p.stopped) _ _
      (λ b.
        ap (λ (o : Option (Timer × List Timer)). fire_timer o false p) t
        ∙ if_true (not false && not (leb timer.expires p.now)) _ _ (ground arith))
      (λ b. refl)

-- A task posted with a timer to a pipeline that is not closing does not run before its time: the call
-- does nothing but add the timer, and over any moves in which less than its delay passes and no timer
-- fails, the timer waits, and where the thread is given it nothing happens (that the pipeline is
-- closed, takes other tasks or ends its thread meanwhile does not matter).
pub post_timer-Holds :
    (t : Task) (delay : ℕ) (ms : List Move) (p : Pipeline)
    → p.closing ≡ false
    → total passed ms < delay
    → All IsFair ms
    → let timer : Timer = record { expires = p.now + delay; job = t; token = none } in
      (post_timer t delay p ≡ (returned, record p { timers = timer ∷ p.timers }))
      × Holds timer (p.now + total passed ms) (run ms (post_timer t delay p).1)
unfolding post_timer
post_timer-Holds t delay ms p c early fair =
    let timer : Timer = record { expires = p.now + delay; job = t; token = none } in
    let adds : post_timer t delay p ≡ (returned, record p { timers = timer ∷ p.timers }) =
      if_false p.closing _ _ c in
    let start : Ready timer p.now (post_timer t delay p).1 =
      subst (λ (r : Outcome × Pipeline). Ready timer p.now r.1) (sym adds)
        (record { index = 0; there = refl; clock = refl }) in
    let ready =
      run-Ready timer ms p.now (post_timer t delay p).1 (omega (arith, early)) fair start in
    (
      adds,
      record {
        ready = ready;
        idle = λ i e. fires-early i timer _ (omega (arith, ready.clock, early)) e;
      },
    )
