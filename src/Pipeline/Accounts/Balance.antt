-- ===== src/Pipeline/Accounts/Balance.antt =====
-- The account of Pipeline/Accounts, when a handler is taken and when a timer fires.
use warlib.Base.{
  ℕ, ◌+◌, ◌≡◌, refl, sym, ap, ◌∙◌, subst, Bool, true, false, not, ◌&&◌, Option, none, some, List,
  Text, leb, arith, if_elim, All,
}
use warlib.Task.{label}
use warlib.Pipeline.{
  Handler, exec, exec_token, shut, Timer, Pipeline, Outcome, returned, threw, waits, on_timer,
  shut_down,
}
use warlib.Pipeline.Thread.{
  take_at, run_handler, run_timer, run_task, complete_timer, settle, take_handler, fire_timer,
}
use warlib.Pipeline.Accounts.{begun, dropped, failures, waiting, timed, Settles, exec_task-Settles}
use warlib.Pipeline.Accounts.Waiting.{
  IsPlainHandler, IsPlainTimer, take_at-All, waiting-take_at, timed-take_at,
}

module _ (w : Text → ℕ) where
  -- Of the weight `a` that was asked for, `r` was refused; the rest has been settled, or waits.
  pub record Balanced (a r : ℕ) (p : Pipeline) : Type 0 where
    pub handlers : All IsPlainHandler p.queue
    pub timers : All IsPlainTimer p.timers
    pub sum :
        a
        ≡ r
          + begun w p.events
          + dropped w p.events
          + failures w p.events
          + waiting w p.queue
          + timed w p.timers
    pub early : p.closing ≡ false → dropped w p.events ≡ 0

  abbrev pub BalancedAfter : ℕ → ℕ → Outcome × Pipeline → Type 0
  BalancedAfter a r o = Balanced a r o.1

  module _ (a r : ℕ) where
    settle-Balanced : (o : Outcome × Pipeline) → BalancedAfter a r o → Balanced a r (settle o)
    unfolding settle
    settle-Balanced (returned, p) v = v
    settle-Balanced (threw e, p) v = record {
      handlers = v.handlers;
      timers = v.timers;
      sum = v.sum;
      early = v.early;
    }
    settle-Balanced (waits k, p) v = record {
      handlers = v.handlers;
      timers = v.timers;
      sum = v.sum;
      early = v.early;
    }

    -- A task is taken out of `p`, which leaves `p'`, and is settled.
    settled-Balanced :
        (x : ℕ) (p p' q : Pipeline)
        → Balanced a r p
        → All IsPlainHandler p'.queue
        → All IsPlainTimer p'.timers
        → p'.events ≡ p.events
        → p'.closing ≡ p.closing
        → waiting w p.queue + timed w p.timers ≡ x + (waiting w p'.queue + timed w p'.timers)
        → Settles w x p' q
        → Balanced a r q
    settled-Balanced x p p' q v hs ts e c sum s = record {
      handlers = subst (All IsPlainHandler) (sym s.queue) hs;
      timers = subst (All IsPlainTimer) (sym s.timers) ts;
      sum = omega (
        arith,
        v.sum,
        sum,
        s.sum,
        ap (waiting w) s.queue,
        ap (timed w) s.timers,
        ap (begun w) e,
        ap (dropped w) e,
        ap (failures w) e,
      );
      early = λ o.
          let open_before : p.closing ≡ false = sym c ∙ sym s.closing ∙ o in
          omega (arith, s.early (c ∙ open_before), v.early open_before, ap (dropped w) e);
    }

    pub take_handler-Balanced :
        (i : ℕ) (o : Option (Handler × List Handler)) (p : Pipeline)
        → take_at i p.queue ≡ o
        → Balanced a r p
        → Balanced a r (take_handler o p)
    unfolding take_handler run_handler shut_down
    take_handler-Balanced i none p e v = v
    take_handler-Balanced i (some (exec t, rest)) p e v =
        let (leaf, plain) = take_at-All IsPlainHandler i p.queue rest (exec t) e v.handlers in
        settle-Balanced _ (
          settled-Balanced (w (label t)) p (record p { queue = rest }) _ v plain v.timers refl refl
            (omega (arith, waiting-take_at w i p.queue rest (exec t) e))
            (exec_task-Settles w t true (record p { queue = rest }) leaf))
    take_handler-Balanced i (some (exec_token t k, rest)) p e v =
        elim (take_at-All IsPlainHandler i p.queue rest (exec_token t k) e v.handlers).0 [ ]
    take_handler-Balanced i (some (shut, rest)) p e v =
        let (leaf, plain) = take_at-All IsPlainHandler i p.queue rest shut e v.handlers in
        let same = waiting-take_at w i p.queue rest shut e in
        settle-Balanced (returned, shut_down (record p { queue = rest }))
          (if_elim (Balanced a r) p.closed _ _
            (λ c. record {
              handlers = plain;
              timers = v.timers;
              sum = omega (arith, v.sum, same);
              early = v.early;
            })
            (λ c. record {
              handlers = plain;
              timers = v.timers;
              sum = omega (arith, v.sum, same);
              early = v.early;
            }))

    pub fire_timer-Balanced :
        (i : ℕ) (error : Bool) (o : Option (Timer × List Timer)) (p : Pipeline)
        → take_at i p.timers ≡ o
        → Balanced a r p
        → Balanced a r (fire_timer o error p)
    unfolding fire_timer run_timer on_timer
    fire_timer-Balanced i error none p e v = v
    fire_timer-Balanced i error (some (t, rest)) p e v =
        let (leaf, plain) = take_at-All IsPlainTimer i p.timers rest t e v.timers in
        let less = timed-take_at w i p.timers rest t e in
        if_elim (Balanced a r) (not error && not (leb t.expires p.now)) _ _ (λ early. v)
          (λ due. settle-Balanced _ (
            subst
              (λ (k : Option ℕ). BalancedAfter a r (
                complete_timer k error
                  (on_timer error (label t.job) (run_task t.job) (record p { timers = rest }))))
              (sym leaf.1)
              (if_elim (BalancedAfter a r) error _ _
                (λ b. record {
                  handlers = v.handlers;
                  timers = plain;
                  sum = omega (arith, v.sum, less);
                  early = v.early;
                })
                (λ b.
                  settled-Balanced (w (label t.job)) p (record p { timers = rest }) _ v v.handlers
                    plain refl refl (omega (arith, less))
                    (exec_task-Settles w t.job false (record p { timers = rest }) leaf.0)))))
