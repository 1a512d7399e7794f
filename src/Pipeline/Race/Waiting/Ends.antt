-- ===== src/Pipeline/Race/Waiting/Ends.antt =====
-- How a PostSynchronously of core/src/WarPipeline.cpp ends while some thread may call Close.
use warlib.Base.{◌≡◌, refl, ◌≢◌, sym, ap, ◌∙◌, subst, ◌⊎◌, inl, inr, Bool, true, false}
use warlib.Errors.{Exn}
use warlib.Pipeline.{Promise, unset, value, exception, Outcome, returned, threw, waits, get}
use warlib.Pipeline.Race.Waiting.{
  Asking, calls, dispatches, posts, gets, back, Handling, nowhere, queued, enters, inside, gone,
  sets, Exchange, WaitStep, close, dispatch_dismiss, dispatch_test, post_dismiss, post_test, refuse,
  give, exec_dismiss, exec_test, inner_dismiss, inner_test, task_ends, set_promise, get_value,
  get_exception, WaitReach, here, next,
}

module _ (result : Promise) (full : Exn) where
  -- What is to be set, or was set: the task's result, or a value for a task that was dismissed.
  data Told (ran closing : Bool) (v : Promise) : Type 0 where
    by_task : ran ≡ true → v ≡ result → Told ran closing v
    by_dismissal : closing ≡ true → ran ≡ false → v ≡ value → Told ran closing v

  abbrev AtHandler : Handling → (ran closing : Bool) → Promise → Type 0
  AtHandler (sets v) ran closing promise = (promise ≡ unset) × Told ran closing v
  AtHandler gone ran closing promise =
      ((ran ≡ false) × (promise ≡ unset)) ⊎ Told ran closing promise
  AtHandler h ran closing promise = (ran ≡ false) × (promise ≡ unset)

  abbrev AtCaller : Asking → Handling → Promise → Type 0
  AtCaller gets h promise = Unit
  AtCaller (back returned) h promise = promise ≡ value
  AtCaller (back (threw e)) h promise = ((e ≡ full) × (h ≡ nowhere)) ⊎ (promise ≡ exception e)
  AtCaller (back (waits k)) h promise = ⊥
  AtCaller c h promise = h ≡ nowhere

  record Inv (s : Exchange) : Type 0 where
    handled : AtHandler s.handler s.ran s.closing s.promise
    called : AtCaller s.caller s.handler s.promise

  Told-close : (ran closing : Bool) (v : Promise) → Told ran closing v → Told ran true v
  Told-close ran closing v (by_task r e) = by_task r e
  Told-close ran closing v (by_dismissal c r e) = by_dismissal refl r e

  AtHandler-close :
      (h : Handling) (ran closing : Bool) (v : Promise)
      → AtHandler h ran closing v
      → AtHandler h ran true v
  AtHandler-close nowhere ran closing v a = a
  AtHandler-close queued ran closing v a = a
  AtHandler-close enters ran closing v a = a
  AtHandler-close inside ran closing v a = a
  AtHandler-close gone ran closing v (inl a) = inl a
  AtHandler-close gone ran closing v (inr t) = inr (Told-close ran closing v t)
  AtHandler-close (sets w) ran closing v a = (a.0, Told-close ran closing w a.1)

  -- While the promise is not set, a handler that goes on leaves the caller where it is.
  AtCaller-move :
      (c : Asking) (h k : Handling) (v w : Promise)
      → h ≢ nowhere
      → v ≡ unset
      → AtCaller c h v
      → AtCaller c k w
  AtCaller-move calls h k v w given u a = absurd (given a)
  AtCaller-move dispatches h k v w given u a = absurd (given a)
  AtCaller-move posts h k v w given u a = absurd (given a)
  AtCaller-move gets h k v w given u a = tt
  AtCaller-move (back returned) h k v w given u a = cc
  AtCaller-move (back (threw e)) h k v w given u (inl (f, g)) = absurd (given g)
  AtCaller-move (back (threw e)) h k v w given u (inr f) = cc
  AtCaller-move (back (waits j)) h k v w given u a = absurd a

  module _ {s : Exchange} (v : Inv s) where
    -- What holds at the handler and at the caller, where these are known.
    at_handler : (h : Handling) → s.handler ≡ h → AtHandler h s.ran s.closing s.promise
    at_handler h e = subst (λ x. AtHandler x s.ran s.closing s.promise) e v.handled

    at_caller : (c : Asking) → s.caller ≡ c → AtCaller c s.handler s.promise
    at_caller c e = subst (λ x. AtCaller x s.handler s.promise) e v.called

    moved :
        (h k : Handling) (w : Promise)
        → s.handler ≡ h
        → h ≢ nowhere
        → s.promise ≡ unset
        → AtCaller s.caller k w
    moved h k w e ne u =
        AtCaller-move s.caller s.handler k s.promise w (λ n. ne (sym e ∙ n)) u v.called

    WaitStep-Inv : {t : Exchange} → WaitStep result full s t → Inv t
    WaitStep-Inv close = record {
      handled = AtHandler-close s.handler s.ran s.closing s.promise v.handled;
      called = v.called;
    }
    WaitStep-Inv (dispatch_dismiss e c) = record { handled = v.handled; called = tt }
    WaitStep-Inv (dispatch_test e c) = record { handled = v.handled; called = at_caller calls e }
    WaitStep-Inv (post_dismiss e c) = record { handled = v.handled; called = tt }
    WaitStep-Inv (post_test e c) = record { handled = v.handled; called = at_caller dispatches e }
    WaitStep-Inv (refuse e) = record { handled = v.handled; called = inl (refl, at_caller posts e) }
    WaitStep-Inv (give e) = record { handled = at_handler nowhere (at_caller posts e); called = tt }
    WaitStep-Inv (exec_dismiss e c) =
        let a = at_handler queued e in
        record { handled = inl a; called = moved queued gone _ e (λ q. cc) a.1 }
    WaitStep-Inv (exec_test e c) =
        let a = at_handler queued e in
        record { handled = a; called = moved queued enters _ e (λ q. cc) a.1 }
    WaitStep-Inv (inner_dismiss e c) =
        let a = at_handler enters e in
        record {
          handled = (a.1, by_dismissal c a.0 refl);
          called = moved enters (sets value) _ e (λ q. cc) a.1;
        }
    WaitStep-Inv (inner_test e c) =
        let a = at_handler enters e in
        record { handled = a; called = moved enters inside _ e (λ q. cc) a.1 }
    WaitStep-Inv (task_ends e) =
        let a = at_handler inside e in
        record {
          handled = (a.1, by_task refl refl);
          called = moved inside (sets result) _ e (λ q. cc) a.1;
        }
    WaitStep-Inv (set_promise w e) =
        let a = at_handler (sets w) e in
        record { handled = inr a.1; called = moved (sets w) gone w e (λ q. cc) a.0 }
    WaitStep-Inv (get_value e p) = record { handled = v.handled; called = p }
    WaitStep-Inv (get_exception x e p) = record { handled = v.handled; called = inr p }

  WaitReach-Inv : {s : Exchange} → WaitReach result full s → Inv s
  WaitReach-Inv here = record { handled = (refl, refl); called = refl }
  WaitReach-Inv (next r st) = WaitStep-Inv (WaitReach-Inv r) st

  -- A promise that is set.
  told :
      (h : Handling) (ran closing : Bool) (v : Promise)
      → v ≢ unset
      → AtHandler h ran closing v
      → Told ran closing v
  told nowhere ran closing v set a = absurd (set a.1)
  told queued ran closing v set a = absurd (set a.1)
  told enters ran closing v set a = absurd (set a.1)
  told inside ran closing v set a = absurd (set a.1)
  told (sets w) ran closing v set a = absurd (set a.0)
  told gone ran closing v set (inl a) = absurd (set a.1)
  told gone ran closing v set (inr t) = t

module _ (result : Promise) (full : Exn) {s : Exchange} (v : Inv result full s) where
  abbrev Explained : Outcome → Type 0
  Explained o =
      ((s.ran ≡ true) × (get 0 result ≡ o))
      ⊎ ((s.ran ≡ false) × (o ≡ threw full))
      ⊎ ((s.closing ≡ true) × (s.ran ≡ false) × (o ≡ returned))

  Told-Explained : (w : Promise) → Told result full s.ran s.closing w → Explained (get 0 w)
  Told-Explained w (by_task r f) = inl (r, sym (ap (get 0) f))
  Told-Explained w (by_dismissal c r f) = inr (inr (c, r, ap (get 0) f))

  Inv-Explained : (o : Outcome) → s.caller ≡ back o → Explained o
  Inv-Explained returned e =
      let p = at_caller result full v (back returned) e in
      Told-Explained value (
        subst (Told result full s.ran s.closing) p
          (told result full s.handler s.ran s.closing s.promise (λ u. cc) v.handled))
  Inv-Explained (threw x) e = elim (at_caller result full v (back (threw x)) e) [
    | inl (f, n) ↦ inr (inl ((at_handler result full v nowhere n).0, ap threw f))
    | inr p ↦ Told-Explained (exception x) (
        subst (Told result full s.ran s.closing) p
          (told result full s.handler s.ran s.closing s.promise (λ u. cc) v.handled))
  ]
  Inv-Explained (waits k) e = absurd (at_caller result full v (back (waits k)) e)

-- When the caller of PostSynchronously is back with the outcome `o`, however its steps, those of its
-- handler and a Close interleaved: the task has run and `o` is its result; or the task has not run, and
-- AddingTask threw `o`; or the task has not run, the pipeline is closing, and `o` is to return.
pub back-explained :
    (result : Promise) (full : Exn) (o : Outcome) {s : Exchange}
    → WaitReach result full s
    → s.caller ≡ back o
    → ((s.ran ≡ true) × (get 0 result ≡ o))
      ⊎ ((s.ran ≡ false) × (o ≡ threw full))
      ⊎ ((s.closing ≡ true) × (s.ran ≡ false) × (o ≡ returned))
back-explained result full o {s} r e = Inv-Explained result full (WaitReach-Inv result full r) o e
