-- ===== src/Pipeline/Race/Waiting/Tests.antt =====
-- A PostSynchronously whose task would throw, and a Close between the two tests of its handler.
use warlib.Base.{◌≡◌, refl, ◌⊎◌, true, false}
use warlib.Errors.{Exn, std_only}
use warlib.Pipeline.{value, exception, Outcome, returned, threw, get}
use warlib.Pipeline.Race.Waiting.{
  back, gone, Exchange, close, dispatch_test, post_test, give, exec_test, inner_dismiss,
  set_promise, get_value, WaitReach, here, next,
}
use warlib.Pipeline.Race.Waiting.Ends.{back-explained}

abbrev failure : Exn
failure = std_only 3

abbrev no_room : Exn
no_room = std_only 4

abbrev unrun : Exchange
unrun = record {
  closing = true;
  caller = back returned;
  handler = gone;
  ran = false;
  promise = value;
}

unrun-WaitReach : WaitReach (exception failure) no_room unrun
unrun-WaitReach =
    next
      (next
        (next
          (next
            (next
              (next (next (next here (dispatch_test refl refl)) (post_test refl refl)) (give refl))
              (exec_test refl refl))
            close)
          (inner_dismiss refl refl))
        (set_promise value refl))
      (get_value refl refl)

back-explained_example :
    ((unrun.ran ≡ true) × (get 0 (exception failure) ≡ returned))
    ⊎ ((unrun.ran ≡ false) × (returned ≡ threw no_room))
    ⊎ ((unrun.closing ≡ true) × (unrun.ran ≡ false) × (Outcome.returned ≡ returned))
back-explained_example = back-explained (exception failure) no_room returned unrun-WaitReach refl
