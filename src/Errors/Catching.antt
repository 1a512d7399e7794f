-- ===== src/Errors/Catching.antt =====
-- What the WAR_CATCH macros of core/include/warlib/error_handling.h let through.
use warlib.Base.{◌≡◌, refl, ◌⊎◌, inl, inr, Bool, true, false, Text, List}
use warlib.Log.Level.{error, warning}
use warlib.Errors.{
  catches, Exn, war, boost_only, std_only, boost_and_std, other, Line, Handler, handle, logged,
  escapes, war_catch_normal, war_catch_error, war_catch_all_e, war_catch_all_ef, war_catch_all_log,
}

-- A list of clauses that stops every exception, and runs the function of WAR_CATCH_ALL_EF or not.
pub record Stops (hs : List Handler) (ran : Bool) (e : Exn) : Type 0 where
  pub line : Line
  pub ends : handle hs e ≡ logged line ran
  pub loud : line.level ≡ error

-- WAR_CATCH_ALL_E, WAR_CATCH_ALL_EF and WAR_CATCH_ALL_LOG let no exception through: each is written
-- to the log as an error, and only WAR_CATCH_ALL_EF runs its function, for every exception.
pub catch_all-Stops :
    (fn pointer_name : Text) (type_name what : Exn → Text) (log_it : Text) (e : Exn)
    → Stops (war_catch_all_e fn pointer_name type_name what) false e
      × Stops (war_catch_all_ef fn pointer_name type_name what) true e
      × Stops (war_catch_all_log fn pointer_name type_name what log_it) false e
unfolding handle catches
catch_all-Stops fn p t w l (war k x) = (
  record { line = _; ends = refl; loud = refl },
  record { line = _; ends = refl; loud = refl },
  record { line = _; ends = refl; loud = refl },
)
catch_all-Stops fn p t w l (boost_only n) = (
  record { line = _; ends = refl; loud = refl },
  record { line = _; ends = refl; loud = refl },
  record { line = _; ends = refl; loud = refl },
)
catch_all-Stops fn p t w l (std_only n) = (
  record { line = _; ends = refl; loud = refl },
  record { line = _; ends = refl; loud = refl },
  record { line = _; ends = refl; loud = refl },
)
catch_all-Stops fn p t w l (boost_and_std n) = (
  record { line = _; ends = refl; loud = refl },
  record { line = _; ends = refl; loud = refl },
  record { line = _; ends = refl; loud = refl },
)
catch_all-Stops fn p t w l (other n) = (
  record { line = _; ends = refl; loud = refl },
  record { line = _; ends = refl; loud = refl },
  record { line = _; ends = refl; loud = refl },
)

-- An exception that is neither of std::exception nor of boost::exception.
abbrev pub is_foreign : Exn → Bool
is_foreign (other n) = true
is_foreign e = false

-- WAR_CATCH_NORMAL and WAR_CATCH_ERROR let exactly the exceptions through that derive neither from
-- std::exception nor from boost::exception; all others they log, as a warning and as an error.
pub catch_typed-escapes :
    (fn pointer_name : Text) (type_name what : Exn → Text) (e : Exn)
    → ((is_foreign e ≡ true)
        × (handle (war_catch_normal fn pointer_name type_name what) e ≡ escapes e)
        × (handle (war_catch_error fn pointer_name type_name what) e ≡ escapes e))
      ⊎ ((is_foreign e ≡ false)
          × ((l : Line) × (handle (war_catch_normal fn pointer_name type_name what) e
                ≡ logged l false)
              × (l.level ≡ warning))
          × Stops (war_catch_error fn pointer_name type_name what) false e)
unfolding handle catches
catch_typed-escapes fn p t w (war k x) =
    inr (refl, (_, refl, refl), record { line = _; ends = refl; loud = refl })
catch_typed-escapes fn p t w (boost_only n) =
    inr (refl, (_, refl, refl), record { line = _; ends = refl; loud = refl })
catch_typed-escapes fn p t w (std_only n) =
    inr (refl, (_, refl, refl), record { line = _; ends = refl; loud = refl })
catch_typed-escapes fn p t w (boost_and_std n) =
    inr (refl, (_, refl, refl), record { line = _; ends = refl; loud = refl })
catch_typed-escapes fn p t w (other n) = inl (refl, refl, refl)
