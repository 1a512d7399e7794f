-- ===== src/Errors.antt =====
-- core/include/warlib/error_handling.h: the exception classes, and the catch clauses that the
-- WAR_CATCH macros put behind a `try` block.
pub mod Catching
pub mod Asserts
pub mod Likely
mod Tests
use warlib.Base.{ℕ, Bool, true, false, Text, codes, List, [], ◌∷◌, ◌++◌, if◌then◌else◌}
use warlib.Log.Level.{LogLevel, warning, error}

-- The classes that derive from ExceptionBase, with those of Pipeline, LogEngine and
-- LogEventHandler.
pub data WarKind : Type 0 where
  already_exist not_found out_of_range weak_pointer_has_expired file_open access_denied : WarKind
  bad_path security_check missing_internal_object not_implemented bad_cast parse_error : WarKind
  failed_to_connect io_error bad_state no_key_value : WarKind
  capacity_exceeded engine_exception handler_exception : WarKind

-- What can be thrown, by the base classes that a clause can catch it as. `expl` is the text that
-- the WAR_THROW macros attach; other exceptions are known by a number.
pub data Exn : Type 0 where
  war : WarKind → (expl : Text) → Exn
  boost_only : ℕ → Exn
  std_only : ℕ → Exn
  boost_and_std : ℕ → Exn
  other : ℕ → Exn

pub data Clause : Type 0 where
  catch_war catch_boost catch_std catch_any : Clause

-- ExceptionBase derives from std::exception and from boost::exception.
unfoldable pub catches : Clause → Exn → Bool
catches catch_any e = true
catches catch_war (war k x) = true
catches catch_war e = false
catches catch_boost (war k x) = true
catches catch_boost (boost_only n) = true
catches catch_boost (boost_and_std n) = true
catches catch_boost e = false
catches catch_std (war k x) = true
catches catch_std (std_only n) = true
catches catch_std (boost_and_std n) = true
catches catch_std e = false

-- A line that a clause writes to the log.
pub record Line : Type 0 where
  pub level : LogLevel
  pub text : Text

pub record Handler : Type 0 where
  pub clause : Clause
  pub report : Exn → Line
  pub runs_func : Bool

-- The end of a `try` block that threw: the first clause that fits, or no clause.
pub data Caught : Type 0 where
  logged : Line → (ran_func : Bool) → Caught
  escapes : Exn → Caught

unfoldable pub handle : List Handler → Exn → Caught
handle [] e = escapes e
handle (h ∷ hs) e = if catches h.clause e then logged (h.report e) h.runs_func else handle hs e

-- The compiler's and the libraries' part: the name of the function (BOOST_CURRENT_FUNCTION), the
-- name of the type of `std::current_exception()`, `typeid(ex).name()`, and what `<< ex` writes.
module _ (fn pointer_name : Text) (type_name what : Exn → Text) where
  -- What LOG_ERROR_FN and LOG_WARN_FN write first.
  abbrev prefix : Text
  prefix = codes "{" ++ fn ++ codes "}: "

  -- `head << typeid(ex).name() << close << extra << ex`
  abbrev describe : LogLevel → Text → Text → Text → Exn → Line
  describe l head close extra e = record {
    level = l;
    text = prefix ++ head ++ type_name e ++ close ++ extra ++ what e;
  }

  -- The clause `catch(...)`.
  abbrev unknown_clause : Text → Bool → Handler
  unknown_clause tail func = record {
    clause = catch_any;
    report = λ e. record {
      level = error;
      text = prefix ++ codes "Caught UNKNOWN exception! [" ++ pointer_name ++ tail;
    };
    runs_func = func;
  }

  -- The three typed clauses, at one level.
  abbrev typed : LogLevel → Text → Bool → List Handler
  typed l std_close func =
      record {
        clause = catch_war;
        report = describe l (codes "Caught exception [") (codes "]: ") [];
        runs_func = func;
      }
      ∷ record {
        clause = catch_boost;
        report = describe l (codes "Caught boost exception [") (codes "]: ") [];
        runs_func = func;
      }
      ∷ record {
        clause = catch_std;
        report = describe l (codes "Caught standad exception [") std_close [];
        runs_func = func;
      }
      ∷ []

  abbrev pub war_catch_normal : List Handler
  war_catch_normal = typed warning (codes "]: ") false

  abbrev pub war_catch_error : List Handler
  war_catch_error = typed error (codes "]: ") false

  abbrev pub war_catch_all_e : List Handler
  war_catch_all_e = typed error (codes "]: ") false ++ unknown_clause (codes "]") false ∷ []

  abbrev pub war_catch_all_ef : List Handler
  war_catch_all_ef = typed error (codes "]:  ") true ++ unknown_clause (codes "]") true ∷ []

  -- Two clauses hold `<< log_it` inside the quoted text, as the macro does.
  abbrev pub war_catch_all_log : Text → List Handler
  war_catch_all_log log_it =
      record {
        clause = catch_war;
        report = describe error (codes "Caught exception [") (codes "]: ") log_it;
        runs_func = false;
      }
      ∷ record {
        clause = catch_boost;
        report = describe error (codes "Caught boost exception [") (codes "]: << log_it ") [];
        runs_func = false;
      }
      ∷ record {
        clause = catch_std;
        report = describe error (codes "Caught standad exception [") (codes "]:  << log_it ") [];
        runs_func = false;
      }
      ∷ unknown_clause (codes "]: " ++ log_it) false
      ∷ []
