-- ===== src/Log/Engine/Relevance.antt =====
-- `instance_`, `current_level_` and `current_filter_` of LogEngine in WarLog.h against the handlers.
use mathlib.Core.Option
use warlib.Log.Filter.{flag, general}
use warlib.Base.{
  ℕ, ◌≡◌, ◌≢◌, refl, ◌⊎◌, inl, inr, Option, none, some, List, [], ◌∷◌, ◌++◌, Text, arith, if_elim,
  if◌then◌else◌, subst, ap,
}
use warlib.Base.Bits.{bit_and-zero}
use warlib.Log.Level.{LogLevel, debug}
use warlib.Log.Engine.{
  SubmitInfo, LogEventHandler, Logger, initial, is_relevant, offer_all, do_submit, log_statement,
  update, push_back, and_then, update_level_and_filter, add_handler, Op, constructs, destroys, adds,
  says, sets, perform, perform_all, set_at, set_level, update_case, added_message,
}

-- Without an engine nothing passes the filter.
abbrev IsSafe : Logger → Type 0
IsSafe s = (s.current_filter ≡ 0) ⊎ ((hs : List LogEventHandler) × (s.engine ≡ some hs))

-- What holds of the state that comes out, if one does.
abbrev pub Ensures {ℓ} : (Logger → Type ℓ) → Option Logger → Type ℓ
Ensures P none = Unit
Ensures P (some s) = P s

Ensures-and_then {ℓ} :
    (P Q : Logger → Type ℓ) (o : Option Logger) (f : Logger → Option Logger)
    → Ensures P o
    → ((s : Logger) → P s → Ensures Q (f s))
    → Ensures Q (and_then o f)
Ensures-and_then P Q none f h k = tt
Ensures-and_then P Q (some s) f h k = k s h

do_submit-IsSafe :
    (si : SubmitInfo) (o : Option (List LogEventHandler)) (s : Logger)
    → Ensures IsSafe (do_submit si o s)
do_submit-IsSafe si none s = tt
do_submit-IsSafe si (some hs) s = inr (offer_all si hs, refl)

log_statement-IsSafe :
    (l : LogLevel) (f : ℕ) (t : Text) (now : ℕ) (s : Logger)
    → IsSafe s
    → Ensures IsSafe (log_statement l f t now s)
unfolding log_statement
log_statement-IsSafe l f t now s v =
    if_elim (Ensures IsSafe) (is_relevant l f s) _ _ (λ e. do_submit-IsSafe _ s.engine s) (λ e. v)

update_case-IsSafe :
    (o : Option (List LogEventHandler)) (now : ℕ) (s : Logger)
    → s.engine ≡ o
    → Ensures IsSafe (update_case o now s)
update_case-IsSafe none now s e = tt
update_case-IsSafe (some hs) now s e = log_statement-IsSafe _ _ _ now (update hs s) (inr (hs, e))

push_back-IsSafe :
    (h : LogEventHandler) (o : Option (List LogEventHandler)) (s : Logger)
    → Ensures IsSafe (push_back h o s)
push_back-IsSafe h none s = tt
push_back-IsSafe h (some hs) s = inr (hs ++ h ∷ [], refl)

add_handler-IsSafe :
    (h : LogEventHandler) (now later : ℕ) (s : Logger) → Ensures IsSafe (add_handler h now later s)
unfolding add_handler
add_handler-IsSafe h now later s =
    Ensures-and_then IsSafe IsSafe (push_back h s.engine s) _ (push_back-IsSafe h s.engine s) λ t v.
      Ensures-and_then IsSafe IsSafe _ (update_level_and_filter later)
        (log_statement-IsSafe debug (flag general) (added_message h) now t v)
        (λ u w. unfold update_level_and_filter in update_case-IsSafe u.engine later u refl)

set_level-IsSafe : (i : ℕ) (l : LogLevel) (s : Logger) → IsSafe s → IsSafe (set_level i l s)
set_level-IsSafe i l s (inl z) = inl z
set_level-IsSafe i l s (inr (hs, e)) = inr (set_at i l hs, ap (Option.map (set_at i l)) e)

perform-IsSafe : (o : Op) (s : Logger) → IsSafe s → Ensures IsSafe (perform o s)
unfolding perform
perform-IsSafe constructs s v = inr ([], refl)
perform-IsSafe destroys s v = inl refl
perform-IsSafe (adds h now later) s v = add_handler-IsSafe h now later s
perform-IsSafe (says l f t now) s v = log_statement-IsSafe l f t now s v
perform-IsSafe (sets i l) s v = set_level-IsSafe i l s v

perform_all-IsSafe : (os : List Op) (s : Logger) → IsSafe s → Ensures IsSafe (perform_all os s)
unfolding perform_all
perform_all-IsSafe [] s v = v
perform_all-IsSafe (o ∷ os) s v =
    Ensures-and_then IsSafe IsSafe (perform o s) (perform_all os) (perform-IsSafe o s v)
      (perform_all-IsSafe os)

log_statement-case :
    (o : Option (List LogEventHandler)) (l : LogLevel) (f : ℕ) (si : SubmitInfo) (s : Logger)
    → IsSafe s
    → s.engine ≡ o
    → (if is_relevant l f s then do_submit si o s else some s) ≢ none
unfolding is_relevant
log_statement-case (some hs) l f si s v e = ground arith
log_statement-case none l f si s (inl z) e = λ q. ground (arith, bit_and-zero f)
log_statement-case none l f si s (inr (hs, e')) e = λ q. cc

-- No log statement uses a null `instance_`, whatever engines, handlers, messages and levels came
-- before it.
pub log_statement-ne-none :
    (os : List Op) (s : Logger) (l : LogLevel) (f : ℕ) (t : Text) (now : ℕ)
    → perform_all os initial ≡ some s
    → log_statement l f t now s ≢ none
unfolding log_statement
log_statement-ne-none os s l f t now h =
    log_statement-case s.engine l f _ s
      (subst (Ensures IsSafe) h (perform_all-IsSafe os initial (inl refl))) refl
