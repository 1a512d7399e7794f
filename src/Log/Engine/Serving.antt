-- ===== src/Log/Engine/Serving.antt =====
-- Which handlers DoSubmit of core/src/WarLog.cpp gives a message to.
use mathlib.Core.Option
use warlib.Base.{
  ℕ, suc, ◌≡◌, refl, sym, ap, ◌∙◌, subst, Option, some, List, [], ◌∷◌, ◌++◌, arith, if_elim,
  if_true, get_elem?, zero, ◌<◌, if_false,
}
use warlib.Log.Level.{fatal, value, LogLevel}
use warlib.Log.Engine.{
  SubmitInfo, LogEventHandler, Logger, is_relevant, offer, offer_all, do_submit, log_statement,
  set_level,
}
use warlib.Log.Engine.Delivery.{
  IsSynced, Wants, is_relevant-of_wanted, max_level-offer_all, all_filters-offer_all,
}

-- A statement that returns, with the static members in agreement with the handlers, and `g` in
-- place `i`.
pub record Serves (i : ℕ) (g : LogEventHandler) (o : Option Logger) : Type 0 where
  pub after : Logger
  pub handlers : List LogEventHandler
  pub ends : o ≡ some after
  pub synced : IsSynced handlers after
  pub served : get_elem? handlers i ≡ some g

pub offer_all-at :
    (si : SubmitInfo) (hs : List LogEventHandler) (i : ℕ) (h : LogEventHandler)
    → get_elem? hs i ≡ some h
    → get_elem? (offer_all si hs) i ≡ some (offer si h)
offer_all-at si [] i h e = cc
offer_all-at si (g ∷ hs) zero h e = ap (Option.map (offer si)) e
offer_all-at si (g ∷ hs) (suc i) h e = offer_all-at si hs i h e

pub do_submit-eq :
    (si : SubmitInfo) (hs : List LogEventHandler) (s : Logger)
    → IsSynced hs s
    → do_submit si s.engine s ≡ some (record s { engine = some (offer_all si hs) })
do_submit-eq si hs s v = ap (λ (o : Option (List LogEventHandler)). do_submit si o s) v.runs

pub offer_all-IsSynced :
    (si : SubmitInfo) (hs : List LogEventHandler) (s : Logger)
    → IsSynced hs s
    → IsSynced (offer_all si hs) (record s { engine = some (offer_all si hs) })
offer_all-IsSynced si hs s v = record {
  runs = refl;
  level = v.level ∙ sym (max_level-offer_all si fatal hs);
  filter = v.filter ∙ sym (all_filters-offer_all si 0 hs);
}

do_submit-Serves :
    (si : SubmitInfo) (hs : List LogEventHandler) (s : Logger) (i : ℕ) (h : LogEventHandler)
    → IsSynced hs s
    → get_elem? hs i ≡ some h
    → Serves i (offer si h) (do_submit si s.engine s)
do_submit-Serves si hs s i h v there = record {
  after = record s { engine = some (offer_all si hs) };
  handlers = offer_all si hs;
  ends = do_submit-eq si hs s v;
  synced = offer_all-IsSynced si hs s v;
  served = offer_all-at si hs i h there;
}

-- When the static members are what UpdateLevelAndFilter computes from the handlers, a log statement
-- returns, and a handler that wants the message by its own level and filter has then received it,
-- once, behind what it had; the static members still agree with the handlers.
pub log_statement-gets :
    (si : SubmitInfo) (hs : List LogEventHandler) (s : Logger) (i : ℕ) (h : LogEventHandler)
    → IsSynced hs s
    → get_elem? hs i ≡ some h
    → Wants si.level si.filter h
    → Serves i
        (record h { received = h.received ++ si ∷ [] })
        (log_statement si.level si.filter si.buf si.time s)
unfolding log_statement
log_statement-gets si hs s i h v there w =
    let le = w.0 in
    let o : offer si h ≡ record h { received = h.received ++ si ∷ [] } = ground arith in
    subst (Serves i _)
      (sym (if_true _ _ _ (is_relevant-of_wanted si.level si.filter hs s i h v there w)))
      (subst (λ g. Serves i g (do_submit si s.engine s)) o (do_submit-Serves si hs s i h v there))

-- When the static members are what UpdateLevelAndFilter computes from the handlers, a log statement
-- returns, and a handler whose level refuses the message is as it was; the static members still
-- agree with the handlers.
log_statement-skips :
    (si : SubmitInfo) (hs : List LogEventHandler) (s : Logger) (i : ℕ) (h : LogEventHandler)
    → IsSynced hs s
    → get_elem? hs i ≡ some h
    → value h.level < value si.level
    → Serves i h (log_statement si.level si.filter si.buf si.time s)
unfolding log_statement
log_statement-skips si hs s i h v there quiet =
    let o : offer si h ≡ h = ground arith in
    if_elim (Serves i h) (is_relevant si.level si.filter s) (do_submit si s.engine s) (some s)
      (λ e.
        subst (λ g. Serves i g (do_submit si s.engine s)) o (do_submit-Serves si hs s i h v there))
      (λ e. record { after = s; handlers = hs; ends = refl; synced = v; served = there })

-- SetLevel alone makes no statement reach a handler: a message above the static level is dropped by
-- the statement, whatever level SetLevel has given to a handler, and the log is as SetLevel left it.
pub set_level-unseen :
    (si : SubmitInfo) (i : ℕ) (level : LogLevel) (s : Logger)
    → value s.current_level < value si.level
    → log_statement si.level si.filter si.buf si.time (set_level i level s)
      ≡ some (set_level i level s)
unfolding log_statement is_relevant
set_level-unseen si i level s quiet =
    if_false (is_relevant si.level si.filter (set_level i level s)) _ _ (ground arith)
