-- ===== src/Log/Engine/Adding.antt =====
-- AddHandler and UpdateLevelAndFilter of LogEngine in core/src/WarLog.cpp: the static members against
-- the handlers after a call.
use warlib.Base.{
  ℕ, ◌≡◌, refl, sym, ap, ◌∙◌, Option, some, List, [], ◌∷◌, ◌++◌, map, bit_or, Text, if_elim, arith,
  subst,
}
use warlib.Log.Level.{LogLevel, fatal, debug}
use warlib.Log.Filter.{flag, general}
use warlib.Log.Engine.{
  SubmitInfo, LogEventHandler, Logger, is_relevant, offer, offer_all, do_submit, log_statement,
  max_level, all_filters, louder, update, update_case, push_back, and_then, update_level_and_filter,
  add_handler, added_message, level_message,
}
use warlib.Log.Engine.Delivery.{IsSynced}

-- A handler without what it has received.
abbrev pub quiet : LogEventHandler → LogEventHandler
quiet h = record h { received = [] }

-- Handlers that differ in what they have received only.
abbrev pub Alike : List LogEventHandler → List LogEventHandler → Type 0
Alike hs gs = map quiet gs ≡ map quiet hs

max_level-quiet :
    (l : LogLevel) (hs : List LogEventHandler) → max_level l (map quiet hs) ≡ max_level l hs
max_level-quiet l [] = refl
max_level-quiet l (h ∷ hs) = max_level-quiet (louder l h.level) hs

all_filters-quiet :
    (f : ℕ) (hs : List LogEventHandler) → all_filters f (map quiet hs) ≡ all_filters f hs
all_filters-quiet f [] = refl
all_filters-quiet f (h ∷ hs) = all_filters-quiet (bit_or f h.filter) hs

pub max_level-Alike :
    (l : LogLevel) (hs gs : List LogEventHandler) → Alike hs gs → max_level l gs ≡ max_level l hs
max_level-Alike l hs gs a = sym (max_level-quiet l gs) ∙ ap (max_level l) a ∙ max_level-quiet l hs

pub all_filters-Alike :
    (f : ℕ) (hs gs : List LogEventHandler) → Alike hs gs → all_filters f gs ≡ all_filters f hs
all_filters-Alike f hs gs a =
    sym (all_filters-quiet f gs) ∙ ap (all_filters f) a ∙ all_filters-quiet f hs

offer_all-Alike : (si : SubmitInfo) (hs : List LogEventHandler) → Alike hs (offer_all si hs)
offer_all-Alike si [] = refl
offer_all-Alike si (h ∷ hs) =
    let rest = offer_all-Alike si hs in let q : quiet (offer si h) ≡ quiet h = ground arith in cc

-- A call that returns, with handlers alike, and the static members as they were.
record Logs (hs : List LogEventHandler) (s : Logger) (o : Option Logger) : Type 0 where
  after : Logger
  handlers : List LogEventHandler
  ends : o ≡ some after
  runs : after.engine ≡ some handlers
  level : after.current_level ≡ s.current_level
  filter : after.current_filter ≡ s.current_filter
  alike : Alike hs handlers

do_submit-Logs :
    (si : SubmitInfo) (hs : List LogEventHandler) (s : Logger)
    → s.engine ≡ some hs
    → Logs hs s (do_submit si s.engine s)
do_submit-Logs si hs s r = record {
  after = record s { engine = some (offer_all si hs) };
  handlers = offer_all si hs;
  ends = ap (λ (o : Option (List LogEventHandler)). do_submit si o s) r;
  runs = refl;
  level = refl;
  filter = refl;
  alike = offer_all-Alike si hs;
}

log_statement-Logs :
    (l : LogLevel) (f : ℕ) (t : Text) (now : ℕ) (hs : List LogEventHandler) (s : Logger)
    → s.engine ≡ some hs
    → Logs hs s (log_statement l f t now s)
unfolding log_statement
log_statement-Logs l f t now hs s r =
    if_elim (Logs hs s) (is_relevant l f s) _ _ (λ e. do_submit-Logs _ hs s r)
      λ e. record {
        after = s;
        handlers = hs;
        ends = refl;
        runs = r;
        level = refl;
        filter = refl;
        alike = refl;
      }

-- A call that returns, with the static members computed from handlers that are alike to these.
pub record Syncs (hs : List LogEventHandler) (o : Option Logger) : Type 0 where
  pub after : Logger
  pub handlers : List LogEventHandler
  pub ends : o ≡ some after
  pub synced : IsSynced handlers after
  pub alike : Alike hs handlers

update-Syncs :
    (hs : List LogEventHandler) (now : ℕ) (s : Logger)
    → s.engine ≡ some hs
    → Syncs hs (update_level_and_filter now s)
unfolding update_level_and_filter
update-Syncs hs now s r =
    let did =
      log_statement-Logs debug (flag general) (level_message (update hs s)) now hs (update hs s)
        r in
    record {
      after = did.after;
      handlers = did.handlers;
      ends = ap (λ (o : Option (List LogEventHandler)). update_case o now s) r ∙ did.ends;
      synced = record {
        runs = did.runs;
        level = did.level ∙ sym (max_level-Alike fatal hs did.handlers did.alike);
        filter = did.filter ∙ sym (all_filters-Alike 0 hs did.handlers did.alike);
      };
      alike = did.alike;
    }

then-Syncs :
    (hs : List LogEventHandler) (later : ℕ) (s : Logger) (o : Option Logger)
    → Logs hs s o
    → Syncs hs (and_then o (update_level_and_filter later))
then-Syncs hs later s o did =
    let updated = update-Syncs did.handlers later did.after did.runs in
    record {
      after = updated.after;
      handlers = updated.handlers;
      ends =
          ap (λ (p : Option Logger). and_then p (update_level_and_filter later)) did.ends
          ∙ updated.ends;
      synced = updated.synced;
      alike = updated.alike ∙ did.alike;
    }

-- AddHandler on an engine returns, with the handlers that were there and the new one last, all with
-- their names, levels and filters; the static members are then what UpdateLevelAndFilter computes
-- from these handlers.
pub add_handler-Syncs :
    (h : LogEventHandler) (now later : ℕ) (hs : List LogEventHandler) (s : Logger)
    → s.engine ≡ some hs
    → Syncs (hs ++ h ∷ []) (add_handler h now later s)
unfolding add_handler
add_handler-Syncs h now later hs s r =
    subst
      (λ (o : Option Logger). Syncs (hs ++ h ∷ []) (
        and_then o λ t.
          and_then (log_statement debug (flag general) (added_message h) now t)
            (update_level_and_filter later)))
      (sym (ap (λ (o : Option (List LogEventHandler)). push_back h o s) r))
      (then-Syncs (hs ++ h ∷ []) later _ _ (
        log_statement-Logs debug (flag general) (added_message h) now (hs ++ h ∷ [])
          (record s { engine = some (hs ++ h ∷ []) }) refl))
