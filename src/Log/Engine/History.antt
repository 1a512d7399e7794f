-- ===== src/Log/Engine/History.antt =====
-- What a handler receives over any log statements, by IsRelevant and DoSubmit of
-- core/include/warlib/WarLog.h and core/src/WarLog.cpp.
use warlib.Base.{
  ℕ, ◌≡◌, ◌≤◌, refl, sym, ap, ◌∙◌, subst, Bool, true, false, not, ◌&&◌, Option, some, List, [], ◌∷◌,
  ◌++◌, append_assoc, append-nil, map, bit_and, ◌==◌, arith, if_elim, if◌then◌else◌, get_elem?,
}
use warlib.Log.Level.{LogLevel, value, ◌⊑◌}
use warlib.Log.Engine.{
  SubmitInfo, LogEventHandler, Logger, is_relevant, offer, offer_all, do_submit, log_statement,
  all_filters, Op, says, perform, perform_all, and_then,
}
use warlib.Log.Engine.Delivery.{IsSynced, level-le-current}
use warlib.Log.Engine.Serving.{Serves, do_submit-eq, offer_all-IsSynced, offer_all-at}

-- A handler takes a message by its own level, and by the filter of any handler.
abbrev pub takes : (filters : ℕ) → LogLevel → SubmitInfo → Bool
takes filters level si = si.level ⊑ level && not (bit_and si.filter filters == 0)

abbrev given : (filters : ℕ) → LogLevel → SubmitInfo → List SubmitInfo
given filters level si = if takes filters level si then si ∷ [] else []

-- The messages that a handler of this level takes.
abbrev pub taken : (filters : ℕ) → LogLevel → List SubmitInfo → List SubmitInfo
taken filters level [] = []
taken filters level (si ∷ sis) = given filters level si ++ taken filters level sis

abbrev pub receive : List SubmitInfo → LogEventHandler → LogEventHandler
receive sis h = record h { received = h.received ++ sis }

-- A log statement for each message.
abbrev pub say : SubmitInfo → Op
say si = says si.level si.filter si.buf si.time

-- A run that returns, with `g` in place `i`, and the static filter as it was.
record Leaves (s : Logger) (i : ℕ) (g : LogEventHandler) (o : Option Logger) : Type 0 where
  after : Logger
  handlers : List LogEventHandler
  ends : o ≡ some after
  synced : IsSynced handlers after
  served : get_elem? handlers i ≡ some g
  filter : after.current_filter ≡ s.current_filter

offer-receive :
    (si : SubmitInfo) (h : LogEventHandler) (s : Logger)
    → is_relevant si.level si.filter s ≡ true
    → offer si h ≡ receive (given s.current_filter h.level si) h
unfolding is_relevant
offer-receive si h s e = ground (arith, append-nil h.received)

dropped-receive :
    (si : SubmitInfo) (h : LogEventHandler) (s : Logger)
    → value h.level ≤ value s.current_level
    → is_relevant si.level si.filter s ≡ false
    → h ≡ receive (given s.current_filter h.level si) h
unfolding is_relevant
dropped-receive si h s le e = ground (arith, append-nil h.received)

log_statement-Leaves :
    (si : SubmitInfo) (hs : List LogEventHandler) (s : Logger) (i : ℕ) (h : LogEventHandler)
    → IsSynced hs s
    → get_elem? hs i ≡ some h
    → Leaves s i
        (receive (given s.current_filter h.level si) h)
        (log_statement si.level si.filter si.buf si.time s)
unfolding log_statement
log_statement-Leaves si hs s i h v there =
    if_elim (Leaves s i _) (is_relevant si.level si.filter s) (do_submit si s.engine s) (some s)
      (λ e.
        subst (λ g. Leaves s i g (do_submit si s.engine s)) (offer-receive si h s e)
          (record {
            after = record s { engine = some (offer_all si hs) };
            handlers = offer_all si hs;
            ends = do_submit-eq si hs s v;
            synced = offer_all-IsSynced si hs s v;
            served = offer_all-at si hs i h there;
            filter = refl;
          }))
      (λ e.
        subst (λ g. Leaves s i g (some s))
          (dropped-receive si h s (level-le-current hs s i h v there) e)
          (record {
            after = s;
            handlers = hs;
            ends = refl;
            synced = v;
            served = there;
            filter = refl;
          }))

says-Leaves :
    (sis : List SubmitInfo) (hs : List LogEventHandler) (s : Logger) (i : ℕ) (h : LogEventHandler)
    → IsSynced hs s
    → get_elem? hs i ≡ some h
    → Leaves s i (receive (taken s.current_filter h.level sis) h) (perform_all (map say sis) s)
unfolding perform_all perform
says-Leaves [] hs s i h v there = record {
  after = s;
  handlers = hs;
  ends = refl;
  synced = v;
  served = there ∙ ap (λ r. some (record h { received = r })) (sym (append-nil h.received));
  filter = refl;
}
says-Leaves (si ∷ sis) hs s i h v there =
    let one = log_statement-Leaves si hs s i h v there in
    let rest = says-Leaves sis one.handlers one.after i _ one.synced one.served in
    record {
      after = rest.after;
      handlers = rest.handlers;
      ends =
          ap (λ (o : Option Logger). and_then o (perform_all (map say sis))) one.ends ∙ rest.ends;
      synced = rest.synced;
      served =
          rest.served
          ∙ ap
              (λ (w : ℕ). some (record h {
                received = (h.received ++ given s.current_filter h.level si) ++ taken w h.level sis;
              }))
              one.filter
          ∙ ap (λ r. some (record h { received = r }))
              (append_assoc h.received (given s.current_filter h.level si)
                (taken s.current_filter h.level sis));
      filter = rest.filter ∙ one.filter;
    }

-- When the static members are what UpdateLevelAndFilter computes from the handlers, any log
-- statements return, and each handler has then received, behind what it had and in the order of the
-- statements, exactly the messages that its own level takes and whose filter shares a flag with the
-- filter of some handler; the static members still agree with the handlers.
pub says-Serves :
    (sis : List SubmitInfo) (hs : List LogEventHandler) (s : Logger) (i : ℕ) (h : LogEventHandler)
    → IsSynced hs s
    → get_elem? hs i ≡ some h
    → Serves i (receive (taken (all_filters 0 hs) h.level sis) h) (perform_all (map say sis) s)
says-Serves sis hs s i h v there =
    let done = says-Leaves sis hs s i h v there in
    record {
      after = done.after;
      handlers = done.handlers;
      ends = done.ends;
      synced = done.synced;
      served = done.served ∙ ap (λ (w : ℕ). some (receive (taken w h.level sis) h)) v.filter;
    }
