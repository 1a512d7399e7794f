-- ===== src/Log/Engine/Order.antt =====
-- The order in which handlers are given to AddHandler of core/src/WarLog.cpp.
use mathlib.Core.Quot
use mathlib.Core.Quot.{Quot}
use warlib.Base.{
  ℕ, ◌≡◌, refl, sym, ap, ◌∙◌, Option, some, List, [], ◌∷◌, ◌++◌, bit_or, arith, max, ◌+◌,
}
use warlib.Base.Bits.{bit_or_swap}
use warlib.Log.Level.{LogLevel, fatal, value, value-inj}
use warlib.Log.Engine.{
  LogEventHandler, Logger, max_level, all_filters, louder, Op, adds, perform, perform_all, and_then,
}
use warlib.Log.Engine.Delivery.{IsSynced, max_level-append, all_filters-append}
use warlib.Log.Engine.Adding.{max_level-Alike, all_filters-Alike, add_handler-Syncs, Syncs}

value-louder : (l k : LogLevel) → value (louder l k) ≡ max (value l) (value k)
value-louder l k = ground arith

louder_swap : (l k m : LogLevel) → louder (louder l k) m ≡ louder (louder l m) k
louder_swap l k m = value-inj _ _ (
    omega (
      arith,
      value-louder (louder l k) m,
      value-louder (louder l m) k,
      value-louder l k,
      value-louder l m,
    ))

-- Two handlers next to each other change places.
pub data Swapped : List LogEventHandler → List LogEventHandler → Type 0 where
  swap :
      (hs : List LogEventHandler) (h g : LogEventHandler) (gs : List LogEventHandler)
      → Swapped (hs ++ h ∷ g ∷ gs) (hs ++ g ∷ h ∷ gs)

-- Handlers without their order.
abbrev pub Bag : Type 0
Bag = Quot Swapped

abbrev pub of_list : List LogEventHandler → Bag
of_list = Quot.mk

max_level_swap :
    (l : LogLevel) (hs : List LogEventHandler) (h g : LogEventHandler) (gs : List LogEventHandler)
    → max_level l (hs ++ h ∷ g ∷ gs) ≡ max_level l (hs ++ g ∷ h ∷ gs)
max_level_swap l [] h g gs = ap (λ (k : LogLevel). max_level k gs) (louder_swap l h.level g.level)
max_level_swap l (f ∷ hs) h g gs = max_level_swap (louder l f.level) hs h g gs

all_filters_swap :
    (w : ℕ) (hs : List LogEventHandler) (h g : LogEventHandler) (gs : List LogEventHandler)
    → all_filters w (hs ++ h ∷ g ∷ gs) ≡ all_filters w (hs ++ g ∷ h ∷ gs)
all_filters_swap w [] h g gs = ap (λ (t : ℕ). all_filters t gs) (bit_or_swap w h.filter g.filter)
all_filters_swap w (f ∷ hs) h g gs = all_filters_swap (bit_or w f.filter) hs h g gs

max_level-Swapped :
    (l : LogLevel) (hs gs : List LogEventHandler) → Swapped hs gs → max_level l hs ≡ max_level l gs
max_level-Swapped l _ _ (swap fs h g gs) = max_level_swap l fs h g gs

all_filters-Swapped :
    (w : ℕ) (hs gs : List LogEventHandler) → Swapped hs gs → all_filters w hs ≡ all_filters w gs
all_filters-Swapped w _ _ (swap fs h g gs) = all_filters_swap w fs h g gs

-- The level and the filter that these handlers make of those that were there.
unfoldable loudest : LogLevel → Bag → LogLevel
loudest l = Quot.lift (hlevel) (max_level l) (max_level-Swapped l)

unfoldable joined : ℕ → Bag → ℕ
joined w = Quot.lift (hlevel) (all_filters w) (all_filters-Swapped w)

-- AddHandler with each of these handlers, by a clock.
abbrev pub add_handlers : (clock : ℕ → ℕ) → List LogEventHandler → List Op
add_handlers clock [] = []
add_handlers clock (h ∷ hs) = adds h (clock 0) (clock 1) ∷ add_handlers (λ n. clock (n + 2)) hs

-- A run that returns, with the static members raised by these handlers.
record Raises (s : Logger) (hs : List LogEventHandler) (o : Option Logger) : Type 0 where
  after : Logger
  ends : o ≡ some after
  level : after.current_level ≡ max_level s.current_level hs
  filter : after.current_filter ≡ all_filters s.current_filter hs

Syncs-level :
    (h : LogEventHandler) (gs : List LogEventHandler) (s : Logger) (o : Option Logger)
    → IsSynced gs s
    → (added : Syncs (gs ++ h ∷ []) o) → added.after.current_level ≡ louder s.current_level h.level
Syncs-level h gs s o v added =
    let e = max_level-Alike fatal (gs ++ h ∷ []) added.handlers added.alike in
    let a = max_level-append fatal gs (h ∷ []) in
    added.synced.level ∙ e ∙ a ∙ sym (ap (λ (l : LogLevel). louder l h.level) v.level)

Syncs-filter :
    (h : LogEventHandler) (gs : List LogEventHandler) (s : Logger) (o : Option Logger)
    → IsSynced gs s
    → (added : Syncs (gs ++ h ∷ []) o)
    → added.after.current_filter ≡ bit_or s.current_filter h.filter
Syncs-filter h gs s o v added =
    let e = all_filters-Alike 0 (gs ++ h ∷ []) added.handlers added.alike in
    let a = all_filters-append 0 gs (h ∷ []) in
    added.synced.filter ∙ e ∙ a ∙ sym (ap (λ (w : ℕ). bit_or w h.filter) v.filter)

perform_all-Raises :
    (clock : ℕ → ℕ) (hs gs : List LogEventHandler) (s : Logger)
    → IsSynced gs s
    → Raises s hs (perform_all (add_handlers clock hs) s)
unfolding perform_all perform
perform_all-Raises clock [] gs s v = record { after = s; ends = refl; level = refl; filter = refl }
perform_all-Raises clock (h ∷ hs) gs s v =
    let added = add_handler-Syncs h (clock 0) (clock 1) gs s v.runs in
    let rest = perform_all-Raises (λ n. clock (n + 2)) hs added.handlers added.after added.synced in
    record {
      after = rest.after;
      ends =
          ap
            (λ (o : Option Logger). and_then o (perform_all (add_handlers (λ n. clock (n + 2)) hs)))
            added.ends
          ∙ rest.ends;
      level = rest.level ∙ ap (λ (l : LogLevel). max_level l hs) (Syncs-level h gs s _ v added);
      filter = rest.filter ∙ ap (λ (w : ℕ). all_filters w hs) (Syncs-filter h gs s _ v added);
    }

-- Two runs that return, with the same static members, so that they take the same messages.
pub record SameStatics (o p : Option Logger) : Type 0 where
  pub after : Logger
  pub other : Logger
  pub ends : o ≡ some after
  pub other_ends : p ≡ some other
  pub level : after.current_level ≡ other.current_level
  pub filter : after.current_filter ≡ other.current_filter

-- On an engine whose static members agree with its handlers, AddHandler with each of some handlers,
-- in any order and at any times, returns, and the order makes no difference to the static level and
-- filter.
pub add_handlers-SameStatics :
    (clock other_clock : ℕ → ℕ) (hs ks gs : List LogEventHandler) (s : Logger)
    → IsSynced gs s
    → of_list hs ≡ of_list ks
    → SameStatics
        (perform_all (add_handlers clock hs) s)
        (perform_all (add_handlers other_clock ks) s)
unfolding loudest joined
add_handlers-SameStatics clock other_clock hs ks gs s v same =
    let one = perform_all-Raises clock hs gs s v in
    let two = perform_all-Raises other_clock ks gs s v in
    record {
      after = one.after;
      other = two.after;
      ends = one.ends;
      other_ends = two.ends;
      level = one.level ∙ ap (loudest s.current_level) same ∙ sym two.level;
      filter = one.filter ∙ ap (joined s.current_filter) same ∙ sym two.filter;
    }
