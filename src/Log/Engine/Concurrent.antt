-- ===== src/Log/Engine/Concurrent.antt =====
-- Threads in AddHandler of core/src/WarLog.cpp at once, and threads that log meanwhile: each critical
-- section of `lock_` is one step.
use warlib.Base.{
  ℕ, ◌≤◌, ◌≡◌, refl, sym, ap, ◌∙◌, ◌⊎◌, inl, inr, some, List, [], ◌∷◌, ◌++◌, get_elem?, set, total,
  total-set, replicate, arith, if_elim, ltb,
}
use warlib.Log.Level.{LogLevel, fatal, value}
use warlib.Log.Engine.{SubmitInfo, LogEventHandler, offer_all, max_level, all_filters, louder}
use warlib.Log.Engine.Delivery.{max_level-offer_all, all_filters-offer_all, max_level-append}

-- Where a thread stands: outside of AddHandler, or between `push_back` and UpdateLevelAndFilter.
pub data Stage : Type 0 where
  outside pushed : Stage

pub record Engine : Type 0 where
  pub handlers : List LogEventHandler
  pub current_level : LogLevel
  pub current_filter : ℕ
  pub threads : List Stage

abbrev pub created : ℕ → Engine
created n = record {
  handlers = [];
  current_level = fatal;
  current_filter = 0;
  threads = replicate n outside;
}

pub data EngineStep (s : Engine) : Engine → Type 0 where
  push :
      (i : ℕ) (h : LogEventHandler)
      → get_elem? s.threads i ≡ some outside
      → EngineStep s
          (record s { handlers = s.handlers ++ h ∷ []; threads = set s.threads i pushed })
  refresh :
      (i : ℕ)
      → get_elem? s.threads i ≡ some pushed
      → EngineStep s (record s {
        current_level = max_level fatal s.handlers;
        current_filter = all_filters 0 s.handlers;
        threads = set s.threads i outside;
      })
  submit : (si : SubmitInfo) → EngineStep s (record s { handlers = offer_all si s.handlers })

pub data EngineReach (n : ℕ) : Engine → Type 0 where
  here : EngineReach n (created n)
  next : {s t : Engine} → EngineReach n s → EngineStep s t → EngineReach n t

abbrev pub is_pushed : Stage → ℕ
is_pushed outside = 0
is_pushed pushed = 1

-- The static members are those of the handlers.
pub record Agrees (s : Engine) : Type 0 where
  pub level : s.current_level ≡ max_level fatal s.handlers
  pub filter : s.current_filter ≡ all_filters 0 s.handlers

record Inv (s : Engine) : Type 0 where
  settled : (1 ≤ total is_pushed s.threads) ⊎ Agrees s
  not_above : value s.current_level ≤ value (max_level fatal s.handlers)

louder-le : (l k : LogLevel) → value l ≤ value (louder l k)
louder-le l k =
    if_elim (λ (m : LogLevel). value l ≤ value m) (ltb (value l) (value k)) _ _ (λ e. ground arith)
      (λ e. omega arith)

Agrees-submit :
    (si : SubmitInfo) (s : Engine)
    → Agrees s
    → Agrees (record s { handlers = offer_all si s.handlers })
Agrees-submit si s v = record {
  level = v.level ∙ sym (max_level-offer_all si fatal s.handlers);
  filter = v.filter ∙ sym (all_filters-offer_all si 0 s.handlers);
}

step-Inv : {s t : Engine} → EngineStep s t → Inv s → Inv t
step-Inv {s} (push i h e) v = record {
  settled = inl (omega (arith, total-set is_pushed s.threads i outside pushed e));
  not_above =
      let added = max_level-append fatal s.handlers (h ∷ []) in
      omega (arith, ap value added, v.not_above, louder-le (max_level fatal s.handlers) h.level);
}
step-Inv {s} (refresh i e) v = record {
  settled = inr (record { level = refl; filter = refl });
  not_above = omega arith;
}
step-Inv {s} (submit si) v = record {
  settled = elim v.settled [ inl w ↦ inl w | inr w ↦ inr (Agrees-submit si s w) ];
  not_above = omega (arith, ap value (max_level-offer_all si fatal s.handlers), v.not_above);
}

reach-Inv : {n : ℕ} {s : Engine} → EngineReach n s → Inv s
reach-Inv {n} here = record {
  settled = inr (record { level = refl; filter = refl });
  not_above = omega arith;
}
reach-Inv (next r st) = step-Inv st (reach-Inv r)

-- However the threads in AddHandler interleave with each other and with threads that log, at every
-- moment: the static level is not above the level of the loudest handler; and some thread is between
-- its push_back and its UpdateLevelAndFilter, or the static level and filter are those of all handlers.
-- (No thread calls SetLevel meanwhile.)
pub reach-Agrees :
    {n : ℕ} {s : Engine}
    → EngineReach n s
    → (value s.current_level ≤ value (max_level fatal s.handlers))
      × ((1 ≤ total is_pushed s.threads) ⊎ Agrees s)
reach-Agrees r = let v = reach-Inv r in (v.not_above, v.settled)
