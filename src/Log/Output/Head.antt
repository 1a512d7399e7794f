-- ===== src/Log/Output/Head.antt =====
-- The first character that WriteDefaulInfo of core/src/WarLog.cpp writes.
use warlib.Base.{
  ℕ, ◌≢◌, Option, none, some, [], ◌∷◌, ◌++◌, Text, codes, arith, All, decimal, replicate, zero, suc,
  ◌+◌, All-append, decimal-All,
}
use warlib.Log.Level.{get_level_name}
use warlib.Log.Filter.{flag, general, write_filter}
use warlib.Log.Message.{Locale, write_message}
use warlib.Log.Engine.{SubmitInfo}
use warlib.Log.Output.{Tm, write_default_info, zero_filled, date_and_time, write_timestamp}

-- A text whose first character is no blank.
abbrev pub HasHead : Text → Type 0
HasHead [] = ⊥
HasHead (c ∷ t) = c ≢ b' '

pub HasHead-append : (s t : Text) → HasHead s → HasHead (s ++ t)
HasHead-append [] t h = absurd h
HasHead-append (c ∷ s) t h = h

HasHead-snoc : (s : Text) (c : ℕ) → All (λ (d : ℕ). d ≢ b' ') s → c ≢ b' ' → HasHead (s ++ c ∷ [])
HasHead-snoc [] c h ne = ne
HasHead-snoc (d ∷ s) c h ne = h.0

-- Six texts behind it.
HasHead-six : (s t u v w x y : Text) → HasHead s → HasHead (s ++ t ++ u ++ v ++ w ++ x ++ y)
HasHead-six s t u v w x y h = HasHead-append _ y (
    HasHead-append _ x
      (HasHead-append _ w (HasHead-append _ v (HasHead-append _ u (HasHead-append s t h)))))

replicate-All : (n : ℕ) → All (λ (d : ℕ). d ≢ b' ') (replicate n b'0')
replicate-All zero = tt
replicate-All (suc n) = (omega arith, replicate-All n)

date_and_time-HasHead : (o : Option Tm) (ms : ℕ) → HasHead (date_and_time o ms)
unfolding zero_filled
date_and_time-HasHead none ms = omega arith
date_and_time-HasHead (some tm) ms =
    let year =
      HasHead-snoc (zero_filled 4 (tm.tm_year + 1900)) b'-'
        (All-append (λ (d : ℕ). d ≢ b' ') _ (decimal (tm.tm_year + 1900)) (replicate-All _)
          (decimal-All (λ d. d ≢ b' ') (tm.tm_year + 1900) (λ d h. omega arith)))
        (omega arith) in
    HasHead-append _ _ (
      HasHead-append _ _ (
        HasHead-append _ _ (
          HasHead-six _ (zero_filled 2 (tm.tm_mon + 1)) (codes "-") (zero_filled 2 tm.tm_mday)
            (codes " ") (zero_filled 2 tm.tm_hour) (codes ":") year)))

pub write_default_info-HasHead :
    (l : Locale) (local_time : ℕ → Option Tm) (thread_id : Text) (si : SubmitInfo)
    → HasHead (write_default_info l local_time thread_id si)
unfolding write_default_info write_timestamp
write_default_info-HasHead l local_time thread_id si = HasHead-append _ (codes "\n") (
    HasHead-append _ (write_message l si.buf) (
      HasHead-six _ (codes " ") thread_id (codes " ") (get_level_name si.level) (codes ": ")
        (write_filter si.filter (flag general)) (date_and_time-HasHead _ _)))
