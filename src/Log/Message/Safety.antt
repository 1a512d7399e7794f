-- ===== src/Log/Message/Safety.antt =====
-- What WriteMessage of WarLog.cpp lets through to a log.
use warlib.Base.{
  ℕ, zero, suc, ◌/◌, ◌%◌, ◌<◌, ◌≤◌, ◌≡◌, ◌≢◌, refl, ◌⊎◌, inl, inr, false, ◌&&◌, [], ◌∷◌, ◌++◌, Text,
  ltb, ◌==◌, if_elim, arith, if◌then◌else◌, All, All-append, subst, sym,
}
use warlib.Log.Message.{
  Locale, unsigned_of, hex, escaped, is_unsafe, put, write_message, hex_digit, hex_before, padded,
  is_end,
}

abbrev pub IsHexDigit : ℕ → Type 0
IsHexDigit c = ((b'0' ≤ c) × (c ≤ b'9')) ⊎ ((b'a' ≤ c) × (c ≤ b'f'))

hex_digit_lem : (d : ℕ) → d < 16 → IsHexDigit (hex_digit d)
hex_digit_lem d h = ground arith

hex_before-All : (fuel n : ℕ) (t : Text) → All IsHexDigit t → All IsHexDigit (hex_before fuel n t)
hex_before-All zero n t h = h
hex_before-All (suc fuel) n t h =
    if_elim (All IsHexDigit) (ltb n 16) _ _ (λ e. (hex_digit_lem (n % 16) (omega arith), h))
      (λ e. hex_before-All fuel (n / 16) _ (hex_digit_lem (n % 16) (omega arith), h))

padded-All : (t : Text) → All IsHexDigit t → All IsHexDigit (padded t)
padded-All [] h = ground arith
padded-All (c ∷ []) h = ground arith
padded-All (c ∷ d ∷ t) h = h

-- A control byte is written as a percent sign and hexadecimal digits.
escaped-All : (c : ℕ) → (d : Text) × (escaped c ≡ b'%' ∷ d) × All IsHexDigit d
unfolding escaped
escaped-All c = (
  padded (hex (unsigned_of c)),
  refl,
  padded-All (hex (unsigned_of c)) (hex_before-All 8 (unsigned_of c) [] tt),
)

-- Each newline is followed by two blanks.
abbrev pub IsIndented : Text → Type 0
IsIndented [] = Unit {0}
IsIndented (c ∷ t) = ((c ≢ b'\n') ⊎ ((r : Text) × (t ≡ b' ' ∷ b' ' ∷ r))) × IsIndented t

pub IsIndented-append : (s t : Text) → IsIndented s → IsIndented t → IsIndented (s ++ t)
IsIndented-append [] t hs ht = ht
IsIndented-append (c ∷ s) t (inl ne, hs) ht = (inl ne, IsIndented-append s t hs ht)
IsIndented-append (c ∷ s) t (inr (r, e), hs) ht = (inr (r ++ t, rw e), IsIndented-append s t hs ht)

IsIndented-of_digits : (t : Text) → All IsHexDigit t → IsIndented t
IsIndented-of_digits [] h = tt
IsIndented-of_digits (c ∷ t) h = (inl (ground arith), IsIndented-of_digits t h.1)

put-IsIndented : (l : Locale) (c : ℕ) → IsIndented (put l c)
unfolding put
put-IsIndented l c =
    if_elim IsIndented (c == b'\n') _ _
      (λ e. (inr ([], refl), (inl (omega arith), (inl (omega arith), tt))))
      (λ e.
        if_elim IsIndented (is_unsafe l c) _ _ (λ u. escaped-IsIndented c)
          (λ u. (inl (ground arith), tt)))
  where
    escaped-IsIndented : (c : ℕ) → IsIndented (escaped c)
    escaped-IsIndented c =
        let (d, e, h) = escaped-All c in
        subst IsIndented (sym e) (inl (omega arith), IsIndented-of_digits d h)

-- Whatever the message and the locale, each newline that is written is followed by two blanks: no
-- message can write a line of the log that looks like another entry.
pub write_message-IsIndented : (l : Locale) (t : Text) → IsIndented (write_message l t)
unfolding write_message
write_message-IsIndented l [] = tt
write_message-IsIndented l (c ∷ t) =
    if_elim IsIndented (c == b'\r') _ _ (λ e. write_message-IsIndented l t)
      λ e.
        if_elim IsIndented (c == b'\n' && is_end t) _ _ (λ last. tt)
          λ inside.
            IsIndented-append (put l c) (write_message l t) (put-IsIndented l c)
              (write_message-IsIndented l t)

-- What the locale is expected to say of the bytes that WriteMessage itself adds.
pub record IsSane (l : Locale) : Type 0 where
  pub newline_is_space : is_unsafe l b'\n' ≡ false
  pub blank_is_safe : is_unsafe l b' ' ≡ false
  pub percent_is_safe : is_unsafe l b'%' ≡ false
  pub digits_are_safe : (c : ℕ) → IsHexDigit c → is_unsafe l c ≡ false

module _ (l : Locale) (sane : IsSane l) where
  abbrev pub IsClean : ℕ → Type 0
  IsClean c = (c ≢ b'\r') × (is_unsafe l c ≡ false)

  digits-IsClean : (t : Text) → All IsHexDigit t → All IsClean t
  digits-IsClean [] h = tt
  digits-IsClean (c ∷ t) h = ((ground arith, sane.digits_are_safe c h.0), digits-IsClean t h.1)

  escaped-IsClean : (c : ℕ) → All IsClean (escaped c)
  escaped-IsClean c =
      let (d, e, h) = escaped-All c in
      subst (All IsClean) (sym e) ((omega arith, sane.percent_is_safe), digits-IsClean d h)

  put-IsClean : (c : ℕ) → c ≢ b'\r' → All IsClean (put l c)
  unfolding put
  put-IsClean c ne =
      if_elim (All IsClean) (c == b'\n') _ _
        (λ e. (
          (omega arith, sane.newline_is_space),
          ((omega arith, sane.blank_is_safe), ((omega arith, sane.blank_is_safe), tt)),
        ))
        (λ e.
          if_elim (All IsClean) (is_unsafe l c) _ _ (λ u. escaped-IsClean c) (λ u. ((ne, u), tt)))

  -- No carriage return and no control byte that is not white space reaches the log, if the locale
  -- has none of these among the blank, the newline, the percent sign and the hexadecimal digits.
  write_message-IsClean : (t : Text) → All IsClean (write_message l t)
  unfolding write_message
  write_message-IsClean [] = tt
  write_message-IsClean (c ∷ t) =
      if_elim (All IsClean) (c == b'\r') _ _ (λ e. write_message-IsClean t)
        λ ne.
          if_elim (All IsClean) (c == b'\n' && is_end t) _ _ (λ last. tt)
            λ inside.
              All-append IsClean (put l c) (write_message l t) (put-IsClean c (ground arith))
                (write_message-IsClean t)

-- A text without its last byte, if that is a newline.
abbrev pub chop : Text → Text
chop [] = []
chop (c ∷ []) = if c == b'\n' then [] else c ∷ []
chop (c ∷ d ∷ t) = c ∷ chop (d ∷ t)

abbrev pub without_returns : Text → Text
without_returns [] = []
without_returns (c ∷ t) = let rest = without_returns t in if c == b'\r' then rest else c ∷ rest

abbrev pub put_all : Locale → Text → Text
put_all l [] = []
put_all l (c ∷ t) = put l c ++ put_all l t

-- The loop of WriteMessage writes each byte by itself, but for carriage returns and for a newline at
-- the very end, which it leaves out.
pub write_message_lem :
    (l : Locale) (t : Text) → write_message l t ≡ put_all l (without_returns (chop t))
unfolding write_message
write_message_lem l [] = refl
write_message_lem l (c ∷ []) = ground arith
write_message_lem l (c ∷ d ∷ t) = ground (arith, write_message_lem l (d ∷ t))
