-- ===== src/Log/Message.antt =====
-- LogEventHandler::WriteMessage of WarLog.cpp. A `char` is its byte; the locale's classes are a
-- parameter. The `++ch`, `--ch` of the source only looks whether the newline is the last byte.
pub mod Safety
use warlib.Base.{
  ℕ, zero, suc, ◌+◌, ◌-◌, ◌/◌, ◌%◌, ◌^◌, Bool, true, false, not, ◌&&◌, List, [], ◌∷◌, ◌++◌, Text,
  codes, ltb, ◌==◌, length, if◌then◌else◌,
}

-- `std::iscntrl(c, locale_)` and `std::isspace(c, locale_)`
pub record Locale : Type 0 where
  pub is_cntrl : ℕ → Bool
  pub is_space : ℕ → Bool

-- `(unsigned int)c` of a signed char
abbrev pub unsigned_of : ℕ → ℕ
unsigned_of c = if ltb c 128 then c else c + (2 ^ 32 - 256)

abbrev pub hex_digit : ℕ → ℕ
hex_digit d = if ltb d 10 then b'0' + d else b'a' + (d - 10)

abbrev pub hex_before : ℕ → ℕ → Text → Text
hex_before zero n t = t
hex_before (suc fuel) n t =
    let more = hex_before fuel (n / 16) (hex_digit (n % 16) ∷ t) in
    if ltb n 16 then hex_digit (n % 16) ∷ t else more

-- `std::hex`, of an unsigned int: at most eight digits.
unfoldable pub hex : ℕ → Text
hex n = hex_before 8 n []

-- `std::setw(2) << std::setfill('0')`
abbrev pub padded : Text → Text
padded [] = codes "00"
padded (c ∷ []) = b'0' ∷ c ∷ []
padded t = t

unfoldable pub escaped : ℕ → Text
unfolding hex
escaped c = b'%' ∷ padded (hex (unsigned_of c))

abbrev pub is_unsafe : Locale → ℕ → Bool
is_unsafe l c = l.is_cntrl c && not (l.is_space c)

-- What the loop writes for a byte that is no '\r' and not a newline at the end.
unfoldable pub put : Locale → ℕ → Text
unfolding escaped
put l c =
    if c == b'\n' then b'\n' ∷ b' ' ∷ b' ' ∷ [] else (if is_unsafe l c then escaped c else c ∷ [])

abbrev is_end : Text → Bool
is_end [] = true
is_end (c ∷ t) = false

-- WriteMessage
unfoldable pub write_message : Locale → Text → Text
unfolding put
write_message l [] = []
write_message l (c ∷ t) =
    let rest = write_message l t in
    if c == b'\r' then rest else (if c == b'\n' && is_end t then [] else put l c ++ rest)
