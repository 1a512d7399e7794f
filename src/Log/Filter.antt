-- ===== src/Log/Filter.antt =====
-- `enum LogAbout` of WarLog.h, and LogEventHandler::WriteFilter of WarLog.cpp.
use native.Mathlib.Nat.{one-le-pow}
use warlib.Base.{
  ℕ, ◌-◌, ◌^◌, ◌<◌, ◌≡◌, refl, Bool, true, false, not, List, [], ◌∷◌, ◌++◌, Text, codes, ◌==◌,
  bit_and, arith, if◌then◌else◌, ◌&&◌, append-nil, append_assoc,
}
use warlib.Base.Bits.{bit, bit_and-pow, bit_and_comm, bit_and-zero, bit-le-one, bit-complement}

-- `filter_t`, an unsigned int
abbrev pub word : ℕ
word = 2 ^ 32

pub data LogAbout : Type 0 where
  general security transfer auth io network threads ipc stats function_call : LogAbout

-- The number of the bit that is the value of an enumerator.
abbrev pub position : LogAbout → ℕ
position general = 0
position security = 1
position transfer = 2
position auth = 3
position io = 4
position network = 5
position threads = 6
position ipc = 7
position stats = 8
position function_call = 9

abbrev pub flag : LogAbout → ℕ
flag a = 2 ^ position a

-- LA_DEFAULT_ENABLE
abbrev pub default_enable : ℕ
default_enable = 0x3ff

-- What the ADD macro writes for a flag.
abbrev pub about_name : LogAbout → Text
about_name general = codes "GENERAL"
about_name security = codes "SECURITY"
about_name transfer = codes "TRANSFER"
about_name auth = codes "AUTH"
about_name io = codes "IO"
about_name network = codes "NETWORK"
about_name threads = codes "THREADS"
about_name ipc = codes "IPC"
about_name stats = codes "STATS"
about_name function_call = codes "FUNCTION_CALL"

-- The order of the ADD lines.
abbrev pub all_about : List LogAbout
all_about =
    general ∷ security ∷ transfer ∷ auth ∷ io ∷ network ∷ threads ∷ ipc ∷ stats ∷ function_call ∷ []

-- `~hide`
abbrev complement : ℕ → ℕ
complement hide = word - 1 - hide

-- The condition of ADD.
unfoldable pub shows : (filter hide : ℕ) → LogAbout → Bool
shows filter hide a = bit_and filter (bit_and (flag a) (complement hide)) == flag a

-- One ADD line: the text so far and the flag `virgin`.
add : (filter hide : ℕ) → LogAbout → Text × Bool → Text × Bool
add filter hide a (out, virgin) =
    if shows filter hide a
    then ((if virgin then out else out ++ codes "|") ++ about_name a, false)
    else (out, virgin)

add_all : (filter hide : ℕ) → List LogAbout → Text × Bool → Text × Bool
add_all filter hide [] r = r
add_all filter hide (a ∷ as') r = add_all filter hide as' (add filter hide a r)

abbrev close_filter : Text × Bool → Text
close_filter (out, virgin) = if not virgin then out ++ codes " " else out

-- WriteFilter(out, filter, hide)
unfoldable pub write_filter : (filter hide : ℕ) → Text
unfolding shows add add_all
write_filter filter hide = close_filter (add_all filter hide all_about ([], true))

-- The flags of a list that are set in `filter` and clear in `hide`.
abbrev pub shown : (filter hide : ℕ) → List LogAbout → List LogAbout
shown filter hide [] = []
shown filter hide (a ∷ as') =
    let rest = shown filter hide as' in
    if bit filter (position a) == 1 && bit hide (position a) == 0 then a ∷ rest else rest

shows_bit :
    (filter hide k : ℕ)
    → hide < word
    → k < 32
    → (bit_and filter (bit_and (2 ^ k) (complement hide)) == 2 ^ k)
      ≡ (bit filter k == 1 && bit hide k == 0)
shows_bit filter hide k fits small = ground (
  arith,
  bit_and_comm (2 ^ k) (complement hide),
  bit_and-pow (complement hide) k,
  bit-complement 32 hide k fits small,
  bit-le-one hide k,
  bit-le-one filter k,
  bit_and-pow filter k,
  bit_and-zero filter,
  one-le-pow k 2,
)

position-lt : (a : LogAbout) → position a < 32
position-lt a = ground arith

-- The condition of an ADD line is that the flag is set in the filter and clear in `hide`.
shows_lem :
    (filter hide : ℕ) (a : LogAbout)
    → hide < word
    → shows filter hide a ≡ (bit filter (position a) == 1 && bit hide (position a) == 0)
unfolding shows
shows_lem filter hide a fits = shows_bit filter hide (position a) fits (position-lt a)

-- The names, with a bar before each; and the first one without.
abbrev pub bars : List LogAbout → Text
bars [] = []
bars (a ∷ as') = codes "|" ++ about_name a ++ bars as'

abbrev pub listing : List LogAbout → Text
listing [] = []
listing (a ∷ as') = about_name a ++ bars as' ++ codes " "

module _ (filter hide : ℕ) (fits : hide < word) where
  add_all-bars :
      (as' : List LogAbout) (out : Text)
      → add_all filter hide as' (out, false) ≡ (out ++ bars (shown filter hide as'), false)
  unfolding add_all add
  add_all-bars [] out = ground (arith, append-nil out)
  add_all-bars (a ∷ as') out = ground (
    arith,
    shows_lem filter hide a fits,
    add_all-bars as' out,
    add_all-bars as' ((out ++ codes "|") ++ about_name a),
    append_assoc (out ++ codes "|") (about_name a) (bars (shown filter hide as')),
    append_assoc out (codes "|") (about_name a ++ bars (shown filter hide as')),
  )

  add_all-listing :
      (as' : List LogAbout)
      → close_filter (add_all filter hide as' ([], true)) ≡ listing (shown filter hide as')
  unfolding add_all add
  add_all-listing [] = refl
  add_all-listing (a ∷ as') = ground (
    arith,
    shows_lem filter hide a fits,
    add_all-listing as',
    add_all-bars as' (about_name a),
    append_assoc (about_name a) (bars (shown filter hide as')) (codes " "),
  )

  -- WriteFilter writes the names of exactly the flags that are set in the filter and clear in
  -- `hide`, in the order of their bits, with a bar between two and a blank behind the last; with no
  -- such flag it writes nothing.
  pub write_filter_lem : write_filter filter hide ≡ listing (shown filter hide all_about)
  unfolding write_filter
  write_filter_lem = add_all-listing all_about
