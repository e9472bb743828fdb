-- ===== src/Validator.antt =====
-- utils/validator.go: the validators of identifiers; and of the language, the decoding of UTF-8
-- by `range` and the classes of the first 256 code points.
pub mod Exact
pub mod Registry
use prompt_sdk.Prelude.{
  ℕ, zero, suc, ◌+◌, ◌-◌, ◌*◌, Bool, true, false, not, ◌&&◌, ◌||◌, Option, none, some, List, [],
  ◌∷◌, Text, ltb, leb, ◌==◌, length, get_elem?, if◌then◌else◌, Unicode,
}

unfoldable pub is_ascii_digit : ℕ → Bool
is_ascii_digit b = leb b'0' b && leb b b'9'

unfoldable pub is_ascii_letter : ℕ → Bool
is_ascii_letter b = leb b'a' b && leb b b'z'

-- `unicode.IsLower` on a byte: the small letters of Latin-1
unfoldable pub is_lower_latin : ℕ → Bool
unfolding is_ascii_letter
is_lower_latin b =
    is_ascii_letter b || (b == 0xB5 || ((leb 0xDF b && leb b 0xFF) && not (b == 0xF7)))

-- `unicode.IsDigit`
unfoldable pub is_digit : Unicode → ℕ → Bool
unfolding is_ascii_digit
is_digit u r = if ltb r 256 then is_ascii_digit r else u.is_digit_wide r

is_continuation : ℕ → Bool
is_continuation b = leb 0x80 b && leb b 0xBF

-- the range of the second byte after the first byte of three or four
second_of : ℕ → ℕ → Bool
second_of b0 b1 =
    if b0 == 0xE0
    then leb 0xA0 b1 && leb b1 0xBF
    else if b0 == 0xED
    then leb 0x80 b1 && leb b1 0x9F
    else if b0 == 0xF0
    then leb 0x90 b1 && leb b1 0xBF
    else if b0 == 0xF4
    then leb 0x80 b1 && leb b1 0x8F
    else leb 0x80 b1 && leb b1 0xBF

-- The code points of a text, each invalid byte as U+FFFD: with the code point so far and the
-- continuation bytes that are owed, which `fits` has found to be there.
fits : ℕ → Text → ℕ
unfolding is_continuation second_of
fits b0 (b1 ∷ b2 ∷ b3 ∷ s) =
    if leb 0xC2 b0 && leb b0 0xDF
    then if is_continuation b1 then 1 else 0
    else if leb 0xE0 b0 && leb b0 0xEF
    then if second_of b0 b1 && is_continuation b2 then 2 else 0
    else if leb 0xF0 b0 && leb b0 0xF4
    then if second_of b0 b1 && (is_continuation b2 && is_continuation b3) then 3 else 0
    else 0
fits b0 (b1 ∷ b2 ∷ []) =
    if leb 0xC2 b0 && leb b0 0xDF
    then if is_continuation b1 then 1 else 0
    else if leb 0xE0 b0 && leb b0 0xEF
    then if second_of b0 b1 && is_continuation b2 then 2 else 0
    else 0
fits b0 (b1 ∷ []) = if leb 0xC2 b0 && leb b0 0xDF then if is_continuation b1 then 1 else 0 else 0
fits b0 [] = 0

lead_bits : ℕ → ℕ → ℕ
lead_bits b0 (suc zero) = b0 - 0xC0
lead_bits b0 (suc (suc zero)) = b0 - 0xE0
lead_bits b0 _ = b0 - 0xF0

runes_from : ℕ → ℕ → Text → List ℕ
unfolding fits lead_bits
runes_from owed acc [] = []
runes_from (suc zero) acc (b ∷ s) = (acc * 64 + (b - 0x80)) ∷ runes_from 0 0 s
runes_from (suc (suc n)) acc (b ∷ s) = runes_from (suc n) (acc * 64 + (b - 0x80)) s
runes_from zero acc (b ∷ s) =
    let alone = runes_from 0 0 s in
    let led = runes_from (fits b s) (lead_bits b (fits b s)) s in
    if ltb b 0x80 then b ∷ alone else if fits b s == 0 then 0xFFFD ∷ alone else led

-- `for _, r := range s`
unfoldable pub runes : Text → List ℕ
unfolding runes_from
runes s = runes_from 0 0 s

unfoldable pub all_digits : Unicode → List ℕ → Bool
all_digits u [] = true
all_digits u (r ∷ rs) = if not (is_digit u r) then false else all_digits u rs

-- `MatriculationNumberValidator`
unfoldable pub matriculation_number_validator : Unicode → Text → Bool
matriculation_number_validator u [] = false
matriculation_number_validator u (b ∷ s) =
    if not (length (b ∷ s) == 8)
    then false
    else if not (b == b'0')
    then false
    else all_digits u (runes (b ∷ s))

-- the loops of TUMIDValidator: `n` bytes from place `i`, which are there
unfoldable pub each : (ℕ → Bool) → Text → ℕ → ℕ → Bool
each test s i zero = true
each test s i (suc n) = elim (get_elem? s i) [
  | none ↦ false
  | some b ↦ if test b then each test s (i + 1) n else false
]

-- `TUMIDValidator`
unfoldable pub tum_id_validator : Text → Bool
unfolding each
tum_id_validator s =
    if not (length s == 7)
    then false
    else each is_lower_latin s 0 2 && (each is_ascii_digit s 2 2 && each is_ascii_letter s 4 3)
