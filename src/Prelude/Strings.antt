-- ===== src/Prelude/Strings.antt =====
-- Go strings: sequences of bytes, compared byte by byte, with the functions of the package
-- `strings` that the program calls. `strings.Split` is for a separator of one byte.
use Prim.Native.Nat.{ℕ, ◌+◌}
use Prim.Native.Char.{code}
use Prim.Native.String.{String}
use mathlib.Core.Path.{◌≡◌, refl}
use mathlib.Core.Logic.{◌↔◌}
use mathlib.Core.Bool.{Bool, true, false, ◌&&◌, ◌||◌}
use mathlib.Core.List.{List, [], ◌∷◌, reverse, map}
use native.Mathlib.Omega.{arith}
use prompt_sdk.Prelude.Tests.{ltb, leb, ◌==◌, if◌then◌else◌}
use prompt_sdk.Prelude.Lists.{length, drop, all}

abbrev pub Text : Type 0
Text = List ℕ

-- An ASCII literal.
abbrev pub codes : String → Text
codes String.[] = []
codes (String.◌∷◌ c s) = code c ∷ codes s

-- `s == t` on strings
unfoldable pub text_eq : Text → Text → Bool
text_eq [] [] = true
text_eq [] (d ∷ t) = false
text_eq (c ∷ s) [] = false
text_eq (c ∷ s) (d ∷ t) = c == d && text_eq s t

pub text_eq_iff : (s t : Text) → (text_eq s t ≡ true) ↔ (s ≡ t)
unfolding text_eq
text_eq_iff [] [] = (λ h. refl, λ h. refl)
text_eq_iff [] (d ∷ t) = ground arith
text_eq_iff (c ∷ s) [] = ground arith
text_eq_iff (c ∷ s) (d ∷ t) = ground (arith, text_eq_iff s t)

pub text_eq_refl : (s : Text) → text_eq s s ≡ true
text_eq_refl s = (text_eq_iff s s).1 refl

-- `s == ""`
abbrev pub is_empty : Text → Bool
is_empty [] = true
is_empty (_ ∷ _) = false

-- `slices.Contains`
unfoldable pub contains : List Text → Text → Bool
contains [] t = false
contains (s ∷ ss) t = text_eq s t || contains ss t

unfoldable pub has_prefix : Text → Text → Bool
has_prefix s [] = true
has_prefix [] (d ∷ t) = false
has_prefix (c ∷ s) (d ∷ t) = c == d && has_prefix s t

unfoldable pub has_suffix : Text → Text → Bool
unfolding has_prefix
has_suffix s t = has_prefix (reverse s) (reverse t)

-- `strings.TrimPrefix`
unfoldable pub trim_prefix : Text → Text → Text
unfolding has_prefix
trim_prefix s t = if has_prefix s t then drop (length t) s else s

-- `strings.TrimSuffix`
unfoldable pub trim_suffix : Text → Text → Text
unfolding trim_prefix
trim_suffix s t = reverse (trim_prefix (reverse s) (reverse t))

-- `strings.Contains` of one byte
unfoldable pub contains_byte : Text → ℕ → Bool
contains_byte [] b = false
contains_byte (c ∷ s) b = c == b || contains_byte s b

unfoldable pub split_from : ℕ → Text → Text → List Text
split_from sep cur [] = reverse cur ∷ []
split_from sep cur (c ∷ s) = elim (c == sep) [
  | true ↦ reverse cur ∷ split_from sep [] s
  | false ↦ split_from sep (c ∷ cur) s
]

-- `strings.Split`
unfoldable pub split : Text → ℕ → List Text
unfolding split_from
split s sep = split_from sep [] s

-- `strings.ReplaceAll` of one byte by another
unfoldable pub replace_byte : Text → ℕ → ℕ → Text
replace_byte s old new = map (λ c. if c == old then new else c) s

-- `strings.Trim` of one byte, from the front and from both ends
unfoldable pub trim_left : ℕ → Text → Text
trim_left b [] = []
trim_left b (c ∷ s) = if c == b then trim_left b s else c ∷ s

unfoldable pub trim : ℕ → Text → Text
unfolding trim_left
trim b s = reverse (trim_left b (reverse (trim_left b s)))

unfoldable pub is_ascii : Text → Bool
is_ascii = all (λ c. ltb c 128)

unfoldable pub lower_byte : ℕ → ℕ
lower_byte c = if leb b'A' c && leb c b'Z' then c + 32 else c

-- The ASCII characters that `unicode.IsSpace` takes.
unfoldable pub is_space : ℕ → Bool
is_space c = c == b' ' || (leb 9 c && leb c 13)

unfoldable pub trim_space_left : Text → Text
unfolding is_space
trim_space_left [] = []
trim_space_left (c ∷ s) = if is_space c then trim_space_left s else c ∷ s

unfoldable pub trim_space_ascii : Text → Text
unfolding trim_space_left
trim_space_ascii s = reverse (trim_space_left (reverse (trim_space_left s)))

-- The parts of the package `unicode` that rest on the Unicode tables.
pub record Unicode : Type 0 where
  -- `strings.ToLower` and `strings.TrimSpace` on a text that holds a byte from 128
  pub lower_unicode : Text → Text
  pub trim_unicode : Text → Text
  -- `unicode.IsDigit` on a code point from 256
  pub is_digit_wide : ℕ → Bool

-- `strings.ToLower`, with its path for ASCII
unfoldable pub to_lower : Unicode → Text → Text
unfolding is_ascii lower_byte
to_lower u s = if is_ascii s then map lower_byte s else u.lower_unicode s

-- `strings.TrimSpace`
unfoldable pub trim_space : Unicode → Text → Text
unfolding is_ascii trim_space_ascii
trim_space u s = if is_ascii s then trim_space_ascii s else u.trim_unicode s

-- `s < t` on strings
unfoldable pub text_lt : Text → Text → Bool
text_lt [] [] = false
text_lt [] (d ∷ t) = true
text_lt (c ∷ s) [] = false
text_lt (c ∷ s) (d ∷ t) = if c == d then text_lt s t else ltb c d
