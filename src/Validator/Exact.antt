-- ===== src/Validator/Exact.antt =====
-- Which texts the validators take.
use prompt_sdk.Prelude.{
  ℕ, ◌≤◌, ◌<◌, ◌≡◌, ◌≢◌, ◌↔◌, ◌⊎◌, refl, ap, true, some, [], ◌∷◌, Text, ltb, length, get_elem?, All,
  arith, Unicode,
}
use prompt_sdk.Validator.{
  is_ascii_digit, is_ascii_letter, is_lower_latin, is_digit, runes, runes_from, all_digits,
  matriculation_number_validator, tum_id_validator,
}

abbrev pub Between : ℕ → ℕ → ℕ → Type 0
Between lo hi b = (lo ≤ b) × (b ≤ hi)

-- A small letter of Latin-1, as a byte.
abbrev pub IsLatinLower : ℕ → Type 0
IsLatinLower b = Between b'a' b'z' b ⊎ (b ≡ 0xB5) ⊎ (Between 0xDF 0xFF b × (b ≢ 0xF7))

abbrev pub IsLogin : Text → Type 0
IsLogin (a ∷ b ∷ c ∷ d ∷ e ∷ f ∷ g ∷ []) =
    IsLatinLower a
    × IsLatinLower b
    × Between b'0' b'9' c
    × Between b'0' b'9' d
    × Between b'a' b'z' e
    × Between b'a' b'z' f
    × Between b'a' b'z' g
IsLogin _ = ⊥

is_lower_latin_iff : (b : ℕ) → (is_lower_latin b ≡ true) ↔ IsLatinLower b
unfolding is_lower_latin
is_lower_latin_iff b = ground arith

is_ascii_digit_iff : (b : ℕ) → (is_ascii_digit b ≡ true) ↔ Between b'0' b'9' b
unfolding is_ascii_digit
is_ascii_digit_iff b = ground arith

is_ascii_letter_iff : (b : ℕ) → (is_ascii_letter b ≡ true) ↔ Between b'a' b'z' b
unfolding is_ascii_letter
is_ascii_letter_iff b = ground arith

-- A login is taken exactly if it has seven bytes: two small letters of Latin-1, two digits from 0
-- to 9, and three letters from a to z.
pub tum_id_validator_iff : (s : Text) → (tum_id_validator s ≡ true) ↔ IsLogin s
unfolding tum_id_validator
tum_id_validator_iff (a ∷ b ∷ c ∷ d ∷ e ∷ f ∷ g ∷ []) = (
  λ h. (
    (is_lower_latin_iff a).0 (ground arith),
    (is_lower_latin_iff b).0 (ground arith),
    (is_ascii_digit_iff c).0 (ground arith),
    (is_ascii_digit_iff d).0 (ground arith),
    (is_ascii_letter_iff e).0 (ground arith),
    (is_ascii_letter_iff f).0 (ground arith),
    (is_ascii_letter_iff g).0 (ground arith),
  ),
  λ h. rw (
    (is_lower_latin_iff a).1 h.0,
    (is_lower_latin_iff b).1 h.1,
    (is_ascii_digit_iff c).1 h.2,
    (is_ascii_digit_iff d).1 h.3,
    (is_ascii_letter_iff e).1 h.4,
    (is_ascii_letter_iff f).1 h.5,
    (is_ascii_letter_iff g).1 h.6,
  ),
)
tum_id_validator_iff s = (λ h. absurd (ground arith), λ h. absurd h)

runes_from-ascii : (s : Text) → All (λ b. b < 128) s → runes_from 0 0 s ≡ s
unfolding runes_from
runes_from-ascii [] h = refl
runes_from-ascii (b ∷ s) (hb, h) =
    let low : ltb b 0x80 ≡ true = ground arith in rw low (ap (λ t. b ∷ t) (runes_from-ascii s h))

runes-ascii : (s : Text) → All (λ b. b < 128) s → runes s ≡ s
unfolding runes
runes-ascii s h = runes_from-ascii s h

module _ (u : Unicode) where
  all_digits_iff :
      (s : Text) → All (λ b. b < 128) s → (all_digits u s ≡ true) ↔ All (Between b'0' b'9') s
  unfolding all_digits is_digit
  all_digits_iff [] h = (λ _. tt, λ _. refl)
  all_digits_iff (b ∷ s) (hb, h) =
      let narrow : ltb b 256 ≡ true = ground arith in
      let rest = all_digits_iff s h in
      rw narrow (
        λ k. ((is_ascii_digit_iff b).0 (ground arith), rest.0 (ground arith)),
        λ k. rw ((is_ascii_digit_iff b).1 k.0) (rest.1 k.1),
      )

  -- A matriculation number in ASCII is taken exactly if it is eight digits from 0 to 9, of which
  -- the first one is 0.
  pub matriculation_number_validator_iff :
      (s : Text)
      → All (λ b. b < 128) s
      → (matriculation_number_validator u s ≡ true)
        ↔ ((length s ≡ 8) × (get_elem? s 0 ≡ some b'0') × All (Between b'0' b'9') s)
  unfolding matriculation_number_validator
  matriculation_number_validator_iff [] h = (λ k. cc, λ k. absurd (ground arith))
  matriculation_number_validator_iff (b ∷ s) h =
      let plain = runes-ascii (b ∷ s) h in
      let digits = all_digits_iff (b ∷ s) h in
      rw plain (
        λ k. (ground arith, ground arith, digits.0 (ground arith)),
        λ k. ground (arith, digits.1 k.2),
      )
