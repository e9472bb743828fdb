-- ===== src/DatabaseUrl/Escaping.antt =====
-- What the escaping of user information leaves, and that it can be read back.
use prompt_sdk.Prelude.{
  ℕ, ◌/◌, ◌%◌, ◌<◌, ◌≡◌, ◌≢◌, refl, inl, inr, ◌⊎◌, true, false, [], ◌∷◌, some, Text, contains_byte,
  All, All-append, subst, Bool-cases, arith,
}
use prompt_sdk.DatabaseUrl.{
  Encoding, encode_user_password, encode_host, encode_path, encode_query_component, should_escape,
  upper_hex, is_plus, escape_byte, escape,
}
use prompt_sdk.Resolution.Targets.{path_unescape}
use prompt_sdk.Resolution.Traversal.{
  IsHex, Escapes, verbatim, escaped, done, path_unescape_complete,
}
use prompt_sdk.Masking.Credentials.{is_user_byte, is_password_byte}

abbrev pub AreBytes : Text → Type 0
AreBytes = All (λ c. c < 256)

upper_hex-IsHex : (x : ℕ) → x < 16 → IsHex (upper_hex x) x
unfolding upper_hex
upper_hex-IsHex x h = ground arith

-- A byte that is not escaped in user information is one of a user name.
verbatim-is_user_byte :
    (c : ℕ) → should_escape encode_user_password c ≡ false → is_user_byte c ≡ true
unfolding should_escape contains_byte is_user_byte
verbatim-is_user_byte c h = ground arith

upper_hex-is_user_byte : (x : ℕ) → x < 16 → is_user_byte (upper_hex x) ≡ true
unfolding upper_hex is_user_byte
upper_hex-is_user_byte x h = ground arith

escape_byte-are_user_bytes :
    (c : ℕ) → c < 256 → All (λ d. is_user_byte d ≡ true) (escape_byte encode_user_password c)
unfolding escape_byte is_user_byte
escape_byte-are_user_bytes c h = elim (Bool-cases (should_escape encode_user_password c)) [
  | inl e ↦ rw e (
    refl,
    (
      upper_hex-is_user_byte (c / 16) (omega arith),
      (upper_hex-is_user_byte (c % 16) (omega arith), tt),
    ),
  )
  | inr e ↦ rw e (verbatim-is_user_byte c e, tt)
]

pub escape-are_user_bytes :
    (s : Text) → AreBytes s → All (λ d. is_user_byte d ≡ true) (escape encode_user_password s)
unfolding escape
escape-are_user_bytes [] h = tt
escape-are_user_bytes (c ∷ s) h =
    All-append _ (escape_byte encode_user_password c) (escape encode_user_password s)
      (escape_byte-are_user_bytes c h.0) (escape-are_user_bytes s h.1)

password_of_user : (c : ℕ) → is_user_byte c ≡ true → is_password_byte c ≡ true
unfolding is_user_byte is_password_byte
password_of_user c h = ground arith

All-password_of_user :
    (s : Text) → All (λ d. is_user_byte d ≡ true) s → All (λ d. is_password_byte d ≡ true) s
All-password_of_user [] h = tt
All-password_of_user (c ∷ s) h = (password_of_user c h.0, All-password_of_user s h.1)

pub escape-are_password_bytes :
    (s : Text) → AreBytes s → All (λ d. is_password_byte d ≡ true) (escape encode_user_password s)
escape-are_password_bytes s h = All-password_of_user _ (escape-are_user_bytes s h)

unescaped-ne_percent : (c : ℕ) → should_escape encode_user_password c ≡ false → c ≢ b'%'
unfolding should_escape contains_byte
unescaped-ne_percent c h = ground arith

escape-Escapes : (s : Text) → AreBytes s → Escapes (escape encode_user_password s) s
unfolding escape escape_byte
escape-Escapes [] h = done
escape-Escapes (c ∷ s) h = elim (Bool-cases (should_escape encode_user_password c)) [
  | inl e ↦ rw e (
      escaped b'%' (upper_hex (c / 16)) (upper_hex (c % 16)) (c / 16) (c % 16) c refl
        (upper_hex-IsHex (c / 16) (omega arith)) (upper_hex-IsHex (c % 16) (omega arith))
        (omega arith) (escape-Escapes s h.1))
  | inr e ↦ rw e (verbatim c (unescaped-ne_percent c e) (escape-Escapes s h.1))
]

pub path_unescape-escape :
    (s : Text) → AreBytes s → path_unescape (escape encode_user_password s) ≡ some s
path_unescape-escape s h = path_unescape_complete (escape-Escapes s h)

-- A byte that neither the user information nor the host of a URL holds unescaped.
abbrev pub IsDelimiter : ℕ → Type 0
IsDelimiter b = (b ≡ b'/') ⊎ (b ≡ b'?') ⊎ (b ≡ b'#') ⊎ (b ≡ b'@')

upper_hex-IsDelimiter : (b x : ℕ) → x < 16 → IsDelimiter b → upper_hex x ≢ b
unfolding upper_hex
upper_hex-IsDelimiter b x h d = ground arith

delimiters_escaped :
    (b : ℕ)
    → IsDelimiter b
    → (should_escape encode_user_password b ≡ true) × (should_escape encode_host b ≡ true)
unfolding should_escape contains_byte
delimiters_escaped b d = ground arith

abbrev pub IsAuthority : Encoding → Type 0
IsAuthority mode = (mode ≡ encode_user_password) ⊎ (mode ≡ encode_host)

delimiter_escaped :
    (mode : Encoding) (b : ℕ) → IsAuthority mode → IsDelimiter b → should_escape mode b ≡ true
delimiter_escaped encode_user_password b m d = (delimiters_escaped b d).0
delimiter_escaped encode_host b m d = (delimiters_escaped b d).1
delimiter_escaped encode_path b m d = ground arith
delimiter_escaped encode_query_component b m d = ground arith

no_plus : (mode : Encoding) (c : ℕ) → IsAuthority mode → is_plus mode c ≡ false
unfolding is_plus
no_plus encode_query_component c m = ground arith
no_plus encode_user_password c m = refl
no_plus encode_host c m = refl
no_plus encode_path c m = refl

percent-IsDelimiter : (b : ℕ) → IsDelimiter b → b'%' ≢ b
percent-IsDelimiter b d = ground arith

escape_byte-avoids :
    (mode : Encoding) (b c : ℕ)
    → IsAuthority mode
    → IsDelimiter b
    → c < 256
    → All (λ x. x ≢ b) (escape_byte mode c)
unfolding escape_byte
escape_byte-avoids mode b c m d h =
    rw (no_plus mode c m) (elim (Bool-cases (should_escape mode c)) [
      | inl e ↦ rw e (
        percent-IsDelimiter b d,
        (
          upper_hex-IsDelimiter b (c / 16) (omega arith) d,
          (upper_hex-IsDelimiter b (c % 16) (omega arith) d, tt),
        ),
      )
      | inr e ↦ rw e (
        λ same. cc (subst (λ x. should_escape mode x ≡ false) same e, delimiter_escaped mode b m d),
        tt,
      )
    ])

pub escape-avoids :
    (mode : Encoding) (b : ℕ) (s : Text)
    → IsAuthority mode
    → IsDelimiter b
    → AreBytes s
    → All (λ x. x ≢ b) (escape mode s)
unfolding escape
escape-avoids mode b [] m d h = tt
escape-avoids mode b (c ∷ s) m d h =
    All-append _ (escape_byte mode c) (escape mode s) (escape_byte-avoids mode b c m d h.0)
      (escape-avoids mode b s m d h.1)

pub escape-not_empty : (s : Text) → s ≢ [] → escape encode_user_password s ≢ []
unfolding escape escape_byte
escape-not_empty [] h e = h refl
escape-not_empty (c ∷ s) h e = ground arith
