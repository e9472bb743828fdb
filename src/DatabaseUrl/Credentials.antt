-- ===== src/DatabaseUrl/Credentials.antt =====
-- The user information of a database URL, as net/url reads it back.
use prompt_sdk.Prelude.{
  ℕ, ◌≡◌, ◌≢◌, refl, sym, ◌∙◌, ap, inl, inr, true, false, Option, none, some, [], ◌∷◌, ◌++◌, Text,
  codes, contains_byte, trim_prefix, trim_prefix-append_self, All, All-append, ◌==◌, if◌then◌else◌,
  arith,
}
use mathlib.Core.List.{append_assoc}
use prompt_sdk.DatabaseUrl.{
  Encoding, encode_user_password, encode_host, encode_path, escape, escape_byte, database_user,
  database_password, database_location, build_database_url,
}
use prompt_sdk.DatabaseUrl.Escaping.{
  AreBytes, IsAuthority, escape-avoids, escape-are_user_bytes, path_unescape-escape,
}
use prompt_sdk.Resolution.Targets.{path_unescape}
use prompt_sdk.Masking.Credentials.{is_user_byte}

-- `strings.Cut` at a byte that is there, otherwise the text and nothing
abbrev pub cut : ℕ → Text → Text × Text
cut b [] = ([], [])
cut b (c ∷ s) = elim (c == b) [ true ↦ ([], s) | false ↦ (c ∷ (cut b s).0, (cut b s).1) ]

-- what stands before the last `b`
abbrev pub before_last : ℕ → Text → Option Text
before_last b [] = none
before_last b (c ∷ s) = elim (before_last b s) [
  | some u ↦ some (c ∷ u)
  | none ↦ if c == b then some [] else none
]

-- The authority of a URL ends at the first slash, question mark or number sign.
abbrev pub authority_of : Text → Text
authority_of [] = []
authority_of (c ∷ s) = if contains_byte (codes "/?#") c then [] else c ∷ authority_of s

abbrev pub read_pair : Option Text → Option Text → Option (Text × Text)
read_pair (some u) (some p) = some (u, p)
read_pair _ _ = none

-- The user name and the password of a URL of PostgreSQL.
pub read_credentials : Text → Option (Text × Text)
read_credentials url =
    elim (before_last b'@' (authority_of (trim_prefix url (codes "postgres://")))) [
      | none ↦ none
      | some info ↦ read_pair (path_unescape (cut b':' info).0) (path_unescape (cut b':' info).1)
    ]

cut-append : (b : ℕ) (u v : Text) → All (λ c. c ≢ b) u → cut b (u ++ b ∷ v) ≡ (u, v)
cut-append b [] v h = ground arith
cut-append b (c ∷ u) v h = ground (arith, cut-append b u v h.1)

before_last-none : (b : ℕ) (s : Text) → All (λ c. c ≢ b) s → before_last b s ≡ none
before_last-none b [] h = refl
before_last-none b (c ∷ s) h = ground (arith, before_last-none b s h.1)

before_last-append : (b : ℕ) (u v : Text) → All (λ c. c ≢ b) v → before_last b (u ++ b ∷ v) ≡ some u
before_last-append b [] v h = ground (arith, before_last-none b v h)
before_last-append b (c ∷ u) v h = ground (arith, before_last-append b u v h)

-- A text that does not end the authority.
abbrev IsInside : Text → Type 0
IsInside = All (λ c. (c ≢ b'/') × (c ≢ b'?') × (c ≢ b'#'))

authority_of-append : (u v : Text) → IsInside u → authority_of (u ++ b'/' ∷ v) ≡ u
unfolding contains_byte
authority_of-append [] v h = refl
authority_of-append (c ∷ u) v h = ground (arith, authority_of-append u v h.1)

zip-IsInside :
    (s : Text) → All (λ c. c ≢ b'/') s → All (λ c. c ≢ b'?') s → All (λ c. c ≢ b'#') s → IsInside s
zip-IsInside [] f g h = tt
zip-IsInside (c ∷ s) f g h = ((f.0, g.0, h.0), zip-IsInside s f.1 g.1 h.1)

no_colon : (s : Text) → All (λ c. is_user_byte c ≡ true) s → All (λ c. c ≢ b':') s
unfolding is_user_byte
no_colon [] h = tt
no_colon (c ∷ s) h = (λ e. ground arith, no_colon s h.1)

escape-IsInside :
    (mode : Encoding) (s : Text) → IsAuthority mode → AreBytes s → IsInside (escape mode s)
escape-IsInside mode s m h =
    zip-IsInside (escape mode s) (escape-avoids mode b'/' s m (inl refl) h)
      (escape-avoids mode b'?' s m (inr (inl refl)) h)
      (escape-avoids mode b'#' s m (inr (inr (inl refl))) h)

-- The three parts of an authority, in the nesting in which it is written, and by their ends.
regroup :
    (u p h v : Text)
    → u ++ b':' ∷ (p ++ b'@' ∷ (h ++ b'/' ∷ v)) ≡ (u ++ b':' ∷ (p ++ b'@' ∷ h)) ++ b'/' ∷ v
regroup u p h v = simp append_assoc

read_credentials_lem :
    (user password host v : Text)
    → AreBytes user
    → AreBytes password
    → AreBytes host
    → read_credentials (
        codes "postgres://"
        ++ (escape encode_user_password user
            ++ b':'
              ∷ (escape encode_user_password password
                  ++ b'@' ∷ (escape encode_host host ++ b'/' ∷ v))))
      ≡ some (user, password)
unfolding read_credentials
read_credentials_lem user password host v hu hp hh =
    let eu = escape encode_user_password user in
    let ep = escape encode_user_password password in
    let eh = escape encode_host host in
    let inside_user = escape-IsInside encode_user_password user (inl refl) hu in
    let inside_password = escape-IsInside encode_user_password password (inl refl) hp in
    let inside_host = escape-IsInside encode_host host (inr refl) hh in
    let inside : IsInside (eu ++ b':' ∷ (ep ++ b'@' ∷ eh)) =
      All-append _ eu _ inside_user
        (omega arith, All-append _ ep _ inside_password (omega arith, inside_host)) in
    let authority : authority_of (
          trim_prefix (codes "postgres://" ++ (eu ++ b':' ∷ (ep ++ b'@' ∷ (eh ++ b'/' ∷ v))))
            (codes "postgres://"))
        ≡ eu ++ b':' ∷ (ep ++ b'@' ∷ eh) =
      ap authority_of (trim_prefix-append_self (codes "postgres://") _)
      ∙ ap authority_of (regroup eu ep eh v)
      ∙ authority_of-append (eu ++ b':' ∷ (ep ++ b'@' ∷ eh)) v inside in
    let info : before_last b'@' (eu ++ b':' ∷ (ep ++ b'@' ∷ eh)) ≡ some (eu ++ b':' ∷ ep) =
      ap (before_last b'@') (sym (append_assoc eu (b':' ∷ ep) (b'@' ∷ eh)))
      ∙ before_last-append b'@' (eu ++ b':' ∷ ep) eh
          (escape-avoids encode_host b'@' host (inr refl) (inr (inr (inr refl))) hh) in
    let parts : cut b':' (eu ++ b':' ∷ ep) ≡ (eu, ep) =
      cut-append b':' eu ep (no_colon eu (escape-are_user_bytes user hu)) in
    ground (
      arith,
      authority,
      info,
      parts,
      path_unescape-escape user hu,
      path_unescape-escape password hp,
    )

escape-slash : (s : Text) → escape encode_path (b'/' ∷ s) ≡ b'/' ∷ escape encode_path s
unfolding escape escape_byte contains_byte
escape-slash s = refl

module _ (lookup_env : Text → Option Text) where
  -- A database URL that the SDK builds gives back the user name and the password that the
  -- environment names, whatever bytes they and the other settings hold.
  pub read_credentials-build_database_url :
      (host port : Text)
      → AreBytes (database_user lookup_env)
      → AreBytes (database_password lookup_env)
      → AreBytes host
      → AreBytes port
      → read_credentials (build_database_url lookup_env host port)
        ≡ some (database_user lookup_env, database_password lookup_env)
  unfolding build_database_url database_location
  read_credentials-build_database_url host port hu hp hh ho = rw escape-slash (
      read_credentials_lem (database_user lookup_env) (database_password lookup_env)
        (host ++ b':' ∷ port) _ hu hp (All-append _ host _ hh (omega arith, ho)))
