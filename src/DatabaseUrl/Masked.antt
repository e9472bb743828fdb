-- ===== src/DatabaseUrl/Masked.antt =====
-- The database URL of a service in a text that is masked before it is logged.
use prompt_sdk.Prelude.{
  ◌≡◌, ◌≢◌, refl, ◌∙◌, ap, false, [], ◌∷◌, ◌++◌, none, Option, Text, codes, All, arith,
}
use mathlib.Core.List.{append_assoc}
use prompt_sdk.DatabaseUrl.{
  encode_user_password, escape, database_user, database_password, database_location,
  build_database_url,
}
use prompt_sdk.DatabaseUrl.Escaping.{
  AreBytes, escape-are_user_bytes, escape-are_password_bytes, escape-not_empty,
}
use prompt_sdk.Masking.Credentials.{
  Match, is_password_byte, is_user_byte, user_info, literal, authority, dialect, match_credential,
  replace_all, sanitize_database_url,
}
use prompt_sdk.Masking.Secrets.{
  IsPassword, replace_all-none, credential, sanitize_database_url-credential,
}

-- The text of a password in front of an at sign, up to which no match begins.
literal-stops :
    (l : Text) (k : Text → Match)
    → ((a r : Text) → IsPassword a → k (a ++ b'@' ∷ r) ≡ none)
    → All (λ d. d ≢ b'@') l
    → (a r : Text) → IsPassword a
    → literal l k (a ++ b'@' ∷ r) ≡ none
unfolding literal
literal-stops [] k h away a r ha = h a r ha
literal-stops (d ∷ l) k h away [] r ha = ground (arith, away.0)
literal-stops (d ∷ l) k h away (c ∷ a) r ha = ground (arith, literal-stops l k h away.1 a r ha.1)

authority-stops : (a r : Text) → IsPassword a → authority (a ++ b'@' ∷ r) ≡ none
unfolding authority literal is_password_byte
authority-stops [] r ha = refl
authority-stops (c ∷ []) r ha = ground arith
authority-stops (c ∷ d ∷ a) r ha = ground (arith, ha.1.0)

dialect-stops : (a r : Text) → IsPassword a → dialect (a ++ b'@' ∷ r) ≡ none
unfolding dialect
dialect-stops a r ha = rw (
  authority-stops a r ha,
  literal-stops (codes "ql") authority authority-stops (omega arith) a r ha,
)

match_credential-stops : (a r : Text) → IsPassword a → match_credential (a ++ b'@' ∷ r) ≡ none
unfolding match_credential
match_credential-stops = literal-stops (codes "postgres") dialect dialect-stops (omega arith)

replace_all-stops :
    (a r : Text) → IsPassword a → replace_all 0 (a ++ b'@' ∷ r) ≡ a ++ b'@' ∷ replace_all 0 r
replace_all-stops [] r ha = replace_all-none b'@' r (match_credential-stops [] r tt)
replace_all-stops (c ∷ a) r ha =
    replace_all-none c (a ++ b'@' ∷ r) (match_credential-stops (c ∷ a) r ha)
    ∙ ap (λ t. c ∷ t) (replace_all-stops a r ha.1)

replace_all-no_user :
    (a r : Text)
    → IsPassword a
    → replace_all 0 (codes "postgres://:" ++ (a ++ b'@' ∷ r))
      ≡ codes "postgres://:" ++ (a ++ b'@' ∷ replace_all 0 r)
unfolding replace_all match_credential literal dialect authority user_info is_user_byte
replace_all-no_user a r ha = ap (λ t. codes "postgres://:" ++ t) (replace_all-stops a r ha)

module _ (lookup_env : Text → Option Text) where
  build_database_url-append :
      (host port post : Text)
      → build_database_url lookup_env host port ++ post
        ≡ credential false
            (escape encode_user_password (database_user lookup_env))
            (escape encode_user_password (database_password lookup_env))
            (database_location lookup_env host port ++ post)
  unfolding build_database_url
  build_database_url-append host port post = simp append_assoc

  -- Where the user name is not empty, the URL of the database keeps its escaped user name in a
  -- masked text, and three stars in place of the password, whatever the settings and the text are.
  pub sanitize_database_url-build_database_url :
      (host port pre post : Text)
      → AreBytes (database_user lookup_env)
      → AreBytes (database_password lookup_env)
      → database_user lookup_env ≢ []
      → sanitize_database_url (pre ++ (build_database_url lookup_env host port ++ post))
        ≡ sanitize_database_url pre
          ++ credential false
              (escape encode_user_password (database_user lookup_env))
              (codes "***")
              (sanitize_database_url (database_location lookup_env host port ++ post))
  sanitize_database_url-build_database_url host port pre post hu hp named =
      ap (λ t. sanitize_database_url (pre ++ t)) (build_database_url-append host port post)
      ∙ sanitize_database_url-credential false pre _ _ _
          (
            escape-not_empty (database_user lookup_env) named,
            escape-are_user_bytes (database_user lookup_env) hu,
          )
          (escape-are_password_bytes (database_password lookup_env) hp)

  -- Where DB_USER is set but empty, the masked URL still holds the whole escaped password.
  pub sanitize_database_url-no_user :
      (host port : Text)
      → AreBytes (database_password lookup_env)
      → database_user lookup_env ≡ []
      → sanitize_database_url (build_database_url lookup_env host port)
        ≡ codes "postgres://:"
          ++ (escape encode_user_password (database_password lookup_env)
              ++ b'@' ∷ sanitize_database_url (database_location lookup_env host port))
  unfolding build_database_url sanitize_database_url escape
  sanitize_database_url-no_user host port hp blank = rw blank (
      replace_all-no_user (escape encode_user_password (database_password lookup_env)) _
        (escape-are_password_bytes (database_password lookup_env) hp))
