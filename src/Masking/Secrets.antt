-- ===== src/Masking/Secrets.antt =====
-- What SanitizeDatabaseURL leaves of the credentials in a text.
use prompt_sdk.Prelude.{
  ℕ, zero, suc, ◌+◌, ◌-◌, ◌≤◌, ◌≡◌, ◌≢◌, refl, sym, ap, ◌∙◌, inl, inr, Bool, true, false, none,
  some, [], ◌∷◌, ◌++◌, Text, codes, length, drop, All, Option-cases, arith,
}
use mathlib.Core.List.{append_assoc}
use native.Mathlib.Nat.{zero-add, suc-add}
use prompt_sdk.Masking.Credentials.{
  is_password_byte, is_user_byte, password_end, user_end, user_info, literal, authority, dialect,
  match_credential, replace_all, sanitize_database_url,
}
use prompt_sdk.Masking.Pieces.{
  IsBlind, user_info-IsBlind, literal-IsBlind, match_credential-IsWithin,
}

-- A text at which no match can be under way.
record IsBarrier (y : Text) : Type 0 where
  no_password : password_end (b'p' ∷ y) ≡ none
  no_user : user_end (b'p' ∷ y) ≡ none
  no_user_info : user_info (b'p' ∷ y) ≡ none

pub replace_all-none :
    (c : ℕ) (s : Text)
    → match_credential (c ∷ s) ≡ none
    → replace_all 0 (c ∷ s) ≡ c ∷ replace_all 0 s
unfolding replace_all
replace_all-none c s h = rw (h, replace_all)

replace_all-some :
    (c : ℕ) (s group : Text) (n : ℕ)
    → match_credential (c ∷ s) ≡ some (group, n)
    → replace_all 0 (c ∷ s) ≡ group ++ (codes "***@" ++ replace_all (n - 1) s)
unfolding replace_all
replace_all-some c s group n h = rw (h, replace_all)

within :
    (c : ℕ) (s group : Text) (n : ℕ)
    → match_credential (c ∷ s) ≡ some (group, n)
    → n ≤ suc (length s)
within c s group n e = ground (arith, match_credential-IsWithin (c ∷ s))

module _ (y : Text) (b : IsBarrier y) where
  authority-IsBlind : IsBlind authority (b'p' ∷ y)
  unfolding authority
  authority-IsBlind =
      literal-IsBlind (codes "://") user_info b'p' y (omega arith)
        (user_info-IsBlind (b'p' ∷ y) b.no_password b.no_user b.no_user_info)

  dialect-IsBlind : IsBlind dialect (b'p' ∷ y)
  unfolding dialect
  dialect-IsBlind s = rw (
    authority-IsBlind s,
    literal-IsBlind (codes "ql") authority b'p' y (omega arith) authority-IsBlind s,
  )

  match_credential-append :
      (c : ℕ) (s : Text) → match_credential (c ∷ (s ++ b'p' ∷ y)) ≡ match_credential (c ∷ s)
  unfolding match_credential literal
  match_credential-append c s =
      ground
        (arith, literal-IsBlind (codes "ostgres") dialect b'p' y (omega arith) dialect-IsBlind s)

  replace_all-append :
      (k : ℕ) (s : Text)
      → k ≤ length s
      → replace_all k (s ++ b'p' ∷ y) ≡ replace_all k s ++ replace_all 0 (b'p' ∷ y)
  unfolding replace_all
  replace_all-append zero [] h = refl
  replace_all-append (suc k) [] h = absurd (omega arith)
  replace_all-append (suc k) (c ∷ s) h = replace_all-append k s (omega arith)
  replace_all-append zero (c ∷ s) h = elim (Option-cases (match_credential (c ∷ s))) [
    | inl e ↦
        replace_all-none c (s ++ b'p' ∷ y) (match_credential-append c s ∙ e)
        ∙ ap (λ t. c ∷ t) (replace_all-append zero s (omega arith))
        ∙ ap (λ t. t ++ replace_all 0 (b'p' ∷ y)) (sym (replace_all-none c s e))
    | inr ((group, n), e) ↦
        replace_all-some c (s ++ b'p' ∷ y) group n (match_credential-append c s ∙ e)
        ∙ ap (λ t. group ++ (codes "***@" ++ t))
            (replace_all-append (n - 1) s (omega (arith, within c s group n e)))
        ∙ sym
            (append_assoc group (codes "***@" ++ replace_all (n - 1) s) (replace_all 0 (b'p' ∷ y)))
        ∙ ap (λ t. t ++ replace_all 0 (b'p' ∷ y)) (sym (replace_all-some c s group n e))
  ]

-- The bytes of a user name, of which there are some, and those of a password.
abbrev pub IsUser : Text → Type 0
IsUser user = (user ≢ []) × All (λ c. is_user_byte c ≡ true) user

abbrev pub IsPassword : Text → Type 0
IsPassword password = All (λ c. is_password_byte c ≡ true) password

password_end_lem :
    (password post : Text)
    → IsPassword password
    → password_end (password ++ b'@' ∷ post) ≡ some (length password + 1)
unfolding password_end is_password_byte
password_end_lem [] post h = refl
password_end_lem (c ∷ s) post h = ground (arith, password_end_lem s post h.1)

user_end_lem :
    (user password post : Text)
    → All (λ c. is_user_byte c ≡ true) user
    → IsPassword password
    → user_end (user ++ b':' ∷ (password ++ b'@' ∷ post))
      ≡ some (user ++ b':' ∷ [], length user + length password + 2)
unfolding user_end is_user_byte
user_end_lem [] password post hu hp = ground (arith, password_end_lem password post hp)
user_end_lem (c ∷ s) password post hu hp = ground (arith, user_end_lem s password post hu.1 hp)

replace_all-skip : (a b : Text) (m : ℕ) → replace_all (length a + m) (a ++ b) ≡ replace_all m b
unfolding replace_all
replace_all-skip [] b m = rw zero-add
replace_all-skip (c ∷ a) b m = rw suc-add (replace_all-skip a b m)

-- `postgres://`, or with `ql`
abbrev pub scheme : Bool → Text
scheme false = codes "postgres://"
scheme true = codes "postgresql://"

-- `password` stands between what the expression keeps and the at sign.
abbrev pub credential : Bool → Text → Text → Text → Text
credential ql user password post = scheme ql ++ (user ++ b':' ∷ (password ++ b'@' ∷ post))

match_credential_lem :
    (ql : Bool) (c : ℕ) (user password post : Text)
    → IsUser (c ∷ user)
    → IsPassword password
    → match_credential (credential ql (c ∷ user) password post)
      ≡ some (
        scheme ql ++ (c ∷ user ++ b':' ∷ []),
        length (scheme ql) + length user + length password + 3,
      )
unfolding match_credential literal dialect authority user_info
match_credential_lem false c user password post hu hp =
    ground (arith, hu.1.0, user_end_lem user password post hu.1.1 hp)
match_credential_lem true c user password post hu hp =
    ground (arith, hu.1.0, user_end_lem user password post hu.1.1 hp)

scheme-IsBarrier : (ql : Bool) (s : Text) → IsBarrier (drop 1 (scheme ql) ++ s)
unfolding user_end user_info password_end is_user_byte
scheme-IsBarrier false s = record { no_password = refl; no_user = refl; no_user_info = refl }
scheme-IsBarrier true s = record { no_password = refl; no_user = refl; no_user_info = refl }

replace_all-past :
    (before user password post : Text) (n : ℕ)
    → n ≡ length before + length user + length password + 2
    → replace_all n (before ++ (user ++ b':' ∷ (password ++ b'@' ∷ post))) ≡ replace_all 0 post
unfolding replace_all
replace_all-past before user password post n h =
    let split : n ≡ length before + (length user + suc (length password + 1)) = omega arith in
    rw split (
      replace_all-skip before _ _
      ∙ replace_all-skip user (b':' ∷ (password ++ b'@' ∷ post)) (suc (length password + 1))
      ∙ replace_all-skip password (b'@' ∷ post) 1)

replace_all-credential :
    (ql : Bool) (user password post : Text)
    → IsUser user
    → IsPassword password
    → replace_all 0 (credential ql user password post)
      ≡ credential ql user (codes "***") (replace_all 0 post)
replace_all-credential ql [] password post hu hp = absurd (hu.0 refl)
replace_all-credential false (c ∷ user) password post hu hp =
    replace_all-some b'p' _ _ _ (match_credential_lem false c user password post hu hp)
    ∙ ap (λ t. codes "postgres://" ++ ((c ∷ user ++ b':' ∷ []) ++ (codes "***@" ++ t)))
        (replace_all-past (codes "ostgres://") (c ∷ user) password post _ (omega arith))
    ∙ ap (λ t. codes "postgres://" ++ t) (append_assoc (c ∷ user) (b':' ∷ []) _)
replace_all-credential true (c ∷ user) password post hu hp =
    replace_all-some b'p' _ _ _ (match_credential_lem true c user password post hu hp)
    ∙ ap (λ t. codes "postgresql://" ++ ((c ∷ user ++ b':' ∷ []) ++ (codes "***@" ++ t)))
        (replace_all-past (codes "ostgresql://") (c ∷ user) password post _ (omega arith))
    ∙ ap (λ t. codes "postgresql://" ++ t) (append_assoc (c ∷ user) (b':' ∷ []) _)

-- Whatever stands around it, a credential in a text is masked: the user name stays, the password
-- is replaced by three stars, and what stands before and behind it is masked as by itself.
pub sanitize_database_url-credential :
    (ql : Bool) (pre user password post : Text)
    → IsUser user
    → IsPassword password
    → sanitize_database_url (pre ++ credential ql user password post)
      ≡ sanitize_database_url pre ++ credential ql user (codes "***") (sanitize_database_url post)
unfolding sanitize_database_url
sanitize_database_url-credential false pre user password post hu hp =
    replace_all-append (codes "ostgres://" ++ (user ++ b':' ∷ (password ++ b'@' ∷ post)))
      (scheme-IsBarrier false (user ++ b':' ∷ (password ++ b'@' ∷ post))) 0 pre (omega arith)
    ∙ ap (λ t. replace_all 0 pre ++ t) (replace_all-credential false user password post hu hp)
sanitize_database_url-credential true pre user password post hu hp =
    replace_all-append (codes "ostgresql://" ++ (user ++ b':' ∷ (password ++ b'@' ∷ post)))
      (scheme-IsBarrier true (user ++ b':' ∷ (password ++ b'@' ∷ post))) 0 pre (omega arith)
    ∙ ap (λ t. replace_all 0 pre ++ t) (replace_all-credential true user password post hu hp)
