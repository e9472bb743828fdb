-- ===== src/Masking/Pieces.antt =====
-- How far a piece of the expression for credentials reads in a text.
use prompt_sdk.Prelude.{
  ℕ, ◌≤◌, ◌≡◌, ◌≢◌, inl, inr, none, some, [], ◌∷◌, ◌++◌, Text, codes, length, All, Option-cases,
  arith,
}
use prompt_sdk.Masking.Credentials.{
  Match, password_end, user_end, user_info, literal, authority, dialect, match_credential,
}

-- A piece of the expression does not see past `x`.
abbrev pub IsBlind : (Text → Match) → Text → Type 0
IsBlind k x = (s : Text) → k (s ++ x) ≡ k s

password_end-append : (s x : Text) → password_end x ≡ none → password_end (s ++ x) ≡ password_end s
unfolding password_end
password_end-append [] x h = h
password_end-append (c ∷ s) x h = ground (arith, password_end-append s x h)

module _ (x : Text) (no_password : password_end x ≡ none) (no_user : user_end x ≡ none) where
  user_end-IsBlind : IsBlind user_end x
  unfolding user_end
  user_end-IsBlind [] = no_user
  user_end-IsBlind (c ∷ s) = ground (arith, user_end-IsBlind s, password_end-append s x no_password)

  pub user_info-IsBlind : user_info x ≡ none → IsBlind user_info x
  unfolding user_info
  user_info-IsBlind h [] = h
  user_info-IsBlind h (c ∷ s) = ground (arith, user_end-IsBlind s)

-- `x` begins with a byte that is not in the literal.
pub literal-IsBlind :
    (l : Text) (k : Text → Match) (p : ℕ) (y : Text)
    → All (λ d. d ≢ p) l
    → IsBlind k (p ∷ y)
    → IsBlind (literal l k) (p ∷ y)
unfolding literal
literal-IsBlind [] k p y away h s = h s
literal-IsBlind (d ∷ l) k p y away h [] = ground arith
literal-IsBlind (d ∷ l) k p y away h (c ∷ s) = ground (arith, literal-IsBlind l k p y away.1 h s)

abbrev pub taken : Match → ℕ
taken none = 0
taken (some (group, n)) = n

-- A piece takes no more than there is.
abbrev IsWithin : (Text → Match) → Type 0
IsWithin k = (s : Text) → taken (k s) ≤ length s

password_end_within : (s : Text) (n : ℕ) → password_end s ≡ some n → n ≤ length s
unfolding password_end
password_end_within [] n h = cc
password_end_within (c ∷ s) n h = elim (Option-cases (password_end s)) [
  | inl e ↦ ground arith
  | inr (m, e) ↦ ground (arith, password_end_within s m e)
]

user_end-IsWithin : IsWithin user_end
unfolding user_end
user_end-IsWithin [] = omega arith
user_end-IsWithin (c ∷ s) = elim (Option-cases (password_end s)) [
  | inl e ↦ ground (arith, user_end-IsWithin s)
  | inr (m, e) ↦ ground (arith, user_end-IsWithin s, password_end_within s m e)
]

user_info-IsWithin : IsWithin user_info
unfolding user_info
user_info-IsWithin [] = omega arith
user_info-IsWithin (c ∷ s) = ground (arith, user_end-IsWithin s)

literal-IsWithin : (l : Text) (k : Text → Match) → IsWithin k → IsWithin (literal l k)
unfolding literal
literal-IsWithin [] k h s = h s
literal-IsWithin (d ∷ l) k h [] = omega arith
literal-IsWithin (d ∷ l) k h (c ∷ s) = ground (arith, literal-IsWithin l k h s)

authority-IsWithin : IsWithin authority
unfolding authority
authority-IsWithin = literal-IsWithin (codes "://") user_info user_info-IsWithin

dialect-IsWithin : IsWithin dialect
unfolding dialect
dialect-IsWithin s =
    ground
      (arith, authority-IsWithin s, literal-IsWithin (codes "ql") authority authority-IsWithin s)

pub match_credential-IsWithin : IsWithin match_credential
unfolding match_credential
match_credential-IsWithin = literal-IsWithin (codes "postgres") dialect dialect-IsWithin
