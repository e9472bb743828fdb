-- ===== src/Masking/Credentials.antt =====
-- utils/sanitizeDatabaseUrl.go: the regular expression of `databaseURLCredential`, piece by piece,
-- and `ReplaceAllString` with "${1}***${2}". A piece takes what has to follow it. A match gives the
-- text of its first group, and the number of bytes of all that it takes.
use prompt_sdk.Prelude.{
  ℕ, zero, suc, ◌-◌, Bool, true, false, not, ◌&&◌, ◌||◌, Option, none, some, [], ◌∷◌, ◌++◌, Text,
  codes, ◌==◌,
}

-- `\s`
unfoldable pub is_whitespace : ℕ → Bool
is_whitespace c = c == 9 || c == 10 || c == 12 || c == 13 || c == b' '

-- `[^@/\s]`
unfoldable pub is_password_byte : ℕ → Bool
unfolding is_whitespace
is_password_byte c = not (c == b'@' || c == b'/' || is_whitespace c)

-- `[^:@/\s]`
unfoldable pub is_user_byte : ℕ → Bool
unfolding is_password_byte
is_user_byte c = not (c == b':') && is_password_byte c

abbrev pub Match : Type 0
Match = Option (Text × ℕ)

abbrev pub keep : ℕ → Match → Match
keep c none = none
keep c (some (group, taken)) = some (c ∷ group, suc taken)

abbrev pub or_else : Match → Match → Match
or_else none m = m
or_else (some r) m = some r

-- `[^@/\s]*(@)`: the number of bytes taken
unfoldable pub password_end : Text → Option ℕ
password_end [] = none
password_end (c ∷ s) = elim (c == b'@') [
  | true ↦ some 1
  | false ↦ elim (is_password_byte c) [
    | true ↦ elim (password_end s) [ none ↦ none | some n ↦ some (suc n) ]
    | false ↦ none
  ]
]

-- the end of the first group, with the colon
unfoldable pub colon_end : ℕ → Option ℕ → Match
colon_end c none = none
colon_end c (some n) = some (c ∷ [], suc n)

-- `[^:@/\s]*:` and the password
unfoldable pub user_end : Text → Match
unfolding colon_end
user_end [] = none
user_end (c ∷ s) = elim (c == b':') [
  | true ↦ colon_end c (password_end s)
  | false ↦ elim (is_user_byte c) [ true ↦ keep c (user_end s) | false ↦ none ]
]

-- `[^:@/\s]+:` and the password
unfoldable pub user_info : Text → Match
user_info [] = none
user_info (c ∷ s) = elim (is_user_byte c) [ true ↦ keep c (user_end s) | false ↦ none ]

-- a text that the expression spells out, and what follows
unfoldable pub literal : Text → (Text → Match) → Text → Match
literal [] k s = k s
literal (d ∷ l) k [] = none
literal (d ∷ l) k (c ∷ s) = elim (c == d) [ true ↦ keep c (literal l k s) | false ↦ none ]

-- `://`
unfoldable pub authority : Text → Match
authority s = literal (codes "://") user_info s

-- `(?:ql)?`
unfoldable pub dialect : Text → Match
dialect s = or_else (literal (codes "ql") authority s) (authority s)

unfoldable pub match_credential : Text → Match
match_credential s = literal (codes "postgres") dialect s

-- The text from a place on, where `skipped` of its bytes belong to the last match.
unfoldable pub replace_all : ℕ → Text → Text
replace_all skipped [] = []
replace_all (suc n) (c ∷ s) = replace_all n s
replace_all zero (c ∷ s) = elim (match_credential (c ∷ s)) [
  | none ↦ c ∷ replace_all 0 s
  | some (group, taken) ↦ group ++ (codes "***@" ++ replace_all (taken - 1) s)
]

unfoldable pub sanitize_database_url : Text → Text
unfolding replace_all
sanitize_database_url input = replace_all 0 input
