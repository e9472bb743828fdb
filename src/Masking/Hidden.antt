-- ===== src/Masking/Hidden.antt =====
-- What the forwarded output of the migrations tells of a password in it.
use mathlib.Core.List.{append-nil, append_assoc, reverse-append, reverse-reverse}
use prompt_sdk.Prelude.{
  ℕ, ◌≡◌, refl, sym, ap, ◌∙◌, Bool, true, false, List, [], ◌∷◌, ◌++◌, reverse, Text, codes, ◌==◌,
  All, All-append, arith,
}
use prompt_sdk.Masking.{new_writer, write_all, flush}
use prompt_sdk.Masking.Credentials.{is_password_byte, is_user_byte, sanitize_database_url}
use prompt_sdk.Masking.Chunks.{lines_from, lines_from-inner, lines, joined, masked, write_all-lines}
use prompt_sdk.Masking.Secrets.{
  IsUser, IsPassword, scheme, credential, sanitize_database_url-credential,
}

-- The lines that a text ends, and the open one that it leaves, last byte first.
full_lines : Text → Text → List Text
full_lines [] line = []
full_lines (c ∷ s) line = elim (c == 10) [
  | true ↦ reverse (c ∷ line) ∷ full_lines s []
  | false ↦ full_lines s (c ∷ line)
]

open_line : Text → Text → Text
open_line [] line = line
open_line (c ∷ s) line = elim (c == 10) [ true ↦ open_line s [] | false ↦ open_line s (c ∷ line) ]

lines_from-append :
    (s t line : Text)
    → lines_from (s ++ t) line ≡ full_lines s line ++ lines_from t (open_line s line)
unfolding full_lines open_line
lines_from-append [] t line = refl
lines_from-append (c ∷ s) t line =
    ground (arith, lines_from-append s t [], lines_from-append s t (c ∷ line))

masked-append : (ks ls : List Text) → masked (ks ++ ls) ≡ masked ks ++ masked ls
masked-append [] ls = refl
masked-append (k ∷ ks) ls =
    ap (λ t. sanitize_database_url k ++ t) (masked-append ks ls)
    ∙ sym (append_assoc (sanitize_database_url k) (masked ks) (masked ls))

-- A text without a newline goes to the open line.
open_append :
    (s t line : Text)
    → All (λ c. c == 10 ≡ false) s
    → lines_from (s ++ t) line ≡ lines_from t (reverse s ++ line)
open_append [] t line h = refl
open_append (c ∷ s) t line h =
    lines_from-inner c (s ++ t) line h.0
    ∙ open_append s t (c ∷ line) h.1
    ∙ ap (lines_from t) (
        sym (
          ap (λ x. x ++ line) (reverse-append (c ∷ []) s) ∙ append_assoc (reverse s) (c ∷ []) line))

-- The rest of the line that is open, and the lines after it.
rest_of_line : Text → Text
rest_of_line [] = []
rest_of_line (c ∷ s) = elim (c == 10) [ true ↦ c ∷ [] | false ↦ c ∷ rest_of_line s ]

later_lines : Text → List Text
later_lines [] = []
later_lines (c ∷ s) = elim (c == 10) [ true ↦ lines_from s [] | false ↦ later_lines s ]

lines_from-open :
    (t : Text) (c : ℕ) (line : Text)
    → lines_from t (c ∷ line) ≡ (reverse (c ∷ line) ++ rest_of_line t) ∷ later_lines t
unfolding rest_of_line later_lines
lines_from-open [] c line = ap (λ x. x ∷ []) (sym (append-nil _))
lines_from-open (d ∷ t) c line = ground (
  arith,
  lines_from-open t d (c ∷ line),
  reverse-append (d ∷ []) (c ∷ line),
  append_assoc (reverse (c ∷ line)) (d ∷ []) (rest_of_line t),
)

password_in_line : (s : Text) → IsPassword s → All (λ c. c == 10 ≡ false) s
unfolding is_password_byte
password_in_line [] h = tt
password_in_line (c ∷ s) h = (ground (arith, h.0), password_in_line s h.1)

user_in_line : (s : Text) → All (λ c. is_user_byte c ≡ true) s → All (λ c. c == 10 ≡ false) s
unfolding is_user_byte
user_in_line [] h = tt
user_in_line (c ∷ s) h = (ground (arith, h.0), user_in_line s h.1)

scheme_in_line : (ql : Bool) → All (λ c. c == 10 ≡ false) (scheme ql)
scheme_in_line false = ground arith
scheme_in_line true = ground arith

-- The credential without what follows it.
abbrev bare : Bool → Text → Text → Text
bare ql user password = scheme ql ++ (user ++ b':' ∷ (password ++ b'@' ∷ []))

bare_in_line :
    (ql : Bool) (user password : Text)
    → IsUser user
    → IsPassword password
    → All (λ c. c == 10 ≡ false) (bare ql user password)
bare_in_line ql user password hu hp = All-append _ (scheme ql) _ (scheme_in_line ql) (
    All-append _ user _ (user_in_line user hu.1)
      (refl, All-append _ password _ (password_in_line password hp) (refl, tt)))

bare-append :
    (ql : Bool) (user password post : Text)
    → bare ql user password ++ post ≡ credential ql user password post
bare-append false user password post = simp append_assoc
bare-append true user password post = simp append_assoc

first_line :
    (ql : Bool) (line user password post : Text)
    → lines_from post (reverse (bare ql user password) ++ line)
      ≡ (reverse line ++ credential ql user password (rest_of_line post)) ∷ later_lines post
first_line ql line user password post =
    let front = scheme ql ++ (user ++ b':' ∷ password) in
    let ends : bare ql user password ≡ front ++ b'@' ∷ [] =
      ap (λ t. scheme ql ++ t) (sym (append_assoc user (b':' ∷ password) (b'@' ∷ [])))
      ∙ sym (append_assoc (scheme ql) (user ++ b':' ∷ password) (b'@' ∷ [])) in
    let turned : reverse (bare ql user password) ++ line ≡ b'@' ∷ (reverse front ++ line) =
      ap (λ t. reverse t ++ line) ends ∙ ap (λ t. t ++ line) (reverse-append front (b'@' ∷ [])) in
    let back : reverse (b'@' ∷ (reverse front ++ line)) ≡ reverse line ++ bare ql user password =
      ap reverse (sym turned)
      ∙ reverse-append (reverse (bare ql user password)) line
      ∙ ap (λ t. reverse line ++ t) (reverse-reverse (bare ql user password)) in
    ap (lines_from post) turned
    ∙ lines_from-open post b'@' (reverse front ++ line)
    ∙ ap (λ t. (t ++ rest_of_line post) ∷ later_lines post) back
    ∙ ap (λ t. t ∷ later_lines post)
        (append_assoc (reverse line) (bare ql user password) (rest_of_line post)
          ∙ ap (λ t. reverse line ++ t) (bare-append ql user password (rest_of_line post)))

-- What is forwarded of a text with a credential in it: the password has no part in it.
abbrev forwarded : Bool → Text → Text → Text → Text
forwarded ql pre user post =
    masked (full_lines pre [])
    ++ ((sanitize_database_url (reverse (open_line pre []))
          ++ credential ql user (codes "***") (sanitize_database_url (rest_of_line post)))
        ++ masked (later_lines post))

masked-lines :
    (ql : Bool) (pre user password post : Text)
    → IsUser user
    → IsPassword password
    → masked (lines (pre ++ credential ql user password post)) ≡ forwarded ql pre user post
masked-lines ql pre user password post hu hp =
    let line = open_line pre [] in
    let whole : lines (pre ++ credential ql user password post)
        ≡ full_lines pre []
          ++ ((reverse line ++ credential ql user password (rest_of_line post))
              ∷ later_lines post) =
      lines_from-append pre (credential ql user password post) []
      ∙ ap (λ ls. full_lines pre [] ++ ls)
          (ap (λ t. lines_from t line) (sym (bare-append ql user password post))
            ∙ open_append (bare ql user password) post line (bare_in_line ql user password hu hp)
            ∙ first_line ql line user password post) in
    ap masked whole
    ∙ masked-append (full_lines pre []) _
    ∙ ap (λ t. masked (full_lines pre []) ++ (t ++ masked (later_lines post)))
        (sanitize_database_url-credential ql (reverse line) user password (rest_of_line post) hu hp)

-- Two runs of the migrations whose output differs only in the password of a credential, wherever
-- that stands in it, forward the same text, however either is cut into writes: so what is
-- forwarded tells nothing of the password, not even its length.
pub write_all-credential :
    (ps qs : List Text) (ql : Bool) (pre user password other post : Text)
    → IsUser user
    → IsPassword password
    → IsPassword other
    → joined ps ≡ pre ++ credential ql user password post
    → joined qs ≡ pre ++ credential ql user other post
    → (flush (write_all ps new_writer)).out ≡ (flush (write_all qs new_writer)).out
write_all-credential ps qs ql pre user password other post hu hp ho e f =
    write_all-lines ps
    ∙ ap (λ t. masked (lines t)) e
    ∙ masked-lines ql pre user password post hu hp
    ∙ sym (
        write_all-lines qs
        ∙ ap (λ t. masked (lines t)) f
        ∙ masked-lines ql pre user other post hu ho)
