-- ===== src/Masking/Chunks.antt =====
-- The masked output does not depend on how the tool cuts its output into writes.
use prompt_sdk.Prelude.{
  ℕ, ◌≡◌, refl, inl, inr, sym, ap, ◌∙◌, true, false, List, [], ◌∷◌, ◌++◌, reverse, Text, is_empty,
  ◌==◌, All, All-reverse, Bool-cases, if◌then◌else◌,
}
use mathlib.Core.List.{append-nil, append_assoc, reverse-append, reverse-reverse}
use prompt_sdk.Masking.{new_writer, emit, drain, write, flush, write_all}
use prompt_sdk.Masking.Credentials.{sanitize_database_url}

-- The lines of a text, each with its newline; the last one may lack it.
abbrev pub lines_from : Text → Text → List Text
lines_from [] line = if is_empty line then [] else reverse line ∷ []
lines_from (c ∷ s) line = elim (c == 10) [
  | true ↦ reverse (c ∷ line) ∷ lines_from s []
  | false ↦ lines_from s (c ∷ line)
]

pub lines_from-newline :
    (c : ℕ) (s line : Text)
    → c == 10 ≡ true
    → lines_from (c ∷ s) line ≡ reverse (c ∷ line) ∷ lines_from s []
lines_from-newline c s line h = rw (h, lines_from)

pub lines_from-inner :
    (c : ℕ) (s line : Text) → c == 10 ≡ false → lines_from (c ∷ s) line ≡ lines_from s (c ∷ line)
lines_from-inner c s line h = rw (h, lines_from)

abbrev pub lines : Text → List Text
lines s = lines_from s []

abbrev pub joined : List Text → Text
joined [] = []
joined (t ∷ ts) = t ++ joined ts

abbrev pub masked : List Text → Text
masked [] = []
masked (t ∷ ts) = sanitize_database_url t ++ masked ts

abbrev IsOpen : Text → Type 0
IsOpen line = All (λ c. c == 10 ≡ false) line

drain-append :
    (out line s t : Text)
    → drain out line (s ++ t) ≡ drain (drain out line s).out (reverse (drain out line s).pending) t
unfolding drain
drain-append out line [] t = rw (reverse-reverse line)
drain-append out line (c ∷ s) t = elim (Bool-cases (c == 10)) [
  | inl e ↦ rw (e, drain) (drain-append (emit out (reverse (c ∷ line))) [] s t)
  | inr e ↦ rw (e, drain) (drain-append out (c ∷ line) s t)
]

drain-pending :
    (out line p s : Text) → IsOpen p → drain out line (p ++ s) ≡ drain out (reverse p ++ line) s
unfolding drain
drain-pending out line [] s h = refl
drain-pending out line (c ∷ p) s (hc, h) =
    let e : reverse (c ∷ p) ++ line ≡ reverse p ++ (c ∷ line) =
      ap (λ t. t ++ line) (reverse-append (c ∷ []) p) ∙ append_assoc (reverse p) (c ∷ []) line in
    rw (e, hc, drain) (drain-pending out (c ∷ line) p s h)

drain-IsOpen : (out line s : Text) → IsOpen line → IsOpen (drain out line s).pending
unfolding drain
drain-IsOpen out line [] h = All-reverse (λ c. c == 10 ≡ false) line h
drain-IsOpen out line (c ∷ s) h = elim (Bool-cases (c == 10)) [
  | inl e ↦ rw (e, drain) (drain-IsOpen (emit out (reverse (c ∷ line))) [] s tt)
  | inr e ↦ rw (e, drain) (drain-IsOpen out (c ∷ line) s (e, h))
]

write-drain : (s p : Text) → write (drain [] [] s) p ≡ drain [] [] (s ++ p)
unfolding write
write-drain s p =
    let w = drain [] [] s in
    drain-pending w.out [] w.pending p (drain-IsOpen [] [] s tt)
    ∙ ap (λ t. drain w.out t p) (append-nil (reverse w.pending))
    ∙ sym (drain-append [] [] s p)

write_all-drain :
    (ps : List Text) (s : Text) → write_all ps (drain [] [] s) ≡ drain [] [] (s ++ joined ps)
unfolding write_all
write_all-drain [] s = ap (λ t. drain [] [] t) (sym (append-nil s))
write_all-drain (p ∷ ps) s =
    ap (λ w. write_all ps w) (write-drain s p)
    ∙ write_all-drain ps (s ++ p)
    ∙ ap (λ t. drain [] [] t) (append_assoc s p (joined ps))

flush-line :
    (out line : Text)
    → (flush (record { out = out; pending = line })).out
      ≡ out ++ masked (if is_empty line then [] else line ∷ [])
unfolding flush
flush-line out [] = sym (append-nil out)
flush-line out (b ∷ line) = ap (λ t. out ++ t) (sym (append-nil (sanitize_database_url (b ∷ line))))

reverse-is_empty : (line : Text) → is_empty (reverse line) ≡ is_empty line
reverse-is_empty [] = refl
reverse-is_empty (b ∷ line) = rw (reverse-append (b ∷ []) line) (append-is_empty (reverse line))
  where
    append-is_empty : (t : Text) → is_empty (t ++ b ∷ []) ≡ false
    append-is_empty [] = refl
    append-is_empty (_ ∷ _) = refl

flush-drain :
    (out line s : Text) → (flush (drain out line s)).out ≡ out ++ masked (lines_from s line)
unfolding drain emit
flush-drain out line [] =
    flush-line out (reverse line)
    ∙ ap (λ b. out ++ masked (if b then [] else reverse line ∷ [])) (reverse-is_empty line)
flush-drain out line (c ∷ s) = elim (Bool-cases (c == 10)) [
  | inl e ↦
      rw (e, drain)
        (flush-drain (out ++ sanitize_database_url (reverse (c ∷ line))) [] s
          ∙ append_assoc out (sanitize_database_url (reverse (c ∷ line))) (masked (lines_from s []))
          ∙ ap (λ ls. out ++ masked ls) (sym (lines_from-newline c s line e)))
  | inr e ↦
      rw (e, drain)
        (flush-drain out (c ∷ line) s
          ∙ ap (λ ls. out ++ masked ls) (sym (lines_from-inner c s line e)))
]

-- Whatever pieces the tool writes its output in, what is forwarded until the flush is the
-- masking of each whole line of the output, in order: so a password that the masking finds in a
-- line is masked also where it straddles two writes.
pub write_all-lines :
    (ps : List Text) → (flush (write_all ps new_writer)).out ≡ masked (lines (joined ps))
unfolding drain
write_all-lines ps = ap (λ w. (flush w).out) (write_all-drain ps []) ∙ flush-drain [] [] (joined ps)
