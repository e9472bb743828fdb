-- ===== src/Prelude/Prefixes.antt =====
-- Prefixes and suffixes of texts.
use mathlib.Core.Path.{◌≡◌, refl, ap, sym, ◌∙◌}
use mathlib.Core.Bool.{true}
use mathlib.Core.List.{[], ◌∷◌, ◌++◌, reverse, reverse-append, reverse-reverse}
use native.Mathlib.Omega.{arith}
use prompt_sdk.Prelude.Lists.{length, drop}
use prompt_sdk.Prelude.Strings.{Text, has_prefix, has_suffix, trim_prefix, trim_suffix}

has_prefix_split : (s t : Text) → has_prefix s t ≡ true → s ≡ t ++ drop (length t) s
unfolding has_prefix
has_prefix_split s [] h = refl
has_prefix_split [] (d ∷ t) h = cc
has_prefix_split (c ∷ s) (d ∷ t) h = ap₂' (ground arith) (has_prefix_split s t (ground arith))
  where
    ap₂' : c ≡ d → s ≡ t ++ drop (length t) s → (c ∷ s) ≡ (d ∷ (t ++ drop (length t) s))
    ap₂' p q = λ i. p i ∷ q i

-- A text with a prefix is the prefix and what `TrimPrefix` leaves.
pub trim_prefix-append : (s t : Text) → has_prefix s t ≡ true → s ≡ t ++ trim_prefix s t
unfolding trim_prefix
trim_prefix-append s t h = rw h (has_prefix_split s t h)

pub has_prefix-append : (t s : Text) → has_prefix (t ++ s) t ≡ true
unfolding has_prefix
has_prefix-append [] s = refl
has_prefix-append (d ∷ t) s = ground (arith, has_prefix-append t s)

drop-append : (t s : Text) → drop (length t) (t ++ s) ≡ s
drop-append [] s = refl
drop-append (d ∷ t) s = drop-append t s

pub trim_prefix-append_self : (t s : Text) → trim_prefix (t ++ s) t ≡ s
unfolding trim_prefix
trim_prefix-append_self t s = rw (has_prefix-append t s) (drop-append t s)

-- `HasSuffix` finds exactly the texts that end so.
pub has_suffix-append : (s t : Text) → has_suffix (s ++ t) t ≡ true
unfolding has_suffix
has_suffix-append s t = rw reverse-append (has_prefix-append (reverse t) (reverse s))

pub has_suffix_split :
    (s t : Text) → has_suffix s t ≡ true → s ≡ reverse (trim_prefix (reverse s) (reverse t)) ++ t
unfolding has_suffix
has_suffix_split s t h =
    let e = trim_prefix-append (reverse s) (reverse t) h in
    sym (reverse-reverse s)
    ∙ ap reverse e
    ∙ reverse-append (reverse t) (trim_prefix (reverse s) (reverse t))
    ∙ ap (λ x. reverse (trim_prefix (reverse s) (reverse t)) ++ x) (reverse-reverse t)

-- What `TrimSuffix` leaves, and the suffix, are the text.
pub trim_suffix-append : (s t : Text) → has_suffix s t ≡ true → s ≡ trim_suffix s t ++ t
unfolding trim_suffix
trim_suffix-append s t h = has_suffix_split s t h
