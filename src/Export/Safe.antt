-- ===== src/Export/Safe.antt =====
-- Where an accepted path of an archive entry can lead.
use prompt_sdk.Prelude.{
  ℕ, ◌≡◌, ◌≢◌, refl, ◌∙◌, ap, ◌⊎◌, inl, inr, true, false, ◌||◌, some, List, [], ◌∷◌, ◌++◌, reverse,
  Text, codes, text_eq, text_eq_iff, text_eq_refl, is_empty, has_prefix, split, split_from,
  replace_byte, get_elem?, ◌==◌, if◌then◌else◌, All, All-reverse, Bool-cases, arith,
}
use mathlib.Core.List.{reverse-append}
use prompt_sdk.Export.Paths.{up, push_segment, push_all, join, clean, has_drive, sanitize_zip_path}

-- A byte that is neither '/' nor a backslash.
abbrev pub IsInner : ℕ → Type 0
IsInner c = (c ≢ b'/') × (c ≢ b'\\')

-- A segment that names a file or a directory below the one that it stands in.
abbrev pub IsPlain : Text → Type 0
IsPlain s = (s ≢ []) × (s ≢ codes ".") × (s ≢ codes "..") × All IsInner s

split_from-IsInner :
    (s cur : Text)
    → All (λ c. (c ≡ b'/') ⊎ IsInner c) s
    → All IsInner cur
    → All (All IsInner) (split_from b'/' cur s)
unfolding split_from
split_from-IsInner [] cur h k = (All-reverse IsInner cur k, tt)
split_from-IsInner (c ∷ s) cur (hc, h) k = elim (Bool-cases (c == b'/')) [
  | inl e ↦ rw (e, split_from) (All-reverse IsInner cur k, split_from-IsInner s [] h tt)
  | inr e ↦ rw (e, split_from) (split_from-IsInner s (c ∷ cur) h (ground arith, k))
]

replaced_byte :
    (c : ℕ) → ((if c == b'\\' then b'/' else c) ≡ b'/') ⊎ IsInner (if c == b'\\' then b'/' else c)
replaced_byte c = elim (Bool-cases (c == b'\\')) [
  | inl e ↦ rw e (inl refl)
  | inr e ↦ elim (Bool-cases (c == b'/')) [
    | inl f ↦ rw e (inl (ground arith))
    | inr f ↦ rw e (inr (ground arith, ground arith))
  ]
]

replaced-IsInner : (s : Text) → All (λ c. (c ≡ b'/') ⊎ IsInner c) (replace_byte s b'\\' b'/')
unfolding replace_byte
replaced-IsInner [] = tt
replaced-IsInner (c ∷ s) = (replaced_byte c, replaced-IsInner s)

abbrev IsDots : Text → Type 0
IsDots s = s ≡ codes ".."

-- The stack of a path that is not rooted: names, above the steps that lead out.
abbrev IsStack : List Text → Type 0
IsStack [] = Unit
IsStack (s ∷ ss) = (IsPlain s × IsStack ss) ⊎ (IsDots s × All IsDots ss)

up-IsStack : (stack : List Text) → IsStack stack → IsStack (up false stack)
unfolding up
up-IsStack [] h = inr (refl, tt)
up-IsStack (top ∷ rest) (inl ((a, b, not_dots, d), h)) =
    elim (Bool-cases (text_eq top (codes ".."))) [
      | inl e ↦ absurd (not_dots ((text_eq_iff top (codes "..")).0 e))
      | inr e ↦ rw e h
    ]
up-IsStack (top ∷ rest) (inr (dots, h)) =
    rw ((text_eq_iff top (codes "..")).1 dots) (inr (refl, (dots, h)))

push_segment-IsStack :
    (stack : List Text) (segment : Text)
    → All IsInner segment
    → IsStack stack
    → IsStack (push_segment false stack segment)
unfolding push_segment
push_segment-IsStack stack segment inner h =
    elim (Bool-cases (is_empty segment || text_eq segment (codes "."))) [
      | inl e ↦ rw e h
      | inr e ↦ elim (Bool-cases (text_eq segment (codes ".."))) [
        | inl f ↦ rw (e, f) (up-IsStack stack h)
        | inr f ↦
            rw (e, f)
              (inl (
                (
                  ground arith,
                  ground (arith, text_eq_iff segment (codes ".")),
                  ground (arith, text_eq_iff segment (codes "..")),
                  inner,
                ),
                h,
              ))
      ]
    ]

push_all-IsStack :
    (segments stack : List Text)
    → All (All IsInner) segments
    → IsStack stack
    → IsStack (push_all false stack segments)
unfolding push_all
push_all-IsStack [] stack k h = h
push_all-IsStack (s ∷ ss) stack (ks, k) h =
    push_all-IsStack ss (push_segment false stack s) k (push_segment-IsStack stack s ks h)

dots-first :
    (s : Text) (ss : List Text)
    → IsDots s
    → All IsDots ss
    → (r : List Text) × (reverse (s ∷ ss) ≡ codes ".." ∷ r)
dots-first s [] h k = ([], ap (λ t. t ∷ []) h)
dots-first s (t ∷ ss) h (kt, k) =
    let (r, e) = dots-first t ss kt k in
    (r ++ s ∷ [], reverse-append (s ∷ []) (t ∷ ss) ∙ ap (λ l. l ++ s ∷ []) e)

-- Either no segment leads out, or the first one does.
stack-cases :
    (ss : List Text)
    → IsStack ss
    → All IsPlain ss ⊎ ((r : List Text) × (reverse ss ≡ codes ".." ∷ r))
stack-cases [] h = inl tt
stack-cases (s ∷ ss) (inr (d, ds)) = inr (dots-first s ss d ds)
stack-cases (s ∷ ss) (inl (p, h)) = elim (stack-cases ss h) [
  | inl ps ↦ inl (p, ps)
  | inr (r, e) ↦ inr (r ++ s ∷ [], reverse-append (s ∷ []) ss ∙ ap (λ l. l ++ s ∷ []) e)
]

join-dots : (r : List Text) → has_prefix (join (codes ".." ∷ r)) (codes "..") ≡ true
unfolding join has_prefix
join-dots [] = refl
join-dots (t ∷ r) = refl

-- A path below the directory that it is read from, on every system: segments that are names, and
-- no drive letter.
pub record IsBelow (q : Text) : Type 0 where
  pub segments : List Text
  pub joined : q ≡ join segments
  pub named : segments ≢ []
  pub plain : All IsPlain segments
  pub no_drive : get_elem? q 1 ≢ some b':'

clean-rooted :
    (s : Text) → has_prefix s (codes "/") ≡ true → has_prefix (clean s) (codes "/") ≡ true
unfolding clean has_prefix
clean-rooted s h = rw h

clean-relative :
    (s : Text)
    → has_prefix s (codes "/") ≡ false
    → let body = join (reverse (push_all false [] (split s b'/'))) in
      clean s ≡ (if is_empty body then codes "." else body)
unfolding clean
clean-relative s h = rw h

named_join : (ss : List Text) → ss ≡ [] → is_empty (join ss) ≡ false → ⊥
unfolding join
named_join [] e h = cc
named_join (s ∷ ss) e h = cc

-- What the checks of the cleaned path leave.
accepted :
    (stack : List Text) (q : Text)
    → IsStack stack
    → q ≡ (if is_empty (join (reverse stack)) then codes "." else join (reverse stack))
    → text_eq q (codes ".") ≡ false
    → has_prefix q (codes "..") ≡ false
    → (q ≡ join (reverse stack)) × (reverse stack ≢ []) × All IsPlain (reverse stack)
accepted stack q h e not_dot not_dots = elim (Bool-cases (is_empty (join (reverse stack)))) [
  | inl empty ↦ absurd (ground (arith, text_eq_refl (codes ".")))
  | inr filled ↦ elim (stack-cases stack h) [
    | inl plain ↦
        (ground arith, λ n. named_join (reverse stack) n filled, All-reverse IsPlain stack plain)
    | inr (r, dots) ↦
        let same : q ≡ join (reverse stack) = ground arith in
        let leads_out : has_prefix q (codes "..") ≡ true = rw same (rw dots (join-dots r)) in
        absurd (ground arith)
  ]
]

-- A path that is accepted for an archive entry leads, once extracted, to a place below the
-- directory of extraction: it is relative, has no segment that is empty, "." or "..", no backslash
-- and no drive letter.
pub sanitize_zip_path-IsBelow : (p q : Text) → sanitize_zip_path p ≡ some q → IsBelow q
unfolding sanitize_zip_path
sanitize_zip_path-IsBelow p q h =
    let s = replace_byte p b'\\' b'/' in
    let stack = push_all false [] (split s b'/') in
    let e : q ≡ clean s = ground arith in
    elim (Bool-cases (has_prefix s (codes "/"))) [
      | inl rooted ↦ absurd (ground (arith, clean-rooted s rooted))
      | inr relative ↦
          let (joined, named, plain) =
            accepted stack q
              (push_all-IsStack (split s b'/') []
                (unfold split in split_from-IsInner s [] (replaced-IsInner p) tt) tt)
              (e ∙ clean-relative s relative) (ground arith) (ground arith) in
          record {
            segments = reverse stack;
            joined = joined;
            named = named;
            plain = plain;
            no_drive = unfold has_drive in ground arith;
          }
    ]
