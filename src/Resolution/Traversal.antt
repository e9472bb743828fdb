-- ===== src/Resolution/Traversal.antt =====
-- Where the request of a resolution cannot lead, however its path is escaped.
use prompt_sdk.Prelude.{
  ℕ, ◌+◌, ◌*◌, ◌≤◌, ◌≡◌, ◌≢◌, ◌↔◌, ◌⊎◌, inl, inr, refl, sym, ◌∙◌, true, false, Option, none, some,
  List, [], ◌∷◌, Text, codes, text_eq_iff, contains, split, ◌==◌, any, All, Bool-cases,
  Option-cases, arith,
}
use prompt_sdk.Identity.{Uuid}
use prompt_sdk.Resolution.Targets.{
  Resolution, ParsedUrl, unhex, escaped_byte, prepend, path_unescape, has_traversal_segment,
  validate_resolution_target, all_paths, build_url,
}

-- `c` is the hexadecimal digit of value `x`, in either case.
abbrev pub IsHex : ℕ → ℕ → Type 0
IsHex c x =
    ((c ≡ b'0' + x) × (x ≤ 9))
    ⊎ ((c + 10 ≡ b'a' + x) × (10 ≤ x) × (x ≤ 15))
    ⊎ ((c + 10 ≡ b'A' + x) × (10 ≤ x) × (x ≤ 15))

-- `s` is a way to write `t` in a path, with any of its bytes escaped.
pub data Escapes : Text → Text → Type 0 where
  done : Escapes [] []
  verbatim : {s t : Text} (c : ℕ) → c ≢ b'%' → Escapes s t → Escapes (c ∷ s) (c ∷ t)
  escaped :
      {s t : Text} (p a b x y c : ℕ)
      → p ≡ b'%'
      → IsHex a x
      → IsHex b y
      → c ≡ x * 16 + y
      → Escapes s t
      → Escapes (p ∷ a ∷ b ∷ s) (c ∷ t)

unhex-IsHex : (c x : ℕ) → IsHex c x → unhex c ≡ some x
unfolding unhex
unhex-IsHex c x h = ground arith

IsHex-unhex : (c x : ℕ) → unhex c ≡ some x → IsHex c x
unfolding unhex
IsHex-unhex c x h = ground arith

prepend_inv :
    (o : Option ℕ) (r : Option Text) (t : Text)
    → prepend o r ≡ some t
    → (c : ℕ) × (t' : Text) × (o ≡ some c) × (r ≡ some t') × (t ≡ c ∷ t')
unfolding prepend
prepend_inv (some c) (some s) t h = (c, s, refl, refl, ground arith)
prepend_inv (some c) none t h = cc
prepend_inv none (some s) t h = cc
prepend_inv none none t h = cc

escaped_byte_inv :
    (a b c : ℕ)
    → escaped_byte a b ≡ some c
    → (x : ℕ) × (y : ℕ) × (unhex a ≡ some x) × (unhex b ≡ some y) × (c ≡ x * 16 + y)
unfolding escaped_byte
escaped_byte_inv a b c h = elim (Option-cases (unhex a)) [
  | inl e ↦ absurd (ground arith)
  | inr (x, e) ↦ elim (Option-cases (unhex b)) [
    | inl f ↦ absurd (ground arith)
    | inr (y, f) ↦ (x, y, e, f, ground arith)
  ]
]

path_unescape-verbatim :
    (c : ℕ) (s : Text)
    → c == b'%' ≡ false
    → path_unescape (c ∷ s) ≡ prepend (some c) (path_unescape s)
unfolding path_unescape prepend
path_unescape-verbatim c [] h = rw h
path_unescape-verbatim c (a ∷ []) h = rw (h, path_unescape)
path_unescape-verbatim c (a ∷ b ∷ s) h = rw (h, path_unescape)

path_unescape-escaped :
    (p a b : ℕ) (s : Text)
    → p == b'%' ≡ true
    → path_unescape (p ∷ a ∷ b ∷ s) ≡ prepend (escaped_byte a b) (path_unescape s)
unfolding path_unescape
path_unescape-escaped p a b s h = rw (h, path_unescape)

pub path_unescape_complete : {s t : Text} → Escapes s t → path_unescape s ≡ some t
unfolding path_unescape prepend escaped_byte
path_unescape_complete done = refl
path_unescape_complete (verbatim {s} {t} c h e) =
    path_unescape-verbatim c s (ground arith) ∙ rw (path_unescape_complete e)
path_unescape_complete (escaped {s} {t} p a b x y c hp ha hb hc e) =
    let byte : escaped_byte a b ≡ some c =
      rw (escaped_byte, unhex-IsHex a x ha, unhex-IsHex b y hb) (ground arith) in
    path_unescape-escaped p a b s (ground arith) ∙ rw (path_unescape_complete e, byte)

sound_verbatim :
    (c : ℕ) (s t : Text)
    → c == b'%' ≡ false
    → ((t' : Text) → path_unescape s ≡ some t' → Escapes s t')
    → path_unescape (c ∷ s) ≡ some t
    → Escapes (c ∷ s) t
sound_verbatim c s t f rest h =
    let (c', t', e, r, same) =
      prepend_inv (some c) (path_unescape s) t (sym (path_unescape-verbatim c s f) ∙ h) in
    let written : t ≡ c ∷ t' = ground arith in rw written (verbatim c (ground arith) (rest t' r))

path_unescape_sound : (s t : Text) → path_unescape s ≡ some t → Escapes s t
unfolding path_unescape
path_unescape_sound [] t h = let e : t ≡ [] = ground arith in rw e done
path_unescape_sound (c ∷ []) t h = elim (Bool-cases (c == b'%')) [
  | inl e ↦ absurd (ground arith)
  | inr e ↦ sound_verbatim c [] t e (λ t' k. path_unescape_sound [] t' k) h
]
path_unescape_sound (c ∷ a ∷ []) t h = elim (Bool-cases (c == b'%')) [
  | inl e ↦ absurd (ground arith)
  | inr e ↦ sound_verbatim c (a ∷ []) t e (λ t' k. path_unescape_sound (a ∷ []) t' k) h
]
path_unescape_sound (c ∷ a ∷ b ∷ s) t h = elim (Bool-cases (c == b'%')) [
  | inr e ↦ sound_verbatim c (a ∷ b ∷ s) t e (λ t' k. path_unescape_sound (a ∷ b ∷ s) t' k) h
  | inl e ↦
      let (v, t', byte, r, same) =
        prepend_inv (escaped_byte a b) (path_unescape s) t
          (sym (path_unescape-escaped c a b s e) ∙ h) in
      let (x, y, hx, hy, value) = escaped_byte_inv a b v byte in
      rw same (
        escaped c a b x y v (ground arith) (IsHex-unhex a x hx) (IsHex-unhex b y hy) value
          (path_unescape_sound s t' r))
]

-- A path that, unescaped, has no ".." among its segments.
abbrev pub StaysBelow : Text → Type 0
StaysBelow path = (t : Text) × Escapes path t × (contains (split t b'/') (codes "..") ≡ false)

has_traversal_segment_iff : (path : Text) → (has_traversal_segment path ≡ false) ↔ StaysBelow path
unfolding has_traversal_segment
has_traversal_segment_iff path = elim (Option-cases (path_unescape path)) [
  | inl e ↦ (λ h. absurd (ground arith), λ h. absurd (ground (arith, path_unescape_complete h.1)))
  | inr (t, e) ↦ (
    λ h. (t, path_unescape_sound path t e, ground arith),
    λ h. ground (arith, path_unescape_complete h.1, h.2),
  )
]

none_leave : (paths : List Text) → (any has_traversal_segment paths ≡ false) ↔ All StaysBelow paths
none_leave [] = (λ h. tt, λ h. refl)
none_leave (p ∷ ps) =
    let first = has_traversal_segment_iff p in
    let rest = none_leave ps in
    (λ h. (first.0 (ground arith), rest.0 (ground arith)), λ h. rw (first.1 h.0) (rest.1 h.1))

module _ (parse_url : Text → Option ParsedUrl) (join_path : ParsedUrl → List Text → Text)
    (uuid_text : Uuid → Text) where
  -- A base that the bearer token may be sent to.
  abbrev pub IsTarget : Resolution → ParsedUrl → Type 0
  IsTarget res u =
      (parse_url res.base_url ≡ some u)
      × ((u.scheme ≡ codes "http") ⊎ (u.scheme ≡ codes "https"))
      × (u.host ≢ [])
      × (u.has_user ≡ false)

  validate_iff :
      (res : Resolution) (u : ParsedUrl)
      → (validate_resolution_target parse_url join_path uuid_text res ≡ some u) ↔ IsTarget res u
  unfolding validate_resolution_target
  validate_iff res u = elim (Option-cases (parse_url res.base_url)) [
    | inl e ↦ (λ h. absurd (ground arith), λ h. absurd (ground arith))
    | inr (v, e) ↦ (
      λ h.
          let same : v ≡ u = ground arith in
          rw (← same) (
            e,
            ground
                (arith, text_eq_iff v.scheme (codes "http"), text_eq_iff v.scheme (codes "https")),
            ground arith,
            ground arith,
          ),
      λ h.
          let same : v ≡ u = ground arith in
          ground (
            arith,
            text_eq_iff v.scheme (codes "http"),
            text_eq_iff v.scheme (codes "https"),
            h.1,
            h.2,
            h.3,
          ),
    )
  ]

  -- A URL is built, and so the caller's token sent, exactly if the base URL has a host, no
  -- credentials and the scheme http or https, and each path element, whatever bytes of it are
  -- escaped, decodes to a text without a segment ".."; and then it is these elements joined to
  -- the base.
  pub build_url_iff :
      (res : Resolution) (extra : List Text) (url : Text)
      → (build_url parse_url join_path uuid_text res extra ≡ some url) ↔ (
          (u : ParsedUrl) × IsTarget res u
          × All StaysBelow (all_paths parse_url join_path uuid_text res extra)
          × (url ≡ join_path u (all_paths parse_url join_path uuid_text res extra)))
  unfolding build_url
  build_url_iff res extra url =
      let paths = all_paths parse_url join_path uuid_text res extra in
      let below = none_leave paths in
      elim (Option-cases (validate_resolution_target parse_url join_path uuid_text res)) [
        | inl e ↦
            (λ h. absurd (ground arith), λ h. absurd (ground (arith, (validate_iff res h.0).1 h.1)))
        | inr (u, e) ↦ (
          λ h. (u, (validate_iff res u).0 e, below.0 (ground arith), ground arith),
          λ h. ground (arith, (validate_iff res h.0).1 h.1, below.1 h.2, h.3),
        )
      ]
