-- ===== src/Endpoints/Hosts.antt =====
-- promptTypes/privacyExport.go: the hosts that an export may be uploaded to.
use prompt_sdk.Prelude.{
  ◌≡◌, ◌↔◌, ◌⊎◌, inl, inr, ap, Bool, true, false, List, [], ◌∷◌, ◌++◌, Text, codes, text_eq,
  text_eq_iff, has_prefix, has_suffix, trim_prefix, trim_suffix, trim_prefix-append,
  trim_suffix-append, has_prefix-append, has_suffix-append, drop, Any, here, there, Bool-cases,
  arith, if◌then◌else◌, Unicode, to_lower,
}

module _ (u : Unicode) where
  -- one round of the loop, with the host in small letters; `a[1:]` keeps the dot
  unfoldable pub host_matches : Text → Text → Bool
  host_matches host entry =
      let a = to_lower u entry in
      if has_prefix a (codes "*.") then has_suffix host (drop 1 a) else text_eq host a

  unfoldable pub any_host : Text → List Text → Bool
  any_host host [] = false
  any_host host (entry ∷ allowed) = if host_matches host entry then true else any_host host allowed

  unfoldable pub is_allowed_host : Text → List Text → Bool
  is_allowed_host host allowed = any_host (to_lower u host) allowed

-- An entry of the list of hosts admits the host itself, or, if it starts with "*.", every host
-- that ends with a dot and the rest.
abbrev pub Admits : Text → Text → Type 0
Admits host entry =
    ((has_prefix entry (codes "*.") ≡ false) × (host ≡ entry))
    ⊎ ((sub : Text) × (domain : Text) × (entry ≡ codes "*." ++ domain)
        × (host ≡ sub ++ (codes "." ++ domain)))

wildcard_sound :
    (host a : Text)
    → has_prefix a (codes "*.") ≡ true
    → has_suffix host (drop 1 a) ≡ true
    → Admits host a
wildcard_sound host a p h =
    let rest = trim_prefix a (codes "*.") in
    let whole : a ≡ codes "*." ++ rest = trim_prefix-append a (codes "*.") p in
    let dotted : drop 1 a ≡ codes "." ++ rest = ap (λ t. drop 1 t) whole in
    let suffix : has_suffix host (codes "." ++ rest) ≡ true = rw (← dotted) h in
    inr (
      trim_suffix host (codes "." ++ rest),
      rest,
      whole,
      trim_suffix-append host (codes "." ++ rest) suffix,
    )

wildcard_complete :
    (host a sub domain : Text)
    → a ≡ codes "*." ++ domain
    → host ≡ sub ++ (codes "." ++ domain)
    → (has_prefix a (codes "*.") ≡ true) × (has_suffix host (drop 1 a) ≡ true)
wildcard_complete host a sub domain e f =
    rw (e, f) (has_prefix-append (codes "*.") domain, has_suffix-append sub (codes "." ++ domain))

module _ (u : Unicode) where
  host_matches_iff :
      (h entry : Text) → (host_matches u h entry ≡ true) ↔ Admits h (to_lower u entry)
  unfolding host_matches
  host_matches_iff h entry =
      let a = to_lower u entry in
      elim (Bool-cases (has_prefix a (codes "*."))) [
        | inl e ↦ (
          λ k. wildcard_sound h a e (ground arith),
          λ k. elim k [
            | inl (plain, same) ↦ absurd (ground arith)
            | inr (sub, domain, f, g) ↦ rw e (wildcard_complete h a sub domain f g).1
          ],
        )
        | inr e ↦ (
          λ k. inl (e, (text_eq_iff h a).0 (ground arith)),
          λ k. elim k [
            | inl (plain, same) ↦ rw e ((text_eq_iff h a).1 same)
            | inr (sub, domain, f, g) ↦
                let starred = (wildcard_complete h a sub domain f g).0 in absurd (ground arith)
          ],
        )
      ]

  any_host_sound :
      (h : Text) (allowed : List Text)
      → any_host u h allowed ≡ true
      → Any (λ entry. Admits h (to_lower u entry)) allowed
  unfolding any_host
  any_host_sound h [] k = cc
  any_host_sound h (entry ∷ allowed) k = elim (Bool-cases (host_matches u h entry)) [
    | inl e ↦ here ((host_matches_iff h entry).0 e)
    | inr e ↦ there (any_host_sound h allowed (ground arith))
  ]

  any_host_complete :
      (h : Text) (allowed : List Text)
      → Any (λ entry. Admits h (to_lower u entry)) allowed
      → any_host u h allowed ≡ true
  unfolding any_host
  any_host_complete h [] k = elim k [ ]
  any_host_complete h (entry ∷ allowed) (here a) = rw ((host_matches_iff h entry).1 a)
  any_host_complete h (entry ∷ allowed) (there k) = ground (arith, any_host_complete h allowed k)

  -- A host is allowed exactly if, both in small letters, an entry of the list is the host, or is
  -- "*." and a domain such that the host ends with a dot and that domain. So "*.example.com"
  -- admits neither "example.com" nor "badexample.com".
  pub is_allowed_host-Any :
      (host : Text) (allowed : List Text)
      → (is_allowed_host u host allowed ≡ true)
        ↔ Any (λ entry. Admits (to_lower u host) (to_lower u entry)) allowed
  unfolding is_allowed_host
  is_allowed_host-Any host allowed =
      (any_host_sound (to_lower u host) allowed, any_host_complete (to_lower u host) allowed)
