-- ===== src/Resolution/Merge.antt =====
-- What a participation holds once its resolutions are merged into it.
use prompt_sdk.Prelude.{
  ◌≡◌, refl, ◌∙◌, ◌⊎◌, inl, inr, Option, none, some, List, [], ◌∷◌, Text, text_eq, ok, Bool-cases,
  Option-cases, Result-cases, arith, if◌then◌else◌,
}
use prompt_sdk.Identity.{Uuid}
use prompt_sdk.Json.{Json, null}
use prompt_sdk.Resolution.Targets.{Resolution}
use prompt_sdk.Resolution.{
  Entry, decoded, raw, get, put, Participation, Fetcher, Resolved, resolve_all_participations,
  resolve_participation, merge_into, merge_all, merge_resolutions, merge_one, merge_each,
}

-- What is under a key, if anything.
abbrev pub entry_of : Participation → Text → Option Entry
entry_of p key = elim p.prev_data [ none ↦ none | some m ↦ get m key ]

-- The last of some resolved data that has a value for the participation under the key.
abbrev pub latest : List (Text × Resolved) → Uuid → Text → Option Json
latest [] id key = none
latest ((name, resolved) ∷ rs) id key = elim (latest rs id key) [
  | some v ↦ some v
  | none ↦ if text_eq name key then resolved id else none
]

abbrev pub or_before : Option Json → Option Entry → Option Entry
or_before (some v) before = some (decoded v)
or_before none before = before

-- The participations `qs` are `ps`, in order, each with the latest resolved value under each key
-- that has one, and with what it held before under each other.
abbrev pub Merged : List (Text × Resolved) → List Participation → List Participation → Type 0
Merged rs [] [] = Unit
Merged rs (p ∷ ps) (q ∷ qs) =
    (q.course_participation_id ≡ p.course_participation_id)
    × ((key : Text)
        → entry_of q key ≡ or_before (latest rs p.course_participation_id key) (entry_of p key))
    × Merged rs ps qs
Merged rs _ _ = ⊥

module _ (net : Fetcher) where
  abbrev pub ResolvedAs : Text → List Resolution → List (Text × Resolved) → Type 0
  ResolvedAs auth [] [] = Unit
  ResolvedAs auth (res ∷ ress) ((name, r) ∷ rs) =
      (name ≡ res.dto_name)
      × (resolve_all_participations net auth res ≡ ok r)
      × ResolvedAs auth ress rs
  ResolvedAs auth _ _ = ⊥

  merge_into-entry :
      (name : Text) (r : Resolved) (p : Participation) (key : Text)
      → entry_of (merge_into net name r p) key
        ≡ or_before
            (if text_eq name key then r p.course_participation_id else none)
            (entry_of p key)
  unfolding merge_into get put
  merge_into-entry name r p key = elim (Option-cases (r p.course_participation_id)) [
    | inl e ↦ ground arith
    | inr (v, e) ↦ elim (Option-cases p.prev_data) [
      | inl f ↦ ground arith
      | inr (m, f) ↦ ground arith
    ]
  ]

  merge_into-id :
      (name : Text) (r : Resolved) (p : Participation)
      → (merge_into net name r p).course_participation_id ≡ p.course_participation_id
  unfolding merge_into
  merge_into-id name r p = ground arith

  Merged-self : (ps : List Participation) → Merged [] ps ps
  Merged-self [] = tt
  Merged-self (p ∷ ps) = (refl, λ key. refl, Merged-self ps)

  or_before-latest :
      (name : Text) (r : Resolved) (rs : List (Text × Resolved)) (id : Uuid) (key : Text)
      (before : Option Entry)
      → or_before (latest rs id key) (or_before (if text_eq name key then r id else none) before)
        ≡ or_before (latest ((name, r) ∷ rs) id key) before
  or_before-latest name r rs id key before = ground arith

  Merged-cons :
      (name : Text) (r : Resolved) (rs : List (Text × Resolved)) (ps qs : List Participation)
      → Merged rs (merge_all net name r ps) qs
      → Merged ((name, r) ∷ rs) ps qs
  unfolding merge_all
  Merged-cons name r rs [] [] h = tt
  Merged-cons name r rs [] (q ∷ qs) h = absurd h
  Merged-cons name r rs (p ∷ ps) [] h = absurd h
  Merged-cons name r rs (p ∷ ps) (q ∷ qs) (same, entries, more) = (
    same ∙ merge_into-id name r p,
    λ key.
        entries key
        ∙ rw (merge_into-id name r p, merge_into-entry name r p key)
            (or_before-latest name r rs p.course_participation_id key (entry_of p key)),
    Merged-cons name r rs ps qs more,
  )

  -- Where all resolutions of an answer of core can be fetched, the merge keeps the participations
  -- and their order, and each holds under each key the value of the last resolution of that name
  -- that has one for it, and otherwise what it held before.
  pub merge_resolutions-Merged :
      (auth : Text) (ress : List Resolution) (ps qs : List Participation)
      → merge_resolutions net auth ress ps ≡ ok qs
      → (rs : List (Text × Resolved)) × ResolvedAs auth ress rs × Merged rs ps qs
  unfolding merge_resolutions
  merge_resolutions-Merged auth [] ps qs h =
      let e : qs ≡ ps = ground arith in ([], tt, rw e (Merged-self ps))
  merge_resolutions-Merged auth (res ∷ ress) ps qs h =
      elim (Result-cases (resolve_all_participations net auth res)) [
        | inr (fault, e) ↦ absurd (ground arith)
        | inl (r, e) ↦
            let (rs, resolved, merged) =
              merge_resolutions-Merged auth ress (merge_all net res.dto_name r ps) qs
                (ground arith) in
            (
              (res.dto_name, r) ∷ rs,
              (refl, e, resolved),
              Merged-cons res.dto_name r rs ps qs merged,
            )
      ]

  merge_one-entry :
      (body name : Text) (v : Json) (p : Participation) (key : Text)
      → (entry_of (merge_one net body name v p) key ≡ some (raw body))
        ⊎ (entry_of (merge_one net body name v p) key ≡ entry_of p key)
  unfolding merge_one get put
  merge_one-entry body name null p key = inr refl
  merge_one-entry body name v p key = elim (Bool-cases (text_eq name key)) [
    | inl e ↦ inl (rw e)
    | inr e ↦ elim (Option-cases p.prev_data) [
      | inl f ↦ inr (ground arith)
      | inr (m, f) ↦ inr (ground arith)
    ]
  ]

  -- The merge for a single participation never stores a resolved value: under each key it leaves
  -- the bytes of the answer of core, or what was there before.
  pub merge_each-raw :
      (auth body : Text) (id : Uuid) (ress : List Resolution) (p q : Participation)
      → merge_each net auth body id ress p ≡ ok q
      → (key : Text) → (entry_of q key ≡ some (raw body)) ⊎ (entry_of q key ≡ entry_of p key)
  unfolding merge_each
  merge_each-raw auth body id [] p q h key = inr (ground arith)
  merge_each-raw auth body id (res ∷ ress) p q h key =
      elim (Result-cases (resolve_participation net auth res id)) [
        | inr (fault, e) ↦ absurd (ground arith)
        | inl (v, e) ↦
            elim (merge_each-raw auth body id ress (merge_one net body res.dto_name v p) q
              (ground arith) key) [
                | inl stored ↦ inl stored
                | inr kept ↦ rw kept (merge_one-entry body res.dto_name v p key)
              ]
      ]
