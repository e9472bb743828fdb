-- ===== src/TestDb/Order.antt =====
-- The files of a collected map in the order of their versions.
use mathlib.Core.List.Perm
use mathlib.Core.List.{Perm}
use prompt_sdk.Prelude.{
  Distinct, ℕ, ◌<◌, ◌≡◌, ◌≢◌, ◌↔◌, refl, sym, ap₂, ◌∙◌, subst, inl, inr, Option, none, some, List,
  [], ◌∷◌, map, Text, leb, All, Bool-cases, Option-cases, arith,
}
use prompt_sdk.TestDb.{
  migration_version, Paths, find_path, insert_version, sorted_versions, path_at, order_paths,
}

-- Each is below all that follow.
abbrev pub Increasing : List ℕ → Type 0
Increasing [] = Unit
Increasing (v ∷ vs) = All (λ w. v < w) vs × Increasing vs

abbrev pub versions : Paths → List ℕ
versions [] = []
versions ((v, path) ∷ m) = v ∷ versions m

abbrev pub paths : Paths → List Text
paths [] = []
paths ((v, path) ∷ m) = path ∷ paths m

module _ (P : ℕ → Type 0) where
  insert_version-All : (v : ℕ) (ws : List ℕ) → P v → All P ws → All P (insert_version v ws)
  unfolding insert_version
  insert_version-All v [] hv h = (hv, tt)
  insert_version-All v (w ∷ ws) hv h = elim (Bool-cases (leb v w)) [
    | inl e ↦ rw e (hv, h)
    | inr e ↦ rw e (h.0, insert_version-All v ws hv h.1)
  ]

  pub sorted_versions-All : (m : Paths) → All P (versions m) → All P (sorted_versions m)
  unfolding sorted_versions
  sorted_versions-All [] h = tt
  sorted_versions-All ((v, path) ∷ m) h =
      insert_version-All v (sorted_versions m) h.0 (sorted_versions-All m h.1)

above : (v w : ℕ) (ws : List ℕ) → v < w → All (λ x. w < x) ws → All (λ x. v < x) ws
above v w [] h k = tt
above v w (x ∷ ws) h k = (omega arith, above v w ws h k.1)

insert_version-Increasing :
    (v : ℕ) (ws : List ℕ) → All (λ w. w ≢ v) ws → Increasing ws → Increasing (insert_version v ws)
unfolding insert_version
insert_version-Increasing v [] away h = (tt, tt)
insert_version-Increasing v (w ∷ ws) away h = elim (Bool-cases (leb v w)) [
  | inl e ↦ let below : v < w = ground (arith, away.0) in rw e ((below, above v w ws below h.0), h)
  | inr e ↦ rw e (
    insert_version-All (λ x. w < x) v ws (ground arith) h.0,
    insert_version-Increasing v ws away.1 h.1,
  )
]

pub sorted_versions-Increasing :
    (m : Paths) → Distinct (versions m) → Increasing (sorted_versions m)
unfolding sorted_versions
sorted_versions-Increasing [] h = tt
sorted_versions-Increasing ((v, path) ∷ m) h =
    insert_version-Increasing v (sorted_versions m) (sorted_versions-All (λ w. w ≢ v) m h.0)
      (sorted_versions-Increasing m h.1)

insert_version-perm : (v : ℕ) (ws : List ℕ) → Perm (insert_version v ws) (v ∷ ws)
unfolding insert_version
insert_version-perm v [] = Perm.refl _
insert_version-perm v (w ∷ ws) = elim (Bool-cases (leb v w)) [
  | inl e ↦ rw e (Perm.refl _)
  | inr e ↦ rw e (Perm.trans (Perm.cons w (insert_version-perm v ws)) (Perm.swap v w ws))
]

sorted_versions-perm : (m : Paths) → Perm (sorted_versions m) (versions m)
unfolding sorted_versions
sorted_versions-perm [] = Perm.refl _
sorted_versions-perm ((v, path) ∷ m) =
    Perm.trans (insert_version-perm v (sorted_versions m)) (Perm.cons v (sorted_versions-perm m))

path_at-other :
    (v w : ℕ) (path : Text) (m : Paths) → w ≢ v → path_at ((v, path) ∷ m) w ≡ path_at m w
unfolding find_path
path_at-other v w path m h = ground arith

path_at_self : (v : ℕ) (path : Text) (m : Paths) → path_at ((v, path) ∷ m) v ≡ path
unfolding find_path
path_at_self v path m = ground arith

-- A key that is not asked for does not matter.
map-path_at :
    (v : ℕ) (path : Text) (m : Paths) (ws : List ℕ)
    → All (λ w. w ≢ v) ws
    → map (path_at ((v, path) ∷ m)) ws ≡ map (path_at m) ws
map-path_at v path m [] h = refl
map-path_at v path m (w ∷ ws) h =
    ap₂ ◌∷◌ (path_at-other v w path m h.0) (map-path_at v path m ws h.1)

map-path_at-versions : (m : Paths) → Distinct (versions m) → map (path_at m) (versions m) ≡ paths m
map-path_at-versions [] h = refl
map-path_at-versions ((v, path) ∷ m) h =
    ap₂ ◌∷◌ (path_at_self v path m)
      (map-path_at v path m (versions m) h.0 ∙ map-path_at-versions m h.1)

pub order_paths-perm : (m : Paths) → Distinct (versions m) → Perm (order_paths m) (paths m)
order_paths-perm m h =
    subst (Perm (order_paths m)) (map-path_at-versions m h)
      (Perm.map (path_at m) (sorted_versions-perm m))

-- The paths have these versions.
abbrev pub VersionsAre : List Text → List ℕ → Type 0
VersionsAre [] [] = Unit
VersionsAre [] (v ∷ vs) = ⊥
VersionsAre (path ∷ ps) [] = ⊥
VersionsAre (path ∷ ps) (v ∷ vs) = (migration_version path ≡ some v) × VersionsAre ps vs

abbrev pub AreRead : Paths → Type 0
AreRead m = VersionsAre (paths m) (versions m)

path_at-version :
    (m : Paths) (v : ℕ) (path : Text)
    → AreRead m
    → find_path v m ≡ some path
    → migration_version path ≡ some v
unfolding find_path
path_at-version [] v path r h = cc
path_at-version ((w, q) ∷ m) v path r h = ground (arith, path_at-version m v path r.1)

pub find_path-none : (m : Paths) (v : ℕ) → (find_path v m ≡ none) ↔ All (λ w. w ≢ v) (versions m)
unfolding find_path
find_path-none [] v = (λ h. tt, λ h. refl)
find_path-none ((w, q) ∷ m) v =
    let rest = find_path-none m v in
    (λ h. ((λ e. ground arith), rest.0 (ground arith)), λ h. ground (arith, rest.1 h.1, h.0))

-- All of `ws` are keys.
abbrev pub AreKeys : Paths → List ℕ → Type 0
AreKeys m = All (λ w. find_path w m ≢ none)

pub map-path_at-VersionsAre :
    (m : Paths) (ws : List ℕ) → AreRead m → AreKeys m ws → VersionsAre (map (path_at m) ws) ws
map-path_at-VersionsAre m [] r h = tt
map-path_at-VersionsAre m (w ∷ ws) r h = elim (Option-cases (find_path w m)) [
  | inl e ↦ absurd (h.0 e)
  | inr (path, e) ↦ (
    subst (λ (o : Option Text). migration_version (elim o [ some q ↦ q | none ↦ [] ]) ≡ some w)
        (sym e) (path_at-version m w path r e),
    map-path_at-VersionsAre m ws r h.1,
  )
]

AreKeys-cons :
    (v : ℕ) (path : Text) (m : Paths) (ws : List ℕ) → AreKeys m ws → AreKeys ((v, path) ∷ m) ws
unfolding find_path
AreKeys-cons v path m [] h = tt
AreKeys-cons v path m (w ∷ ws) h = (ground (arith, h.0), AreKeys-cons v path m ws h.1)

pub AreKeys-versions : (m : Paths) → AreKeys m (versions m)
unfolding find_path
AreKeys-versions [] = tt
AreKeys-versions ((v, path) ∷ m) =
    (ground arith, AreKeys-cons v path m (versions m) (AreKeys-versions m))
