-- ===== src/TestDb/Versions.antt =====
-- Which directories of migrations are accepted, and in which order their files run.
use mathlib.Core.List.{perm_middle, append-nil}
use mathlib.Core.List.Perm
use mathlib.Core.List.{Perm, Permᴰ}
use mathlib.Core.Logic.{∥∥₁_elim}
use prompt_sdk.Prelude.{
  Distinct, Distinct-permuted, ℕ, ◌≡◌, ◌≢◌, ◌↔◌, refl, sym, ap, ◌∙◌, subst, inl, inr, none, some,
  List, [], ◌∷◌, ◌++◌, Text, ok, err, All, Option-cases, Result-cases, arith,
}
use prompt_sdk.TestDb.{
  MigrationError, migration_version, Paths, find_path, collect, order_paths, sorted_versions,
  up_migration_paths,
}
use prompt_sdk.TestDb.Permuted.{permuted, Increasing-Distinct}
use prompt_sdk.TestDb.Unique.{Increasing-unique}
use prompt_sdk.TestDb.Order.{
  Increasing, versions, paths, AreRead, VersionsAre, sorted_versions-All,
  sorted_versions-Increasing, order_paths-perm, find_path-none, map-path_at-VersionsAre,
  AreKeys-versions,
}

AreNew : Paths → List ℕ → Type 0
AreNew m = All (λ v. find_path v m ≡ none)

-- A round of `collect` that goes on.
collect-next :
    (path : Text) (rest : List Text) (m r : Paths)
    → collect (path ∷ rest) m ≡ ok r
    → (v : ℕ) × (migration_version path ≡ some v)
      × (find_path v m ≡ none)
      × (collect rest ((v, path) ∷ m) ≡ ok r)
unfolding collect
collect-next path rest m r h = elim (Option-cases (migration_version path)) [
  | inl e ↦ absurd (ground arith)
  | inr (v, e) ↦ elim (Option-cases (find_path v m)) [
    | inr (other, f) ↦ absurd (ground arith)
    | inl f ↦ (v, e, f, ground arith)
  ]
]

collect_sound :
    (ps : List Text) (m r : Paths)
    → collect ps m ≡ ok r
    → AreRead m
    → Distinct (versions m)
    → AreRead r × Distinct (versions r) × Perm (paths r) (paths m ++ ps)
unfolding collect
collect_sound [] m r h read distinct =
    let same : m ≡ r = ground arith in
    rw (← same) (read, distinct, subst (Perm (paths m)) (sym (append-nil (paths m))) (Perm.refl _))
collect_sound (path ∷ rest) m r h read distinct =
    let (v, e, f, more) = collect-next path rest m r h in
    let (read', distinct', perm) =
      collect_sound rest ((v, path) ∷ m) r more (e, read) ((find_path-none m v).0 f, distinct) in
    (read', distinct', Perm.trans perm (Perm.symm (perm_middle (paths m) rest)))

-- What is new to a map with one more version is new to it, and is not that version.
AreNew-cons :
    (v : ℕ) (path : Text) (m : Paths) (ws : List ℕ)
    → All (λ w. find_path w ((v, path) ∷ m) ≡ none) ws
    → All (λ w. w ≢ v) ws × All (λ w. find_path w m ≡ none) ws
unfolding find_path
AreNew-cons v path m [] h = (tt, tt)
AreNew-cons v path m (w ∷ ws) h =
    let (away, new) = AreNew-cons v path m ws h.1 in
    (((λ e. ground (arith, h.0)), away), (ground (arith, h.0), new))

AreNew-with :
    (v : ℕ) (path : Text) (m : Paths) (ws : List ℕ)
    → All (λ w. w ≢ v) ws
    → All (λ w. find_path w m ≡ none) ws
    → All (λ w. find_path w ((v, path) ∷ m) ≡ none) ws
unfolding find_path
AreNew-with v path m [] away new = tt
AreNew-with v path m (w ∷ ws) away new =
    (ground (arith, away.0, new.0), AreNew-with v path m ws away.1 new.1)

collect-Distinct :
    (ps : List Text) (m r : Paths)
    → collect ps m ≡ ok r
    → (vs : List ℕ) × VersionsAre ps vs × Distinct vs × All (λ w. find_path w m ≡ none) vs
collect-Distinct [] m r h = ([], tt, tt, tt)
collect-Distinct (path ∷ rest) m r h =
    let (v, e, f, more) = collect-next path rest m r h in
    let (vs, are, distinct, new) = collect-Distinct rest ((v, path) ∷ m) r more in
    let (away, still_new) = AreNew-cons v path m vs new in
    (v ∷ vs, (e, are), (away, distinct), (f, still_new))

collect_complete :
    (ps : List Text) (vs : List ℕ) (m : Paths)
    → VersionsAre ps vs
    → Distinct vs
    → All (λ w. find_path w m ≡ none) vs
    → (r : Paths) × (collect ps m ≡ ok r)
unfolding collect
collect_complete [] vs m are distinct new = (m, refl)
collect_complete (path ∷ rest) [] m are distinct new = absurd are
collect_complete (path ∷ rest) (v ∷ vs) m are distinct new =
    let (r, e) =
      collect_complete rest vs ((v, path) ∷ m) are.1 distinct.1
        (AreNew-with v path m vs distinct.0 new.1) in
    (r, ground (arith, are.0, new.0))

All-new : (vs : List ℕ) → All (λ w. find_path w [] ≡ none) vs
unfolding find_path
All-new [] = tt
All-new (v ∷ vs) = (refl, All-new vs)

-- Whatever order the files are listed in, the migrations that are accepted are those files, each
-- once, by rising versions.
accepted-Increasing :
    (ps out : List Text)
    → up_migration_paths (some ps) ≡ ok out
    → (ps ≢ []) × Perm out ps × ((vs : List ℕ) × VersionsAre out vs × Increasing vs)
unfolding up_migration_paths
accepted-Increasing [] out h = absurd (ground arith)
accepted-Increasing (p ∷ ps) out h = elim (Result-cases (collect (p ∷ ps) [])) [
  | inr (bad, e) ↦ absurd (ground arith)
  | inl (r, e) ↦
      let (read, distinct, perm) = collect_sound (p ∷ ps) [] r e tt tt in
      let same : order_paths r ≡ out = ground arith in
      rw (← same) (
        (λ blank. ground arith),
        Perm.trans (order_paths-perm r distinct) perm,
        (
          sorted_versions r,
          map-path_at-VersionsAre r (sorted_versions r) read
              (sorted_versions-All (λ w. find_path w r ≢ none) r (AreKeys-versions r)),
          sorted_versions-Increasing r distinct,
        ),
      )
]

accepted_if :
    (ps : List Text) (vs : List ℕ)
    → ps ≢ []
    → VersionsAre ps vs
    → Distinct vs
    → (out : List Text) × (up_migration_paths (some ps) ≡ ok out)
unfolding up_migration_paths
accepted_if [] vs some_path are distinct = absurd (some_path refl)
accepted_if (p ∷ ps) vs some_path are distinct =
    let (r, e) = collect_complete (p ∷ ps) vs [] are distinct (All-new vs) in (order_paths r, rw e)

not_refused :
    (ps out : List Text) (vs : List ℕ) (bad : MigrationError)
    → ps ≢ []
    → VersionsAre out vs
    → Increasing vs
    → up_migration_paths (some ps) ≡ err bad
    → ¬ Permᴰ out ps
not_refused ps out vs bad some_path are rising refused p =
    let (ws, here, q) = permuted vs p are in
    let (result, e) =
      accepted_if ps ws some_path here (Distinct-permuted q (Increasing-Distinct vs rising)) in
    absurd (ground arith)

-- Migrations are accepted as `out` exactly if there are some, and `out` lists the same files, each
-- as often, by strictly rising versions of 64 bits: so a directory is refused if a file has no
-- version or two have the same, and otherwise the order is the only one, however it is listed.
pub up_migration_paths_iff :
    (ps out : List Text)
    → (up_migration_paths (some ps) ≡ ok out)
      ↔ ((ps ≢ []) × Perm out ps × ((vs : List ℕ) × VersionsAre out vs × Increasing vs))
up_migration_paths_iff ps out = (
  accepted-Increasing ps out,
  λ h. elim (Result-cases (up_migration_paths (some ps))) [
    | inr (bad, e) ↦
        absurd
          (∥∥₁_elim h.1 (λ (x y : ⊥). absurd x) (not_refused ps out h.2.0 bad h.0 h.2.1 h.2.2 e))
    | inl (result, e) ↦
        let (some_path, perm, (ws, are, rising)) = accepted-Increasing ps result e in
        e
        ∙ ap ok (
            Increasing-unique result out ws h.2.0 (Perm.trans perm (Perm.symm h.1)) are h.2.1 rising
              h.2.2)
  ],
)
