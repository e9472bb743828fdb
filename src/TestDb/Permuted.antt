-- ===== src/TestDb/Permuted.antt =====
-- Files and their versions in another order.
use mathlib.Core.List.{Permᴰ}
use prompt_sdk.Prelude.{Distinct, ℕ, ◌<◌, ◌≢◌, refl, sym, ap, ◌∙◌, List, [], ◌∷◌, Text, All, arith}
use prompt_sdk.TestDb.{migration_version}
use prompt_sdk.TestDb.Order.{Increasing, VersionsAre}

-- A permutation permutes the versions.
pub permuted :
    {ps qs : List Text} (vs : List ℕ)
    → Permᴰ ps qs
    → VersionsAre ps vs
    → (ws : List ℕ) × VersionsAre qs ws × Permᴰ vs ws
permuted [] Permᴰ.nil a = ([], tt, Permᴰ.nil)
permuted (v ∷ vs) Permᴰ.nil a = absurd a
permuted [] (Permᴰ.cons e p) a = absurd a
permuted (v ∷ vs) (Permᴰ.cons e p) a =
    let (ws, b, r) = permuted vs p a.1 in
    (v ∷ ws, (ap migration_version (sym e) ∙ a.0, b), Permᴰ.cons refl r)
permuted [] (Permᴰ.swap e f) a = absurd a
permuted (v ∷ []) (Permᴰ.swap e f) a = absurd a.1
permuted (v ∷ w ∷ vs) (Permᴰ.swap e f) a = (
  w ∷ v ∷ vs,
  (ap migration_version (sym f) ∙ a.1.0, (ap migration_version (sym e) ∙ a.0, a.1.1)),
  Permᴰ.swap refl refl,
)
permuted vs (Permᴰ.trans p q) a =
    let (us, b, r) = permuted vs p a in let (ws, c, s) = permuted us q b in (ws, c, Permᴰ.trans r s)

away_of_above : (v : ℕ) (vs : List ℕ) → All (λ w. v < w) vs → All (λ w. w ≢ v) vs
away_of_above v [] h = tt
away_of_above v (w ∷ vs) h = ((λ e. omega (arith, h.0)), away_of_above v vs h.1)

pub Increasing-Distinct : (vs : List ℕ) → Increasing vs → Distinct vs
Increasing-Distinct [] h = tt
Increasing-Distinct (v ∷ vs) h = (away_of_above v vs h.0, Increasing-Distinct vs h.1)
