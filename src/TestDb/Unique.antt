-- ===== src/TestDb/Unique.antt =====
-- There is one order by rising versions.
use mathlib.Core.List.{Perm, Mem, mem-cons, mem-cons_self, not-mem-nil, perm-cons}
use mathlib.Core.List.Perm
use mathlib.Core.Logic.Or
use native.Mathlib.Bridge.{le_prop}
use prompt_sdk.Prelude.{
  ℕ, suc, ◌<◌, ◌≤◌, ◌≡◌, sym, ap, ap₂, ◌∙◌, subst, some, List, [], ◌∷◌, Text, All, arith,
}
use prompt_sdk.TestDb.{migration_version}
use prompt_sdk.TestDb.Order.{Increasing, VersionsAre}

Text-set : IsSet Text
Text-set = hlevel

-- A path that is among these has a version above `v`, where all of theirs are.
above_of_mem :
    (ps : List Text) (vs : List ℕ) (v w : ℕ) (p : Text)
    → VersionsAre ps vs
    → All (λ x. v < x) vs
    → migration_version p ≡ some w
    → Mem p ps
    → suc v ≤ w
above_of_mem [] vs v w p are low e m = absurd (not-mem-nil m)
above_of_mem (q ∷ ps) [] v w p are low e m = absurd are
above_of_mem (q ∷ ps) (x ∷ vs) v w p are low e m =
    Or.elim le_prop (mem-cons.0 m)
      (λ same.
        let f : migration_version p ≡ some x = ap migration_version same ∙ are.0 in
        let g : w ≡ x = ground arith in omega (arith, low.0))
      (above_of_mem ps vs v w p are.1 low.1 e)

first_le :
    (q p : Text) (ps : List Text) (x w : ℕ) (vs : List ℕ)
    → VersionsAre (q ∷ ps) (x ∷ vs)
    → Increasing (x ∷ vs)
    → migration_version p ≡ some w
    → Mem p (q ∷ ps)
    → x ≤ w
first_le q p ps x w vs are rising e m =
    Or.elim le_prop (mem-cons.0 m)
      (λ same.
        let f : migration_version p ≡ some x = ap migration_version same ∙ are.0 in
        let g : w ≡ x = ground arith in omega arith)
      (λ k. omega (arith, above_of_mem ps vs x w p are.1 rising.0 e k))

first_eq :
    (q p : Text) (ps : List Text) (x : ℕ) (vs : List ℕ)
    → VersionsAre (q ∷ ps) (x ∷ vs)
    → Increasing (x ∷ vs)
    → migration_version p ≡ some x
    → Mem p (q ∷ ps)
    → p ≡ q
first_eq q p ps x vs are rising e m =
    Or.elim (Text-set p q) (mem-cons.0 m) (λ same. same)
      (λ k. absurd (omega (arith, above_of_mem ps vs x x p are.1 rising.0 e k)))

pub Increasing-unique :
    (ps qs : List Text) (vs ws : List ℕ)
    → Perm ps qs
    → VersionsAre ps vs
    → VersionsAre qs ws
    → Increasing vs
    → Increasing ws
    → ps ≡ qs
Increasing-unique [] qs vs ws perm a b i j = sym (Perm.eq-nil (Perm.symm perm))
Increasing-unique (p ∷ ps) [] vs ws perm a b i j = Perm.eq-nil perm
Increasing-unique (p ∷ ps) (q ∷ qs) [] ws perm a b i j = absurd a
Increasing-unique (p ∷ ps) (q ∷ qs) (v ∷ vs) [] perm a b i j = absurd b
Increasing-unique (p ∷ ps) (q ∷ qs) (v ∷ vs) (w ∷ ws) perm a b i j =
    let p_in = (Perm.mem_iff perm).0 mem-cons_self in
    let q_in = (Perm.mem_iff perm).1 mem-cons_self in
    let low = first_le q p qs w v ws b j a.0 p_in in
    let high = first_le p q ps v w vs a i b.0 q_in in
    let same : v ≡ w = omega arith in
    let head = first_eq q p qs w ws b j (a.0 ∙ ap some same) p_in in
    let tail = subst (λ x. Perm (p ∷ ps) (x ∷ qs)) (sym head) perm in
    ap₂ ◌∷◌ head (Increasing-unique ps qs vs ws ((perm-cons p).0 tail) a.1 b.1 i.1 j.1)
