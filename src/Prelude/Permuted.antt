-- ===== src/Prelude/Permuted.antt =====
-- What a permutation of a list keeps; no code of the repository.
use mathlib.Core.Path.{◌≡◌, refl, sym, ap, ap₂, ◌∙◌, subst}
use mathlib.Core.Logic.{◌≢◌}
use mathlib.Core.Bool.{Bool, ◌||◌}
use mathlib.Core.List.{List, [], ◌∷◌, Permᴰ}
use native.Mathlib.Omega.{arith}
use prompt_sdk.Prelude.Lists.{All, any}

module _ {ℓ} {A : Type ℓ} where
  -- No element occurs twice.
  abbrev pub Distinct : List A → Type ℓ
  Distinct [] = Unit
  Distinct (v ∷ vs) = All (λ w. w ≢ v) vs × Distinct vs

  pub All-permuted {κ} : (P : A → Type κ) {vs ws : List A} → Permᴰ vs ws → All P vs → All P ws
  All-permuted P Permᴰ.nil h = tt
  All-permuted P (Permᴰ.cons e p) h = (subst P e h.0, All-permuted P p h.1)
  All-permuted P (Permᴰ.swap e f) h = (subst P f h.1.0, (subst P e h.0, h.1.1))
  All-permuted P (Permᴰ.trans p q) h = All-permuted P q (All-permuted P p h)

  pub Distinct-permuted : {vs ws : List A} → Permᴰ vs ws → Distinct vs → Distinct ws
  Distinct-permuted Permᴰ.nil h = tt
  Distinct-permuted (Permᴰ.cons {l₂ = l₂} e p) h =
      (subst (λ v. All (λ w. w ≢ v) l₂) e (All-permuted _ p h.0), Distinct-permuted p h.1)
  Distinct-permuted (Permᴰ.swap {l = l} e f) h = (
    ((λ same. h.0.0 (f ∙ sym same ∙ sym e)), subst (λ v. All (λ w. w ≢ v) l) f h.1.0),
    (subst (λ v. All (λ w. w ≢ v) l) e h.0.1, h.1.1),
  )
  Distinct-permuted (Permᴰ.trans p q) h = Distinct-permuted q (Distinct-permuted p h)

  pub any-permuted : (test : A → Bool) {vs ws : List A} → Permᴰ vs ws → any test vs ≡ any test ws
  any-permuted test Permᴰ.nil = refl
  any-permuted test (Permᴰ.cons e p) = ap₂ ◌||◌ (ap test e) (any-permuted test p)
  any-permuted test (Permᴰ.swap e f) = ground (arith, ap test e, ap test f)
  any-permuted test (Permᴰ.trans p q) = any-permuted test p ∙ any-permuted test q
