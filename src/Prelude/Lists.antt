-- ===== src/Prelude/Lists.antt =====
-- Lists over the native numbers, membership by a test, and predicates by recursion.
use Prim.Native.Nat.{ℕ, zero, suc, ◌+◌}
use mathlib.Core.Path.{◌≡◌, refl}
use mathlib.Core.Logic.{inl, inr}
use mathlib.Core.Bool.{Bool, true, false, ◌&&◌, ◌||◌}
use mathlib.Core.Option.{Option, none, some}
use mathlib.Core.List.{List, [], ◌∷◌, ◌++◌, reverse, reverse-append}
use native.Mathlib.Omega.{arith}
use prompt_sdk.Prelude.Tests.{Bool-cases}

module _ {ℓ} {A : Type ℓ} where
  abbrev pub length : List A → ℕ
  length [] = 0
  length (x ∷ xs) = suc (length xs)

  abbrev pub get_elem? : List A → ℕ → Option A
  get_elem? [] i = none
  get_elem? (x ∷ xs) zero = some x
  get_elem? (x ∷ xs) (suc i) = get_elem? xs i

  abbrev pub drop : ℕ → List A → List A
  drop zero xs = xs
  drop (suc n) [] = []
  drop (suc n) (x ∷ xs) = drop n xs

  -- `slices.ContainsFunc`
  abbrev pub any : (A → Bool) → List A → Bool
  any p [] = false
  any p (x ∷ xs) = p x || any p xs

  abbrev pub all : (A → Bool) → List A → Bool
  all p [] = true
  all p (x ∷ xs) = p x && all p xs

  pub length-append : (xs ys : List A) → length (xs ++ ys) ≡ length xs + length ys
  length-append [] ys = omega arith
  length-append (x ∷ xs) ys = omega (arith, length-append xs ys)

module _ {ℓ κ} {A : Type ℓ} (P : A → Type κ) where
  abbrev pub All : List A → Type κ
  All [] = Unit
  All (x ∷ xs) = P x × All xs

  -- Some element satisfies `P`, with its place.
  pub data Any : List A → Type (ℓ ⊔ κ) where
    here : {x : A} {xs : List A} → P x → Any (x ∷ xs)
    there : {x : A} {xs : List A} → Any xs → Any (x ∷ xs)

  pub All-append : (xs ys : List A) → All xs → All ys → All (xs ++ ys)
  All-append [] ys hx hy = hy
  All-append (x ∷ xs) ys hx hy = (hx.0, All-append xs ys hx.1 hy)

module _ {ℓ κ} {A : Type ℓ} (P : A → Type κ) where
  pub All-reverse : (xs : List A) → All P xs → All P (reverse xs)
  All-reverse [] h = tt
  All-reverse (x ∷ xs) (hx, h) =
      rw (reverse-append (x ∷ []) xs)
        (All-append P (reverse xs) (x ∷ []) (All-reverse xs h) (hx, tt))

module _ {ℓ} {A : Type ℓ} (p : A → Bool) where
  pub Any-of_any : (xs : List A) → any p xs ≡ true → Any (λ x. p x ≡ true) xs
  Any-of_any [] h = cc
  Any-of_any (x ∷ xs) h = elim (Bool-cases (p x)) [
    | inl e ↦ here e
    | inr e ↦ there (Any-of_any xs (ground arith))
  ]

  pub any-of_Any : (xs : List A) → Any (λ x. p x ≡ true) xs → any p xs ≡ true
  any-of_Any [] h = elim h [ ]
  any-of_Any (x ∷ xs) (here e) = rw e
  any-of_Any (x ∷ xs) (there h) = ground (arith, any-of_Any xs h)

  pub all-of_All : (xs : List A) → All (λ x. p x ≡ true) xs → all p xs ≡ true
  all-of_All [] h = refl
  all-of_All (x ∷ xs) (e, h) = rw e (all-of_All xs h)

  pub All-of_all : (xs : List A) → all p xs ≡ true → All (λ x. p x ≡ true) xs
  All-of_all [] h = tt
  All-of_all (x ∷ xs) h = (ground arith, All-of_all xs (ground arith))
