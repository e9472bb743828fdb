-- ===== src/Auth/Platform.antt =====
-- Routes of authMiddleware.go that list platform roles alone need no course phase and no core.
use prompt_sdk.Prelude.{
  ◌≡◌, refl, ◌∙◌, sym, inl, inr, true, ◌||◌, ◌&&◌, some, List, [], ◌∷◌, Text, text_eq, text_eq_iff,
  text_eq_refl, contains, All, Bool-cases, arith, if◌then◌else◌,
}
use prompt_sdk.Identity.{TokenUser, has_role, prompt_admin, prompt_lecturer}
use prompt_sdk.Gin.{Context, abort}
use prompt_sdk.CoreRequests.{CoreService}
use prompt_sdk.Auth.{
  build_allowed_roles_set, check_direct_role, only_contains_admin_and_lecturer, role_verdict,
  authorize,
}
use prompt_sdk.Memberships.{get_token_user}
use prompt_sdk.Auth.RoleSets.{IsPlatform, contains-build_allowed_roles_set}

listed-IsPlatform :
    (allowed : List Text) (r : Text)
    → All IsPlatform allowed
    → contains allowed r ≡ true
    → IsPlatform r
unfolding contains
listed-IsPlatform [] r h k = cc
listed-IsPlatform (s ∷ ss) r (p, h) k = elim (Bool-cases (text_eq s r)) [
  | inl same ↦ let e : s ≡ r = (text_eq_iff s r).0 same in rw e at p
  | inr other ↦ listed-IsPlatform ss r h (ground arith)
]

only_contains_complete :
    (ss : List Text)
    → ((r : Text) → contains ss r ≡ true → IsPlatform r)
    → only_contains_admin_and_lecturer ss ≡ true
unfolding only_contains_admin_and_lecturer contains
only_contains_complete [] h = refl
only_contains_complete (s ∷ ss) h = ground (
  arith,
  h s (rw text_eq_refl),
  text_eq_iff s prompt_admin,
  text_eq_iff s prompt_lecturer,
  only_contains_complete ss (λ r k. h r (ground arith)),
)

-- If a route lists only `PROMPT_Admin` and `PROMPT_Lecturer`, a signed-in caller passes with an
-- unchanged context if one of the two is listed and held, and gets 403 otherwise: with no course
-- phase in the path, and whatever core would answer.
pub authorize_platform_only :
    (core : CoreService) (allowed : List Text) (c : Context) (u : TokenUser)
    → get_token_user c ≡ some u
    → All IsPlatform allowed
    → authorize core allowed c ≡ (
        if contains allowed prompt_admin && has_role u.roles prompt_admin
          || (contains allowed prompt_lecturer && has_role u.roles prompt_lecturer)
        then c
        else abort c 403)
unfolding authorize role_verdict check_direct_role
authorize_platform_only core allowed c u known only = ground (
  arith,
  contains-build_allowed_roles_set allowed prompt_admin,
  contains-build_allowed_roles_set allowed prompt_lecturer,
  only_contains_complete (build_allowed_roles_set allowed) (λ r k.
      listed-IsPlatform allowed r only (sym (contains-build_allowed_roles_set allowed r) ∙ k)),
)
