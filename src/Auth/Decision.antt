-- ===== src/Auth/Decision.antt =====
-- The decision of authMiddleware.go against the rules of `Granted`.
use prompt_sdk.Prelude.{◌≡◌, ◌↔◌, false, some, List, Text}
use prompt_sdk.Identity.{TokenUser}
use prompt_sdk.Gin.{Context}
use prompt_sdk.CoreRequests.{CoreService}
use prompt_sdk.Auth.{authorize}
use prompt_sdk.Memberships.{get_token_user}
use prompt_sdk.Auth.Granted.{Granted}
use prompt_sdk.Auth.Passed.{authorize_sound}
use prompt_sdk.Auth.Admitted.{authorize_complete}

module _ (core : CoreService) (allowed : List Text) (c : Context) (u : TokenUser) where
  -- For a request that is not aborted and carries the token user `u`: the authorization
  -- middleware with the roles `allowed` lets it pass exactly if one of the rules of `Granted`
  -- admits `u`: a platform role, the lecturer or editor role that core names for the course
  -- phase, a group role under the phase's non-empty prefix, or membership of the phase as a
  -- student (after a successful role lookup, where the list asks for one).
  pub authorize-Granted_iff :
      c.aborted ≡ false
      → get_token_user c ≡ some u
      → ((authorize core allowed c).aborted ≡ false) ↔ Granted core c allowed u
  authorize-Granted_iff open_ known = (
    authorize_sound core allowed c u open_ known,
    authorize_complete core allowed c u open_ known,
  )
