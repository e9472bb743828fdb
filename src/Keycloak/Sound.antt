-- ===== src/Keycloak/Sound.antt =====
-- What a request that passes `AuthenticationMiddleware` has shown.
use prompt_sdk.Prelude.{
  ◌≡◌, refl, ◌∙◌, ◌↔◌, inl, inr, true, false, Option, none, some, List, ◌++◌, Text, codes,
  text_eq_iff, is_empty, has_prefix, trim_prefix, ok, Option-cases, Result-cases, Bool-cases, arith,
  trim_prefix-append, has_prefix-append, trim_prefix-append_self,
}
use prompt_sdk.Identity.{Roles, TokenUser}
use prompt_sdk.Gin.{Context, abort}
use prompt_sdk.Json.{Json, str, Object, find, as_string}
use prompt_sdk.CoreRequests.{CoreService}
use prompt_sdk.Auth.{authorize}
use prompt_sdk.Memberships.{get_token_user}
use prompt_sdk.Auth.Granted.{Granted}
use prompt_sdk.Auth.Decision.{authorize-Granted_iff}
use prompt_sdk.Keycloak.{
  VerifierConfig, TokenVerifier, extract_bearer_token, check_authorized_party, party_matches,
  check_keycloak_roles, user_of_claims, store_user, accept_claims, keycloak_middleware,
  authenticate,
}

bearer_sound :
    (c : Context) (token : Text)
    → extract_bearer_token c ≡ some token
    → c.authorization ≡ codes "Bearer " ++ token
unfolding extract_bearer_token
bearer_sound c token h =
    let p : has_prefix c.authorization (codes "Bearer ") ≡ true = ground arith in
    let e : trim_prefix c.authorization (codes "Bearer ") ≡ token = ground arith in
    rw (← e) (trim_prefix-append c.authorization (codes "Bearer ") p)

bearer_complete :
    (c : Context) (token : Text)
    → c.authorization ≡ codes "Bearer " ++ token
    → extract_bearer_token c ≡ some token
unfolding extract_bearer_token
bearer_complete c token h =
    let p : has_prefix c.authorization (codes "Bearer ") ≡ true =
      rw h (has_prefix-append (codes "Bearer ") token) in
    let e : trim_prefix c.authorization (codes "Bearer ") ≡ token =
      rw h (trim_prefix-append_self (codes "Bearer ") token) in
    let n : is_empty c.authorization ≡ false = rw h in ground arith

party_sound :
    (o : Option Json) (expected : Text) → party_matches o expected ≡ true → o ≡ some (str expected)
unfolding party_matches
party_sound (some (str s)) expected h = ground (arith, text_eq_iff s expected)
party_sound none expected h = cc
party_sound (some _) expected h = cc

as_string-some : (o : Option Json) (s : Text) → as_string o ≡ some s → o ≡ some (str s)
as_string-some (some (str t)) s h = ground arith
as_string-some none s h = cc
as_string-some (some _) s h = cc

module _ (config : VerifierConfig) (tokens : TokenVerifier) where
  -- A verified token for this client, and the user that its claims describe.
  pub record Verified (c : Context) (u : TokenUser) : Type 0 where
    pub token : Text
    pub payload : Text
    pub claims : Object
    pub user_id : Text
    pub roles : Roles
    pub header : c.authorization ≡ codes "Bearer " ++ token
    pub verified : tokens.verify token ≡ some payload
    pub decoded : tokens.decode_claims payload ≡ some claims
    pub party : find claims (codes "azp") ≡ some (str config.expected_authorized_party)
    pub subject : find claims (codes "sub") ≡ some (str user_id)
    pub roles_read : check_keycloak_roles config claims ≡ ok roles
    pub described : u ≡ user_of_claims claims user_id roles

  -- The claims let the request on, as the user that they describe.
  accept_claims_sound :
      (claims : Object) (c d : Context)
      → accept_claims config claims c ≡ ok d
      → d.aborted ≡ false
      → (user_id : Text) × (roles : Roles) × (find claims (codes "azp")
          ≡ some (str config.expected_authorized_party))
        × (find claims (codes "sub") ≡ some (str user_id))
        × (check_keycloak_roles config claims ≡ ok roles)
        × (d ≡ store_user (user_of_claims claims user_id roles) c)
  unfolding accept_claims check_authorized_party abort
  accept_claims_sound claims c d h open_ =
      let p : party_matches (find claims (codes "azp")) config.expected_authorized_party ≡ true =
        ground arith in
      elim (Option-cases (as_string (find claims (codes "sub")))) [
        | inl e ↦ absurd (ground arith)
        | inr (user_id, e) ↦ elim (Result-cases (check_keycloak_roles config claims)) [
          | inl (roles, r) ↦
              (user_id, roles, party_sound _ _ p, as_string-some _ user_id e, r, ground arith)
          | inr (fault, r) ↦ absurd (ground arith)
        ]
      ]

  pub keycloak_sound :
      (c d : Context)
      → keycloak_middleware config tokens c ≡ ok d
      → d.aborted ≡ false
      → (u : TokenUser) × Verified c u × (d ≡ store_user u c)
  unfolding keycloak_middleware abort
  keycloak_sound c d h open_ = elim (Option-cases (extract_bearer_token c)) [
    | inl e ↦ absurd (ground arith)
    | inr (token, e) ↦ elim (Option-cases (tokens.verify token)) [
      | inl f ↦ absurd (ground arith)
      | inr (payload, f) ↦ elim (Option-cases (tokens.decode_claims payload)) [
        | inl g ↦ absurd (ground arith)
        | inr (claims, g) ↦
            let (user_id, roles, party, subject, read, same) =
              accept_claims_sound claims c d (ground arith) open_ in
            (
              user_of_claims claims user_id roles,
              record {
                token = token;
                payload = payload;
                claims = claims;
                user_id = user_id;
                roles = roles;
                header = bearer_sound c token e;
                verified = f;
                decoded = g;
                party = party;
                subject = subject;
                roles_read = read;
                described = refl;
              },
              same,
            )
      ]
    ]
  ]

  keycloak_complete :
      (c : Context) (u : TokenUser)
      → Verified c u
      → keycloak_middleware config tokens c ≡ ok (store_user u c)
  unfolding keycloak_middleware accept_claims check_authorized_party party_matches
  keycloak_complete c u v = ground (
    arith,
    bearer_complete c v.token v.header,
    text_eq_iff config.expected_authorized_party config.expected_authorized_party,
    v.verified,
    v.decoded,
    v.party,
    v.subject,
    v.roles_read,
    v.described,
  )

  pub store_user-get : (u : TokenUser) (c : Context) → get_token_user (store_user u c) ≡ some u
  unfolding store_user get_token_user
  store_user-get u c = refl

  pub store_user-aborted : (u : TokenUser) (c : Context) → (store_user u c).aborted ≡ c.aborted
  unfolding store_user
  store_user-aborted u c = refl

  module _ (core : CoreService) (allowed : List Text) (c : Context) where
    -- The composite middleware hands the request on.
    abbrev pub Passes : Context → Type 0
    Passes d = (authenticate config tokens core allowed c ≡ ok d) × (d.aborted ≡ false)

    Passes-sound :
        (d : Context)
        → c.aborted ≡ false
        → Passes d
        → (u : TokenUser) × Verified c u × Granted core (store_user u c) allowed u
    unfolding authenticate
    Passes-sound d open_ (h, on) = elim (Result-cases (keycloak_middleware config tokens c)) [
      | inr (p, e) ↦ absurd (ground arith)
      | inl (k, e) ↦ elim (Bool-cases k.aborted) [
        | inl stopped ↦ absurd (ground arith)
        | inr going ↦
            let (u, v, same) = keycloak_sound c k e going in
            (
              u,
              v,
              (authorize-Granted_iff core allowed (store_user u c) u
                    (store_user-aborted u c ∙ open_) (store_user-get u c)).0
                  (ground arith),
            )
      ]
    ]

    Passes-complete :
        (u : TokenUser)
        → c.aborted ≡ false
        → Verified c u
        → Granted core (store_user u c) allowed u
        → Passes (authorize core allowed (store_user u c))
    unfolding authenticate
    Passes-complete u open_ v g = (
      ground (arith, keycloak_complete c u v, store_user-aborted u c),
      (authorize-Granted_iff core allowed (store_user u c) u (store_user-aborted u c ∙ open_)
            (store_user-get u c)).1
          g,
    )

    -- For a request that is not aborted: the composite middleware for the roles `allowed` passes
    -- it on exactly if its header is "Bearer " and a token that the provider verifies, whose
    -- claims name the expected authorized party and a subject and whose roles can be read, and
    -- the user that the claims describe is admitted by a rule of `Granted`. So a route behind
    -- it is never reached without a valid token of this client.
    pub authenticate-Passes_iff :
        c.aborted ≡ false
        → ((d : Context) × Passes d)
          ↔ ((u : TokenUser) × Verified c u × Granted core (store_user u c) allowed u)
    authenticate-Passes_iff open_ = (
      λ p. Passes-sound p.0 open_ p.1,
      λ g. (authorize core allowed (store_user g.0 c), Passes-complete g.0 open_ g.1 g.2),
    )
