-- ===== src/Keycloak/Claims.antt =====
-- The roles that a token gives, read off its claims.
use prompt_sdk.Prelude.{
  ◌≡◌, refl, sym, ◌∙◌, ◌↔◌, inl, inr, true, false, ◌||◌, Option, none, some, [], Text, codes,
  text_eq_iff, contains, ok, err, Option-cases, Bool-cases, arith,
}
use prompt_sdk.Identity.{Roles, has_role, add_role, has_role-add_role}
use prompt_sdk.Json.{
  Json, str, arr, obj, Items, nil, cons, Object, find, as_array, as_object, strings,
}
use prompt_sdk.Keycloak.{
  VerifierConfig, panicked, any_string, audience_matches, check_audience, extract_resource_access,
  add_roles, client_roles, check_keycloak_roles,
}

any_string-contains : (xs : Items) (s : Text) → any_string xs s ≡ contains (strings xs) s
unfolding any_string contains strings
any_string-contains nil s = refl
any_string-contains (cons (str t) xs) s = ground (arith, any_string-contains xs s)
any_string-contains (cons _ xs) s = any_string-contains xs s

has_role-add_roles :
    (xs : Items) (roles : Roles) (r : Text)
    → has_role (add_roles roles xs) r ≡ (contains (strings xs) r || has_role roles r)
unfolding add_roles strings contains
has_role-add_roles nil roles r = refl
has_role-add_roles (cons (str t) xs) roles r =
    ground (arith, has_role-add_roles xs (add_role roles t) r, has_role-add_role roles t r)
has_role-add_roles (cons _ xs) roles r = has_role-add_roles xs roles r

-- The claim "aud" is the client, or lists it.
pub data HasAudience (claims : Object) (client_id : Text) : Type 0 where
  alone : find claims (codes "aud") ≡ some (str client_id) → HasAudience claims client_id
  among :
      (xs : Items)
      → find claims (codes "aud") ≡ some (arr xs)
      → contains (strings xs) client_id ≡ true
      → HasAudience claims client_id

-- The claims list the role under `resource_access.<client>.roles`, and name the client as audience.
pub record GivesRole (claims : Object) (client_id role : Text) : Type 0 where
  pub audience : HasAudience claims client_id
  pub access : Object
  pub client : Object
  pub listed : Items
  pub has_access : find claims (codes "resource_access") ≡ some (obj access)
  pub has_client : find access client_id ≡ some (obj client)
  pub has_list : find client (codes "roles") ≡ some (arr listed)
  pub has_role : contains (strings listed) role ≡ true

audience_matches_sound :
    (claims : Object) (client_id : Text) (o : Option Json)
    → find claims (codes "aud") ≡ o
    → audience_matches o client_id ≡ true
    → HasAudience claims client_id
unfolding audience_matches
audience_matches_sound claims client_id none e h = cc
audience_matches_sound claims client_id (some (str s)) e h =
    alone (ground (arith, text_eq_iff s client_id))
audience_matches_sound claims client_id (some (arr xs)) e h =
    among xs e (sym (any_string-contains xs client_id) ∙ h)
audience_matches_sound claims client_id (some _) e h = cc

check_audience_sound :
    (claims : Object) (client_id : Text)
    → check_audience claims client_id ≡ true
    → HasAudience claims client_id
unfolding check_audience
check_audience_sound claims client_id h = audience_matches_sound claims client_id _ refl h

check_audience_complete :
    (claims : Object) (client_id : Text)
    → HasAudience claims client_id
    → check_audience claims client_id ≡ true
unfolding check_audience audience_matches
check_audience_complete claims client_id (alone e) = ground (arith, text_eq_iff client_id client_id)
check_audience_complete claims client_id (among xs e h) =
    ground (arith, any_string-contains xs client_id)

as_object-some : (o : Option Json) (x : Object) → as_object o ≡ some x → o ≡ some (obj x)
as_object-some (some (obj y)) x h = ground arith
as_object-some none x h = cc
as_object-some (some _) x h = cc

as_array-some : (o : Option Json) (x : Items) → as_array o ≡ some x → o ≡ some (arr x)
as_array-some (some (arr y)) x h = ground arith
as_array-some none x h = cc
as_array-some (some _) x h = cc

listed_role :
    (xs : Items) (role : Text)
    → has_role (add_roles [] xs) role ≡ true
    → contains (strings xs) role ≡ true
unfolding has_role
listed_role xs role h = ground (arith, has_role-add_roles xs [] role)

module _ (config : VerifierConfig) (claims : Object) where
  -- The parts of the claims behind a list of roles that was read.
  read_parts :
      (roles : Roles)
      → check_keycloak_roles config claims ≡ ok roles
      → check_audience claims config.client_id ≡ true
      → (access client : Object) × (xs : Items) × (find claims (codes "resource_access")
          ≡ some (obj access))
        × (find access config.client_id ≡ some (obj client))
        × (find client (codes "roles") ≡ some (arr xs))
        × (roles ≡ add_roles [] xs)
  unfolding check_keycloak_roles client_roles extract_resource_access
  read_parts roles h aud = elim (Option-cases (as_object (find claims (codes "resource_access")))) [
    | inl e ↦ absurd (ground arith)
    | inr (access, e) ↦ elim (Option-cases (as_object (find access config.client_id))) [
      | inl f ↦ absurd (ground arith)
      | inr (client, f) ↦ elim (Option-cases (as_array (find client (codes "roles")))) [
        | inl g ↦ absurd (ground arith)
        | inr (xs, g) ↦ (
          access,
          client,
          xs,
          as_object-some _ access e,
          as_object-some _ client f,
          as_array-some _ xs g,
          ground arith,
        )
      ]
    ]
  ]

  no_audience :
      (roles : Roles) (role : Text)
      → check_keycloak_roles config claims ≡ ok roles
      → check_audience claims config.client_id ≡ false
      → has_role roles role ≡ false
  unfolding check_keycloak_roles has_role
  no_audience roles role h e = ground arith

  GivesRole-sound :
      (roles : Roles) (role : Text)
      → check_keycloak_roles config claims ≡ ok roles
      → has_role roles role ≡ true
      → GivesRole claims config.client_id role
  GivesRole-sound roles role h held = elim (Bool-cases (check_audience claims config.client_id)) [
    | inl aud ↦
        let (access, client, xs, e, f, g, same) = read_parts roles h aud in
        record {
          audience = check_audience_sound claims config.client_id aud;
          access = access;
          client = client;
          listed = xs;
          has_access = e;
          has_client = f;
          has_list = g;
          has_role = listed_role xs role (rw same at held);
        }
    | inr other ↦ cc (no_audience roles role h other)
  ]

  GivesRole-complete :
      (roles : Roles) (role : Text)
      → check_keycloak_roles config claims ≡ ok roles
      → GivesRole claims config.client_id role
      → has_role roles role ≡ true
  unfolding check_keycloak_roles client_roles extract_resource_access
  GivesRole-complete roles role h g = ground (
    arith,
    check_audience_complete claims config.client_id g.audience,
    has_role-add_roles g.listed [] role,
    g.has_access,
    g.has_client,
    g.has_list,
    g.has_role,
  )

  panics_sound :
      check_keycloak_roles config claims ≡ err panicked
      → HasAudience claims config.client_id
        × ((access : Object) × (find claims (codes "resource_access") ≡ some (obj access))
            × (as_object (find access config.client_id) ≡ none))
  unfolding check_keycloak_roles client_roles extract_resource_access
  panics_sound h = elim (Option-cases (as_object (find claims (codes "resource_access")))) [
    | inl e ↦ absurd (ground arith)
    | inr (access, e) ↦ (
      check_audience_sound claims config.client_id (ground arith),
      (access, as_object-some _ access e, ground arith),
    )
  ]

  panics_complete :
      HasAudience claims config.client_id
        × ((access : Object) × (find claims (codes "resource_access") ≡ some (obj access))
            × (as_object (find access config.client_id) ≡ none))
      → check_keycloak_roles config claims ≡ err panicked
  unfolding check_keycloak_roles client_roles extract_resource_access
  panics_complete (aud, (access, e, f)) =
      ground (arith, check_audience_complete claims config.client_id aud)

  -- A caller holds a role after a successful read exactly if the verified claims name the client
  -- as audience and list the role, as a string, under `resource_access.<client>.roles`.
  pub check_keycloak_roles-GivesRole_iff :
      (roles : Roles) (role : Text)
      → check_keycloak_roles config claims ≡ ok roles
      → (has_role roles role ≡ true) ↔ GivesRole claims config.client_id role
  check_keycloak_roles-GivesRole_iff roles role h =
      (GivesRole-sound roles role h, GivesRole-complete roles role h)

  -- A token that names the client as audience and has a `resource_access` object in which the
  -- client's entry is missing or no object makes the read panic: these tokens and no others.
  pub check_keycloak_roles_panics_iff : (check_keycloak_roles config claims ≡ err panicked) ↔ (
      HasAudience claims config.client_id
      × ((access : Object) × (find claims (codes "resource_access") ≡ some (obj access))
          × (as_object (find access config.client_id) ≡ none)))
  check_keycloak_roles_panics_iff = (panics_sound, panics_complete)
