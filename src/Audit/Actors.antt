-- ===== src/Audit/Actors.antt =====
-- audit/context.go: who performed an action, read from the token user.
use prompt_sdk.Prelude.{
  Bool, ◌||◌, Option, none, some, List, [], ◌∷◌, ◌++◌, Text, codes, text_lt, is_empty, has_suffix,
  any, if◌then◌else◌, Unicode, trim_space,
}
use prompt_sdk.Identity.{
  Roles, has_role, TokenUser, prompt_admin, prompt_lecturer, course_lecturer, course_editor,
  course_student,
}
use prompt_sdk.Event.{Event}
use prompt_sdk.Gin.{Context}
use prompt_sdk.Memberships.{get_token_user}

pub record Actor : Type 0 where
  pub id : Text
  pub name : Text
  pub email : Text
  pub role : Text
  pub roles : List Text

-- `for role := range roles`, in the order of the entries
abbrev pub role_names : Roles → List Text
role_names [] = []
role_names ((k, v) ∷ roles) = k ∷ role_names roles

-- `sort.Strings`
unfoldable pub insert_sorted : Text → List Text → List Text
insert_sorted t [] = t ∷ []
insert_sorted t (s ∷ ss) = if text_lt s t then s ∷ insert_sorted t ss else t ∷ s ∷ ss

unfoldable pub sort_strings : List Text → List Text
unfolding insert_sorted
sort_strings [] = []
sort_strings (t ∷ ts) = insert_sorted t (sort_strings ts)

-- the inner loop: a held role that ends in a course role
unfoldable pub any_with_suffix : Text → List Text → Bool
any_with_suffix suffix names = any (λ name. has_suffix name suffix) names

-- the last loop of primaryRole
unfoldable pub smallest_from : Text → List Text → Text
smallest_from fallback [] = fallback
smallest_from fallback (name ∷ names) =
    smallest_from (if is_empty fallback || text_lt name fallback then name else fallback) names

unfoldable pub primary_role : Roles → Text
unfolding any_with_suffix smallest_from
primary_role roles =
    if has_role roles prompt_admin
    then prompt_admin
    else if has_role roles prompt_lecturer
    then prompt_lecturer
    else if any_with_suffix course_lecturer (role_names roles)
    then course_lecturer
    else if any_with_suffix course_editor (role_names roles)
    then course_editor
    else if any_with_suffix course_student (role_names roles)
    then course_student
    else smallest_from [] (role_names roles)

unfoldable pub actor_of : Unicode → TokenUser → Actor
unfolding sort_strings primary_role
actor_of u tu = record {
  id = tu.id;
  name = trim_space u (tu.first_name ++ (codes " " ++ tu.last_name));
  email = tu.email;
  role = primary_role tu.roles;
  roles = sort_strings (role_names tu.roles);
}

unfoldable pub default_actor_extractor : Unicode → Context → Option Actor
unfolding actor_of
default_actor_extractor u c = elim (get_token_user c) [
  | none ↦ none
  | some tu ↦ if is_empty tu.id then none else some (actor_of u tu)
]

unfoldable pub apply_actor : Event → Actor → Event
apply_actor e actor = record e {
  actor_id = actor.id;
  actor_name = actor.name;
  actor_email = actor.email;
  actor_role = actor.role;
  actor_roles = actor.roles;
}
