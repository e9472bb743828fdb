-- ===== src/Auth/RoleSets.antt =====
-- The set of allowed roles of authMiddleware.go, and the tests on it.
use prompt_sdk.Prelude.{
  ◌≡◌, ◌≢◌, refl, sym, ◌∙◌, ap, ◌⊎◌, inl, inr, true, false, not, ◌||◌, ◌&&◌, List, [], ◌∷◌, ◌++◌,
  Text, text_eq, text_eq_iff, text_eq_refl, contains, any, Bool-cases, arith,
}
use prompt_sdk.Identity.{
  Roles, has_role, prompt_admin, prompt_lecturer, course_lecturer, course_editor, course_student,
}
use prompt_sdk.Auth.{
  add_to_set, build_from, build_allowed_roles_set, is_custom_role, requires_lecturer_or_custom,
  any_custom_role, only_contains_admin_and_lecturer,
}

-- membership respects equality of texts
pub contains-eq : (ss : List Text) (s t : Text) → text_eq s t ≡ true → contains ss s ≡ contains ss t
contains-eq ss s t e = ap (contains ss) ((text_eq_iff s t).0 e)

contains-add_to_set :
    (ss : List Text) (role r : Text)
    → contains (add_to_set ss role) r ≡ (text_eq role r || contains ss r)
unfolding add_to_set contains
contains-add_to_set ss role r = elim (Bool-cases (contains ss role)) [
  | inl old ↦ elim (Bool-cases (text_eq role r)) [
    | inl same ↦ rw (old, same) (sym (contains-eq ss role r same) ∙ old)
    | inr other ↦ rw (old, other)
  ]
  | inr new ↦ rw new
]

contains-build_from :
    (ss roles : List Text) (r : Text)
    → contains (build_from ss roles) r ≡ (contains roles r || contains ss r)
unfolding build_from contains
contains-build_from ss [] r = refl
contains-build_from ss (role ∷ roles) r =
    ground (arith, contains-build_from (add_to_set ss role) roles r, contains-add_to_set ss role r)

-- The set holds the listed roles.
pub contains-build_allowed_roles_set :
    (roles : List Text) (r : Text) → contains (build_allowed_roles_set roles) r ≡ contains roles r
unfolding build_allowed_roles_set contains
contains-build_allowed_roles_set roles r = ground (arith, contains-build_from [] roles r)

-- The five names differ.
abbrev pub IsPlatform : Text → Type 0
IsPlatform r = (r ≡ prompt_admin) ⊎ (r ≡ prompt_lecturer)

pub IsPlatform-names :
    ¬ IsPlatform course_lecturer × (¬ IsPlatform course_editor) × (¬ IsPlatform course_student)
unfolding prompt_admin prompt_lecturer course_lecturer course_editor course_student
IsPlatform-names = (ground arith, ground arith, ground arith)

pub course_names : (course_lecturer ≢ course_student) × (course_editor ≢ course_student)
unfolding course_lecturer course_editor course_student
course_names = (ground arith, ground arith)

pub only_contains-true :
    (ss : List Text) (r : Text)
    → only_contains_admin_and_lecturer ss ≡ true
    → contains ss r ≡ true
    → (r ≡ prompt_admin) ⊎ (r ≡ prompt_lecturer)
unfolding only_contains_admin_and_lecturer contains
only_contains-true [] r h k = cc
only_contains-true (s ∷ ss) r h k = ground (
  arith,
  text_eq_iff s r,
  text_eq_iff s prompt_admin,
  text_eq_iff s prompt_lecturer,
  only_contains-true ss r,
)

-- The group roles of a list, tried under a prefix.
pub any_custom_role_sound :
    (prefix : Text) (allowed : List Text) (roles : Roles)
    → any_custom_role prefix allowed roles ≡ true
    → (r : Text) × (contains allowed r ≡ true)
      × (is_custom_role r ≡ true)
      × (has_role roles (prefix ++ r) ≡ true)
unfolding any_custom_role contains
any_custom_role_sound prefix [] roles h = cc
any_custom_role_sound prefix (s ∷ ss) roles h =
    elim (Bool-cases (is_custom_role s && has_role roles (prefix ++ s))) [
      | inl e ↦ (s, rw text_eq_refl, ground arith, ground arith)
      | inr e ↦
          let (r, listed, custom, held) = any_custom_role_sound prefix ss roles (ground arith) in
          (r, ground arith, custom, held)
    ]

pub any_custom_role_complete :
    (prefix : Text) (allowed : List Text) (roles : Roles) (r : Text)
    → contains allowed r ≡ true
    → is_custom_role r ≡ true
    → has_role roles (prefix ++ r) ≡ true
    → any_custom_role prefix allowed roles ≡ true
unfolding any_custom_role contains
any_custom_role_complete prefix [] roles r k custom held = cc
any_custom_role_complete prefix (s ∷ ss) roles r k custom held = elim (Bool-cases (text_eq s r)) [
  | inl same ↦ let e : s ≡ r = (text_eq_iff s r).0 same in rw e (rw (custom, held))
  | inr other ↦ ground (arith, any_custom_role_complete prefix ss roles r)
]

any_custom_sound :
    (roles : List Text)
    → any is_custom_role roles ≡ true
    → (r : Text) × (contains roles r ≡ true) × (is_custom_role r ≡ true)
unfolding contains
any_custom_sound [] h = cc
any_custom_sound (s ∷ ss) h = elim (Bool-cases (is_custom_role s)) [
  | inl e ↦ (s, rw text_eq_refl, e)
  | inr e ↦
      let (r, listed, custom) = any_custom_sound ss (ground arith) in (r, ground arith, custom)
]

any_custom_complete :
    (roles : List Text) (r : Text)
    → contains roles r ≡ true
    → is_custom_role r ≡ true
    → any is_custom_role roles ≡ true
unfolding contains
any_custom_complete [] r k h = cc
any_custom_complete (s ∷ ss) r k h = elim (Bool-cases (text_eq s r)) [
  | inl same ↦ let e : s ≡ r = (text_eq_iff s r).0 same in rw e (rw h)
  | inr other ↦ ground (arith, any_custom_complete ss r)
]

-- A group role has none of the names that the middleware resolves itself.
pub is_custom_role-ne : (r : Text) → is_custom_role r ≡ true → ¬ IsPlatform r × (r ≢ course_student)
unfolding is_custom_role contains
is_custom_role-ne r h =
    ground (
      arith,
      text_eq_iff prompt_admin r,
      text_eq_iff prompt_lecturer r,
      text_eq_iff course_student r,
    )

unfold_custom :
    (r : Text)
    → is_custom_role r
      ≡ not (
          text_eq prompt_admin r
          || (text_eq prompt_lecturer r
              || (text_eq course_lecturer r
                  || (text_eq course_editor r || (text_eq course_student r || false)))))
unfolding is_custom_role contains
unfold_custom r = refl

-- The route lists a role that only the role lookup can decide.
abbrev pub NeedsCourseRoles : List Text → Type 0
NeedsCourseRoles allowed =
    (r : Text) × (contains allowed r ≡ true)
    × (r ≢ prompt_admin)
    × (r ≢ prompt_lecturer)
    × (r ≢ course_student)

-- The role lookup is made exactly for the lists that need it.
pub requires_sound :
    (allowed : List Text)
    → requires_lecturer_or_custom (build_allowed_roles_set allowed) allowed ≡ true
    → NeedsCourseRoles allowed
unfolding requires_lecturer_or_custom
requires_sound allowed h = elim (Bool-cases (contains allowed course_lecturer)) [
  | inl e ↦ (
    course_lecturer,
    e,
    λ p. IsPlatform-names.0 (inl p),
    λ p. IsPlatform-names.0 (inr p),
    course_names.0,
  )
  | inr e ↦ elim (Bool-cases (contains allowed course_editor)) [
    | inl f ↦ (
      course_editor,
      f,
      λ p. IsPlatform-names.1 (inl p),
      λ p. IsPlatform-names.1 (inr p),
      course_names.1,
    )
    | inr f ↦
        let found : any is_custom_role allowed ≡ true = ground (
          arith,
          contains-build_allowed_roles_set allowed course_lecturer,
          contains-build_allowed_roles_set allowed course_editor,
        ) in
        let (r, listed, custom) = any_custom_sound allowed found in
        let (away, other) = is_custom_role-ne r custom in
        (r, listed, λ p. away (inl p), λ p. away (inr p), other)
  ]
]

pub requires_complete :
    (allowed : List Text)
    → NeedsCourseRoles allowed
    → requires_lecturer_or_custom (build_allowed_roles_set allowed) allowed ≡ true
unfolding requires_lecturer_or_custom
requires_complete allowed (r, listed, p, q, s) = ground (
  arith,
  contains-build_allowed_roles_set allowed course_lecturer,
  contains-build_allowed_roles_set allowed course_editor,
  text_eq_iff prompt_admin r,
  text_eq_iff prompt_lecturer r,
  text_eq_iff course_lecturer r,
  text_eq_iff course_editor r,
  text_eq_iff course_student r,
  any_custom_complete allowed r listed,
  unfold_custom r,
  contains-eq allowed course_lecturer r,
  contains-eq allowed course_editor r,
)
