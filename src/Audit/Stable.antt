-- ===== src/Audit/Stable.antt =====
-- That the actor of a token user does not depend on the order in which a map of roles is read.
use mathlib.Core.List.{Perm, Permᴰ}
use mathlib.Core.Logic.{∥∥₁_elim}
use prompt_sdk.Prelude.{
  ◌≡◌, ◌≢◌, inl, inr, refl, sym, ap, ◌∙◌, subst, Bool, true, false, ◌||◌, List, [], ◌∷◌, Text,
  text_eq, text_eq_iff, text_lt, is_empty, has_suffix, All, All-permuted, ap₂, Bool-cases, Distinct,
  Distinct-permuted, any-permuted, Unicode, if◌then◌else◌, arith,
}
use prompt_sdk.Identity.{
  prompt_admin, prompt_lecturer, course_lecturer, course_editor, course_student, Roles, TokenUser,
  has_role,
}
use prompt_sdk.Audit.Actors.{
  role_names, any_with_suffix, smallest_from, insert_sorted, sort_strings, primary_role, actor_of,
}

text_lt_total : (s t : Text) → text_lt s t ≡ false → text_lt t s ≡ false → s ≡ t
unfolding text_lt
text_lt_total [] [] h k = refl
text_lt_total [] (d ∷ t) h k = ground arith
text_lt_total (c ∷ s) [] h k = ground arith
text_lt_total (c ∷ s) (d ∷ t) h k = ground (arith, text_lt_total s t)

text_lt_asym : (s t : Text) → text_lt s t ≡ true → text_lt t s ≡ false
unfolding text_lt
text_lt_asym [] [] h = ground arith
text_lt_asym [] (d ∷ t) h = refl
text_lt_asym (c ∷ s) [] h = ground arith
text_lt_asym (c ∷ s) (d ∷ t) h = ground (arith, text_lt_asym s t)

text_lt_trans : (s t r : Text) → text_lt s t ≡ true → text_lt t r ≡ true → text_lt s r ≡ true
unfolding text_lt
text_lt_trans [] [] r h k = ground arith
text_lt_trans [] (d ∷ t) [] h k = ground arith
text_lt_trans [] (d ∷ t) (e ∷ r) h k = refl
text_lt_trans (c ∷ s) [] r h k = ground arith
text_lt_trans (c ∷ s) (d ∷ t) [] h k = ground arith
text_lt_trans (c ∷ s) (d ∷ t) (e ∷ r) h k = ground (arith, text_lt_trans s t r)

text_lt_after : (s t r : Text) → text_lt t s ≡ false → text_lt t r ≡ true → text_lt s r ≡ true
text_lt_after s t r h k = elim (Bool-cases (text_lt s t)) [
  | inl e ↦ text_lt_trans s t r e k
  | inr e ↦ subst (λ x. text_lt x r ≡ true) (sym (text_lt_total s t e h)) k
]

-- One round of the last loop.
abbrev smaller : Text → Text → Text
smaller fallback name = if is_empty fallback || text_lt name fallback then name else fallback

min_comm : (a b : Text) → (if text_lt b a then b else a) ≡ (if text_lt a b then a else b)
min_comm a b = ground (arith, text_lt_asym a b, text_lt_total a b)

smaller_comm :
    (f a b : Text)
    → is_empty a ≡ false
    → is_empty b ≡ false
    → smaller (smaller f a) b ≡ smaller (smaller f b) a
smaller_comm f a b ha hb =
    ground (arith, ha, hb, min_comm a b, text_lt_trans b a f, text_lt_trans a b f)

smallest_from-permuted :
    {ns ms : List Text} (f : Text)
    → Permᴰ ns ms
    → All (λ name. is_empty name ≡ false) ns
    → smallest_from f ns ≡ smallest_from f ms
unfolding smallest_from
smallest_from-permuted f Permᴰ.nil h = refl
smallest_from-permuted f (Permᴰ.cons {a = a} {l₂ = l₂} e p) h =
    smallest_from-permuted (smaller f a) p h.1 ∙ ap (λ n. smallest_from (smaller f n) l₂) e
smallest_from-permuted f (Permᴰ.swap {a = a} {b = b} {l = l} e g) h =
    ap (λ n. smallest_from n l) (smaller_comm f a b h.0 h.1.0)
    ∙ ap₂ (λ n m. smallest_from (smaller (smaller f n) m) l) g e
smallest_from-permuted f (Permᴰ.trans p q) h =
    smallest_from-permuted f p h ∙ smallest_from-permuted f q (All-permuted _ p h)

role_names-permuted : {rs ss : Roles} → Permᴰ rs ss → Permᴰ (role_names rs) (role_names ss)
role_names-permuted Permᴰ.nil = Permᴰ.nil
role_names-permuted (Permᴰ.cons e p) = Permᴰ.cons (ap (λ r. r.0) e) (role_names-permuted p)
role_names-permuted (Permᴰ.swap e f) = Permᴰ.swap (ap (λ r. r.0) e) (ap (λ r. r.0) f)
role_names-permuted (Permᴰ.trans p q) = Permᴰ.trans (role_names-permuted p) (role_names-permuted q)

swapped :
    (a b : Text × Bool) (l : Roles) (role : Text)
    → b.0 ≢ a.0
    → has_role (a ∷ b ∷ l) role ≡ has_role (b ∷ a ∷ l) role
unfolding has_role
swapped a b l role h = ground (arith, h, text_eq_iff a.0 role, text_eq_iff b.0 role)

has_role-permuted :
    {rs ss : Roles} (role : Text)
    → Permᴰ rs ss
    → Distinct (role_names rs)
    → has_role rs role ≡ has_role ss role
unfolding has_role
has_role-permuted role Permᴰ.nil h = refl
has_role-permuted role (Permᴰ.cons {a = a} {b = b} {l₂ = l₂} e p) h =
    ap (λ x. if text_eq a.0 role then a.1 else x) (has_role-permuted role p h.1)
    ∙ ap (λ r. has_role (r ∷ l₂) role) e
has_role-permuted role (Permᴰ.swap {a = a} {b = b} {l = l} e f) h =
    swapped a b l role h.0.0 ∙ ap₂ (λ x y. has_role (x ∷ y ∷ l) role) f e
has_role-permuted role (Permᴰ.trans p q) h =
    has_role-permuted role p h
    ∙ has_role-permuted role q (Distinct-permuted (role_names-permuted p) h)

insert_sorted_comm :
    (a b : Text) (ss : List Text)
    → insert_sorted a (insert_sorted b ss) ≡ insert_sorted b (insert_sorted a ss)
unfolding insert_sorted
insert_sorted_comm a b [] = ground (arith, text_lt_asym a b, text_lt_total a b)
insert_sorted_comm a b (s ∷ ss) = elim (Bool-cases (text_lt s a)) [
  | inl ea ↦ elim (Bool-cases (text_lt s b)) [
    | inl eb ↦ ground (arith, insert_sorted_comm a b ss)
    | inr eb ↦ ground (arith, text_lt_after b s a)
  ]
  | inr ea ↦ elim (Bool-cases (text_lt s b)) [
    | inl eb ↦ ground (arith, text_lt_after a s b)
    | inr eb ↦ ground (arith, text_lt_asym a b, text_lt_total a b)
  ]
]

sort_strings-permuted : {ns ms : List Text} → Permᴰ ns ms → sort_strings ns ≡ sort_strings ms
unfolding sort_strings
sort_strings-permuted Permᴰ.nil = refl
sort_strings-permuted (Permᴰ.cons e p) = ap₂ insert_sorted e (sort_strings-permuted p)
sort_strings-permuted (Permᴰ.swap {a = a} {b = b} {l = l} e f) =
    insert_sorted_comm a b (sort_strings l)
    ∙ ap₂ (λ x y. insert_sorted x (insert_sorted y (sort_strings l))) f e
sort_strings-permuted (Permᴰ.trans p q) = sort_strings-permuted p ∙ sort_strings-permuted q

primary_role-permuted :
    {rs ss : Roles}
    → Permᴰ rs ss
    → Distinct (role_names rs)
    → All (λ name. is_empty name ≡ false) (role_names rs)
    → primary_role rs ≡ primary_role ss
unfolding primary_role any_with_suffix
primary_role-permuted p distinct named =
    let q = role_names-permuted p in
    rw
      (
        has_role-permuted prompt_admin p distinct,
        has_role-permuted prompt_lecturer p distinct,
        any-permuted (λ name. has_suffix name course_lecturer) q,
        any-permuted (λ name. has_suffix name course_editor) q,
        any-permuted (λ name. has_suffix name course_student) q,
        smallest_from-permuted [] q named,
      )
      refl

Text-set : IsSet Text
Text-set = hlevel

Texts-set : IsSet (List Text)
Texts-set = hlevel

-- The actor of a token user is the same in whichever order the map of its roles is read: his roles
-- are `roles` in any order, each named once and none by the empty text.
pub actor_of-perm :
    (u : Unicode) (tu : TokenUser) (roles : Roles)
    → Perm tu.roles roles
    → Distinct (role_names tu.roles)
    → All (λ name. is_empty name ≡ false) (role_names tu.roles)
    → actor_of u (record tu { roles = roles }) ≡ actor_of u tu
unfolding actor_of
actor_of-perm u tu roles p distinct named =
    let role =
      ∥∥₁_elim p (Text-set (primary_role roles) (primary_role tu.roles))
        (λ q. sym (primary_role-permuted q distinct named)) in
    let names =
      ∥∥₁_elim p (Texts-set (sort_strings (role_names roles)) (sort_strings (role_names tu.roles)))
        (λ q. sym (sort_strings-permuted (role_names-permuted q))) in
    rw (role, names) refl
