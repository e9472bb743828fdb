-- ===== src/Ownership.antt =====
-- keycloakTokenVerifier/ownership.go: a student acts on their own course participation only.
-- `uuid.Parse` is a parameter.
use prompt_sdk.Prelude.{
  sym, refl, subst, ◌≢◌, ◌⊎◌, inl, inr, Option-cases, Bool-cases, ℕ, ◌≡◌, ◌↔◌, Option, none, some,
  Text, ◌==◌, Result, ok, err, arith, if◌then◌else◌,
}
use prompt_sdk.Identity.{Uuid}
use prompt_sdk.Gin.{Key, Value, Context}

pub data OwnershipError : Type 0 where
  not_found invalid_format invalid_id : OwnershipError
  not_own : OwnershipError  -- the error that ValidateStudentOwnership makes itself

-- `GetUserCourseParticipationIDErrorStatus`
unfoldable pub error_status : OwnershipError → ℕ
error_status not_found = 401
error_status invalid_format = 400
error_status invalid_id = 400
error_status not_own = 500

module _ (parse_uuid : Text → Option Uuid) where
  id_of : Option Value → Result OwnershipError Uuid
  id_of none = err not_found
  id_of (some (Value.uuid id)) = ok id
  id_of (some (Value.str text)) = elim (parse_uuid text) [ none ↦ err invalid_id | some id ↦ ok id ]
  id_of (some _) = err invalid_format

  unfoldable pub get_user_course_participation_id : Context → Result OwnershipError Uuid
  unfolding id_of
  get_user_course_participation_id c = id_of (c.keys Key.course_participation_id)

  -- the status, and the error if there is one
  unfoldable pub validate_student_ownership : Context → Uuid → ℕ × Option OwnershipError
  unfolding error_status
  validate_student_ownership c author = elim (get_user_course_participation_id c) [
    | err e ↦ (error_status e, some e)
    | ok id ↦ if author == id then (200, none) else (403, some not_own)
  ]

  -- The context holds this course participation, as a UUID or as its text.
  abbrev pub Holds : Context → Uuid → Type 0
  Holds c id =
      (c.keys Key.course_participation_id ≡ some (Value.uuid id))
      ⊎ ((text : Text) × (c.keys Key.course_participation_id ≡ some (Value.str text))
          × (parse_uuid text ≡ some id))

  -- What a call gives, and why. No two of the reasons hold at once.
  pub data Verdict (c : Context) (author : Uuid) : ℕ → Option OwnershipError → Type 0 where
    own : Holds c author → Verdict c author 200 none
    foreign : (id : Uuid) → Holds c id → author ≢ id → Verdict c author 403 (some not_own)
    absent : c.keys Key.course_participation_id ≡ none → Verdict c author 401 (some not_found)
    unparsed :
        (text : Text)
        → c.keys Key.course_participation_id ≡ some (Value.str text)
        → parse_uuid text ≡ none
        → Verdict c author 400 (some invalid_id)
    of_other_type :
        (v : Value)
        → c.keys Key.course_participation_id ≡ some v
        → ((id : Uuid) → v ≢ Value.uuid id)
        → ((text : Text) → v ≢ Value.str text)
        → Verdict c author 400 (some invalid_format)

  Holds-once : (c : Context) (a b : Uuid) → Holds c a → Holds c b → a ≡ b
  Holds-once c a b (inl e) (inl f) = ground arith
  Holds-once c a b (inl e) (inr (t, f, p)) = absurd (ground arith)
  Holds-once c a b (inr (t, e, p)) (inl f) = absurd (ground arith)
  Holds-once c a b (inr (t, e, p)) (inr (s, f, q)) = let same : t ≡ s = ground arith in ground arith

  accepted_iff :
      (c : Context) (author : Uuid) (status : ℕ) (o : Option OwnershipError)
      → Verdict c author status o
      → (o ≡ none) ↔ Holds c author
  accepted_iff c author _ _ (own h) = ((λ e. h), λ k. refl)
  accepted_iff c author _ _ (foreign id h other) =
      ((λ e. cc), λ k. absurd (other (Holds-once c author id k h)))
  accepted_iff c author _ _ (absent h) = ((λ e. cc), λ k. absurd (ground (arith, k)))
  accepted_iff c author _ _ (unparsed text h p) = ((λ e. cc), λ k. absurd (ground (arith, k)))
  accepted_iff c author _ _ (of_other_type v h no_uuid no_text) = (
    (λ e. cc),
    λ k. elim k [
      | inl e ↦ absurd (no_uuid author (ground (arith, h, e)))
      | inr (text, e, p) ↦ absurd (no_text text (ground (arith, h, e)))
    ],
  )

  judged :
      (c : Context) (author : Uuid) (answer : ℕ × Option OwnershipError)
      → validate_student_ownership c author ≡ answer
      → Verdict c author answer.0 answer.1
      → Verdict c author
          (validate_student_ownership c author).0
          (validate_student_ownership c author).1
  judged c author answer h v = subst (λ a. Verdict c author a.0 a.1) (sym h) v

  compared :
      (c : Context) (author id : Uuid)
      → Holds c id
      → get_user_course_participation_id c ≡ ok id
      → Verdict c author
          (validate_student_ownership c author).0
          (validate_student_ownership c author).1
  unfolding validate_student_ownership
  compared c author id h e = elim (Bool-cases (author == id)) [
    | inl same ↦
        let k : id ≡ author = ground arith in
        judged c author (200, none) (ground arith) (own (subst (Holds c) k h))
    | inr other ↦ judged c author (403, some not_own) (ground arith) (foreign id h (ground arith))
  ]

  refused :
      (c : Context) (author : Uuid) (e : OwnershipError)
      → get_user_course_participation_id c ≡ err e
      → validate_student_ownership c author ≡ (error_status e, some e)
  unfolding validate_student_ownership
  refused c author e h = ground arith

  read :
      (c : Context) (author : Uuid) (v : Value)
      → c.keys Key.course_participation_id ≡ some v
      → Verdict c author
          (validate_student_ownership c author).0
          (validate_student_ownership c author).1
  unfolding get_user_course_participation_id error_status
  read c author (Value.uuid id) e = compared c author id (inl e) (ground arith)
  read c author (Value.str text) e = elim (Option-cases (parse_uuid text)) [
    | inl f ↦ judged c author _ (refused c author invalid_id (ground arith)) (unparsed text e f)
    | inr (id, f) ↦ compared c author id (inr (text, e, f)) (ground arith)
  ]
  read c author v e =
      judged c author _ (refused c author invalid_format (ground arith))
        (of_other_type v e (λ id h. ground arith) (λ t h. ground arith))

  -- Each call gives one of: 200 without an error for the author's own course participation, which
  -- the context holds as a UUID or as its text; 403 for that of another; 401 where the context
  -- holds none; and 400 for a text that is no UUID and for a value of another type. It gives no
  -- error exactly if the context holds the author's.
  pub validate_student_ownership-Verdict :
      (c : Context) (author : Uuid)
      → Verdict c author
          (validate_student_ownership c author).0
          (validate_student_ownership c author).1
        × (((validate_student_ownership c author).1 ≡ none) ↔ Holds c author)
  unfolding error_status
  validate_student_ownership-Verdict c author =
      let v : Verdict c author (validate_student_ownership c author).0
          (validate_student_ownership c author).1 =
        elim (Option-cases (c.keys Key.course_participation_id)) [
          | inl e ↦
              judged c author _
                (refused c author not_found
                  (unfold get_user_course_participation_id in ground arith))
                (absent e)
          | inr (value, e) ↦ read c author value e
        ] in
      (v, accepted_iff c author _ _ v)
