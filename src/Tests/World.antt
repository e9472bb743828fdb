-- ===== src/Tests/World.antt =====
-- A small world for the tests: a core service, a token verifier and requests. Core knows the
-- course phase "p1", whose lecturers hold "ios-Lecturer", and takes every caller for its student.
use prompt_sdk.Prelude.{
  true, false, Option, none, some, [], ◌∷◌, Text, codes, text_eq, if◌then◌else◌, Unicode,
}
use prompt_sdk.Identity.{Uuid, Roles, TokenUser, CourseRoles, Participation}
use prompt_sdk.Gin.{Key, Value, Context}
use prompt_sdk.Json.{Json, Object, Items, end, field}
use prompt_sdk.CoreRequests.{CoreService}
use prompt_sdk.Keycloak.{VerifierConfig, TokenVerifier}

abbrev pub parse : Text → Option Uuid
parse t = if text_eq t (codes "p1") then some 7 else none

abbrev pub ios_roles : CourseRoles
ios_roles = record {
  course_lecturer_role = codes "ios-Lecturer";
  course_editor_role = codes "ios-Editor";
  custom_role_prefix = codes "ios-";
}

abbrev pub member : Participation
member = record { is_student_of_course_phase = true; course_participation_id = 42 }

abbrev pub core : CoreService
core = record {
  send = λ r. some (record { status_code = 200; body = r.path });
  decode_course_roles = λ b. some ios_roles;
  decode_participation = λ b. some member;
  decode_subject_identifiers = λ b. none;
  parse_uuid = parse;
  uuid_text = λ id. codes "p1";
}

abbrev pub config : VerifierConfig
config = record {
  client_id = codes "prompt-server";
  expected_authorized_party = codes "prompt-client";
}

abbrev pub good_claims : Object
good_claims = field (codes "azp") (Json.str (codes "prompt-client")) (
    field (codes "aud") (Json.str (codes "prompt-server")) (
      field (codes "sub") (Json.str (codes "u1")) (
        field (codes "resource_access")
          (Json.obj (
            field (codes "prompt-server")
              (Json.obj (
                field (codes "roles")
                  (Json.arr (Items.cons (Json.str (codes "ios-Lecturer")) Items.nil)) end))
              end))
          end)))

-- The token of a client that has no entry under `resource_access`.
abbrev pub odd_claims : Object
odd_claims =
    field (codes "aud") (Json.str (codes "prompt-server"))
      (field (codes "resource_access") (Json.obj end) end)

abbrev pub tokens : TokenVerifier
tokens = record {
  verify = λ t. if text_eq t (codes "T") then some (codes "payload") else none;
  decode_claims = λ p. some good_claims;
}

abbrev pub person : Roles → TokenUser
person roles = record {
  roles = roles;
  id = codes "u1";
  email = [];
  matriculation_number = [];
  university_login = codes "ab12xyz";
  first_name = codes "Ada";
  last_name = codes "L";
  is_student_of_course = false;
  is_student_of_course_phase = false;
  course_participation_id = 0;
  is_lecturer = false;
  is_editor = false;
  custom_role_prefix = [];
}

abbrev pub request : Context
request = record {
  keys = λ k. none;
  aborted = false;
  status = 200;
  method = codes "POST";
  full_path = codes "/api/slots";
  params = (codes "coursePhaseID", codes "p1") ∷ [];
  authorization = codes "Bearer T";
  outbox = [];
}

abbrev holds_user : TokenUser → Key → Option Value
holds_user u Key.token_user = some (Value.user u)
holds_user u _ = none

abbrev pub request_of : TokenUser → Context
request_of u = record request { keys = holds_user u }

abbrev pub lecturer : TokenUser
lecturer = person ((codes "ios-Lecturer", true) ∷ [])

abbrev pub tutor : TokenUser
tutor = record (person []) { is_editor = true }

abbrev pub unicode : Unicode
unicode = record { lower_unicode = λ t. t; trim_unicode = λ t. t; is_digit_wide = λ c. false }
