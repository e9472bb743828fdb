-- ===== src/Resolution/Targets.antt =====
-- resolution.go: the target of a resolution, and `url.PathUnescape`.
use prompt_sdk.Prelude.{
  ℕ, ◌+◌, ◌-◌, ◌*◌, Bool, true, false, not, ◌&&◌, Option, none, some, List, [], ◌∷◌, Text, codes,
  text_eq, is_empty, contains, split, trim, leb, ◌==◌, any, if◌then◌else◌,
}
use prompt_sdk.Identity.{Uuid}

pub record Resolution : Type 0 where
  pub dto_name : Text
  pub base_url : Text
  pub endpoint_path : Text
  pub course_phase_id : Uuid

-- What net/url reads from a URL.
pub record ParsedUrl : Type 0 where
  pub scheme : Text
  pub host : Text
  pub has_user : Bool
  pub path : Text

unfoldable pub unhex : ℕ → Option ℕ
unhex c =
    if leb b'0' c && leb c b'9'
    then some (c - b'0')
    else if leb b'a' c && leb c b'f'
    then some (c - b'a' + 10)
    else if leb b'A' c && leb c b'F'
    then some (c - b'A' + 10)
    else none

-- an escaped byte, if both digits are hexadecimal
unfoldable pub escaped_byte : ℕ → ℕ → Option ℕ
escaped_byte a b = elim (unhex a) [
  | none ↦ none
  | some x ↦ elim (unhex b) [ none ↦ none | some y ↦ some (x * 16 + y) ]
]

unfoldable pub prepend : Option ℕ → Option Text → Option Text
prepend (some c) (some s) = some (c ∷ s)
prepend _ _ = none

-- `url.PathUnescape`
unfoldable pub path_unescape : Text → Option Text
path_unescape [] = some []
path_unescape (c ∷ []) = if c == b'%' then none else some (c ∷ [])
path_unescape (c ∷ a ∷ []) = elim (c == b'%') [
  | true ↦ none
  | false ↦ prepend (some c) (path_unescape (a ∷ []))
]
path_unescape (c ∷ a ∷ b ∷ s) = elim (c == b'%') [
  | true ↦ prepend (escaped_byte a b) (path_unescape s)
  | false ↦ prepend (some c) (path_unescape (a ∷ b ∷ s))
]

unfoldable pub has_traversal_segment : Text → Bool
has_traversal_segment path = elim (path_unescape path) [
  | none ↦ true
  | some decoded ↦ contains (split decoded b'/') (codes "..")
]

unfoldable pub get_endpoint_path : Text → Text
get_endpoint_path path = trim b'/' path

module _ (parse_url : Text → Option ParsedUrl) (join_path : ParsedUrl → List Text → Text)
    (uuid_text : Uuid → Text) where
  unfoldable pub validate_resolution_target : Resolution → Option ParsedUrl
  validate_resolution_target res = elim (parse_url res.base_url) [
    | none ↦ none
    | some u ↦
        if not (text_eq u.scheme (codes "http")) && not (text_eq u.scheme (codes "https"))
        then none
        else if is_empty u.host
        then none
        else if u.has_user
        then none
        else some u
  ]

  unfoldable pub all_paths : Resolution → List Text → List Text
  all_paths res extra =
      codes "course_phase"
      ∷ uuid_text res.course_phase_id
      ∷ get_endpoint_path res.endpoint_path
      ∷ extra

  unfoldable pub build_url : Resolution → List Text → Option Text
  build_url res extra = elim (validate_resolution_target res) [
    | none ↦ none
    | some base ↦
        if any has_traversal_segment (all_paths res extra)
        then none
        else some (join_path base (all_paths res extra))
  ]
