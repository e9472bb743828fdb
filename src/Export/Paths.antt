-- ===== src/Export/Paths.antt =====
-- utils/export.go: the paths of archive entries; and `path.Clean`, which they go through.
use prompt_sdk.Prelude.{
  Bool, false, ◌||◌, Option, none, some, List, [], ◌∷◌, ◌++◌, reverse, Text, codes, text_eq,
  is_empty, has_prefix, split, replace_byte, get_elem?, ◌==◌, if◌then◌else◌,
}

-- A step "..": it takes the last segment that stays back, if it is a name.
unfoldable pub up : Bool → List Text → List Text
up rooted [] = if rooted then [] else codes ".." ∷ []
up rooted (top ∷ rest) = if text_eq top (codes "..") then codes ".." ∷ top ∷ rest else rest

-- A segment is put on the stack of those that stay, the last one first.
unfoldable pub push_segment : Bool → List Text → Text → List Text
unfolding up
push_segment rooted stack segment =
    if is_empty segment || text_eq segment (codes ".")
    then stack
    else if text_eq segment (codes "..")
    then up rooted stack
    else segment ∷ stack

unfoldable pub push_all : Bool → List Text → List Text → List Text
unfolding push_segment
push_all rooted stack [] = stack
push_all rooted stack (segment ∷ segments) =
    push_all rooted (push_segment rooted stack segment) segments

unfoldable pub join : List Text → Text
join [] = []
join (s ∷ []) = s
join (s ∷ t ∷ ts) = s ++ b'/' ∷ join (t ∷ ts)

-- `path.Clean`
unfoldable pub clean : Text → Text
unfolding push_all join
clean p =
    let rooted = has_prefix p (codes "/") in
    let body = join (reverse (push_all rooted [] (split p b'/'))) in
    if rooted then codes "/" ++ body else if is_empty body then codes "." else body

unfoldable pub has_drive : Text → Bool
has_drive p = elim (get_elem? p 1) [ none ↦ false | some c ↦ c == b':' ]

-- `none` is the error of an invalid path
unfoldable pub sanitize_zip_path : Text → Option Text
sanitize_zip_path p =
    let cleaned = clean (replace_byte p b'\\' b'/') in
    if text_eq cleaned (codes ".")
      || (has_prefix cleaned (codes "/") || (has_prefix cleaned (codes "..") || has_drive cleaned))
    then none
    else some cleaned
