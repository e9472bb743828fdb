-- ===== src/Audit/Action.antt =====
-- audit/action.go: the default label of an audited request.
use prompt_sdk.Prelude.{
  Bool, true, false, not, ◌&&◌, ◌||◌, List, [], ◌∷◌, ◌++◌, Text, codes, text_eq, is_empty,
  has_prefix, has_suffix, trim_suffix, split, replace_byte, ltb, length, reverse, if◌then◌else◌,
  Unicode, to_lower, Option, none, some,
}

-- `methodVerb[method]`
unfoldable pub method_verb : Text → Option Text
method_verb method =
    if text_eq method (codes "POST")
    then some (codes "Created")
    else if text_eq method (codes "PUT")
    then some (codes "Updated")
    else if text_eq method (codes "PATCH")
    then some (codes "Updated")
    else if text_eq method (codes "DELETE")
    then some (codes "Deleted")
    else none

unfoldable pub is_mutating : Text → Bool
unfolding method_verb
is_mutating method = elim (method_verb method) [ none ↦ false | some verb ↦ true ]

unfoldable pub singularize : Text → Text
singularize word =
    if ltb 1 (length word)
      && (has_suffix word (codes "s")
          && (not (has_suffix word (codes "ss"))
              && (not (has_suffix word (codes "us")) && not (has_suffix word (codes "is")))))
    then trim_suffix word (codes "s")
    else word

-- a segment that the loop passes over
unfoldable pub is_skipped : Text → Bool
is_skipped segment =
    is_empty segment || (has_prefix segment (codes ":") || has_prefix segment (codes "*"))

module _ (u : Unicode) where
  unfoldable pub humanize : Text → Text
  unfolding singularize
  humanize segment =
      singularize (to_lower u (replace_byte (replace_byte segment b'-' b' ') b'_' b' '))

  -- the loop, over the segments from the last to the first
  unfoldable pub last_resource : List Text → Text
  unfolding humanize is_skipped
  last_resource [] = []
  last_resource (segment ∷ segments) =
      if is_skipped segment then last_resource segments else humanize segment

  unfoldable pub resource_from_template : Text → Text
  unfolding last_resource
  resource_from_template route_template = last_resource (reverse (split route_template b'/'))

  -- `verb` is empty only where the map has no entry
  unfoldable pub derive_action : Text → Text → Text
  unfolding method_verb resource_from_template
  derive_action method route_template =
      let verb : Text = elim (method_verb method) [ none ↦ method | some v ↦ v ] in
      let resource = resource_from_template route_template in
      if is_empty resource then verb else verb ++ (codes " " ++ resource)
