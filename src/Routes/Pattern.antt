-- ===== src/Routes/Pattern.antt =====
-- The expressions at the head of src/api/path.ts, and `RegExp.prototype.exec` for them. Each is
-- anchored at both ends, ignores case, and has one item for each segment between slashes; `[^/]+`
-- never crosses a slash, so that an expression is a list of tests on the segments of the path.
pub mod Laws
use Prim.Native.String.{[], ◌∷◌}
use dataspace_ica_ts.Common.{
  String, Option, none, some, List, [], ◌∷◌, ◌==◌, if◌then◌else◌, any, is_empty,
}
use dataspace_ica_ts.Text.{to_lower, split}

pub data Segment : Type 0 where
  -- literal text
  fixed : String → Segment
  -- `(?<name>[^/]+)`
  capture : Segment
  -- literal text, then `(?<name>[^/]+)`
  after : String → Segment
  -- `(?<name>a|b|...)`
  one_of : List String → Segment

-- What follows the prefix, which is in lower case, where the text begins with it in any case.
unfoldable pub drop_folded : String → String → Option String
drop_folded [] s = some s
drop_folded (p ∷ prefix) [] = none
drop_folded (p ∷ prefix) (c ∷ s) =
    let rest = drop_folded prefix s in
    let found : String = p ∷ [] in
    let letter : String = c ∷ [] in if to_lower letter == found then rest else none

abbrev pub non_empty : String → Option String
non_empty s = if is_empty s then none else some s

-- The group of a segment, if it has one.
unfoldable pub match_segment : Segment → String → Option (Option String)
unfolding drop_folded
match_segment (fixed text) part = if to_lower part == text then some none else none
match_segment capture part = elim (non_empty part) [ none ↦ none | some s ↦ some (some s) ]
match_segment (after prefix) part = elim (drop_folded prefix part) [
  | none ↦ none
  | some rest ↦ elim (non_empty rest) [ none ↦ none | some s ↦ some (some s) ]
]
match_segment (one_of texts) part =
    if any (λ text. to_lower part == text) texts then some (some part) else none

abbrev pub keep_group : Option String → List String → List String
keep_group none groups = groups
keep_group (some s) groups = s ∷ groups

-- The groups in their order.
unfoldable pub match_parts : List Segment → List String → Option (List String)
unfolding match_segment
match_parts [] [] = some []
match_parts [] (_ ∷ _) = none
match_parts (_ ∷ _) [] = none
match_parts (segment ∷ segments) (part ∷ parts) = elim (match_segment segment part) [
  | none ↦ none
  | some group ↦ elim (match_parts segments parts) [
    | none ↦ none
    | some groups ↦ some (keep_group group groups)
  ]
]

unfoldable pub exec : List Segment → String → Option (List String)
unfolding match_parts
exec expression pathname = match_parts expression (split 47 pathname)
