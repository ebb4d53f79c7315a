-- ===== src/Routes/Pattern/Laws.antt =====
-- The groups of a match: no group holds a slash, and the segments of an accepted path match again.
use Prim.Native.String
use Prim.Native.String.{[], ◌∷◌}
use text.Mathlib.TextLemmas.{nil-append, cons-append}
use dataspace_ica_ts.Common.{
  String, ◌≡◌, refl, true, false, inl, inr, Bool-cases, Option-cases, Option, some, none, List, [],
  ◌∷◌, arith, is_empty, ◌==◌, eq_refl,
}
use dataspace_ica_ts.Text.{to_lower, split}
use dataspace_ica_ts.Text.Slashes.{NoSlash, All, split-NoSlash, split-join_slash}
use dataspace_ica_ts.Text.{join}
use dataspace_ica_ts.Routes.Pattern.{
  Segment, fixed, capture, after, one_of, drop_folded, match_segment, keep_group, match_parts, exec,
}

drop_folded-NoSlash :
    (prefix s rest : String) → drop_folded prefix s ≡ some rest → NoSlash s → NoSlash rest
unfolding drop_folded
drop_folded-NoSlash [] s rest e h = ground (arith)
drop_folded-NoSlash (p ∷ prefix) [] rest e h = cc
drop_folded-NoSlash (p ∷ prefix) (c ∷ s) rest e h =
    let found : String = p ∷ [] in
    let letter : String = c ∷ [] in
    elim (Bool-cases (to_lower letter == found)) [
      | inl same ↦ drop_folded-NoSlash prefix s rest (rw same at e) h.1
      | inr other ↦ ground (arith, (rw other at e))
    ]

abbrev NoSlashGroup : Option String → Type 0
NoSlashGroup none = Unit
NoSlashGroup (some s) = NoSlash s

match_segment-NoSlash :
    (segment : Segment) (part : String) (group : Option String)
    → match_segment segment part ≡ some group
    → NoSlash part
    → NoSlashGroup group
unfolding match_segment
match_segment-NoSlash (fixed text) part group e h = ground (arith)
match_segment-NoSlash capture part group e h = ground (arith)
match_segment-NoSlash (after prefix) part group e h =
    elim (Option-cases (drop_folded prefix part)) [
      | inl missed ↦ ground (arith, (rw (missed, match_segment) at e))
      | inr (rest, found) ↦
          ground
            (arith, (rw (found, match_segment) at e), drop_folded-NoSlash prefix part rest found h)
    ]
match_segment-NoSlash (one_of texts) part group e h = ground (arith)

keep_group-NoSlash :
    (group : Option String) (groups : List String)
    → NoSlashGroup group
    → All NoSlash groups
    → All NoSlash (keep_group group groups)
keep_group-NoSlash none groups h k = k
keep_group-NoSlash (some s) groups h k = (h, k)

match_parts-NoSlash :
    (segments : List Segment) (parts groups : List String)
    → match_parts segments parts ≡ some groups
    → All NoSlash parts
    → All NoSlash groups
unfolding match_parts
match_parts-NoSlash [] [] groups e h = ground (arith)
match_parts-NoSlash [] (part ∷ parts) groups e h = cc
match_parts-NoSlash (segment ∷ segments) [] groups e h = cc
match_parts-NoSlash (segment ∷ segments) (part ∷ parts) groups e h =
    elim (Option-cases (match_segment segment part)) [
      | inl missed ↦ ground (arith, (rw (missed, match_parts) at e))
      | inr (group, found) ↦ elim (Option-cases (match_parts segments parts)) [
        | inl missed ↦ ground (arith, (rw (found, missed, match_parts) at e))
        | inr (rest, matched) ↦ ground (
          arith,
          (rw (found, matched, match_parts) at e),
          keep_group-NoSlash group rest (match_segment-NoSlash segment part group found h.0)
              (match_parts-NoSlash segments parts rest matched h.1),
        )
      ]
    ]

pub exec-NoSlash :
    (expression : List Segment) (pathname : String) (groups : List String)
    → exec expression pathname ≡ some groups
    → All NoSlash groups
unfolding exec
exec-NoSlash expression pathname groups e =
    match_parts-NoSlash expression (split 47 pathname) groups e (split-NoSlash pathname)

-- A path that joins slash-free segments is matched segment by segment.
pub exec-join :
    (expression : List Segment) (part : String) (parts : List String)
    → All NoSlash (part ∷ parts)
    → exec expression (join "/" (part ∷ parts)) ≡ match_parts expression (part ∷ parts)
unfolding exec
exec-join expression part parts h = rw (split-join_slash part parts h) refl

-- A prefix in lower case is dropped.
pub drop_folded-++ :
    (prefix s : String)
    → to_lower prefix ≡ prefix
    → drop_folded prefix (String.◌++◌ prefix s) ≡ some s
unfolding drop_folded to_lower
drop_folded-++ [] s h = rw (nil-append s) refl
drop_folded-++ (c ∷ prefix) s h =
    let letter : String = c ∷ [] in
    let same : to_lower letter ≡ letter = ground arith in
    let rest : to_lower prefix ≡ prefix = ground arith in
    rw (cons-append c prefix s) (rw (same, eq_refl letter, drop_folded-++ prefix s rest) refl)

pub match-cons :
    (segment : Segment) (segments : List Segment) (part : String) (parts groups : List String)
    (group : Option String)
    → match_segment segment part ≡ some group
    → match_parts segments parts ≡ some groups
    → match_parts (segment ∷ segments) (part ∷ parts) ≡ some (keep_group group groups)
unfolding match_parts
match-cons segment segments part parts groups group e h = rw (e, h, match_parts) refl

pub match-nil : match_parts [] [] ≡ some []
unfolding match_parts
match-nil = refl

pub match-fixed :
    (text part : String)
    → (to_lower part == text) ≡ true
    → match_segment (fixed text) part ≡ some none
unfolding match_segment
match-fixed text part e = rw (e, match_segment) refl

pub match-capture : (s : String) → is_empty s ≡ false → match_segment capture s ≡ some (some s)
unfolding match_segment
match-capture s e = rw (e, match_segment) refl

pub match-after :
    (prefix s : String)
    → to_lower prefix ≡ prefix
    → is_empty s ≡ false
    → match_segment (after prefix) (String.◌++◌ prefix s) ≡ some (some s)
unfolding match_segment
match-after prefix s lower e = rw (drop_folded-++ prefix s lower, e, match_segment) refl
