-- ===== src/Routes/Resource.antt =====
-- src/api/path.ts: the resource types of document routes, "contract" or a version of the terms.
pub mod Stamps
pub mod Versions
pub mod Laws
use Prim.Native.Char.{Char, code}
use Prim.Native.String.{[], ◌∷◌}
use dataspace_ica_ts.Common.{
  ℕ, ◌+◌, ◌-◌, ◌*◌, String, Bool, true, false, not, ◌&&◌, ◌||◌, Option, none, some, List, [], ◌∷◌,
  ◌==◌, if◌then◌else◌, is_empty, is_nil, leb, ltb, map,
}
use dataspace_ica_ts.Text.{trim, to_lower, join}
use dataspace_ica_ts.Config.Catalogs.{parse_csv_list, includes}
use dataspace_ica_ts.Routes.Pattern.{drop_folded}
use dataspace_ica_ts.Routes.Scope.{RouteEnv, Parsed, parsed, rejected, ◌>>◌, refuse_if}

unfoldable pub parse_boolean : Option String → Bool → Bool
parse_boolean none fallback = fallback
parse_boolean (some value) fallback =
    let normalized = to_lower (trim value) in
    if normalized == "true" || normalized == "1" || normalized == "yes"
    then true
    else if normalized == "false" || normalized == "0" || normalized == "no"
    then false
    else fallback

unfoldable pub is_unified_test_terms_prefix_enabled : RouteEnv → Option Bool
unfolding parse_boolean
is_unified_test_terms_prefix_enabled env = elim env.enable_test_terms_prefix [
  | none ↦ none
  | some value ↦ some (parse_boolean (some value) false)
]

-- `\d`
abbrev pub is_digit : Char → Bool
is_digit c = leb 48 (code c) && leb (code c) 57

-- `Number.parseInt` of two digits.
abbrev pub two_digits : Char → Char → ℕ
two_digits a b = (code a - 48) * 10 + (code b - 48)

-- The comparisons of `isValidVersionToken`; a number is never below 0.
unfoldable pub is_valid_version : ℕ → ℕ → ℕ → ℕ → ℕ → Bool
is_valid_version year day month hour minute =
    if ltb year 2000 || ltb 2100 year
    then false
    else if ltb day 1 || ltb 31 day
    then false
    else if ltb month 1 || ltb 12 month
    then false
    else if ltb 23 hour
    then false
    else leb minute 59

-- `/^\d*$/`
unfoldable pub is_digits : String → Bool
is_digits [] = true
is_digits (c ∷ s) = is_digit c && is_digits s

-- The numbers of twelve characters: four of the year and two of each other number.
unfoldable pub has_valid_numbers : String → Bool
unfolding is_valid_version
has_valid_numbers
      (y1 ∷ (y2 ∷ (y3 ∷ (y4 ∷ (d1 ∷ (d2 ∷ (m1 ∷ (m2 ∷ (h1 ∷ (h2 ∷ (n1 ∷ (n2 ∷ [])))))))))))) =
    is_valid_version (two_digits y1 y2 * 100 + two_digits y3 y4) (two_digits d1 d2)
      (two_digits m1 m2) (two_digits h1 h2) (two_digits n1 n2)
has_valid_numbers _ = false

-- `isValidVersionToken`: `/^\d{12}$/` and the numbers.
unfoldable pub is_valid_version_token : String → Bool
unfolding is_digits has_valid_numbers
is_valid_version_token resource_type = is_digits resource_type && has_valid_numbers resource_type

-- `configuredActiveResourceTypes`
unfoldable pub configured_active_resource_types : RouteEnv → Option (List String)
configured_active_resource_types env =
    let values = parse_csv_list (λ s. s) env.terms_active_resource_types in
    if is_nil values then none else some (map to_lower values)

unfoldable pub allows_test_prefix : RouteEnv → Bool
unfolding is_unified_test_terms_prefix_enabled parse_boolean
allows_test_prefix env = elim (is_unified_test_terms_prefix_enabled env) [
  | none ↦ parse_boolean env.allow_test_resource_type_prefix false
  | some flag ↦ flag
]

abbrev version_message : String
version_message = "resourceType must be \"contract\" or a version token in format yyyyddmmhhmm."

abbrev disabled_message : String
disabled_message =
    "resourceType with \"test-\" prefix is disabled. Set ICA_ENABLE_TEST_TERMS_PREFIX=true for testing."

abbrev test_message : String
test_message = "resourceType must use format test-yyyyddmmhhmm when test prefix is enabled."

unfoldable pub parse_resource_type : RouteEnv → String → Parsed String
unfolding allows_test_prefix is_valid_version_token drop_folded
parse_resource_type env raw =
    let resource_type = trim raw in
    if is_empty resource_type
    then rejected 400 "resourceType must be provided in path."
    else if to_lower resource_type == "contract"
    then parsed "contract"
    else elim (drop_folded "test-" resource_type) [
      | none ↦ do
        refuse_if (not (is_valid_version_token resource_type)) version_message
        parsed resource_type
      | some inner_version ↦ do
        refuse_if (not (allows_test_prefix env)) disabled_message
        refuse_if (not (is_valid_version_token inner_version)) test_message
        parsed (join "" ("test-" ∷ inner_version ∷ []))
    ]

-- A version is refused by `parseVerifyRoute` when the deployment lists versions and this is not one.
unfoldable pub check_active : RouteEnv → String → Parsed (Unit {0})
unfolding configured_active_resource_types includes
check_active env resource_type = elim (configured_active_resource_types env) [
  | none ↦ parsed tt
  | some active ↦
      refuse_if (not (includes active (to_lower resource_type)))
        (join "" ("resourceType \"" ∷ resource_type ∷ "\" is not active for verification." ∷ []))
]
