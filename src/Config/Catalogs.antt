-- ===== src/Config/Catalogs.antt =====
-- src/api/supported-sectors.ts and src/api/supported-jurisdictions.ts: the values that a deployment
-- accepts in its routes.
pub mod Laws
use dataspace_ica_ts.Common.{
  String, Bool, true, false, not, Option, none, some, List, [], ◌∷◌, ◌==◌, any, keep, is_nil,
  is_empty, if◌then◌else◌, map,
}
use dataspace_ica_ts.Text.{trim, to_lower, to_upper, split, join}

abbrev text_of : Option String → String
text_of none = ""
text_of (some s) = s

unfoldable pub includes : List String → String → Bool
includes values value = any (λ v. v == value) values

-- `parseCsvList`, with the folding of the case that the file uses.
unfoldable pub parse_csv_list : (String → String) → Option String → List String
parse_csv_list fold none = []
parse_csv_list fold (some value) =
    if is_empty value
    then []
    else keep (λ s. not (is_empty s)) (map (λ s. fold (trim s)) (split 44 value))

dedupe_from : List String → List String → List String
unfolding includes
dedupe_from seen [] = []
dedupe_from seen (value ∷ values) =
    let known = dedupe_from seen values in
    let fresh = value ∷ dedupe_from (value ∷ seen) values in
    if includes seen value then known else fresh

-- `dedupe`: the first of equal values stays.
unfoldable pub dedupe : List String → List String
unfolding dedupe_from
dedupe values = dedupe_from [] values

abbrev pub default_sectors : List String
default_sectors =
    "animal-care" ∷ "animal-tech" ∷ "animal-research" ∷ "animal-insurance" ∷ "health-care"
    ∷ "health-tech" ∷ "health-research" ∷ "health-insurance" ∷ "onehealth-research" ∷ []

abbrev pub default_jurisdictions : List String
default_jurisdictions = "ES" ∷ []

unfoldable pub configured_sectors : Option String → List String
unfolding parse_csv_list dedupe
configured_sectors env =
    let configured = dedupe (parse_csv_list to_lower env) in
    if is_nil configured then default_sectors else configured

unfoldable pub has_wildcard_sector : Option String → Bool
unfolding configured_sectors includes
has_wildcard_sector env = includes (configured_sectors env) "*"

unfoldable pub is_supported_sector : String → Option String → Bool
unfolding has_wildcard_sector configured_sectors includes
is_supported_sector raw env =
    let normalized = to_lower (trim raw) in
    if is_empty normalized
    then false
    else if has_wildcard_sector env
    then true
    else includes (configured_sectors env) normalized

unfoldable pub sector_error_message : Option String → String
unfolding has_wildcard_sector configured_sectors
sector_error_message env =
    if has_wildcard_sector env
    then "sector must be a non-empty string."
    else join "" ("sector must be one of: " ∷ join ", " (configured_sectors env) ∷ "." ∷ [])

unfoldable pub configured_jurisdictions : Option String → List String
unfolding parse_csv_list dedupe
configured_jurisdictions env =
    let configured = dedupe (parse_csv_list to_upper env) in
    if is_nil configured then default_jurisdictions else configured

unfoldable pub is_supported_jurisdiction : String → Option String → Bool
unfolding configured_jurisdictions includes
is_supported_jurisdiction raw env =
    let normalized = to_upper (trim raw) in
    if is_empty normalized then false else includes (configured_jurisdictions env) normalized

unfoldable pub jurisdiction_error_message : Option String → String
unfolding configured_jurisdictions
jurisdiction_error_message env =
    join "" ("jurisdiction must be one of: " ∷ join ", " (configured_jurisdictions env) ∷ "." ∷ [])
