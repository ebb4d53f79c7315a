-- ===== src/Routes/Laws/Locations.antt =====
-- The segments of the locations that are built.
use Prim.Native.String
use text.Mathlib.TextLemmas.{nil-append, append_assoc}
use dataspace_ica_ts.Common.{String, ◌≡◌, sym, List, [], ◌∷◌}
use dataspace_ica_ts.Text.{join}
use dataspace_ica_ts.Paths.{location, with_query, credential_response_location}
use dataspace_ica_ts.Config.Network.{network_name}
use dataspace_ica_ts.Routes.Contexts.{DocumentRouteContext}
use dataspace_ica_ts.Routes.Documents.{verify_response_location}

-- The literals of the locations, taken apart at their slashes.
cds_literal : (t : String) → String.◌++◌ "/cds-" t ≡ String.◌++◌ "/" (String.◌++◌ "cds-" t)
cds_literal t = append_assoc "/" "cds-" t

enclosed :
    (s t : String)
    → String.◌++◌ (String.◌++◌ "/" (String.◌++◌ s "/")) t
      ≡ String.◌++◌ "/" (String.◌++◌ s (String.◌++◌ "/" t))
enclosed s t = simp (append_assoc)

version_literal :
    (t : String) → String.◌++◌ "/v1/" t ≡ String.◌++◌ "/" (String.◌++◌ "v1" (String.◌++◌ "/" t))
version_literal t = enclosed "v1" t

credentials_literal :
    (t : String)
    → String.◌++◌ "/network/credentials/" t
      ≡ String.◌++◌ "/"
          (String.◌++◌ "network" (String.◌++◌ "/" (String.◌++◌ "credentials" (String.◌++◌ "/" t))))
credentials_literal t =
    rw (sym (enclosed "credentials" t), sym (append_assoc "network" "/credentials/" t))
      (append_assoc "/" "network/credentials/" t)

pdf_literal :
    (t : String) → String.◌++◌ "/pdf/" t ≡ String.◌++◌ "/" (String.◌++◌ "pdf" (String.◌++◌ "/" t))
pdf_literal t = enclosed "pdf" t

-- The segments before the section of a route.
abbrev pub scope_parts : String → String → String → List String → List String
scope_parts tenant_id jurisdiction sector parts =
    "" ∷ tenant_id ∷ String.◌++◌ "cds-" jurisdiction ∷ "v1" ∷ sector ∷ parts

location-parts :
    (t j s r q : String) (rs qs : List String)
    → join "" (r ∷ rs) ≡ String.◌++◌ "/" (join "/" (q ∷ qs))
    → location t j s (r ∷ rs) ≡ join "/" (scope_parts t j s (q ∷ qs))
unfolding location join
location-parts t j s r q rs qs e = simp (nil-append, append_assoc, cds_literal, version_literal, e)

pub credential_location_parts :
    (t j s c a : String)
    → credential_response_location t j s c a
      ≡ join "/"
          (scope_parts t j s ("network" ∷ "credentials" ∷ c ∷ String.◌++◌ a "-response" ∷ []))
unfolding credential_response_location join
credential_location_parts t j s c a =
    location-parts t j s "/network/credentials/" "network" (c ∷ "/" ∷ a ∷ "-response" ∷ [])
      ("credentials" ∷ c ∷ String.◌++◌ a "-response" ∷ [])
      (simp (nil-append, append_assoc, credentials_literal))

pub verify_location_parts :
    (encode : String → String) (context : DocumentRouteContext)
    → verify_response_location encode context []
      ≡ join "/" (
          scope_parts context.tenant_id context.jurisdiction context.sector (
            network_name context.section ∷ "pdf" ∷ context.resource_type ∷ "_verify-response" ∷ []))
unfolding verify_response_location with_query join
verify_location_parts encode context =
    location-parts context.tenant_id context.jurisdiction context.sector "/"
      (network_name context.section)
      (network_name context.section ∷ "/pdf/" ∷ context.resource_type ∷ "/_verify-response" ∷ [])
      ("pdf" ∷ context.resource_type ∷ "_verify-response" ∷ [])
      (simp (nil-append, append_assoc, pdf_literal))
