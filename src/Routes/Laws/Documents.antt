-- ===== src/Routes/Laws/Documents.antt =====
-- The routes of signed documents: the location that answers a verification parses to its route.
use Prim.Native.String
use dataspace_ica_ts.Common.{
  String, ◌≡◌, refl, inl, inr, Option-cases, some, none, List, [], ◌∷◌, arith, some_inj,
}
use dataspace_ica_ts.Text.{trim, to_lower}
use dataspace_ica_ts.Text.Slashes.{NoSlash, All}
use dataspace_ica_ts.Config.Network.{
  NetworkKind, test, local_network, test_network, network, network_name, parse_network_kind,
}
use dataspace_ica_ts.Routes.Pattern.{Segment, one_of, match_segment, match_parts, exec}
use dataspace_ica_ts.Routes.Pattern.Laws.{
  exec-NoSlash, exec-join, match-nil, match-cons, match-fixed, match-capture,
}
use dataspace_ica_ts.Routes.Expressions.{verify_route}
use dataspace_ica_ts.Routes.Contexts.{DocumentRouteContext}
use dataspace_ica_ts.Routes.Scope.{RouteEnv, parsed}
use dataspace_ica_ts.Routes.Resource.{check_active}
use dataspace_ica_ts.Routes.Resource.Laws.{IsResourceType, parse_resource_type-IsResourceType}
use dataspace_ica_ts.Routes.Documents.{
  as_verify_action, require_network_kind, verify_groups, parse_verify_route,
  verify_response_location,
}
use dataspace_ica_ts.Routes.Laws.Accepted.{bind-parsed, parsed_inj}
use dataspace_ica_ts.Routes.Laws.Locations.{scope_parts, verify_location_parts}
use dataspace_ica_ts.Routes.Laws.Canonical.{
  IsCanonical, IsCanonical-groups, match_parts-scope_parts, scope_parts-NoSlash,
}

pub record IsAcceptedDocument (env : RouteEnv) (context : DocumentRouteContext) : Type 0 where
  pub scope : IsCanonical env context.tenant_id context.jurisdiction context.sector
  pub format : context.format ≡ "pdf"
  pub resource : IsResourceType env context.resource_type
  pub active : check_active env context.resource_type ≡ parsed tt

parse_network_kind-network_name :
    (k : NetworkKind) → require_network_kind (network_name k) ≡ parsed k
unfolding parse_network_kind to_lower trim
parse_network_kind-network_name test = refl
parse_network_kind-network_name local_network = refl
parse_network_kind-network_name test_network = refl
parse_network_kind-network_name network = refl

abbrev kinds : Segment
kinds = one_of ("terms" ∷ "test" ∷ "local-network" ∷ "test-network" ∷ "network" ∷ [])

match-kinds :
    (k : NetworkKind) → match_segment kinds (network_name k) ≡ some (some (network_name k))
unfolding match_segment to_lower
match-kinds test = refl
match-kinds local_network = refl
match-kinds test_network = refl
match-kinds network = refl

network_name-NoSlash : (k : NetworkKind) → NoSlash (network_name k)
network_name-NoSlash test = ground arith
network_name-NoSlash local_network = ground arith
network_name-NoSlash test_network = ground arith
network_name-NoSlash network = ground arith

match-verify :
    match_segment (one_of ("_verify" ∷ "_verify-response" ∷ [])) "_verify-response"
    ≡ some (some "_verify-response")
unfolding match_segment to_lower
match-verify = refl

abbrev pub verify_answer : DocumentRouteContext → DocumentRouteContext
verify_answer context = record context { action = "_verify-response" }

module _ (env : RouteEnv) (context : DocumentRouteContext) where
  pub verify_groups-IsAcceptedDocument :
      (groups : List String)
      → All NoSlash groups
      → verify_groups env groups ≡ some (parsed context)
      → IsAcceptedDocument env context
  unfolding verify_groups
  verify_groups-IsAcceptedDocument (t ∷ j ∷ s ∷ k ∷ r ∷ a ∷ []) (no_t, (no_j, (no_s, _))) h =
      let (section, _, h1) = bind-parsed (require_network_kind k) _ _ (some_inj _ _ h) in
      let (_, checked, h2) = bind-parsed _ _ _ h1 in
      let (resource_type, resource, h3) = bind-parsed _ _ _ h2 in
      let (_, active, h4) = bind-parsed _ _ _ h3 in
      let same = parsed_inj _ _ h4 in
      rw (← same) (record {
        scope = IsCanonical-groups env t j s _ checked no_t no_j no_s;
        format = refl;
        resource = parse_resource_type-IsResourceType env (trim r) resource_type resource;
        active = active;
      })
  verify_groups-IsAcceptedDocument groups k h = ground arith

  verify_groups-canonical :
      IsAcceptedDocument env context
      → verify_groups env (
          context.tenant_id
          ∷ context.jurisdiction
          ∷ context.sector
          ∷ network_name context.section
          ∷ context.resource_type
          ∷ "_verify-response"
          ∷ [])
        ≡ some (parsed (verify_answer context))
  unfolding verify_groups as_verify_action to_lower trim
  verify_groups-canonical h =
      rw
        (
          parse_network_kind-network_name context.section,
          h.scope.tenant,
          h.scope.place,
          h.scope.folded,
          h.scope.checked,
          h.resource.trimmed,
          h.resource.accepted,
          h.active,
          ← h.format,
        )
        refl

  module _ (h : IsAcceptedDocument env context) where
    abbrev own_parts : List String
    own_parts =
        network_name context.section ∷ "pdf" ∷ context.resource_type ∷ "_verify-response" ∷ []

    match_parts-verify :
        match_parts verify_route
          (scope_parts context.tenant_id context.jurisdiction context.sector own_parts)
        ≡ some (
            context.tenant_id
            ∷ context.jurisdiction
            ∷ context.sector
            ∷ network_name context.section
            ∷ context.resource_type
            ∷ "_verify-response"
            ∷ [])
    unfolding to_lower
    match_parts-verify = match_parts-scope_parts h.scope _ _ _ (
        match-cons kinds _ _ _ _ (some (network_name context.section)) (match-kinds context.section)
          (match-cons _ _ _ _ _ none (match-fixed "pdf" "pdf" refl) (
            match-cons _ _ _ _ _ (some context.resource_type) (match-capture _ h.resource.named) (
              match-cons (one_of ("_verify" ∷ "_verify-response" ∷ [])) [] "_verify-response" [] []
                (some "_verify-response") match-verify match-nil))))

    own_parts-NoSlash : All NoSlash own_parts
    own_parts-NoSlash =
        let pdf : NoSlash "pdf" = ground arith in
        let action : NoSlash "_verify-response" = ground arith in
        (network_name-NoSlash context.section, (pdf, (h.resource.whole, (action, tt))))

    exec-verify_response_location :
        (encode : String → String)
        → exec verify_route (verify_response_location encode context [])
          ≡ some (
              context.tenant_id
              ∷ context.jurisdiction
              ∷ context.sector
              ∷ network_name context.section
              ∷ context.resource_type
              ∷ "_verify-response"
              ∷ [])
    exec-verify_response_location encode =
        rw
          (
            verify_location_parts encode context,
            exec-join verify_route ""
                (context.tenant_id
                  ∷ String.◌++◌ "cds-" context.jurisdiction
                  ∷ "v1"
                  ∷ context.sector
                  ∷ own_parts)
                (scope_parts-NoSlash h.scope own_parts own_parts-NoSlash),
          )
          match_parts-verify

-- A path that is accepted as a route of document verification, and the location at which its response
-- is polled, with no parameters: the location is accepted as the same route with the action of the
-- response.
pub parse_verify_route-verify_response_location :
    (env : RouteEnv) (encode : String → String) (pathname : String) (context : DocumentRouteContext)
    → parse_verify_route env pathname ≡ some (parsed context)
    → parse_verify_route env (verify_response_location encode context [])
      ≡ some (parsed (verify_answer context))
unfolding parse_verify_route
parse_verify_route-verify_response_location env encode pathname context h =
    elim (Option-cases (exec verify_route pathname)) [
      | inl missed ↦ ground (arith, (rw (missed, parse_verify_route) at h))
      | inr (groups, found) ↦
          let accepted =
            verify_groups-IsAcceptedDocument env context groups
              (exec-NoSlash _ pathname groups found) (rw (found, parse_verify_route) at h) in
          rw (exec-verify_response_location env context accepted encode, parse_verify_route)
            (verify_groups-canonical env context accepted)
    ]
