-- ===== src/Routes/Laws/Verbs.antt =====
-- The five kinds of routes of credentials: the location that answers a request parses to the route of
-- the request.
use Prim.Native.String
use Prim.Native.String.{[], ◌∷◌}
use dataspace_ica_ts.Common.{String, ◌≡◌, refl, Option, some, none, List, [], ◌∷◌, arith}
use dataspace_ica_ts.Text.{trim, to_lower}
use dataspace_ica_ts.Text.Slashes.{NoSlash, All}
use dataspace_ica_ts.Paths.{credential_response_location}
use dataspace_ica_ts.Routes.Pattern.{
  Segment, fixed, capture, after, one_of, match_segment, match_parts, exec,
}
use dataspace_ica_ts.Routes.Pattern.Laws.{
  exec-join, match-cons, match-fixed, match-capture, match-nil,
}
use dataspace_ica_ts.Routes.Scope.{RouteEnv, Parsed, parsed}
use dataspace_ica_ts.Routes.Contexts.{CredentialRouteContext}
use dataspace_ica_ts.Routes.Credentials.{
  parse_credential_route, as_issue_credential_action, as_credential_status_action,
  as_credential_revoke_action, as_credential_search_action, as_credential_retrieve_action,
  parse_issue_credential_route, parse_credential_status_route, parse_credential_revoke_route,
  parse_credential_search_route, parse_credential_retrieve_route,
}
use dataspace_ica_ts.Routes.Laws.Locations.{scope_parts, credential_location_parts}
use dataspace_ica_ts.Routes.Laws.Canonical.{match_parts-scope_parts, scope_parts-NoSlash}
use dataspace_ica_ts.Routes.Laws.Credentials.{
  IsAcceptedCredential, parse_credential-IsAcceptedCredential, credential_groups-canonical,
}

pub data CredentialVerb : Type 0 where
  issue status revoke search retrieve : CredentialVerb

abbrev pub verb_name : CredentialVerb → String
verb_name issue = "_issue"
verb_name status = "_status"
verb_name revoke = "_revoke"
verb_name search = "_search"
verb_name retrieve = "_retrieve"

-- The parser of each kind of route.
abbrev pub parse_verb : CredentialVerb → RouteEnv → String → Option (Parsed CredentialRouteContext)
parse_verb issue = parse_issue_credential_route
parse_verb status = parse_credential_status_route
parse_verb revoke = parse_credential_revoke_route
parse_verb search = parse_credential_search_route
parse_verb retrieve = parse_credential_retrieve_route

abbrev as_verb : CredentialVerb → String → String
as_verb issue = as_issue_credential_action
as_verb status = as_credential_status_action
as_verb revoke = as_credential_revoke_action
as_verb search = as_credential_search_action
as_verb retrieve = as_credential_retrieve_action

abbrev pub response_name : CredentialVerb → String
response_name verb = String.◌++◌ (verb_name verb) "-response"

abbrev action_segment : CredentialVerb → Segment
action_segment verb = one_of (verb_name verb ∷ response_name verb ∷ [])

abbrev expression_of : CredentialVerb → List Segment
expression_of verb =
    fixed ""
    ∷ capture
    ∷ after "cds-"
    ∷ fixed "v1"
    ∷ capture
    ∷ fixed "network"
    ∷ fixed "credentials"
    ∷ capture
    ∷ action_segment verb
    ∷ []

parse_verb-eq :
    (verb : CredentialVerb) (env : RouteEnv) (pathname : String)
    → parse_verb verb env pathname
      ≡ parse_credential_route (expression_of verb) (as_verb verb) env pathname
unfolding parse_issue_credential_route parse_credential_status_route parse_credential_revoke_route
    parse_credential_search_route parse_credential_retrieve_route
parse_verb-eq issue env pathname = refl
parse_verb-eq status env pathname = refl
parse_verb-eq revoke env pathname = refl
parse_verb-eq search env pathname = refl
parse_verb-eq retrieve env pathname = refl

as_verb-response_name :
    (verb : CredentialVerb) → as_verb verb (trim (response_name verb)) ≡ response_name verb
unfolding as_issue_credential_action as_credential_status_action as_credential_revoke_action
    as_credential_search_action as_credential_retrieve_action trim to_lower
as_verb-response_name issue = refl
as_verb-response_name status = refl
as_verb-response_name revoke = refl
as_verb-response_name search = refl
as_verb-response_name retrieve = refl

response_name-NoSlash : (verb : CredentialVerb) → NoSlash (response_name verb)
response_name-NoSlash issue = ground arith
response_name-NoSlash status = ground arith
response_name-NoSlash revoke = ground arith
response_name-NoSlash search = ground arith
response_name-NoSlash retrieve = ground arith

match-action_segment :
    (verb : CredentialVerb)
    → match_segment (action_segment verb) (response_name verb) ≡ some (some (response_name verb))
unfolding match_segment to_lower
match-action_segment issue = refl
match-action_segment status = refl
match-action_segment revoke = refl
match-action_segment search = refl
match-action_segment retrieve = refl

abbrev pub answer : CredentialVerb → CredentialRouteContext → CredentialRouteContext
answer verb context = record context { action = response_name verb }

abbrev response_location : CredentialVerb → CredentialRouteContext → String
response_location verb context =
    credential_response_location context.tenant_id context.jurisdiction context.sector
      context.credential_type (verb_name verb)

module _ (verb : CredentialVerb) (env : RouteEnv) (context : CredentialRouteContext)
    (h : IsAcceptedCredential env context) where
  abbrev own_parts : List String
  own_parts = "network" ∷ "credentials" ∷ context.credential_type ∷ response_name verb ∷ []

  abbrev response_groups : List String
  response_groups =
      context.tenant_id
      ∷ context.jurisdiction
      ∷ context.sector
      ∷ context.credential_type
      ∷ response_name verb
      ∷ []

  match_parts-credential :
      match_parts
        (expression_of verb)
        (scope_parts context.tenant_id context.jurisdiction context.sector own_parts)
      ≡ some response_groups
  unfolding to_lower
  match_parts-credential = match_parts-scope_parts h.scope _ _ _ (
      match-cons _ _ _ _ _ none (match-fixed "network" "network" refl) (
        match-cons _ _ _ _ _ none (match-fixed "credentials" "credentials" refl) (
          match-cons _ _ _ _ _ (some context.credential_type) (match-capture _ h.named) (
            match-cons (action_segment verb) [] (response_name verb) [] []
              (some (response_name verb)) (match-action_segment verb) match-nil))))

  own_parts-NoSlash : All NoSlash own_parts
  own_parts-NoSlash =
      let network : NoSlash "network" = ground arith in
      let credentials : NoSlash "credentials" = ground arith in
      (network, (credentials, (h.whole, (response_name-NoSlash verb, tt))))

  exec-response_location :
      exec (expression_of verb) (response_location verb context) ≡ some response_groups
  exec-response_location =
      rw
        (
          credential_location_parts context.tenant_id context.jurisdiction context.sector
              context.credential_type (verb_name verb),
          exec-join (expression_of verb) ""
              (context.tenant_id
                ∷ String.◌++◌ "cds-" context.jurisdiction
                ∷ "v1"
                ∷ context.sector
                ∷ own_parts)
              (scope_parts-NoSlash h.scope own_parts own_parts-NoSlash),
        )
        match_parts-credential

pub parse_verb-IsAcceptedCredential :
    (verb : CredentialVerb) (env : RouteEnv) (pathname : String) (context : CredentialRouteContext)
    → parse_verb verb env pathname ≡ some (parsed context)
    → IsAcceptedCredential env context
parse_verb-IsAcceptedCredential verb env pathname context h =
    parse_credential-IsAcceptedCredential (as_verb verb) env context (expression_of verb) pathname
      (rw (parse_verb-eq verb env pathname) at h)

-- A path that is accepted as a route of credentials, and the location at which its response is
-- polled: the location is accepted by the same parser, as the same route with the action of the
-- response.
pub parse_verb-credential_response_location :
    (verb : CredentialVerb) (env : RouteEnv) (pathname : String) (context : CredentialRouteContext)
    → parse_verb verb env pathname ≡ some (parsed context)
    → parse_verb verb env (
        credential_response_location context.tenant_id context.jurisdiction context.sector
          context.credential_type
          (verb_name verb))
      ≡ some (parsed (answer verb context))
unfolding parse_credential_route
parse_verb-credential_response_location verb env pathname context h =
    let same = parse_verb-eq verb env in
    let accepted = parse_verb-IsAcceptedCredential verb env pathname context h in
    rw
      (
        same (response_location verb context),
        exec-response_location verb env context accepted,
        parse_credential_route,
      )
      (credential_groups-canonical (as_verb verb) env context (response_name verb) accepted
        (as_verb-response_name verb))
