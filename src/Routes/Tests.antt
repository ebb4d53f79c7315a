-- ===== src/Routes/Tests.antt =====
-- Paths of a deployment for the tenant "acme".
use dataspace_ica_ts.Common.{◌≤◌, String, ◌≡◌, ◌↔◌, refl, true, none, some, keep, length, []}
use dataspace_ica_ts.Text.{trim, to_lower, to_upper, split, join}
use dataspace_ica_ts.Config.Network.{network, parse_network_kind}
use dataspace_ica_ts.Config.Catalogs.{is_supported_sector, is_supported_jurisdiction}
use dataspace_ica_ts.Paths.{credential_response_location}
use dataspace_ica_ts.Routes.Pattern.{exec}
use dataspace_ica_ts.Routes.Contexts.{DocumentRouteContext, CredentialRouteContext}
use dataspace_ica_ts.Routes.Scope.{
  RouteEnv, parsed, rejected, check_scope, validate_tenant, validate_jurisdiction,
}
use dataspace_ica_ts.Routes.Resource.{is_valid_version_token, parse_resource_type, check_active}
use dataspace_ica_ts.Routes.Resource.Versions.{IsVersion, is_valid_version_token_iff}
use dataspace_ica_ts.Routes.Documents.{parse_verify_route, verify_response_location}
use dataspace_ica_ts.Routes.Credentials.{parse_credential_revoke_route}
use dataspace_ica_ts.Routes.Entity.{parse_activate_route}
use dataspace_ica_ts.Routes.Laws.Verbs.{
  revoke, parse_verb, answer, parse_verb-credential_response_location,
}
use dataspace_ica_ts.Routes.Laws.Documents.{
  verify_answer, parse_verify_route-verify_response_location,
}
use dataspace_ica_ts.Routes.Laws.Disjoint.{matches, expressions, expressions_disjoint}
use dataspace_ica_ts.Routes.Laws.Served.{IsServed, verify, IsRoute-IsServed}

abbrev env : RouteEnv
env = record {
  local_tenant_id = some " acme ";
  sectors = none;
  jurisdictions = none;
  enable_test_terms_prefix = some "yes";
  allow_test_resource_type_prefix = none;
  terms_active_resource_types = some "contract, TEST-202401021230";
}

abbrev document : DocumentRouteContext
document = record {
  tenant_id = "Acme";
  jurisdiction = "ES";
  sector = "health-care";
  section = network;
  format = "pdf";
  resource_type = "test-202401021230";
  action = "_verify";
}

abbrev document_path : String
document_path = "/Acme/cds-ES/v1/Health-Care/network/pdf/Test-202401021230/_verify"

document_parsed : parse_verify_route env document_path ≡ some (parsed document)
unfolding parse_verify_route exec split to_lower to_upper trim join check_scope validate_tenant
    validate_jurisdiction parse_resource_type check_active parse_network_kind is_supported_sector
    is_supported_jurisdiction
document_parsed = refl

abbrev member : CredentialRouteContext
member = record {
  tenant_id = "acme";
  jurisdiction = "es";
  sector = "health-tech";
  section = "network";
  format = "credentials";
  credential_type = "Member";
  action = "_revoke";
}

abbrev member_path : String
member_path = "/acme/CDS-es/V1/health-tech/network/credentials/ Member /_REVOKE"

member_parsed : parse_credential_revoke_route env member_path ≡ some (parsed member)
unfolding parse_credential_revoke_route exec split to_lower to_upper trim join check_scope
    validate_tenant validate_jurisdiction is_supported_sector is_supported_jurisdiction
member_parsed = refl

-- A path for another tenant matches, and is refused.
foreign :
    parse_activate_route env "/other/cds-ES/v1/health-tech/entity/keys/credentials/_activate"
    ≡ some (rejected 400 "tenantId must be \"acme\" for this ICA deployment.")
unfolding parse_activate_route exec split to_lower to_upper trim join check_scope validate_tenant
    validate_jurisdiction is_supported_sector is_supported_jurisdiction
foreign = refl

parse_verify_route-verify_response_location_example :
    parse_verify_route env (verify_response_location (λ s. s) document [])
    ≡ some (parsed (verify_answer document))
parse_verify_route-verify_response_location_example =
    parse_verify_route-verify_response_location env (λ s. s) document_path document document_parsed

parse_verb-credential_response_location_example :
    parse_verb revoke env
      (credential_response_location "acme" "es" "health-tech" "Member" "_revoke")
    ≡ some (parsed (answer revoke member))
parse_verb-credential_response_location_example =
    parse_verb-credential_response_location revoke env member_path member member_parsed

IsRoute-IsServed_example : IsServed env "Acme" "ES" "health-care"
IsRoute-IsServed_example =
    IsRoute-IsServed env document_path "Acme" "ES" "health-care" (verify document document_parsed)

is_valid_version_token_iff_example :
    (is_valid_version_token "202401021230" ≡ true) ↔ IsVersion "202401021230"
is_valid_version_token_iff_example = is_valid_version_token_iff "202401021230"

expressions_disjoint_example : length (keep (matches document_path) expressions) ≤ 1
expressions_disjoint_example = expressions_disjoint document_path
