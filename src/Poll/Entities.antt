-- ===== src/Poll/Entities.antt =====
-- The response managers of entities and the network: src/api/managers/activate-response-manager.ts,
-- add-evidence-, delegation-policy-upsert-, terms-remove- and create-did-document-response-manager.ts.
use dataspace_ica_ts.Common.{String, Bool, ◌&&◌, none, some, List, [], ◌∷◌, ◌==◌}
use dataspace_ica_ts.Text.{to_lower, join}
use dataspace_ica_ts.Text.Date.{show}
use dataspace_ica_ts.Json.{Json, str, array}
use dataspace_ica_ts.Jobs.Activation.{ActivateRouteContext}
use dataspace_ica_ts.Paths.{
  add_evidence_response_location, delegation_policy_response_location, activate_response_location,
}
use dataspace_ica_ts.Poll.{Manager}
use dataspace_ica_ts.Poll.Bodies.{Place, Words, failed_message, succeeded_message}
use dataspace_ica_ts.Poll.Credentials.{Counted}

abbrev foreign : String
foreign = "Job exists but does not belong to this route."

pub record ActivateSigningKeyResult : Type 0 where
  pub issuer_did : String
  pub activated : List Json

unfoldable pub same_activate_route : ActivateRouteContext → ActivateRouteContext → Bool
same_activate_route a b =
    a.tenant_id == b.tenant_id
    && to_lower a.jurisdiction == to_lower b.jurisdiction
    && a.sector == b.sector
    && a.resource_type == b.resource_type

activate_place : ActivateRouteContext → Place
activate_place route = record {
  tenant_id = route.tenant_id;
  jurisdiction = route.jurisdiction;
  sector = route.sector;
  own = [];
}

unfoldable pub activate_manager : Manager ActivateRouteContext ActivateSigningKeyResult
unfolding same_activate_route activate_response_location activate_place failed_message
    succeeded_message
activate_manager =
    let w : Words = record {
      entry_type = "SigningKeyActivation-v1.0";
      resource_type = "signing-key-activation-v1.0";
      unknown_failure = "Unknown activation failure.";
    } in
    record {
      same_route = same_activate_route;
      missing_thid = λ route. "Missing thid for _activate-response polling.";
      job_not_found = λ thid. join "" ("Activation job not found for thid=" ∷ thid ∷ "." ∷ []);
      foreign_route = λ thid own asked. foreign;
      location = λ env route thid.
          activate_response_location route.tenant_id route.jurisdiction route.sector;
      retry_after = 3;
      failed_payload =
          λ env req route thid job. failed_message w env req (activate_place route) thid job;
      no_result =
          λ thid. join "" ("Activation job " ∷ thid ∷ " finished without result payload." ∷ []);
      succeeded_payload = λ env req route thid job. elim job.result [
        | none ↦ none
        | some result ↦ some (
            succeeded_message w env req (activate_place route) thid job "activated"
              "Signing key activation completed." []
              (("issuerDid", str result.issuer_did) ∷ ("content", array result.activated) ∷ []))
      ];
    }

pub record AddEvidenceRoute : Type 0 where
  pub tenant_id : String
  pub jurisdiction : String
  pub sector : String
  pub evidence_type : String

unfoldable pub same_evidence_route : AddEvidenceRoute → AddEvidenceRoute → Bool
same_evidence_route a b =
    a.tenant_id == b.tenant_id
    && to_lower a.jurisdiction == to_lower b.jurisdiction
    && a.sector == b.sector
    && to_lower a.evidence_type == to_lower b.evidence_type

evidence_place : AddEvidenceRoute → Place
evidence_place route = record {
  tenant_id = route.tenant_id;
  jurisdiction = route.jurisdiction;
  sector = route.sector;
  own = ("evidenceType", str route.evidence_type) ∷ [];
}

unfoldable pub add_evidence_manager : Manager AddEvidenceRoute Counted
unfolding same_evidence_route add_evidence_response_location evidence_place failed_message
    succeeded_message
add_evidence_manager =
    let w : Words = record {
      entry_type = "NetworkEvidenceAdd-v1.0";
      resource_type = "network-evidence-add-v1.0";
      unknown_failure = "Unknown evidence _add failure.";
    } in
    record {
      same_route = same_evidence_route;
      missing_thid = λ route. "Missing thid for _add-response polling.";
      job_not_found = λ thid. join "" ("Evidence _add job not found for thid=" ∷ thid ∷ "." ∷ []);
      foreign_route = λ thid own asked. foreign;
      location = λ env route thid.
          add_evidence_response_location route.tenant_id route.jurisdiction route.sector
            route.evidence_type;
      retry_after = 3;
      failed_payload =
          λ env req route thid job. failed_message w env req (evidence_place route) thid job;
      no_result =
          λ thid. join "" ("Evidence _add job " ∷ thid ∷ " finished without result payload." ∷ []);
      succeeded_payload = λ env req route thid job. elim job.result [
        | none ↦ none
        | some result ↦ some (
            succeeded_message w env req (evidence_place route) thid job "stored"
              (join "" ("Evidence record(s) stored: " ∷ show result.count ∷ "." ∷ [])) []
              (("content", array result.items) ∷ []))
      ];
    }

pub record DelegationPolicyRoute : Type 0 where
  pub tenant_id : String
  pub jurisdiction : String
  pub sector : String
  pub policy_type : String

unfoldable pub same_policy_route : DelegationPolicyRoute → DelegationPolicyRoute → Bool
same_policy_route a b =
    a.tenant_id == b.tenant_id
    && to_lower a.jurisdiction == to_lower b.jurisdiction
    && a.sector == b.sector
    && a.policy_type == b.policy_type

policy_place : DelegationPolicyRoute → Place
policy_place route = record {
  tenant_id = route.tenant_id;
  jurisdiction = route.jurisdiction;
  sector = route.sector;
  own = ("policyType", str route.policy_type) ∷ [];
}

unfoldable pub delegation_policy_manager : Manager DelegationPolicyRoute Counted
unfolding same_policy_route delegation_policy_response_location policy_place failed_message
    succeeded_message
delegation_policy_manager =
    let w : Words = record {
      entry_type = "DelegationPolicyUpsert-v1.0";
      resource_type = "delegation-policy-upsert-v1.0";
      unknown_failure = "Unknown delegation policy _upsert failure.";
    } in
    record {
      same_route = same_policy_route;
      missing_thid = λ route. "Missing thid for _upsert-response polling.";
      job_not_found =
          λ thid. join "" ("Delegation policy _upsert job not found for thid=" ∷ thid ∷ "." ∷ []);
      foreign_route = λ thid own asked. foreign;
      location = λ env route thid.
          delegation_policy_response_location route.tenant_id route.jurisdiction route.sector;
      retry_after = 3;
      failed_payload =
          λ env req route thid job. failed_message w env req (policy_place route) thid job;
      no_result = λ thid.
          join ""
            ("Delegation policy _upsert job " ∷ thid ∷ " finished without result payload." ∷ []);
      succeeded_payload = λ env req route thid job. elim job.result [
        | none ↦ none
        | some result ↦ some (
            succeeded_message w env req (policy_place route) thid job "upserted"
              (join "" ("Delegation policy record(s) upserted: " ∷ show result.count ∷ "." ∷ [])) []
              (("content", array result.items) ∷ []))
      ];
    }
