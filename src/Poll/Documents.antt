-- ===== src/Poll/Documents.antt =====
-- The response managers that answer with one entry for each item: src/api/managers/
-- terms-remove-response-manager.ts and create-did-document-response-manager.ts.
use dataspace_ica_ts.Common.{
  ℕ, suc, String, Bool, ◌&&◌, none, some, List, [], ◌∷◌, ◌++◌, map, length, ◌==◌,
}
use dataspace_ica_ts.Text.{to_lower, to_upper, join}
use dataspace_ica_ts.Text.Date.{show}
use dataspace_ica_ts.Json.{Json, str, object, if_text}
use dataspace_ica_ts.Didcomm.{Request, bundle_message}
use dataspace_ica_ts.Jobs.{Job}
use dataspace_ica_ts.Paths.{terms_remove_response_location, create_did_document_response_location}
use dataspace_ica_ts.Poll.{Manager}
use dataspace_ica_ts.Poll.Bodies.{or_text, operation_outcome, bundle_entry, batch_response}

pub record TermsRemoveRoute : Type 0 where
  pub tenant_id : String
  pub jurisdiction : String
  pub sector : String
  pub section : String
  pub resource_type : String

pub record TermsRemoveItem : Type 0 where
  pub organization_tax_id : String
  pub did : String
  pub removed_at : String
  pub reason : String
  pub effects : Json

pub record TermsRemoveResult : Type 0 where
  pub removed_count : ℕ
  pub items : List TermsRemoveItem

unfoldable pub same_terms_route : TermsRemoveRoute → TermsRemoveRoute → Bool
same_terms_route a b =
    a.tenant_id == b.tenant_id
    && to_lower a.jurisdiction == to_lower b.jurisdiction
    && a.sector == b.sector
    && to_lower a.resource_type == to_lower b.resource_type

-- The body of a failed job: one entry, whose resource is the error.
failed_body : {R A : Type 0} → String → String → Job R A → Json
unfolding operation_outcome bundle_entry batch_response
failed_body entry_type unknown_failure job =
    let diagnostics = or_text job.error unknown_failure in
    let outcome = operation_outcome "error" "exception" diagnostics in
    batch_response outcome 1 (
      bundle_entry entry_type (object (("error", object (("message", str diagnostics) ∷ [])) ∷ []))
        "500" outcome
      ∷ [])

-- The n-th entry draws the UUID of index n.
terms_entries : Request → Json → ℕ → List TermsRemoveItem → List Json
unfolding bundle_entry
terms_entries req outcome n [] = []
terms_entries req outcome n (item ∷ items) =
    bundle_entry "TermsRemove-v1.0"
      (object (
        ("id", str (join "" ("urn:uuid:" ∷ req.uuid n ∷ [])))
        ∷ ("status", str "removed")
        ∷ ("organizationTaxId", str item.organization_tax_id)
        ∷ ("did", str item.did)
        ∷ ("removedAt", str item.removed_at)
        ∷ (if_text "reason" item.reason ++ (("effects", item.effects) ∷ []))))
      "200" outcome
    ∷ terms_entries req outcome (suc n) items

unfoldable pub terms_remove_manager : Manager TermsRemoveRoute TermsRemoveResult
unfolding same_terms_route terms_remove_response_location failed_body terms_entries
    operation_outcome batch_response bundle_message
terms_remove_manager = record {
  same_route = same_terms_route;
  missing_thid = λ route. "Missing thid for _remove-response polling.";
  job_not_found = λ thid. join "" ("Terms _remove job not found for thid=" ∷ thid ∷ "." ∷ []);
  foreign_route = λ thid own asked. "Job exists but does not belong to this route.";
  location = λ env route thid.
      terms_remove_response_location route.tenant_id route.jurisdiction route.sector env.encode
        route.section route.resource_type (("thid", thid) ∷ []);
  retry_after = 3;
  failed_payload = λ env req route thid job.
      bundle_message env req route.tenant_id thid
        (failed_body "TermsRemove-v1.0" "Unknown terms _remove failure." job);
  no_result =
      λ thid. join "" ("Terms _remove job " ∷ thid ∷ " finished without result payload." ∷ []);
  succeeded_payload = λ env req route thid job. elim job.result [
    | none ↦ none
    | some result ↦
        let outcome =
          operation_outcome "information" "informational"
            (join "" ("Organization terms removed: " ∷ show result.removed_count ∷ "." ∷ [])) in
        some (
          bundle_message env req route.tenant_id thid (
            batch_response outcome (length result.items)
              (terms_entries req outcome 3 result.items)))
  ];
}

pub record CreateDidDocumentRoute : Type 0 where
  pub tenant_id : String
  pub jurisdiction : String
  pub sector : String
  pub action : String

pub record DidDocumentItem : Type 0 where
  pub did_document : Json
  pub created_at : String

pub record CreateDidDocumentResult : Type 0 where
  pub created_count : ℕ
  pub items : List DidDocumentItem

unfoldable pub same_did_document_route : CreateDidDocumentRoute → CreateDidDocumentRoute → Bool
same_did_document_route a b =
    a.tenant_id == b.tenant_id
    && to_lower a.jurisdiction == to_lower b.jurisdiction
    && a.sector == b.sector

route_key : CreateDidDocumentRoute → String
route_key route =
    join "|" (route.tenant_id ∷ to_upper route.jurisdiction ∷ route.sector ∷ route.action ∷ [])

did_document_entry : Json → DidDocumentItem → Json
unfolding bundle_entry
did_document_entry outcome item =
    bundle_entry "EntityDidDocumentCreate-v1.0"
      (object (
        ("didDocument", item.did_document)
        ∷ ("meta", object (("createdAt", str item.created_at) ∷ []))
        ∷ []))
      "200" outcome

unfoldable pub create_did_document_manager : Manager CreateDidDocumentRoute CreateDidDocumentResult
unfolding same_did_document_route create_did_document_response_location route_key failed_body
    did_document_entry operation_outcome batch_response bundle_message
create_did_document_manager = record {
  same_route = same_did_document_route;
  missing_thid = λ route. "Missing thid for _create-response polling.";
  job_not_found =
      λ thid. join "" ("DID document _create job not found for thid=" ∷ thid ∷ "." ∷ []);
  foreign_route = λ thid own asked. join "" (
      "Job exists but does not belong to this route (thid="
      ∷ thid
      ∷ ", expected="
      ∷ route_key own
      ∷ ", got="
      ∷ route_key asked
      ∷ ")."
      ∷ []);
  location = λ env route thid.
      create_did_document_response_location route.tenant_id route.jurisdiction route.sector
        env.encode (("thid", thid) ∷ []);
  retry_after = 3;
  failed_payload = λ env req route thid job.
      bundle_message env req route.tenant_id thid
        (failed_body "EntityDidDocumentCreate-v1.0" "Unknown DID document _create failure." job);
  no_result = λ thid.
      join "" ("DID document _create job " ∷ thid ∷ " finished without result payload." ∷ []);
  succeeded_payload = λ env req route thid job. elim job.result [
    | none ↦ none
    | some result ↦
        let outcome =
          operation_outcome "information" "informational"
            (join "" ("DID document(s) created: " ∷ show result.created_count ∷ "." ∷ [])) in
        some (
          bundle_message env req route.tenant_id thid (
            batch_response outcome (length result.items)
              (map (did_document_entry outcome) result.items)))
  ];
}
