-- ===== src/Poll/Credentials.antt =====
-- The response managers of issued credentials: src/api/managers/issue-credential-response-manager.ts,
-- credential-status-, credential-revoke-, credential-search- and credential-retrieve-response-manager.ts.
-- A result is the number that the text of the outcome names, and the items.
use dataspace_ica_ts.Common.{ℕ, String, Bool, ◌&&◌, Option, none, some, List, [], ◌∷◌, ◌==◌}
use dataspace_ica_ts.Text.{to_lower, join}
use dataspace_ica_ts.Text.Date.{show}
use dataspace_ica_ts.Json.{Json, str, array}
use dataspace_ica_ts.Didcomm.{Settings, Request}
use dataspace_ica_ts.Jobs.{Job}
use dataspace_ica_ts.Paths.{credential_response_location}
use dataspace_ica_ts.Poll.{Manager}
use dataspace_ica_ts.Poll.Bodies.{Place, Words, failed_message, succeeded_message}

pub record CredentialRoute : Type 0 where
  pub tenant_id : String
  pub jurisdiction : String
  pub sector : String
  pub credential_type : String

pub record Counted : Type 0 where
  pub count : ℕ
  pub items : List Json

-- `CredentialRetrieveResult`: the item is absent where nothing was signed.
pub record Retrieved : Type 0 where
  pub format : String
  pub item : Option Json

unfoldable pub same_route : CredentialRoute → CredentialRoute → Bool
same_route a b =
    a.tenant_id == b.tenant_id
    && to_lower a.jurisdiction == to_lower b.jurisdiction
    && a.sector == b.sector
    && to_lower a.credential_type == to_lower b.credential_type

place : CredentialRoute → Place
place route = record {
  tenant_id = route.tenant_id;
  jurisdiction = route.jurisdiction;
  sector = route.sector;
  own = ("credentialType", str route.credential_type) ∷ [];
}

words : String → String → String → Words
words action entry_type resource_type = record {
  entry_type = entry_type;
  resource_type = resource_type;
  unknown_failure = join "" ("Unknown credential " ∷ action ∷ " failure." ∷ []);
}

counted_payload :
    Words
    → String
    → (ℕ → String)
    → Settings
    → Request
    → CredentialRoute
    → String
    → Job CredentialRoute Counted
    → Option Json
unfolding succeeded_message place
counted_payload w status diagnostics env req route thid job = elim job.result [
  | none ↦ none
  | some result ↦ some (
      succeeded_message w env req (place route) thid job status (diagnostics result.count) []
        (("content", array result.items) ∷ []))
]

credential_manager :
    {A : Type 0} (action : String) (w : Words)
    → (Settings → Request → CredentialRoute → String → Job CredentialRoute A → Option Json)
    → Manager CredentialRoute A
unfolding failed_message place same_route credential_response_location
credential_manager action w succeeded = record {
  same_route = same_route;
  missing_thid = λ route. join "" ("Missing thid for " ∷ action ∷ "-response polling." ∷ []);
  job_not_found =
      λ thid. join "" ("Credential " ∷ action ∷ " job not found for thid=" ∷ thid ∷ "." ∷ []);
  foreign_route = λ thid own asked. "Job exists but does not belong to this route.";
  location = λ env route thid.
      credential_response_location route.tenant_id route.jurisdiction route.sector
        route.credential_type action;
  retry_after = 3;
  failed_payload = λ env req route thid job. failed_message w env req (place route) thid job;
  no_result = λ thid.
      join "" ("Credential " ∷ action ∷ " job " ∷ thid ∷ " finished without result payload." ∷ []);
  succeeded_payload = succeeded;
}

unfoldable pub issue_manager : Manager CredentialRoute Counted
unfolding credential_manager words counted_payload
issue_manager =
    let w = words "_issue" "NetworkCredentialIssue-v1.0" "network-credential-issue-v1.0" in
    credential_manager "_issue" w (
      counted_payload w "stored" λ n. join "" ("Credential record(s) stored: " ∷ show n ∷ "." ∷ []))

unfoldable pub status_manager : Manager CredentialRoute Counted
unfolding credential_manager words counted_payload
status_manager =
    let w = words "_status" "NetworkCredentialStatus-v1.0" "network-credential-status-v1.0" in
    credential_manager "_status" w (
      counted_payload w "resolved"
        λ n. join "" ("Credential status resolved for " ∷ show n ∷ " item(s)." ∷ []))

unfoldable pub revoke_manager : Manager CredentialRoute Counted
unfolding credential_manager words counted_payload
revoke_manager =
    let w = words "_revoke" "NetworkCredentialRevoke-v1.0" "network-credential-revoke-v1.0" in
    credential_manager "_revoke" w (
      counted_payload w "revoked"
        λ n. join "" ("Credential status set to revoked for " ∷ show n ∷ " item(s)." ∷ []))

unfoldable pub search_manager : Manager CredentialRoute Counted
unfolding credential_manager words counted_payload
search_manager =
    let w = words "_search" "NetworkCredentialSearch-v1.0" "network-credential-search-v1.0" in
    credential_manager "_search" w (
      counted_payload w "matched"
        λ n. join "" ("Credential search matched " ∷ show n ∷ " organization credential(s)." ∷ []))

retrieved_payload :
    Words
    → Settings
    → Request
    → CredentialRoute
    → String
    → Job CredentialRoute Retrieved
    → Option Json
unfolding succeeded_message place
retrieved_payload w env req route thid job = elim job.result [
  | none ↦ none
  | some result ↦ elim result.item [
    | none ↦ none
    | some item ↦ some (
        succeeded_message w env req (place route) thid job "found"
          "Credential retrieve succeeded with one signed credential."
          (("format", str result.format) ∷ []) (("content", array (item ∷ [])) ∷ []))
  ]
]

unfoldable pub retrieve_manager : Manager CredentialRoute Retrieved
unfolding credential_manager words retrieved_payload
retrieve_manager =
    let w = words "_retrieve" "NetworkCredentialRetrieve-v2.0" "network-credential-retrieve-v2.0" in
    credential_manager "_retrieve" w (retrieved_payload w)
