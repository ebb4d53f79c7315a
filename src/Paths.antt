-- ===== src/Paths.antt =====
-- src/api/path.ts: the locations at which a client polls for the response to a submission. `encode`
-- is the form encoding of the platform's `URLSearchParams`.
use Prim.Native.String.{[], ◌∷◌}
use dataspace_ica_ts.Common.{String, not, ◌&&◌, List, [], ◌∷◌, is_empty, ◌==◌, if◌then◌else◌}
use dataspace_ica_ts.Text.{trim, join}

-- `/${tenantId}/cds-${jurisdiction}/v1/${sector}` and what follows.
unfoldable pub location : String → String → String → List String → String
location tenant_id jurisdiction sector rest =
    join "" ("/" ∷ tenant_id ∷ "/cds-" ∷ jurisdiction ∷ "/v1/" ∷ sector ∷ rest)

-- `action.endsWith('-response') ? action.slice(0, -9) : action`: the one rest of an action that can
-- equal the suffix is its end.
unfoldable pub to_submit_action : String → String
to_submit_action [] = ""
to_submit_action (c ∷ rest) =
    let before : String = c ∷ to_submit_action rest in
    let whole : String = c ∷ rest in if whole == "-response" then "" else before

-- The entries of `params` whose text is not blank, encoded.
query_parts : (String → String) → List (String × String) → List String
query_parts encode [] = []
query_parts encode ((k, v) ∷ params) =
    let rest = query_parts encode params in
    if not (is_empty v) && not (is_empty (trim v))
    then join "" (encode k ∷ "=" ∷ encode v ∷ []) ∷ rest
    else rest

unfoldable pub with_query : (String → String) → String → List (String × String) → String
unfolding query_parts
with_query encode base params =
    let suffix = join "&" (query_parts encode params) in
    if is_empty suffix then base else join "" (base ∷ "?" ∷ suffix ∷ [])

module _ (tenant_id jurisdiction sector : String) where
  unfoldable pub credential_response_location : String → String → String
  unfolding location
  credential_response_location credential_type action =
      location tenant_id jurisdiction sector
        ("/network/credentials/" ∷ credential_type ∷ "/" ∷ action ∷ "-response" ∷ [])

  unfoldable pub add_evidence_response_location : String → String
  unfolding location
  add_evidence_response_location evidence_type =
      location tenant_id jurisdiction sector
        ("/network/evidence/" ∷ evidence_type ∷ "/_add-response" ∷ [])

  unfoldable pub delegation_policy_response_location : String
  unfolding location
  delegation_policy_response_location =
      location tenant_id jurisdiction sector ("/network/policies/delegations/_upsert-response" ∷ [])

  unfoldable pub activate_response_location : String
  unfolding location
  activate_response_location =
      location tenant_id jurisdiction sector ("/entity/keys/credentials/_activate-response" ∷ [])

  unfoldable pub terms_remove_response_location :
      (String → String) → String → String → List (String × String) → String
  unfolding location with_query
  terms_remove_response_location encode section resource_type params =
      with_query encode
        (location tenant_id jurisdiction sector
          ("/" ∷ section ∷ "/pdf/" ∷ resource_type ∷ "/_remove-response" ∷ []))
        params

  unfoldable pub create_did_document_response_location :
      (String → String) → List (String × String) → String
  unfolding location with_query
  create_did_document_response_location encode params =
      with_query encode
        (location tenant_id jurisdiction sector ("/entity/did/document/_create-response" ∷ []))
        params

  unfoldable pub controller_exchange_response_location :
      (String → String) → List (String × String) → String
  unfolding location with_query
  controller_exchange_response_location encode params =
      with_query encode
        (location tenant_id jurisdiction sector
          ("/organization/dataspace/auth/_exchange-response" ∷ []))
        params

  unfoldable pub api_key_response_location :
      (String → String) → String → List (String × String) → String
  unfolding location with_query to_submit_action
  api_key_response_location encode action params =
      with_query encode
        (location tenant_id jurisdiction sector
          ("/api-key/org.schema/action/" ∷ to_submit_action action ∷ "-response" ∷ []))
        params

  unfoldable pub identity_auth_response_location :
      (String → String) → String → List (String × String) → String
  unfolding location with_query to_submit_action
  identity_auth_response_location encode action params =
      with_query encode
        (location tenant_id jurisdiction sector
          ("/identity/auth/" ∷ to_submit_action action ∷ "-response" ∷ []))
        params
