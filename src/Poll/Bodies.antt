-- ===== src/Poll/Bodies.antt =====
-- The DIDComm bodies of the response managers in src/api/managers: one Bundle with one entry, whose
-- resource repeats the thread, the route and the times of the job.
use dataspace_ica_ts.Common.{ℕ, String, Option, none, some, List, [], ◌∷◌, ◌++◌, ◌|||◌}
use dataspace_ica_ts.Text.{to_upper, join}
use dataspace_ica_ts.Text.Date.{to_iso_string}
use dataspace_ica_ts.Json.{Json, str, num, object, array}
use dataspace_ica_ts.Didcomm.{Settings, Request, bundle_message}
use dataspace_ica_ts.Jobs.{Job}

abbrev pub or_text : Option String → String → String
or_text none fallback = fallback
or_text (some s) fallback = s ||| fallback

-- `{ resourceType: 'OperationOutcome', issue: [{ severity, code, diagnostics }] }`
unfoldable pub operation_outcome : String → String → String → Json
operation_outcome severity code diagnostics = object (
    ("resourceType", str "OperationOutcome")
    ∷ (
      "issue",
      array (
          object (
            ("severity", str severity) ∷ ("code", str code) ∷ ("diagnostics", str diagnostics) ∷ [])
          ∷ []),
    )
    ∷ [])

-- One entry of `data`, and the Bundle around it.
unfoldable pub bundle_entry : String → Json → String → Json → Json
bundle_entry entry_type resource status outcome = object (
    ("type", str entry_type)
    ∷ ("resource", resource)
    ∷ ("response", object (("status", str status) ∷ ("outcome", outcome) ∷ []))
    ∷ [])

unfoldable pub batch_response : Json → ℕ → List Json → Json
batch_response outcome total entries = object (
    ("resourceType", str "Bundle")
    ∷ ("type", str "batch-response")
    ∷ ("issues", outcome)
    ∷ ("total", num total)
    ∷ ("data", array entries)
    ∷ [])

-- What the code writes of a route: three common fields and those of its own.
pub record Place : Type 0 where
  pub tenant_id : String
  pub jurisdiction : String
  pub sector : String
  pub own : List (String × Json)

-- The words that a manager puts into its texts and entries.
pub record Words : Type 0 where
  pub entry_type : String
  pub resource_type : String
  pub unknown_failure : String

module _ {R A : Type 0} (w : Words) (env : Settings) (req : Request) (p : Place) (thid : String)
    (job : Job R A) where
  resource : String → List (String × Json) → List (String × Json) → Json
  resource status before after = object (
      ("id", str (join "" ("urn:uuid:" ∷ req.uuid 0 ∷ [])))
      ∷ ("type", str w.resource_type)
      ∷ ("thid", str thid)
      ∷ ("tenantId", str p.tenant_id)
      ∷ ("jurisdiction", str (to_upper p.jurisdiction))
      ∷ ("sector", str p.sector)
      ∷ (p.own
          ++ (("status", str status)
              ∷ (before
                  ++ (("createdAt", str (to_iso_string job.created_at))
                      ∷ ("updatedAt", str (to_iso_string job.updated_at))
                      ∷ after)))))

  unfoldable pub failed_message : Json
  unfolding resource operation_outcome bundle_entry batch_response bundle_message
  failed_message =
      let diagnostics = or_text job.error w.unknown_failure in
      let outcome = operation_outcome "error" "exception" diagnostics in
      let content = array (object (("error", str diagnostics) ∷ []) ∷ []) in
      bundle_message env req p.tenant_id thid (
        batch_response outcome 1 (
          bundle_entry w.entry_type (resource "failed" [] (("content", content) ∷ [])) "500" outcome
          ∷ []))

  -- The fields before the times and those after them are the manager's own.
  unfoldable pub succeeded_message :
      String → String → List (String × Json) → List (String × Json) → Json
  unfolding resource operation_outcome bundle_entry batch_response bundle_message
  succeeded_message status diagnostics before after =
      let outcome = operation_outcome "information" "informational" diagnostics in
      bundle_message env req p.tenant_id thid (
        batch_response outcome 1
          (bundle_entry w.entry_type (resource status before after) "200" outcome ∷ []))
