-- ===== src/Ledger/Projection.antt =====
-- `buildCredentialLedgerProjection`: the asset of a credential, from its JSON-LD document and its JWT.
use dataspace_ica_ts.Common.{
  String, Bool, true, false, not, Option, none, some, List, [], ◌∷◌, ◌==◌, is_empty, ◌|||◌, first,
  keep, map, eqb, if◌then◌else◌, Result, ok, throw, ◌>>=◌, ◌>>◌, reject_if,
}
use dataspace_ica_ts.Text.{split, join}
use dataspace_ica_ts.Text.Date.{to_iso_string}
use dataspace_ica_ts.Json.{
  Json, Entries, null, bool, num, str, obj, end, entry, field, as_object, object_field, as_string,
  as_items,
}
use dataspace_ica_ts.Ledger.{active, EvidenceRef, CredentialLedgerAsset, Platform}
use dataspace_ica_ts.Ledger.Canonical.{hash_json}

-- The part between the two dots of a text with two dots.
unfoldable pub jwt_part : List String → Option String
jwt_part (header ∷ payload ∷ signature ∷ []) = if is_empty payload then none else some payload
jwt_part _ = none

unfoldable pub decode_jwt_payload : Platform → String → Result Entries
unfolding jwt_part
decode_jwt_payload p jwt = elim (jwt_part (split 46 jwt)) [
  | none ↦ throw "VC-JWT must be a compact JWT."
  | some part ↦ do
    value ← p.parse_base64url part
    elim (as_object (some value)) [
      | none ↦ throw "VC-JWT payload must be a JSON object."
      | some payload ↦ ok payload
    ]
]

-- The content without its proof.
unfoldable pub logical_credential_content : Entries → Entries
logical_credential_content end = end
logical_credential_content (entry k v es) =
    let rest = logical_credential_content es in if k == "proof" then rest else entry k v rest

-- A text that is written only where it is not empty.
abbrev filled : String → Option String
filled s = if is_empty s then none else some s

evidence_ref : Entries → EvidenceRef
evidence_ref item =
    let txns =
      map (λ check. as_string (object_field "txn" (as_object (some check))))
        (as_items (field "check_details" item)) in
    record {
      type = as_string (field "type" item) ||| "unknown";
      document_txn = first (λ txn. not (is_empty txn)) txns;
      verifier =
          filled (as_string (object_field "organization" (as_object (field "verifier" item))));
      verified_at = filled (as_string (field "time" item));
      issuer = filled (as_string (field "issuer" item));
      serial_number = filled (as_string (field "serial_number" item));
      created_at = filled (as_string (field "created_at" item));
    }

evidence_refs_of : List Json → List EvidenceRef
unfolding evidence_ref
evidence_refs_of [] = []
evidence_refs_of (value ∷ values) = elim (as_object (some value)) [
  | none ↦ evidence_refs_of values
  | some item ↦ evidence_ref item ∷ evidence_refs_of values
]

-- `extractEvidenceRefs`
unfoldable pub extract_evidence_refs : Entries → List EvidenceRef
unfolding evidence_refs_of
extract_evidence_refs vc = evidence_refs_of (as_items (field "evidence" vc))

abbrev is_falsy : Json → Bool
is_falsy null = true
is_falsy (bool b) = not b
is_falsy (num n) = eqb n 0
is_falsy (str s) = is_empty s
is_falsy _ = false

-- `a || b` on values that may be absent.
abbrev or_value : Option Json → Option Json → Option Json
or_value none b = b
or_value (some a) b = if is_falsy a then b else some a

credential_types : Entries → List String
credential_types vc =
    keep (λ s. not (is_empty s)) (map (λ v. as_string (some v)) (as_items (field "type" vc)))

-- The identity contract, in the order of the checks.
unfoldable pub check_identity : String → String → String → String → Entries → Result (Unit {0})
check_identity credential_id subject_id jwt_jti jwt_sub payload = do
  reject_if (is_empty credential_id) "VC id is required for credential ledger registration."
  reject_if (not (jwt_jti == credential_id))
      (join "" ("JWT jti must equal VC id (" ∷ credential_id ∷ ")." ∷ []))
  reject_if (not (jwt_sub == subject_id))
      (join "" ("JWT sub must equal credentialSubject.id (" ∷ subject_id ∷ ")." ∷ []))
  elim (as_object (field "vc" payload)) [
    | none ↦ ok tt
    | some embedded ↦
        reject_if (not (as_string (field "id" embedded) == credential_id))
          "JWT vc.id must equal top-level VC id."
  ]

unfoldable pub vc_id : Entries → String
vc_id vc = as_string (field "id" vc)

unfoldable pub subject_id_of : Entries → String
subject_id_of vc = as_string (object_field "id" (as_object (field "credentialSubject" vc)))

unfoldable pub projection_of : Platform → Entries → String → Entries → CredentialLedgerAsset
unfolding credential_types vc_id subject_id_of logical_credential_content extract_evidence_refs
    hash_json
projection_of p vc jwt payload =
    let issued_at =
      as_string (or_value (field "validFrom" vc) (field "issuanceDate" vc)) ||| to_iso_string 0 in
    record {
      id = vc_id vc;
      status = active;
      issued_at = issued_at;
      updated_at = issued_at;
      issuer = as_string (field "issuer" vc);
      subject = subject_id_of vc;
      metadata = record {
        credential_type = credential_types vc;
        identity = record {
          vc_id = vc_id vc;
          jwt_jti = as_string (field "jti" payload);
          subject_id = subject_id_of vc;
          jwt_sub = as_string (field "sub" payload);
        };
        logical_content_hash = hash_json p (obj (logical_credential_content vc));
        representations =
            record { format = "vc+ld+json"; hash_value = hash_json p (obj vc) }
            ∷ record { format = "vc+jwt"; hash_value = p.digest jwt }
            ∷ [];
        evidence_refs = extract_evidence_refs vc;
      };
      updated_by = none;
      reason = none;
    }

unfoldable pub build_credential_ledger_projection :
    Platform → Entries → String → Result CredentialLedgerAsset
unfolding decode_jwt_payload check_identity projection_of
build_credential_ledger_projection p vc jwt = do
  payload ← decode_jwt_payload p jwt
  check_identity (vc_id vc) (subject_id_of vc) (as_string (field "jti" payload))
      (as_string (field "sub" payload)) payload
  ok (projection_of p vc jwt payload)
