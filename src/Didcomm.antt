-- ===== src/Didcomm.antt =====
-- src/api/tools/didcomm-message.ts: the plaintext DIDComm envelope of every response.
-- Parameters: `issuer_did` is what `resolveIcaIssuerDid(req)` (tools/ica-identity.ts) returns,
-- `url_host` the host that the platform's URL parser finds (`none` where it throws), `search_params`
-- the query of the request's URL (`none` where the parser throws), and `uuid` the random UUIDs that
-- one response draws, each draw of the code at an index of its own.
use Prim.Native.Char.{Char, code}
use Prim.Native.String.{[], ◌∷◌}
use dataspace_ica_ts.Common.{
  ℕ, String, Bool, false, not, ◌&&◌, ◌||◌, Option, none, some, List, [], ◌∷◌, leb, eqb, is_empty,
  is_nil, ◌==◌, ◌|||◌, if◌then◌else◌,
}
use dataspace_ica_ts.Text.{trim, to_lower, split, join}
use dataspace_ica_ts.Dict.{Dict, get}
use dataspace_ica_ts.Json.{Json, str, object, array}

-- The parts of the process environment that the envelope depends on, unset ones empty.
pub record Settings : Type 0 where
  pub audience_did : String
  pub local_tenant_id : String
  pub external_domain : String
  pub url_host : String → Option String
  -- The form encoding of `URLSearchParams`.
  pub encode : String → String

pub record Request : Type 0 where
  pub issuer_did : String
  pub search_params : Option (Dict String)
  pub uuid : ℕ → String

pub record Options : Type 0 where
  pub tenant_id : Option String
  pub thid : String
  pub aud : Option String
  pub message_type : String
  pub attachments : List Json
  pub thid_fallback_empty : Bool
  pub aud_fallback_empty : Bool

abbrev pub bundle_type : String
bundle_type = "application/bundle-api+json"

is_scheme_char : Char → Bool
is_scheme_char c =
    let n = code c in
    leb 97 n && leb n 122
    || leb 65 n && leb n 90
    || leb 48 n && leb n 57
    || eqb n 43
    || eqb n 45
    || eqb n 46

scheme_rest : String → Bool
scheme_rest [] = false
scheme_rest (c ∷ s) =
    if eqb (code c) 58 then starts_slashes s else is_scheme_char c && scheme_rest s
  where
    starts_slashes : String → Bool
    starts_slashes [] = false
    starts_slashes (c ∷ []) = false
    starts_slashes (c ∷ (d ∷ _)) = eqb (code c) 47 && eqb (code d) 47

-- /^[a-z][a-z0-9+.-]*:\/\//i
has_scheme : String → Bool
unfolding scheme_rest is_scheme_char
has_scheme [] = false
has_scheme (c ∷ s) =
    let n = code c in (leb 97 n && leb n 122 || leb 65 n && leb n 90) && scheme_rest s

has_char : ℕ → String → Bool
has_char n [] = false
has_char n (c ∷ s) = eqb (code c) n || has_char n s

abbrev head_or_empty : List String → String
head_or_empty [] = ""
head_or_empty (s ∷ _) = s

unfoldable pub normalize_authority : (String → Option String) → String → String
unfolding has_scheme
normalize_authority url_host raw =
    let trimmed = trim raw in
    if is_empty trimmed
    then ""
    else if has_scheme trimmed
    then elim (url_host trimmed) [ none ↦ "" | some host ↦ to_lower host ]
    else to_lower (trim (head_or_empty (split 47 trimmed)))

unfoldable pub resolve_audience_did : Settings → Option String → String → String
unfolding normalize_authority has_char
resolve_audience_did env tenant_id issuer_did =
    let configured = trim env.audience_did in
    if not (is_empty configured) then configured else elim tenant_id [
      | none ↦ issuer_did
      | some tenant ↦
          let local = to_lower (trim env.local_tenant_id) in
          let domain = normalize_authority env.url_host env.external_domain in
          if not (is_empty local) && to_lower tenant == local
          then issuer_did
          else if not (is_empty domain) && not (domain == "localhost") && not (has_char 58 domain)
          then join "" ("did:web:" ∷ to_lower tenant ∷ "." ∷ domain ∷ [])
          else issuer_did
    ]

abbrev param : String → Dict String → String
param k params = elim (get k params) [ none ↦ "" | some v ↦ v ]

-- The empty text stands for `undefined`.
unfoldable pub extract_thread_id : Request → String
extract_thread_id req = elim req.search_params [
  | none ↦ ""
  | some params ↦ trim (param "thid" params ||| param "jti" params)
]

unfoldable pub build_didcomm_message : Settings → Request → Json → Options → Json
unfolding resolve_audience_did extract_thread_id
build_didcomm_message env req body options =
    let candidate = trim (options.thid ||| extract_thread_id req) in
    let thid =
      if not (is_empty candidate)
      then candidate
      else if options.thid_fallback_empty
      then ""
      else req.uuid 1 in
    let aud : String = elim options.aud [
      | some aud ↦ aud
      | none ↦
          if options.aud_fallback_empty
          then ""
          else resolve_audience_did env options.tenant_id req.issuer_did
    ] in
    object (
      ("jti", str (join "" ("urn:uuid:" ∷ req.uuid 2 ∷ [])))
      ∷ ("iss", str req.issuer_did)
      ∷ ("aud", str aud)
      ∷ ("thid", str thid)
      ∷ ("type", str (options.message_type ||| bundle_type))
      ∷ ("body", body)
      ∷ (if is_nil options.attachments
          then []
          else ("attachments", array options.attachments) ∷ []))

-- `buildDidcommMessage(req, body, { route, thid, type: DIDCOMM_BUNDLE_TYPE })`
unfoldable pub bundle_message : Settings → Request → String → String → Json → Json
unfolding build_didcomm_message
bundle_message env req tenant_id thid body = build_didcomm_message env req body (record {
  tenant_id = some tenant_id;
  thid = thid;
  aud = none;
  message_type = bundle_type;
  attachments = [];
  thid_fallback_empty = false;
  aud_fallback_empty = false;
})
