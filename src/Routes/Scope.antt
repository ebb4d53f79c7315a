-- ===== src/Routes/Scope.antt =====
-- src/api/path.ts: the checks that every parser makes of the tenant, the jurisdiction and the sector,
-- with the environment variables that they read.
use dataspace_ica_ts.Common.{
  ℕ, String, Bool, true, false, not, Option, none, some, [], ◌∷◌, ◌==◌, if◌then◌else◌, is_empty,
}
use dataspace_ica_ts.Text.{trim, to_lower, join}
use dataspace_ica_ts.Config.Catalogs.{
  is_supported_sector, sector_error_message, is_supported_jurisdiction, jurisdiction_error_message,
}

-- The variables of `process.env` that are read.
pub record RouteEnv : Type 0 where
  pub local_tenant_id : Option String
  pub sectors : Option String
  pub jurisdictions : Option String
  pub enable_test_terms_prefix : Option String
  pub allow_test_resource_type_prefix : Option String
  pub terms_active_resource_types : Option String

-- `{ ok: true, ... }` or `{ ok: false, statusCode, message }`
pub data Parsed {ℓ} (A : Type ℓ) : Type ℓ where
  parsed : A → Parsed A
  rejected : ℕ → String → Parsed A

infixl 5 ◌>>=◌ ◌>>◌
abbrev pub ◌>>=◌ {ℓ κ} : {A : Type ℓ} {B : Type κ} → Parsed A → (A → Parsed B) → Parsed B
parsed a >>= f = f a
rejected status message >>= f = rejected status message

abbrev pub ◌>>◌ {ℓ} : {B : Type ℓ} → Parsed (Unit {0}) → Parsed B → Parsed B
m >> k = m >>= λ _. k

-- `if (bad) return { ok: false, statusCode: 400, message };`
abbrev pub refuse_if : Bool → String → Parsed (Unit {0})
refuse_if true message = rejected 400 message
refuse_if false message = parsed tt

-- `configuredLocalTenantId`
unfoldable pub configured_local_tenant_id : RouteEnv → Option String
configured_local_tenant_id env = elim env.local_tenant_id [
  | none ↦ none
  | some value ↦ if is_empty (trim value) then none else some (trim value)
]

unfoldable pub validate_tenant : RouteEnv → String → Parsed (Unit {0})
unfolding configured_local_tenant_id
validate_tenant env tenant_id = elim (configured_local_tenant_id env) [
  | none ↦ parsed tt
  | some local ↦
      refuse_if (not (to_lower tenant_id == to_lower local))
        (join "" ("tenantId must be \"" ∷ local ∷ "\" for this ICA deployment." ∷ []))
]

unfoldable pub validate_jurisdiction : RouteEnv → String → Parsed (Unit {0})
validate_jurisdiction env jurisdiction = do
  refuse_if (is_empty jurisdiction) "jurisdiction is required in path."
  refuse_if (not (is_supported_jurisdiction jurisdiction env.jurisdictions))
      (jurisdiction_error_message env.jurisdictions)

-- The checks of the three groups, in the order that all parsers have.
unfoldable pub check_scope : RouteEnv → String → String → String → Parsed (Unit {0})
check_scope env tenant_id jurisdiction sector = do
  refuse_if (is_empty tenant_id) "tenantId is required in path."
  validate_tenant env tenant_id
  validate_jurisdiction env jurisdiction
  refuse_if (not (is_supported_sector sector env.sectors)) (sector_error_message env.sectors)
