-- ===== src/Routes/Laws/Accepted.antt =====
-- What a parser has checked of a route that it accepts.
use dataspace_ica_ts.Common.{
  String, ◌≡◌, refl, Bool, true, false, not, inl, inr, Option, some, none, arith, is_empty, ◌==◌,
  Option-cases,
}
use dataspace_ica_ts.Text.{to_lower}
use dataspace_ica_ts.Config.Catalogs.{is_supported_sector, is_supported_jurisdiction}
use dataspace_ica_ts.Routes.Scope.{
  RouteEnv, Parsed, parsed, rejected, ◌>>=◌, ◌>>◌, refuse_if, configured_local_tenant_id,
  validate_tenant, validate_jurisdiction, check_scope,
}

module _ {ℓ κ} {A : Type ℓ} {B : Type κ} where
  -- What a chain of checks that accepts went through.
  pub bind-parsed :
      (m : Parsed A) (f : A → Parsed B) (b : B)
      → (m >>= f) ≡ parsed b
      → (a : A) × (m ≡ parsed a) × (f a ≡ parsed b)
  bind-parsed (parsed a) f b h = (a, refl, h)
  bind-parsed (rejected status message) f b h = cc

pub then-parsed {ℓ} :
    {B : Type ℓ} (m : Parsed (Unit {0})) (k : Parsed B) (b : B)
    → (m >> k) ≡ parsed b
    → (m ≡ parsed tt) × (k ≡ parsed b)
then-parsed (parsed tt) k b h = (refl, h)
then-parsed (rejected status message) k b h = cc

pub parsed_inj {ℓ} : {A : Type ℓ} (a b : A) → parsed a ≡ parsed b → a ≡ b
parsed_inj a b e = cc

pub refuse_if-parsed :
    (bad : Bool) (message : String) (u : Unit {0}) → refuse_if bad message ≡ parsed u → bad ≡ false
refuse_if-parsed true message u h = cc
refuse_if-parsed false message u h = refl

pub refuse_if-not-parsed :
    (good : Bool) (message : String) (u : Unit {0})
    → refuse_if (not good) message ≡ parsed u
    → good ≡ true
refuse_if-not-parsed true message u h = refl
refuse_if-not-parsed false message u h = cc

-- The tenant is the one that the deployment serves, if it names one.
abbrev pub IsLocal : Option String → String → Type 0
IsLocal none tenant_id = Unit
IsLocal (some local) tenant_id = (to_lower tenant_id == to_lower local) ≡ true

-- The three groups are not blank, and those of this deployment.
pub record IsInScope (env : RouteEnv) (tenant_id jurisdiction sector : String) : Type 0 where
  pub tenant : is_empty tenant_id ≡ false
  pub local : IsLocal (configured_local_tenant_id env) tenant_id
  pub place : is_empty jurisdiction ≡ false
  pub supported_place : is_supported_jurisdiction jurisdiction env.jurisdictions ≡ true
  pub supported_sector : is_supported_sector sector env.sectors ≡ true

validate_tenant-IsLocal :
    (env : RouteEnv) (t : String) (u : Unit {0})
    → validate_tenant env t ≡ parsed u
    → IsLocal (configured_local_tenant_id env) t
unfolding validate_tenant
validate_tenant-IsLocal env t u h = elim (Option-cases (configured_local_tenant_id env)) [
  | inl e ↦ rw e tt
  | inr (local, e) ↦ rw e (ground (arith, refuse_if-parsed _ _ _ (rw (e, validate_tenant) at h)))
]

pub check_scope-IsInScope :
    (env : RouteEnv) (t j s : String) (u : Unit {0})
    → check_scope env t j s ≡ parsed u
    → IsInScope env t j s
unfolding check_scope validate_jurisdiction
check_scope-IsInScope env t j s u h =
    let (_, a, h1) = bind-parsed _ _ _ h in
    let (_, b, h2) = bind-parsed _ _ _ h1 in
    let (_, c, d) = bind-parsed _ _ _ h2 in
    let (_, c1, c2) = bind-parsed _ _ _ c in
    record {
      tenant = refuse_if-parsed _ _ _ a;
      local = validate_tenant-IsLocal env t _ b;
      place = refuse_if-parsed _ _ _ c1;
      supported_place = ground (arith, refuse_if-parsed _ _ _ c2);
      supported_sector = ground (arith, refuse_if-parsed _ _ _ d);
    }
