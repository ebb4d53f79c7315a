-- ===== src/Routes/Laws/Canonical.antt =====
-- The tenant, the jurisdiction and the sector of an accepted route: they are trimmed, hold no slash,
-- and give the same groups when a path is built from them.
use Prim.Native.String.{◌∷◌}
use dataspace_ica_ts.Common.{
  String, ◌≡◌, refl, true, false, inl, inr, Bool-cases, Option, some, none, List, ◌∷◌, arith,
  is_empty,
}
use dataspace_ica_ts.Text.{trim, to_lower}
use dataspace_ica_ts.Text.Laws.{trim_idem, trim-to_lower, to_lower_idem}
use dataspace_ica_ts.Text.Tokens.{IsFree-++, is_code}
use dataspace_ica_ts.Text.Slashes.{NoSlash, All, trim-NoSlash, to_lower-NoSlash}
use dataspace_ica_ts.Config.Catalogs.{is_supported_sector}
use dataspace_ica_ts.Routes.Pattern.{Segment, fixed, capture, after, match_parts}
use dataspace_ica_ts.Routes.Pattern.Laws.{match-cons, match-fixed, match-capture, match-after}
use dataspace_ica_ts.Routes.Scope.{RouteEnv, parsed, check_scope}
use dataspace_ica_ts.Routes.Laws.Accepted.{IsInScope, check_scope-IsInScope}
use dataspace_ica_ts.Routes.Laws.Locations.{scope_parts}

pub record IsCanonical (env : RouteEnv) (tenant_id jurisdiction sector : String) : Type 0 where
  pub checked : check_scope env tenant_id jurisdiction sector ≡ parsed tt
  pub tenant : trim tenant_id ≡ tenant_id
  pub place : trim jurisdiction ≡ jurisdiction
  pub folded : to_lower (trim sector) ≡ sector
  pub whole_tenant : NoSlash tenant_id
  pub whole_place : NoSlash jurisdiction
  pub whole_sector : NoSlash sector

pub IsCanonical-groups :
    (env : RouteEnv) (t j s : String) (u : Unit {0})
    → check_scope env (trim t) (trim j) (to_lower (trim s)) ≡ parsed u
    → NoSlash t
    → NoSlash j
    → NoSlash s
    → IsCanonical env (trim t) (trim j) (to_lower (trim s))
IsCanonical-groups env t j s u h no_t no_j no_s = record {
  checked = h;
  tenant = trim_idem t;
  place = trim_idem j;
  folded = rw (trim-to_lower (trim s), trim_idem s) (to_lower_idem (trim s));
  whole_tenant = trim-NoSlash t no_t;
  whole_place = trim-NoSlash j no_j;
  whole_sector = to_lower-NoSlash (trim s) (trim-NoSlash s no_s);
}

pub is_supported_sector-ne_empty :
    (s : String) (env : Option String)
    → is_supported_sector s env ≡ true
    → is_empty (to_lower (trim s)) ≡ false
unfolding is_supported_sector
is_supported_sector-ne_empty s env h = elim (Bool-cases (is_empty (to_lower (trim s)))) [
  | inl e ↦ ground (arith, (rw (e, is_supported_sector) at h))
  | inr e ↦ e
]

module _ {env : RouteEnv} {t j s : String} (h : IsCanonical env t j s) where
  pub IsCanonical-IsInScope : IsInScope env t j s
  IsCanonical-IsInScope = check_scope-IsInScope env t j s tt h.checked

  -- The groups of a path whose segments are these.
  pub match_parts-scope_parts :
      (segments : List Segment) (parts groups : List String)
      → match_parts segments parts ≡ some groups
      → match_parts
          (fixed "" ∷ capture ∷ after "cds-" ∷ fixed "v1" ∷ capture ∷ segments)
          (scope_parts t j s parts)
        ≡ some (t ∷ j ∷ s ∷ groups)
  unfolding to_lower
  match_parts-scope_parts segments parts groups e =
      let scope = IsCanonical-IsInScope in
      let sector : is_empty s ≡ false =
        rw h.folded at (is_supported_sector-ne_empty s env.sectors scope.supported_sector) in
      match-cons _ _ _ _ _ none (match-fixed "" "" refl) (
        match-cons _ _ _ _ _ (some t) (match-capture t scope.tenant) (
          match-cons _ _ _ _ _ (some j) (match-after "cds-" j refl scope.place) (
            match-cons _ _ _ _ _ none (match-fixed "v1" "v1" refl)
              (match-cons _ _ _ _ _ (some s) (match-capture s sector) e))))

  pub scope_parts-NoSlash :
      (parts : List String) → All NoSlash parts → All NoSlash (scope_parts t j s parts)
  scope_parts-NoSlash parts k =
      let cds : NoSlash "cds-" = ground arith in
      let version : NoSlash "v1" = ground arith in
      let place = IsFree-++ (is_code 47) "cds-" j cds h.whole_place in
      (tt, (h.whole_tenant, (place, (version, (h.whole_sector, k)))))
