-- ===== src/Routes/Laws/Groups.antt =====
-- The scope of every accepted route: whichever parser accepts a path, the tenant, the jurisdiction and
-- the sector of its route are those of the deployment.
use dataspace_ica_ts.Common.{
  String, ◌≡◌, refl, inl, inr, Bool-cases, Option, some, none, List, [], ◌∷◌, arith, some_inj, not,
  ◌&&◌, is_empty, ◌==◌,
}
use dataspace_ica_ts.Text.{trim}
use dataspace_ica_ts.Text.Slashes.{NoSlash, All}
use dataspace_ica_ts.Jobs.Activation.{ActivateRouteContext}
use dataspace_ica_ts.Routes.Contexts.{
  DocumentRouteContext, EntityRouteContext, AddEvidenceRouteContext, DelegationPolicyRouteContext,
  CredentialRouteContext, PlainRouteContext, DatasetRouteContext,
}
use dataspace_ica_ts.Routes.Scope.{RouteEnv, Parsed, parsed, rejected, refuse_if}
use dataspace_ica_ts.Routes.Resource.{parse_resource_type}
use dataspace_ica_ts.Routes.Documents.{require_network_kind, terms_remove_groups}
use dataspace_ica_ts.Routes.Entity.{
  EntityKeysRoute, entity_keys_groups, activate_of, rotate_of, did_document_groups,
}
use dataspace_ica_ts.Routes.Network.{add_evidence_groups, delegation_policy_groups, spaces_groups}
use dataspace_ica_ts.Routes.Credentials.{credential_groups}
use dataspace_ica_ts.Routes.Access.{AuthRoute, parse_auth_route_base, auth_groups, auth_context}
use dataspace_ica_ts.Routes.Dcat.{
  dataset_context, parse_dcat_route_base, request_groups, dataset_groups,
}
use dataspace_ica_ts.Routes.Laws.Accepted.{bind-parsed, then-parsed, parsed_inj}
use dataspace_ica_ts.Routes.Laws.Canonical.{IsCanonical, IsCanonical-groups}

-- The groups of a route that is accepted, none with a slash.
module _ (env : RouteEnv) where
  pub terms_remove_groups-IsCanonical :
      (groups : List String) (c : DocumentRouteContext)
      → All NoSlash groups
      → terms_remove_groups env groups ≡ some (parsed c)
      → IsCanonical env c.tenant_id c.jurisdiction c.sector
  unfolding terms_remove_groups
  terms_remove_groups-IsCanonical (t ∷ j ∷ s ∷ k ∷ r ∷ a ∷ []) c (no_t, (no_j, (no_s, _))) h =
      let (_, _, h1) = bind-parsed (require_network_kind k) _ _ (some_inj _ _ h) in
      let (_, checked, h2) = bind-parsed _ _ _ h1 in
      let (resource_type, _, h3) = bind-parsed (parse_resource_type env (trim r)) _ _ h2 in
      let same = parsed_inj _ _ h3 in
      rw (← same) (IsCanonical-groups env t j s _ checked no_t no_j no_s)
  terms_remove_groups-IsCanonical groups c k h = ground arith

  pub entity_keys_groups-IsCanonical :
      (groups : List String) (c : EntityKeysRoute)
      → All NoSlash groups
      → entity_keys_groups env groups ≡ some (parsed c)
      → IsCanonical env c.tenant_id c.jurisdiction c.sector
  unfolding entity_keys_groups
  entity_keys_groups-IsCanonical (t ∷ j ∷ s ∷ r ∷ a ∷ []) c (no_t, (no_j, (no_s, _))) h =
      let (_, checked, h1) = bind-parsed _ _ _ (some_inj _ _ h) in
      let same = parsed_inj _ _ h1 in
      rw (← same) (IsCanonical-groups env t j s _ checked no_t no_j no_s)
  entity_keys_groups-IsCanonical groups c k h = ground arith

  pub did_document_groups-IsCanonical :
      (groups : List String) (c : EntityRouteContext)
      → All NoSlash groups
      → did_document_groups env groups ≡ some (parsed c)
      → IsCanonical env c.tenant_id c.jurisdiction c.sector
  unfolding did_document_groups
  did_document_groups-IsCanonical (t ∷ j ∷ s ∷ a ∷ []) c (no_t, (no_j, (no_s, _))) h =
      let (_, checked, h1) = bind-parsed _ _ _ (some_inj _ _ h) in
      let same = parsed_inj _ _ h1 in
      rw (← same) (IsCanonical-groups env t j s _ checked no_t no_j no_s)
  did_document_groups-IsCanonical groups c k h = ground arith

  pub add_evidence_groups-IsCanonical :
      (groups : List String) (c : AddEvidenceRouteContext)
      → All NoSlash groups
      → add_evidence_groups env groups ≡ some (parsed c)
      → IsCanonical env c.tenant_id c.jurisdiction c.sector
  unfolding add_evidence_groups
  add_evidence_groups-IsCanonical (t ∷ j ∷ s ∷ e ∷ a ∷ []) c (no_t, (no_j, (no_s, _))) h =
      let (_, checked, h1) = bind-parsed _ _ _ (some_inj _ _ h) in
      let (_, h2) = then-parsed _ _ _ h1 in
      let same = parsed_inj _ _ h2 in
      rw (← same) (IsCanonical-groups env t j s _ checked no_t no_j no_s)
  add_evidence_groups-IsCanonical groups c k h = ground arith

  pub delegation_policy_groups-IsCanonical :
      (groups : List String) (c : DelegationPolicyRouteContext)
      → All NoSlash groups
      → delegation_policy_groups env groups ≡ some (parsed c)
      → IsCanonical env c.tenant_id c.jurisdiction c.sector
  unfolding delegation_policy_groups
  delegation_policy_groups-IsCanonical (t ∷ j ∷ s ∷ a ∷ []) c (no_t, (no_j, (no_s, _))) h =
      let (_, checked, h1) = bind-parsed _ _ _ (some_inj _ _ h) in
      let same = parsed_inj _ _ h1 in
      rw (← same) (IsCanonical-groups env t j s _ checked no_t no_j no_s)
  delegation_policy_groups-IsCanonical groups c k h = ground arith

  pub spaces_groups-IsCanonical :
      (groups : List String) (c : PlainRouteContext)
      → All NoSlash groups
      → spaces_groups env groups ≡ some (parsed c)
      → IsCanonical env c.tenant_id c.jurisdiction c.sector
  unfolding spaces_groups
  spaces_groups-IsCanonical (t ∷ j ∷ s ∷ a ∷ []) c (no_t, (no_j, (no_s, _))) h =
      let (_, checked, h1) = bind-parsed _ _ _ (some_inj _ _ h) in
      let same = parsed_inj _ _ h1 in
      rw (← same) (IsCanonical-groups env t j s _ checked no_t no_j no_s)
  spaces_groups-IsCanonical groups c k h = ground arith

  pub credential_groups-IsCanonical :
      (as_action : String → String) (groups : List String) (c : CredentialRouteContext)
      → All NoSlash groups
      → credential_groups as_action env groups ≡ some (parsed c)
      → IsCanonical env c.tenant_id c.jurisdiction c.sector
  unfolding credential_groups
  credential_groups-IsCanonical as_action (t ∷ j ∷ s ∷ e ∷ a ∷ []) c (no_t, (no_j, (no_s, _))) h =
      let (_, checked, h1) = bind-parsed _ _ _ (some_inj _ _ h) in
      let (_, h2) = then-parsed _ _ _ h1 in
      let same = parsed_inj _ _ h2 in
      rw (← same) (IsCanonical-groups env t j s _ checked no_t no_j no_s)
  credential_groups-IsCanonical as_action groups c k h = ground arith

  pub parse_auth_route_base-IsCanonical :
      (groups : List String) (c : AuthRoute)
      → All NoSlash groups
      → parse_auth_route_base env groups ≡ some (parsed c)
      → IsCanonical env c.tenant_id c.jurisdiction c.sector
  unfolding parse_auth_route_base
  parse_auth_route_base-IsCanonical (t ∷ j ∷ s ∷ a ∷ []) c (no_t, (no_j, (no_s, _))) h =
      let (_, checked, h1) = bind-parsed _ _ _ (some_inj _ _ h) in
      let same = parsed_inj _ _ h1 in
      rw (← same) (IsCanonical-groups env t j s _ checked no_t no_j no_s)
  parse_auth_route_base-IsCanonical groups c k h = ground arith

  pub activate_of-IsCanonical :
      (r : EntityKeysRoute) (c : ActivateRouteContext)
      → IsCanonical env r.tenant_id r.jurisdiction r.sector
      → activate_of r ≡ some (parsed c)
      → IsCanonical env c.tenant_id c.jurisdiction c.sector
  unfolding activate_of
  activate_of-IsCanonical r c k h =
      elim (Bool-cases (not (r.action == "_activate") && not (r.action == "_activate-response"))) [
        | inl other ↦ ground (arith, (rw (other, activate_of) at h))
        | inr own ↦ elim (Bool-cases (r.resource_type == "credentials")) [
          | inl same_type ↦
              let same = parsed_inj _ _ (some_inj _ _ (rw (own, same_type, activate_of) at h)) in
              rw (← same) k
          | inr other ↦ ground (arith, (rw (own, other, activate_of) at h))
        ]
      ]

  pub rotate_of-IsCanonical :
      (r : EntityKeysRoute) (c : EntityRouteContext)
      → IsCanonical env r.tenant_id r.jurisdiction r.sector
      → rotate_of r ≡ some (parsed c)
      → IsCanonical env c.tenant_id c.jurisdiction c.sector
  unfolding rotate_of
  rotate_of-IsCanonical r c k h =
      elim (Bool-cases (not (r.action == "_rotate") && not (r.action == "_rotate-response"))) [
        | inl other ↦ ground (arith, (rw (other, rotate_of) at h))
        | inr own ↦
            let same = parsed_inj _ _ (some_inj _ _ (rw (own, rotate_of) at h)) in rw (← same) k
      ]

  pub auth_groups-IsCanonical :
      (as_action : String → String) (section format : String) (groups : List String)
      (c : PlainRouteContext)
      → All NoSlash groups
      → auth_groups as_action section format env groups ≡ some (parsed c)
      → IsCanonical env c.tenant_id c.jurisdiction c.sector
  unfolding auth_groups auth_context
  auth_groups-IsCanonical as_action section format groups c k h =
      cases (parse_auth_route_base env groups) refl
    where
      cases :
          (o : Option (Parsed AuthRoute))
          → parse_auth_route_base env groups ≡ o
          → IsCanonical env c.tenant_id c.jurisdiction c.sector
      cases none e = ground (arith, (rw (e, auth_groups) at h))
      cases (some (rejected status message)) e = ground (arith, (rw (e, auth_groups) at h))
      cases (some (parsed r)) e =
          let same = parsed_inj _ _ (some_inj _ _ (rw (e, auth_groups) at h)) in
          rw (← same) (parse_auth_route_base-IsCanonical groups r k e)

  pub request_groups-IsCanonical :
      (format action : String) (groups : List String) (c : PlainRouteContext)
      → All NoSlash groups
      → request_groups format action env groups ≡ some (parsed c)
      → IsCanonical env c.tenant_id c.jurisdiction c.sector
  unfolding request_groups parse_dcat_route_base
  request_groups-IsCanonical format action (t ∷ j ∷ s ∷ []) c (no_t, (no_j, (no_s, _))) h =
      let (_, based, h1) = bind-parsed (parse_dcat_route_base env t j s) _ _ (some_inj _ _ h) in
      let (checked, base) = then-parsed _ _ _ based in
      let same_base = parsed_inj _ _ base in
      let same = parsed_inj _ _ h1 in
      rw (← same, ← same_base) (IsCanonical-groups env t j s _ checked no_t no_j no_s)
  request_groups-IsCanonical format action groups c k h = ground arith

  pub dataset_groups-IsCanonical :
      (format action : String) (groups : List String) (c : DatasetRouteContext)
      → All NoSlash groups
      → dataset_groups format action env groups ≡ some (parsed c)
      → IsCanonical env c.tenant_id c.jurisdiction c.sector
  unfolding dataset_groups parse_dcat_route_base
  dataset_groups-IsCanonical format action (t ∷ j ∷ s ∷ d ∷ []) c (no_t, (no_j, (no_s, _))) h =
      let (route, based, h1) = bind-parsed (parse_dcat_route_base env t j s) _ _ (some_inj _ _ h) in
      let (_, h2) =
        then-parsed (refuse_if (is_empty (trim d)) "dataset id is required in path.")
          (parsed (dataset_context format action route (trim d))) c h1 in
      let (checked, base) = then-parsed _ _ _ based in
      let same_base = parsed_inj _ _ base in
      let same = parsed_inj _ _ h2 in
      rw (← same, ← same_base) (IsCanonical-groups env t j s _ checked no_t no_j no_s)
  dataset_groups-IsCanonical format action groups c k h = ground arith
