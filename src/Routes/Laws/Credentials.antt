-- ===== src/Routes/Laws/Credentials.antt =====
-- The routes of credentials: what the parser has checked of one that it accepts.
use Prim.Native.String.{[], ◌∷◌}
use dataspace_ica_ts.Common.{
  String, ◌≡◌, refl, false, inl, inr, some, List, [], ◌∷◌, arith, is_empty, Option-cases, some_inj,
}
use dataspace_ica_ts.Text.{trim}
use dataspace_ica_ts.Text.Laws.{trim_idem}
use dataspace_ica_ts.Text.Slashes.{NoSlash, All, trim-NoSlash}
use dataspace_ica_ts.Routes.Pattern.{Segment, exec}
use dataspace_ica_ts.Routes.Pattern.Laws.{exec-NoSlash}
use dataspace_ica_ts.Routes.Scope.{RouteEnv, parsed}
use dataspace_ica_ts.Routes.Contexts.{CredentialRouteContext}
use dataspace_ica_ts.Routes.Credentials.{parse_credential_route, credential_groups}
use dataspace_ica_ts.Routes.Laws.Accepted.{bind-parsed, parsed_inj, refuse_if-parsed}
use dataspace_ica_ts.Routes.Laws.Canonical.{IsCanonical, IsCanonical-groups}

pub record IsAcceptedCredential (env : RouteEnv) (context : CredentialRouteContext) : Type 0 where
  pub scope : IsCanonical env context.tenant_id context.jurisdiction context.sector
  pub section : context.section ≡ "network"
  pub format : context.format ≡ "credentials"
  pub named : is_empty context.credential_type ≡ false
  pub trimmed : trim context.credential_type ≡ context.credential_type
  pub whole : NoSlash context.credential_type

module _ (as_action : String → String) (env : RouteEnv) (context : CredentialRouteContext) where
  credential_groups-IsAcceptedCredential :
      (groups : List String)
      → All NoSlash groups
      → credential_groups as_action env groups ≡ some (parsed context)
      → IsAcceptedCredential env context
  unfolding credential_groups
  credential_groups-IsAcceptedCredential (t ∷ j ∷ s ∷ c ∷ a ∷ []) (no_t, (no_j, (no_s, (no_c, _))))
        h =
      let (_, checked, h1) = bind-parsed _ _ _ (some_inj _ _ h) in
      let (_, named, h2) = bind-parsed _ _ _ h1 in
      let same = parsed_inj _ _ h2 in
      rw (← same) (record {
        scope = IsCanonical-groups env t j s _ checked no_t no_j no_s;
        section = refl;
        format = refl;
        named = refuse_if-parsed _ _ _ named;
        trimmed = trim_idem c;
        whole = trim-NoSlash c no_c;
      })
  credential_groups-IsAcceptedCredential groups k h = ground arith

  pub parse_credential-IsAcceptedCredential :
      (expression : List Segment) (pathname : String)
      → parse_credential_route expression as_action env pathname ≡ some (parsed context)
      → IsAcceptedCredential env context
  unfolding parse_credential_route
  parse_credential-IsAcceptedCredential expression pathname h =
      elim (Option-cases (exec expression pathname)) [
        | inl missed ↦ ground (arith, (rw (missed, parse_credential_route) at h))
        | inr (groups, found) ↦
            credential_groups-IsAcceptedCredential groups
              (exec-NoSlash expression pathname groups found)
              (rw (found, parse_credential_route) at h)
      ]

  -- Groups that are trimmed are taken as they stand.
  pub credential_groups-canonical :
      (action : String)
      → IsAcceptedCredential env context
      → as_action (trim action) ≡ action
      → credential_groups as_action env (
          context.tenant_id ∷ context.jurisdiction ∷ context.sector ∷ context.credential_type
          ∷ action ∷ [])
        ≡ some (parsed (record context { action = action }))
  unfolding credential_groups
  credential_groups-canonical action h e =
      rw
        (
          h.scope.tenant,
          h.scope.place,
          h.scope.folded,
          h.scope.checked,
          h.trimmed,
          h.named,
          e,
          ← h.section,
          ← h.format,
        )
        refl
