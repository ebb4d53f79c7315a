-- ===== src/Routes/Laws/Parsers.antt =====
-- The groups that a parser hands on, and the routes of the keys of an entity.
use dataspace_ica_ts.Common.{
  String, ◌≡◌, refl, inl, inr, Option-cases, Option, some, none, List, arith,
}
use dataspace_ica_ts.Text.Slashes.{NoSlash, All}
use dataspace_ica_ts.Jobs.Activation.{ActivateRouteContext}
use dataspace_ica_ts.Routes.Pattern.{Segment, exec}
use dataspace_ica_ts.Routes.Pattern.Laws.{exec-NoSlash}
use dataspace_ica_ts.Routes.Expressions.{entity_keys_route}
use dataspace_ica_ts.Routes.Contexts.{EntityRouteContext}
use dataspace_ica_ts.Routes.Scope.{RouteEnv, Parsed, parsed, rejected}
use dataspace_ica_ts.Routes.Entity.{
  EntityKeysRoute, entity_keys_groups, parse_entity_keys_route, parse_activate_route,
  parse_rotate_route,
}
use dataspace_ica_ts.Routes.Laws.Canonical.{IsCanonical}
use dataspace_ica_ts.Routes.Laws.Groups.{
  entity_keys_groups-IsCanonical, activate_of-IsCanonical, rotate_of-IsCanonical,
}

-- The groups that a parser hands on.
module _ {A : Type 0} (expression : List Segment) (read : List String → Option (Parsed A))
    (pathname : String) (a : A) where
  abbrev after_exec : Option (List String) → Option (Parsed A)
  after_exec none = none
  after_exec (some groups) = read groups

  pub groups_of_accepted :
      after_exec (exec expression pathname) ≡ some (parsed a)
      → (groups : List String) × (All NoSlash groups) × (read groups ≡ some (parsed a))
  groups_of_accepted h = elim (Option-cases (exec expression pathname)) [
    | inl missed ↦ ground (arith, (rw missed at h))
    | inr (groups, found) ↦ (groups, exec-NoSlash expression pathname groups found, rw found at h)
  ]

module _ (env : RouteEnv) (pathname : String) where
  entity_keys-IsCanonical :
      (r : EntityKeysRoute)
      → parse_entity_keys_route env pathname ≡ some (parsed r)
      → IsCanonical env r.tenant_id r.jurisdiction r.sector
  unfolding parse_entity_keys_route
  entity_keys-IsCanonical r h =
      let (groups, whole, e) =
        groups_of_accepted entity_keys_route (entity_keys_groups env) pathname r h in
      entity_keys_groups-IsCanonical env groups r whole e

  pub activate-IsCanonical :
      (c : ActivateRouteContext)
      → parse_activate_route env pathname ≡ some (parsed c)
      → IsCanonical env c.tenant_id c.jurisdiction c.sector
  unfolding parse_activate_route
  activate-IsCanonical c h = read (parse_entity_keys_route env pathname) refl
    where
      read :
          (o : Option (Parsed EntityKeysRoute))
          → parse_entity_keys_route env pathname ≡ o
          → IsCanonical env c.tenant_id c.jurisdiction c.sector
      read none e = ground (arith, (rw (e, parse_activate_route) at h))
      read (some (rejected status message)) e = ground (arith, (rw (e, parse_activate_route) at h))
      read (some (parsed r)) e =
          activate_of-IsCanonical env r c (entity_keys-IsCanonical r e)
            (rw (e, parse_activate_route) at h)

  pub rotate-IsCanonical :
      (c : EntityRouteContext)
      → parse_rotate_route env pathname ≡ some (parsed c)
      → IsCanonical env c.tenant_id c.jurisdiction c.sector
  unfolding parse_rotate_route
  rotate-IsCanonical c h = read (parse_entity_keys_route env pathname) refl
    where
      read :
          (o : Option (Parsed EntityKeysRoute))
          → parse_entity_keys_route env pathname ≡ o
          → IsCanonical env c.tenant_id c.jurisdiction c.sector
      read none e = ground (arith, (rw (e, parse_rotate_route) at h))
      read (some (rejected status message)) e = ground (arith, (rw (e, parse_rotate_route) at h))
      read (some (parsed r)) e =
          rotate_of-IsCanonical env r c (entity_keys-IsCanonical r e)
            (rw (e, parse_rotate_route) at h)
