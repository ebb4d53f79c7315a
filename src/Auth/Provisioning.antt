-- ===== src/Auth/Provisioning.antt =====
-- What `_create`, `_disable` and `_remove` of src/api/tools/backend-auth-service.ts do to a
-- tenant's API keys.
use dataspace_ica_ts.Common.{
  ℕ, String, ◌≡◌, refl, sym, ◌∙◌, Bool, true, false, none, some, List, [], ◌∷◌, ◌++◌, map, arith,
  eq_refl, any, keep, is_nil, if◌then◌else◌, ok, throw, Bool-cases, Option-cases, bind-ok, inl, inr,
}
use dataspace_ica_ts.Auth.Laws.{list_at-put}
use dataspace_ica_ts.Dict.{Dict, get}
use dataspace_ica_ts.Auth.{Platform, ApiKey, AuthState, list_at, tenant_key}
use dataspace_ica_ts.Auth.Keys.{
  CreateAction, check_action, new_key, create_keys, keep_created, create_api_keys, Selector,
  disable, is_selected, disabled_key, disable_selected, mutate_selected, reported, mutate_keys,
  mutate_api_keys,
}

-- Some selector names the key.
abbrev pub is_named : List Selector → ApiKey → Bool
is_named selectors key = any (λ (selector : Selector). is_selected selector key) selectors

abbrev pub disabled_if : Bool → ApiKey → ApiKey
disabled_if named key = if named then disabled_key key else key

disable_each : List Selector → List ApiKey → List ApiKey
disable_each selectors keys = map (λ key. disabled_if (is_named selectors key) key) keys

disable_each_nil : (keys : List ApiKey) → disable_each [] keys ≡ keys
unfolding disable_each
disable_each_nil [] = refl
disable_each_nil (key ∷ keys) = ground (arith, disable_each_nil keys)

is_named-disabled_key :
    (selectors : List Selector) (key : ApiKey)
    → is_named selectors (disabled_key key) ≡ is_named selectors key
unfolding is_selected disabled_key
is_named-disabled_key [] key = refl
is_named-disabled_key (selector ∷ selectors) key = cc (is_named-disabled_key selectors key)

disabled_if-disabled_key :
    (b : Bool) (key : ApiKey) → disabled_if b (disabled_key key) ≡ disabled_key key
unfolding disabled_key
disabled_if-disabled_key true key = refl
disabled_if-disabled_key false key = refl

disable_each_cons :
    (selector : Selector) (selectors : List Selector) (keys : List ApiKey)
    → disable_each selectors (disable_selected selector keys)
      ≡ disable_each (selector ∷ selectors) keys
unfolding disable_each disable_selected
disable_each_cons selector selectors [] = refl
disable_each_cons selector selectors (key ∷ keys) =
    let rest = disable_each_cons selector selectors keys in
    elim (Bool-cases (is_selected selector key)) [
      | inl e ↦ simp (e, is_named-disabled_key, disabled_if-disabled_key, rest)
      | inr e ↦ simp (e, rest)
    ]

mutate_keys-disable :
    (selectors : List Selector) (keys reply : List ApiKey)
    → (mutate_keys disable selectors keys).1 ≡ ok reply
    → (mutate_keys disable selectors keys).0 ≡ disable_each selectors keys
unfolding mutate_keys mutate_selected
mutate_keys-disable [] keys reply h = sym (disable_each_nil keys)
mutate_keys-disable (selector ∷ selectors) keys reply h =
    let matched = keep (is_selected selector) keys in
    elim (Bool-cases (is_nil matched)) [
      | inl e ↦ ground arith
      | inr e ↦
          let (rest, k, _) =
            bind-ok _ (λ rest. ok (map (reported disable) matched ++ rest)) reply (rw e at h) in
          rw e (
            mutate_keys-disable selectors (disable_selected selector keys) rest k
            ∙ disable_each_cons selector selectors keys)
    ]

list_at-none : {V : Type 0} (k : String) (d : Dict (List V)) → get k d ≡ none → list_at k d ≡ []
unfolding list_at
list_at-none k d e = rw (list_at, e) refl

list_at-some :
    {V : Type 0} (k : String) (l : List V) (d : Dict (List V)) → get k d ≡ some l → list_at k d ≡ l
unfolding list_at
list_at-some k l d e = rw (list_at, e) refl

-- A call that disables keys and returns leaves the keys of the tenant in their order: each key that
-- some selector names is disabled and no longer active, every other key is as it was.
pub mutate_api_keys-disable :
    (tenant : String) (selectors : List Selector) (s : AuthState) (reply : List ApiKey)
    → (mutate_api_keys tenant disable selectors s).1 ≡ ok reply
    → list_at (tenant_key tenant) (mutate_api_keys tenant disable selectors s).0.api_keys_by_tenant
      ≡ map
          (λ key. disabled_if (is_named selectors key) key)
          (list_at (tenant_key tenant) s.api_keys_by_tenant)
unfolding mutate_api_keys
mutate_api_keys-disable tenant [] s reply h = ground arith
mutate_api_keys-disable tenant (selector ∷ selectors) s reply h =
    let key = tenant_key tenant in
    let keys = list_at key s.api_keys_by_tenant in
    let changed = mutate_keys-disable (selector ∷ selectors) keys reply h in
    elim (Option-cases (get key s.api_keys_by_tenant)) [
      | inl e ↦ rw (e, list_at-none key s.api_keys_by_tenant e) refl
      | inr (old, e) ↦
          rw (e, list_at-put key key _ s.api_keys_by_tenant, eq_refl key)
            (unfold disable_each in changed)
    ]

-- Every action is complete: it names an email and a scope.
abbrev pub AllComplete : List CreateAction → Type 0
AllComplete [] = Unit
AllComplete (action ∷ actions) = (check_action action ≡ ok tt) × AllComplete actions

pub create_keys_complete :
    (p : Platform) (now : ℕ) (tenant actor : String) (actions : List CreateAction)
    → AllComplete actions
    → create_keys p now tenant actor actions ≡ (map (new_key p now tenant actor) actions, ok tt)
unfolding create_keys
create_keys_complete p now tenant actor [] h = refl
create_keys_complete p now tenant actor (action ∷ actions) h =
    rw (create_keys, h.0, create_keys_complete p now tenant actor actions h.1) refl

create_keys_incomplete :
    (p : Platform) (now : ℕ) (tenant actor message : String) (before after : List CreateAction)
    (bad : CreateAction)
    → AllComplete before
    → check_action bad ≡ throw message
    → create_keys p now tenant actor (before ++ (bad ∷ after))
      ≡ (map (new_key p now tenant actor) before, throw message)
unfolding create_keys
create_keys_incomplete p now tenant actor message [] after bad h e = rw (create_keys, e) refl
create_keys_incomplete p now tenant actor message (action ∷ before) after bad h e =
    rw (create_keys, h.0, create_keys_incomplete p now tenant actor message before after bad h.1 e)
      refl

-- At a tenant that has keys, a call that throws at an action without an email or a scope, after
-- actions that have both, keeps the keys of the actions before it: the caller is told the error,
-- and the keys are stored.
pub create_api_keys_incomplete :
    (p : Platform) (now : ℕ) (tenant actor message : String) (before after : List CreateAction)
    (bad : CreateAction) (old : List ApiKey) (s : AuthState)
    → AllComplete before
    → check_action bad ≡ throw message
    → get (tenant_key tenant) s.api_keys_by_tenant ≡ some old
    → let key = tenant_key tenant in
      let (s', reply) = create_api_keys p now tenant actor (before ++ (bad ∷ after)) s in
      (list_at key s'.api_keys_by_tenant ≡ old ++ map (new_key p now key actor) before)
      × (reply ≡ throw message)
unfolding create_api_keys
create_api_keys_incomplete p now tenant actor message before after bad old s h e known =
    let key = tenant_key tenant in
    let c = create_keys_incomplete p now key actor message before after bad h e in
    rw c (
      unfold keep_created in
          rw
            (
              known,
              list_at-put key key _ s.api_keys_by_tenant,
              eq_refl key,
              list_at-some key old s.api_keys_by_tenant known,
            )
            refl,
      refl,
    )
