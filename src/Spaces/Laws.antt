-- ===== src/Spaces/Laws.antt =====
-- What the registry of src/api/tools/spaces-registry.ts resolves, and what deduplication keeps.
use dataspace_ica_ts.Common.{
  String, ◌≡◌, refl, sym, ap, ◌∙◌, true, Bool, false, not, ◌&&◌, ◌||◌, some, List, [], ◌∷◌, map,
  arith, eq_iff, any, ◌==◌, is_empty, is_nil, is_some, if◌then◌else◌, Option-cases, Bool-cases, inl,
  inr,
}
use dataspace_ica_ts.Dict.{Dict, get, put, values}
use dataspace_ica_ts.Dict.Laws.{get-put, get-put_self, put-IsDistinct, IsDistinct}
use dataspace_ica_ts.Text.{to_lower, to_upper}
use dataspace_ica_ts.Spaces.Keys.{has_no_bar, scope_key-same_scope}
use dataspace_ica_ts.Spaces.{
  DataspaceScope, Target, normalize_did, merge_target, add_target, add_targets, dedupe_targets,
  SpacesRegistry, scope_key, resolve_source, list_targets, resolve_for_sync, replace,
  to_public_target,
}

-- For scopes whose texts do not have the character `|`: after the targets of a scope are replaced, a
-- scope with the same tenant, jurisdiction and sector, up to case, resolves to the deduplicated
-- targets, or to the default targets where these are none; any other scope resolves as before. The
-- reply lists, in public form, the targets that the scope itself then resolves to.
pub resolve_for_sync-replace :
    (scope other : DataspaceScope) (targets : List Target) (r : SpacesRegistry)
    → has_no_bar scope ≡ true
    → has_no_bar other ≡ true
    → let now =
        if is_nil (dedupe_targets targets) then r.default_targets else dedupe_targets targets in
      (resolve_for_sync other (replace scope targets r).0 ≡ (
        if to_lower scope.tenant_id == to_lower other.tenant_id
          && to_upper scope.jurisdiction == to_upper other.jurisdiction
          && to_lower scope.sector == to_lower other.sector
        then now
        else resolve_for_sync other r))
      × ((replace scope targets r).1 ≡ map to_public_target now)
unfolding resolve_for_sync resolve_source replace list_targets
resolve_for_sync-replace scope other targets r h k =
    let key = scope_key scope in
    let stored = dedupe_targets targets in
    (
      ground (
        arith,
        get-put key (scope_key other) stored r.by_scope,
        scope_key-same_scope scope other h k,
      ),
      ap (map to_public_target) (ground (arith, get-put_self key stored r.by_scope)),
    )

-- Some target has the DID, normalized.
abbrev pub has_did : String → List Target → Bool
has_did key targets = any (λ (target : Target). normalize_did target.did == key) targets

-- No two targets have the same DID, normalized.
abbrev pub IsDistinctDids : List Target → Type 0
IsDistinctDids [] = Unit
IsDistinctDids (target ∷ targets) =
    (has_did (normalize_did target.did) targets ≡ false) × IsDistinctDids targets

-- Every target lies under its DID.
abbrev IsKeyed : Dict Target → Type 0
IsKeyed [] = Unit
IsKeyed ((key, target) ∷ d) = (normalize_did target.did ≡ key) × IsKeyed d

has_did-values :
    (key : String) (d : Dict Target) → IsKeyed d → has_did key (values d) ≡ is_some (get key d)
unfolding values get
has_did-values key [] keyed = refl
has_did-values key ((k, target) ∷ d) keyed =
    rw (keyed.0, has_did-values key d keyed.1)
      (elim (Bool-cases (k == key)) [ inl e ↦ rw e refl | inr e ↦ rw e refl ])

values-IsDistinctDids : (d : Dict Target) → IsDistinct d → IsKeyed d → IsDistinctDids (values d)
unfolding values
values-IsDistinctDids [] distinct keyed = tt
values-IsDistinctDids ((k, target) ∷ d) distinct keyed = (
  rw (keyed.0, has_did-values k d keyed.1, distinct.0) refl,
  values-IsDistinctDids d distinct.1 keyed.1,
)

put-IsKeyed :
    (key : String) (target : Target) (d : Dict Target)
    → normalize_did target.did ≡ key
    → IsKeyed d
    → IsKeyed (put key target d)
unfolding put
put-IsKeyed key target [] same keyed = (same, tt)
put-IsKeyed key target ((k, old) ∷ d) same keyed = elim (Bool-cases (k == key)) [
  | inl e ↦ rw e (same ∙ sym ((eq_iff k key).0 e), keyed.1)
  | inr e ↦ rw e (keyed.0, put-IsKeyed key target d same keyed.1)
]

get-IsKeyed :
    (key : String) (target : Target) (d : Dict Target)
    → IsKeyed d
    → get key d ≡ some target
    → normalize_did target.did ≡ key
unfolding get
get-IsKeyed key target [] keyed e = absurd (ground arith)
get-IsKeyed key target ((k, old) ∷ d) keyed e =
    let same = keyed.0 in ground (arith, eq_iff k key, get-IsKeyed key target d keyed.1)

-- What the loop over the targets keeps.
record IsCatalog (d : Dict Target) : Type 0 where
  distinct : IsDistinct d
  keyed : IsKeyed d

add_target-IsCatalog :
    (target : Target) (d : Dict Target) → IsCatalog d → IsCatalog (add_target target d)
unfolding add_target merge_target
add_target-IsCatalog target d c =
    let key = normalize_did target.did in
    elim (Bool-cases (is_empty key)) [
      | inl e ↦ rw e c
      | inr e ↦ rw e (elim (Option-cases (get key d)) [
        | inl missing ↦ rw missing (record {
          distinct = put-IsDistinct key target d c.distinct;
          keyed = put-IsKeyed key target d refl c.keyed;
        })
        | inr (previous, found) ↦ rw found (record {
          distinct = put-IsDistinct key _ d c.distinct;
          keyed = put-IsKeyed key _ d (get-IsKeyed key previous d c.keyed found) c.keyed;
        })
      ])
    ]

add_targets-IsCatalog :
    (targets : List Target) (d : Dict Target) → IsCatalog d → IsCatalog (add_targets targets d)
unfolding add_targets
add_targets-IsCatalog [] d c = c
add_targets-IsCatalog (target ∷ targets) d c =
    add_targets-IsCatalog targets (add_target target d) (add_target-IsCatalog target d c)

get-add_target :
    (key : String) (target : Target) (d : Dict Target)
    → is_some (get key (add_target target d)) ≡ (
        is_some (get key d)
        || (not (is_empty (normalize_did target.did)) && normalize_did target.did == key))
unfolding add_target
get-add_target key target d = elim (Bool-cases (is_empty (normalize_did target.did))) [
  | inl e ↦ ground arith
  | inr e ↦ rw e (
      rw (get-put (normalize_did target.did) key _ d)
        (elim (Bool-cases (normalize_did target.did == key)) [
          | inl f ↦ rw f (ground arith)
          | inr f ↦ rw f (ground arith)
        ]))
]

get-add_targets :
    (key : String) (targets : List Target) (d : Dict Target)
    → is_some (get key (add_targets targets d))
      ≡ (is_some (get key d) || (not (is_empty key) && has_did key targets))
unfolding add_targets
get-add_targets key [] d = ground arith
get-add_targets key (target ∷ targets) d =
    let now = normalize_did target.did in
    rw (get-add_targets key targets (add_target target d), get-add_target key target d)
      (ground (arith, eq_iff now key, eq_iff now "", eq_iff key ""))

-- Deduplication leaves no two targets with the same DID, up to case and white space around it, and
-- keeps exactly the DIDs of the given targets that are not blank.
pub dedupe_targets-IsDistinctDids :
    (targets : List Target) (key : String)
    → IsDistinctDids (dedupe_targets targets)
      × (has_did key (dedupe_targets targets) ≡ (not (is_empty key) && has_did key targets))
unfolding dedupe_targets
dedupe_targets-IsDistinctDids targets key =
    let c = add_targets-IsCatalog targets [] (record { distinct = tt; keyed = tt }) in
    (
      values-IsDistinctDids (add_targets targets []) c.distinct c.keyed,
      has_did-values key (add_targets targets []) c.keyed
          ∙ get-add_targets key targets []
          ∙ (unfold get in refl),
    )
