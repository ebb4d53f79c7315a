-- ===== src/Spaces/Keys.antt =====
-- `scopeKey` of src/api/tools/spaces-registry.ts: when two scopes have the same key.
use dataspace_ica_ts.Common.{
  String, ◌≡◌, refl, sym, ◌∙◌, ap, Bool, true, ◌&&◌, List, [], ◌∷◌, arith, eq_iff, ◌==◌,
}
use dataspace_ica_ts.Text.{to_lower, to_upper, split}
use dataspace_ica_ts.Text.Bars.{lacks_bar, to_lower-NoBar, to_upper-NoBar, split-join_bars}
use dataspace_ica_ts.Spaces.{DataspaceScope, scope_key}

-- No text of the scope has a `|`.
abbrev pub has_no_bar : DataspaceScope → Bool
has_no_bar scope =
    lacks_bar scope.tenant_id && lacks_bar scope.jurisdiction && lacks_bar scope.sector

-- The same scope, up to the case of its texts.
abbrev pub same_scope : DataspaceScope → DataspaceScope → Bool
same_scope a b =
    to_lower a.tenant_id == to_lower b.tenant_id
    && to_upper a.jurisdiction == to_upper b.jurisdiction
    && to_lower a.sector == to_lower b.sector

-- The texts of a key.
parts : DataspaceScope → List String
parts s = to_lower s.tenant_id ∷ to_upper s.jurisdiction ∷ to_lower s.sector ∷ []

split-scope_key : (s : DataspaceScope) → has_no_bar s ≡ true → split 124 (scope_key s) ≡ parts s
unfolding scope_key parts
split-scope_key s h =
    split-join_bars (to_lower s.tenant_id) (to_upper s.jurisdiction) (to_lower s.sector)
      (to_lower-NoBar s.tenant_id (ground arith)) (to_upper-NoBar s.jurisdiction (ground arith))
      (to_lower-NoBar s.sector (ground arith))

parts_inj :
    (a b : DataspaceScope)
    → parts a ≡ parts b
    → (to_lower a.tenant_id ≡ to_lower b.tenant_id)
      × (to_upper a.jurisdiction ≡ to_upper b.jurisdiction)
      × (to_lower a.sector ≡ to_lower b.sector)
unfolding parts
parts_inj a b e = (cc, cc, cc)

scope_key-cong :
    (a b : DataspaceScope)
    → to_lower a.tenant_id ≡ to_lower b.tenant_id
    → to_upper a.jurisdiction ≡ to_upper b.jurisdiction
    → to_lower a.sector ≡ to_lower b.sector
    → scope_key a ≡ scope_key b
unfolding scope_key
scope_key-cong a b t j s = rw (t, j, s) refl

pub scope_key-same_scope :
    (a b : DataspaceScope)
    → has_no_bar a ≡ true
    → has_no_bar b ≡ true
    → (scope_key a == scope_key b) ≡ same_scope a b
scope_key-same_scope a b h k =
    let apart : scope_key a ≡ scope_key b
        → (to_lower a.tenant_id ≡ to_lower b.tenant_id)
          × (to_upper a.jurisdiction ≡ to_upper b.jurisdiction)
          × (to_lower a.sector ≡ to_lower b.sector) =
      λ e. parts_inj a b (sym (split-scope_key a h) ∙ ap (split 124) e ∙ split-scope_key b k) in
    let joined = scope_key-cong a b in
    ground (
      arith,
      apart,
      joined,
      eq_iff (scope_key a) (scope_key b),
      eq_iff (to_lower a.tenant_id) (to_lower b.tenant_id),
      eq_iff (to_upper a.jurisdiction) (to_upper b.jurisdiction),
      eq_iff (to_lower a.sector) (to_lower b.sector),
    )
