-- ===== src/Config/Catalogs/Laws.antt =====
-- What the lists of src/api/supported-sectors.ts and src/api/supported-jurisdictions.ts contain.
use dataspace_ica_ts.Common.{
  String, ◌≡◌, refl, ◌∙◌, false, not, ◌&&◌, List, [], ◌∷◌, arith, eq_iff, eq_refl, Bool-cases, inl,
  inr,
}
use dataspace_ica_ts.Config.Catalogs.{includes, dedupe_from, dedupe}

-- No value occurs twice.
abbrev pub IsDistinctList : List String → Type 0
IsDistinctList [] = Unit
IsDistinctList (v ∷ values) = (includes values v ≡ false) × IsDistinctList values

includes-dedupe_from :
    (seen values : List String) (v : String)
    → includes (dedupe_from seen values) v ≡ (includes values v && not (includes seen v))
unfolding includes dedupe_from
includes-dedupe_from seen [] v = refl
includes-dedupe_from seen (w ∷ values) v = ground (
  arith,
  includes-dedupe_from seen values v,
  includes-dedupe_from (w ∷ seen) values v,
  eq_iff w v,
)

dedupe_from-distinct : (seen values : List String) → IsDistinctList (dedupe_from seen values)
unfolding includes dedupe_from
dedupe_from-distinct seen [] = tt
dedupe_from-distinct seen (w ∷ values) = elim (Bool-cases (includes seen w)) [
  | inl e ↦ rw e (dedupe_from-distinct seen values)
  | inr e ↦ rw e (fresh, dedupe_from-distinct (w ∷ seen) values)
]
  where
    fresh : includes (dedupe_from (w ∷ seen) values) w ≡ false
    fresh = rw (includes-dedupe_from (w ∷ seen) values w) (ground (arith, eq_refl w))

-- Deduplication keeps exactly the values of the list, each once.
dedupe-distinct :
    (values : List String) (v : String)
    → IsDistinctList (dedupe values) × (includes (dedupe values) v ≡ includes values v)
unfolding dedupe includes
dedupe-distinct values v =
    (dedupe_from-distinct [] values, includes-dedupe_from [] values v ∙ ground arith)
