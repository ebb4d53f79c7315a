-- ===== src/Dict.antt =====
-- ECMAScript's `Map` with text keys, as the list of its entries in the order of insertion:
-- a write to a key that is there keeps its place, a new key goes to the end.
pub mod Laws
use mathlib.Core.List
use dataspace_ica_ts.Common.{
  String, Bool, not, Option, none, some, List, [], ◌∷◌, ◌==◌, if◌then◌else◌,
}

abbrev pub Dict {ℓ} : Type ℓ → Type ℓ
Dict V = List (String × V)

module _ {ℓ} {V : Type ℓ} where
  -- `get`
  unfoldable pub get : String → Dict V → Option V
  get k [] = none
  get k ((j, v) ∷ rest) = if j == k then some v else get k rest

  -- `set`
  unfoldable pub put : String → V → Dict V → Dict V
  put k v [] = (k, v) ∷ []
  put k v ((j, w) ∷ rest) = if j == k then (j, v) ∷ rest else (j, w) ∷ put k v rest

  -- `delete` of each entry that passes a test, as in a loop over `entries()`.
  unfoldable pub drop_if : (V → Bool) → Dict V → Dict V
  drop_if p [] = []
  drop_if p ((j, v) ∷ rest) = let later = drop_if p rest in if p v then later else (j, v) ∷ later

  -- A write to the value of a key, where the key is there.
  unfoldable pub modify : String → (V → V) → Dict V → Dict V
  modify k f [] = []
  modify k f ((j, v) ∷ rest) = if j == k then (j, f v) ∷ rest else (j, v) ∷ modify k f rest

  -- `values()`
  unfoldable pub values : Dict V → List V
  values [] = []
  values ((j, v) ∷ rest) = v ∷ values rest
