-- ===== src/Dict/Laws.antt =====
-- What a read sees after a write, and keys that occur once.
use dataspace_ica_ts.Common.{
  String, ◌≡◌, refl, Bool, Option, none, some, [], ◌∷◌, arith, eq_iff, eq_refl, ◌==◌, if◌then◌else◌,
}
use mathlib.Core.Option
use dataspace_ica_ts.Dict.{Dict, get, put, drop_if, modify}

module _ {ℓ} {V : Type ℓ} where
  pub get-put :
      (k j : String) (v : V) (d : Dict V) → get j (put k v d) ≡ (if k == j then some v else get j d)
  unfolding get put
  get-put k j v [] = refl
  get-put k j v ((i, w) ∷ d) = ground (arith, eq_iff i k, eq_iff i j, eq_iff k j, get-put k j v d)

  pub get-put_self : (k : String) (v : V) (d : Dict V) → get k (put k v d) ≡ some v
  get-put_self k v d = simp (get-put, eq_refl)

  pub get-modify :
      (k j : String) (f : V → V) (d : Dict V)
      → get j (modify k f d) ≡ (if k == j then Option.map f (get j d) else get j d)
  unfolding get modify
  get-modify k j f [] = ground arith
  get-modify k j f ((i, w) ∷ d) =
      ground (arith, eq_iff i k, eq_iff i j, eq_iff k j, get-modify k j f d)

  -- No key occurs twice.
  abbrev pub IsDistinct : Dict V → Type ℓ
  IsDistinct [] = Unit
  IsDistinct ((k, _) ∷ d) = (get k d ≡ none) × IsDistinct d

  pub put-IsDistinct : (k : String) (v : V) (d : Dict V) → IsDistinct d → IsDistinct (put k v d)
  unfolding put get
  put-IsDistinct k v [] h = (refl, tt)
  put-IsDistinct k v ((i, w) ∷ d) h =
      ground (arith, get-put k i v d, put-IsDistinct k v d h.1, eq_iff i k, eq_iff k i)

  get-drop_if-none :
      (p : V → Bool) (j : String) (d : Dict V) → get j d ≡ none → get j (drop_if p d) ≡ none
  unfolding get drop_if
  get-drop_if-none p j [] h = refl
  get-drop_if-none p j ((i, w) ∷ d) h = ground (arith, get-drop_if-none p j d)

  pub drop_if-IsDistinct : (p : V → Bool) (d : Dict V) → IsDistinct d → IsDistinct (drop_if p d)
  unfolding drop_if
  drop_if-IsDistinct p [] h = tt
  drop_if-IsDistinct p ((i, w) ∷ d) h =
      ground (arith, get-drop_if-none p i d, drop_if-IsDistinct p d h.1)

  abbrev pub unless : (V → Bool) → Option V → Option V
  unless p none = none
  unless p (some v) = if p v then none else some v

  -- What a removal leaves, where no key occurs twice.
  pub get-drop_if :
      (p : V → Bool) (j : String) (d : Dict V)
      → IsDistinct d
      → get j (drop_if p d) ≡ unless p (get j d)
  unfolding get drop_if
  get-drop_if p j [] h = refl
  get-drop_if p j ((i, w) ∷ d) h =
      ground (arith, get-drop_if p j d h.1, get-drop_if-none p j d, eq_iff i j)

  pub modify-IsDistinct :
      (k : String) (f : V → V) (d : Dict V) → IsDistinct d → IsDistinct (modify k f d)
  unfolding modify
  modify-IsDistinct k f [] h = tt
  modify-IsDistinct k f ((i, w) ∷ d) h =
      ground (arith, get-modify k i f d, modify-IsDistinct k f d h.1, eq_iff i k, eq_iff k i)
