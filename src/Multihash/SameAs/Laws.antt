-- ===== src/Multihash/SameAs/Laws.antt =====
-- What `normalizeSameAsHash` of src/api/tools/multihash.ts makes of a value.
use Prim.Native.Char.{Char, char}
use Prim.Native.String
use Prim.Native.String.{[], ◌∷◌}
use dataspace_ica_ts.Common.{
  String, ◌≡◌, refl, Bool-cases, inl, inr, false, true, arith, is_empty, ok, ◌∙◌, ap,
}
use dataspace_ica_ts.Text.{is_space, to_lower}
use dataspace_ica_ts.Text.Laws.{is_empty_cons}
use dataspace_ica_ts.Text.Tokens.{IsFree, trim-free}
use dataspace_ica_ts.Auth.{Platform}
use dataspace_ica_ts.Multihash.SameAs.{
  starts_with, has_no_space, is_z_text, looks_like_base58_multibase, normalize_same_as_hash,
}

abbrev pub letter_z : Char
letter_z = char 122 tt

pub IsFree-has_no_space : (s : String) → has_no_space s ≡ true → IsFree is_space s
unfolding has_no_space
IsFree-has_no_space [] h = tt
IsFree-has_no_space (c ∷ s) h = elim (Bool-cases (is_space c)) [
  | inl space ↦ absurd (ground arith)
  | inr other ↦ (other, IsFree-has_no_space s (ground arith))
]

pub has_no_space-free : (s : String) → IsFree is_space s → has_no_space s ≡ true
unfolding has_no_space
has_no_space-free [] h = refl
has_no_space-free (c ∷ s) h = rw (h.0, has_no_space-free s h.1) refl

IsFree-z : (s : String) → has_no_space s ≡ true → IsFree is_space (letter_z ∷ s)
unfolding is_space
IsFree-z s h = (refl, IsFree-has_no_space s h)

pub is_z_text-z :
    (s : String) → has_no_space s ≡ true → is_empty s ≡ false → is_z_text (letter_z ∷ s) ≡ true
unfolding is_z_text
is_z_text-z s h k = rw (k, h) refl

looks_like_base58_multibase-z :
    (s : String)
    → has_no_space s ≡ true
    → is_empty s ≡ false
    → looks_like_base58_multibase (letter_z ∷ s) ≡ true
unfolding looks_like_base58_multibase
looks_like_base58_multibase-z s h k =
    ap is_z_text (trim-free (letter_z ∷ s) (IsFree-z s h)) ∙ is_z_text-z s h k

starts_with-z : (s : String) → starts_with (to_lower (letter_z ∷ s)) "urn:multibase:" ≡ false
unfolding starts_with to_lower
starts_with-z s = refl

-- A value of at least two characters that begins with `z` and has no white space is taken for a
-- multibase text: it is kept as it is behind `urn:multibase:`, also where it is an e-mail address.
pub normalize_same_as_hash-z :
    (p : Platform) (s : String)
    → has_no_space s ≡ true
    → is_empty s ≡ false
    → normalize_same_as_hash p (letter_z ∷ s) ≡ ok (String.◌++◌ "urn:multibase:" (letter_z ∷ s))
unfolding normalize_same_as_hash
normalize_same_as_hash-z p s h k =
    rw
      (
        trim-free (letter_z ∷ s) (IsFree-z s h),
        is_empty_cons letter_z s,
        starts_with-z s,
        looks_like_base58_multibase-z s h k,
      )
      refl
