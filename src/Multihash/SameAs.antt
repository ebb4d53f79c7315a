-- ===== src/Multihash/SameAs.antt =====
-- `normalizeSameAsHash` and `sameAsValuesEqual` of src/api/tools/multihash.ts: a `sameAs` value is
-- kept as a multibase hash, and an e-mail address is replaced by its hash.
pub mod Laws
pub mod Again
use Prim.Native.Char.{Char, code}
use Prim.Native.String
use Prim.Native.String.{[], ◌∷◌}
use dataspace_ica_ts.Common.{
  ℕ, zero, suc, String, Bool, true, false, not, ◌&&◌, ◌||◌, List, eqb, ◌==◌, is_empty,
  if◌then◌else◌, Result, ok, throw, ◌>>=◌,
}
use mathlib.Core.List.{[], ◌∷◌}
use dataspace_ica_ts.Text.{trim, to_lower, is_space, split, join}
use dataspace_ica_ts.Auth.{Platform}
use dataspace_ica_ts.Multihash.{multibase58_multihash_sha3_256}

-- `startsWith`
unfoldable pub starts_with : String → String → Bool
starts_with s [] = true
starts_with [] (d ∷ prefix) = false
starts_with (c ∷ s) (d ∷ prefix) = eqb (code c) (code d) && starts_with s prefix

-- `slice` to the end.
unfoldable pub slice : ℕ → String → String
slice zero s = s
slice (suc n) [] = []
slice (suc n) (c ∷ s) = slice n s

unfoldable pub has_no_space : String → Bool
unfolding is_space
has_no_space [] = true
has_no_space (c ∷ s) = not (is_space c) && has_no_space s

unfoldable pub is_z_text : String → Bool
unfolding has_no_space
is_z_text [] = false
is_z_text (c ∷ s) = eqb (code c) 122 && not (is_empty s) && has_no_space s

-- `/^z\S+$/`, of the trimmed value.
unfoldable pub looks_like_base58_multibase : String → Bool
unfolding is_z_text
looks_like_base58_multibase value = is_z_text (trim value)

-- A dot that is not at the end.
unfoldable pub has_inner_dot : String → Bool
has_inner_dot [] = false
has_inner_dot (c ∷ s) = eqb (code c) 46 && not (is_empty s) || has_inner_dot s

unfoldable pub is_domain : String → Bool
unfolding has_inner_dot
is_domain [] = false
is_domain (c ∷ s) = has_inner_dot s

unfoldable pub is_address : List String → Bool
unfolding is_domain
is_address (local ∷ (domain ∷ [])) = not (is_empty local) && is_domain domain
is_address _ = false

-- `/^[^\s@]+@[^\s@]+\.[^\s@]+$/`: one `@`, and a dot inside of what follows it.
unfoldable pub looks_like_email : String → Bool
unfolding is_address has_no_space
looks_like_email value =
    let trimmed = trim value in has_no_space trimmed && is_address (split 64 trimmed)

-- An e-mail address that was found to be one.
unfoldable pub hash_email : Platform → String → Result String
hash_email p email = multibase58_multihash_sha3_256 p (to_lower email) >>= λ hash.
    ok (String.◌++◌ "urn:multibase:" hash)

-- The cases, for a value that has been trimmed.
unfoldable pub normalize_trimmed : Platform → String → Result String
unfolding starts_with slice looks_like_base58_multibase looks_like_email hash_email
normalize_trimmed p trimmed =
    let suffix = trim (slice 14 trimmed) in
    if is_empty trimmed
    then ok ""
    else if starts_with (to_lower trimmed) "urn:multibase:"
    then ok (
        if looks_like_base58_multibase suffix then String.◌++◌ "urn:multibase:" suffix else trimmed)
    else if looks_like_base58_multibase trimmed
    then ok (String.◌++◌ "urn:multibase:" trimmed)
    else if looks_like_email trimmed
    then hash_email p trimmed
    else ok trimmed

unfoldable pub normalize_same_as_hash : Platform → String → Result String
unfolding normalize_trimmed
normalize_same_as_hash p value = normalize_trimmed p (trim value)

unfoldable pub normalize_comparable : Platform → String → Result String
unfolding normalize_same_as_hash
normalize_comparable p value = normalize_same_as_hash p value >>= λ normalized.
    ok (
      if starts_with (to_lower normalized) "urn:multibase:"
      then slice 14 normalized
      else normalized)

unfoldable pub same_as_values_equal : Platform → String → String → Result Bool
unfolding normalize_comparable
same_as_values_equal p left right = do
  normalized_left ← normalize_comparable p left
  normalized_right ← normalize_comparable p right
  ok (not (is_empty normalized_left) && normalized_left == normalized_right)
