-- ===== src/Multihash/Tests.antt =====
-- Runs of the encoders and of the normalisation of src/api/tools/multihash.ts.
use dataspace_ica_ts.Common.{ℕ, ◌≡◌, refl, true, List, [], ◌∷◌, arith, ok}
use dataspace_ica_ts.Text.{split, trim, to_lower}
use dataspace_ica_ts.Auth.Tests.{platform}
use dataspace_ica_ts.Auth.Base58.{base58}
use dataspace_ica_ts.Multihash.{base58btc_encode, multibase58_multihash_sha3_256}
use dataspace_ica_ts.Multihash.Laws.{base58btc_encode-base58}
use dataspace_ica_ts.Multihash.SameAs.{has_no_space, looks_like_email, normalize_same_as_hash}
use dataspace_ica_ts.Multihash.SameAs.Laws.{normalize_same_as_hash-z}
use dataspace_ica_ts.Multihash.SameAs.Again.{normalize_same_as_hash-again}
use dataspace_ica_ts.Multihash.Hex.{multihash_from_hex, is_hex, size, bytes_of_hex}
use dataspace_ica_ts.Multihash.Hex.Laws.{IsMultihash, multihash_from_hex-IsMultihash}

abbrev bytes : List ℕ
bytes = 0 ∷ 22 ∷ 255 ∷ 104 ∷ []

encoded : base58btc_encode bytes ≡ "18j2o"
unfolding base58btc_encode
encoded = refl

base58btc_encode-base58_example : base58btc_encode bytes ≡ base58 bytes
base58btc_encode-base58_example =
    base58btc_encode-base58 0 (22 ∷ 255 ∷ 104 ∷ [])
      (omega arith, (omega arith, (omega arith, (omega arith, tt))))

multihash_from_hex-IsMultihash_example : IsMultihash 22 2 (22 ∷ 2 ∷ 171 ∷ 15 ∷ [])
multihash_from_hex-IsMultihash_example =
    multihash_from_hex-IsMultihash 22 2 "blank" "malformed" " AB0f" (22 ∷ 2 ∷ 171 ∷ 15 ∷ [])
      (unfold multihash_from_hex is_hex size bytes_of_hex trim to_lower in refl)

email_found : looks_like_email "zoe@acme.example" ≡ true
unfolding looks_like_email trim split
email_found = refl

normalize_same_as_hash-z_example :
    normalize_same_as_hash platform "zoe@acme.example" ≡ ok "urn:multibase:zoe@acme.example"
normalize_same_as_hash-z_example =
    normalize_same_as_hash-z platform "oe@acme.example" (unfold has_no_space in refl) refl

hashed : normalize_same_as_hash platform " Amy@acme.example" ≡ ok "urn:multibase:z2gf"
unfolding normalize_same_as_hash multibase58_multihash_sha3_256 trim to_lower split
hashed = refl

normalize_same_as_hash-again_example :
    normalize_same_as_hash platform "urn:multibase:z2gf" ≡ ok "urn:multibase:z2gf"
normalize_same_as_hash-again_example =
    normalize_same_as_hash-again platform " Amy@acme.example" "urn:multibase:z2gf" hashed
