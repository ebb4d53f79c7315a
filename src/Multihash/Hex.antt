-- ===== src/Multihash/Hex.antt =====
-- The multihashes and content identifiers from hexadecimal digests, in src/api/tools/multihash.ts.
pub mod Laws
use Prim.Native.Char.{Char, code}
use Prim.Native.String
use Prim.Native.String.{[], ◌∷◌}
use dataspace_ica_ts.Common.{
  ℕ, zero, suc, ◌+◌, ◌-◌, ◌*◌, String, Bool, true, false, not, ◌&&◌, ◌||◌, List, leb, eqb, is_empty,
  if◌then◌else◌, Result, ok, throw, ◌>>=◌,
}
use mathlib.Core.List.{[], ◌∷◌}
use dataspace_ica_ts.Text.{trim, to_lower}
use dataspace_ica_ts.Multihash.{base58btc_encode}

unfoldable pub is_hex_digit : Char → Bool
is_hex_digit c = leb 48 (code c) && leb (code c) 57 || leb 97 (code c) && leb (code c) 102

-- `/^[0-9a-f]+$/`, on a text that is not empty.
unfoldable pub is_hex : String → Bool
unfolding is_hex_digit
is_hex [] = true
is_hex (c ∷ s) = is_hex_digit c && is_hex s

unfoldable pub size : String → ℕ
size [] = 0
size (c ∷ s) = suc (size s)

-- The number of a hexadecimal digit in lower case.
unfoldable pub hex_value : Char → ℕ
hex_value c = if leb (code c) 57 then code c - 48 else code c - 87

-- `Buffer.from(hex, 'hex')`, on hexadecimal digits in lower case.
unfoldable pub bytes_of_hex : String → List ℕ
unfolding hex_value
bytes_of_hex [] = []
bytes_of_hex (c ∷ []) = []
bytes_of_hex (c ∷ (d ∷ s)) = (hex_value c * 16 + hex_value d) ∷ bytes_of_hex s

-- The code and the size of a digest before it.
unfoldable pub multihash_from_hex : ℕ → ℕ → String → String → String → Result (List ℕ)
unfolding is_hex size bytes_of_hex
multihash_from_hex kind bytes blank malformed hex =
    let normalized = to_lower (trim hex) in
    if is_empty normalized
    then throw blank
    else if not (is_hex normalized) || not (eqb (size normalized) (bytes * 2))
    then throw malformed
    else ok (kind ∷ bytes ∷ bytes_of_hex normalized)

unfoldable pub build_sha3_384_multihash_from_hex : String → Result (List ℕ)
unfolding multihash_from_hex
build_sha3_384_multihash_from_hex hex =
    multihash_from_hex 21 48 "Cannot create sha3-384 multihash from empty digest."
      "sha3-384 digest hex must be 96 hexadecimal characters." hex

unfoldable pub build_sha3_256_multihash_from_hex : String → Result (List ℕ)
unfolding multihash_from_hex
build_sha3_256_multihash_from_hex hex =
    multihash_from_hex 22 32 "Cannot create sha3-256 multihash from empty digest."
      "sha3-256 digest hex must be 64 hexadecimal characters." hex

-- `z${base58btcEncode(bytes)}`
unfoldable pub multibase : List ℕ → String
unfolding base58btc_encode
multibase bytes = String.◌++◌ "z" (base58btc_encode bytes)

unfoldable pub multibase58_multihash_sha3_384_hex : String → Result String
unfolding build_sha3_384_multihash_from_hex multibase
multibase58_multihash_sha3_384_hex hex =
    build_sha3_384_multihash_from_hex hex >>= λ multihash. ok (multibase multihash)

unfoldable pub multibase58_multihash_sha3_256_hex : String → Result String
unfolding build_sha3_256_multihash_from_hex multibase
multibase58_multihash_sha3_256_hex hex =
    build_sha3_256_multihash_from_hex hex >>= λ multihash. ok (multibase multihash)

unfoldable pub multibase58_cid_v1_raw_sha3_384_hex : String → Result String
unfolding build_sha3_384_multihash_from_hex multibase
multibase58_cid_v1_raw_sha3_384_hex hex =
    build_sha3_384_multihash_from_hex hex >>= λ multihash. ok (multibase (1 ∷ 85 ∷ multihash))

unfoldable pub multibase58_cid_v1_raw_sha3_256_hex : String → Result String
unfolding build_sha3_256_multihash_from_hex multibase
multibase58_cid_v1_raw_sha3_256_hex hex =
    build_sha3_256_multihash_from_hex hex >>= λ multihash. ok (multibase (1 ∷ 85 ∷ multihash))
