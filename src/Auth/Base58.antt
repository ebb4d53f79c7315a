-- ===== src/Auth/Base58.antt =====
-- `sha3_256Multibase` of src/api/tools/backend-auth-service.ts: the e-mail address of a key is kept
-- as a multihash of its digest in base 58.
pub mod Fuel
use dataspace_ica_ts.Common.{
  ℕ, zero, suc, ◌+◌, ◌*◌, ◌/◌, ◌%◌, String, List, [], ◌∷◌, eqb, is_empty, length, if◌then◌else◌,
}
use dataspace_ica_ts.Auth.{Platform}
use Prim.Native.String
use Prim.Native.String.{[], ◌∷◌}

unfoldable pub alphabet : String
alphabet = "123456789ABCDEFGHJKLMNPQRSTUVWXYZabcdefghijkmnopqrstuvwxyz"

-- The text of the character at an index.
unfoldable pub char_at : ℕ → String → String
char_at i [] = ""
char_at zero (c ∷ s) = c ∷ ""
char_at (suc i) (c ∷ s) = char_at i s

unfoldable pub leading_zeros : List ℕ → ℕ
leading_zeros [] = 0
leading_zeros (byte ∷ bytes) = let rest = leading_zeros bytes in if eqb byte 0 then suc rest else 0

-- BigInt(`0x${hex}`)
unfoldable pub big_endian : ℕ → List ℕ → ℕ
big_endian acc [] = acc
big_endian acc (byte ∷ bytes) = big_endian (acc * 256 + byte) bytes

-- The loop `while (value > 0n)`; each round divides the value by 58.
unfoldable pub base58_digits : ℕ → ℕ → String → String
unfolding char_at alphabet
base58_digits zero value out = out
base58_digits (suc fuel) value out =
    let rest = base58_digits fuel (value / 58) (String.◌++◌ (char_at (value % 58) alphabet) out) in
    if eqb value 0 then out else rest

unfoldable pub repeat : ℕ → String → String
repeat zero s = ""
repeat (suc n) s = String.◌++◌ s (repeat n s)

unfoldable pub base58 : List ℕ → String
unfolding leading_zeros big_endian base58_digits repeat
base58 bytes =
    let value = big_endian 0 bytes in
    let digits = base58_digits (2 * length bytes) value "" in
    let out : String = if is_empty digits then "1" else digits in
    String.◌++◌ (repeat (leading_zeros bytes) "1") out

unfoldable pub sha3_256_multibase : Platform → String → String
unfolding base58
sha3_256_multibase p email =
    let digest = p.sha3_256 email in String.◌++◌ "z" (base58 (22 ∷ length digest ∷ digest))
