-- ===== src/Multihash.antt =====
-- src/api/tools/multihash.ts: multihashes and content identifiers in base 58, and the comparison of
-- `sameAs` values by their hash.
pub mod Digits
pub mod Laws
pub mod SameAs
pub mod Hex
pub mod Tests
use dataspace_ica_ts.Common.{
  ℕ, zero, suc, ◌+◌, ◌*◌, ◌/◌, ◌%◌, String, Bool, true, false, List, [], ◌∷◌, ◌++◌, eqb, is_empty,
  if◌then◌else◌, Result, ok, throw,
}
use dataspace_ica_ts.Text.{trim}
use dataspace_ica_ts.Auth.{Platform}
use dataspace_ica_ts.Auth.Base58.{char_at, leading_zeros, repeat}
use Prim.Native.String

unfoldable pub base58_alphabet : String
base58_alphabet = "123456789ABCDEFGHJKLMNPQRSTUVWXYZabcdefghijkmnopqrstuvwxyz"

-- The loop `while (carry > 0)`, which divides the carry by 58: as many rounds as the carry are
-- enough.
unfoldable pub push_carry : ℕ → ℕ → List ℕ
push_carry zero carry = []
push_carry (suc fuel) carry = elim (eqb carry 0) [
  | true ↦ []
  | false ↦ carry % 58 ∷ push_carry fuel (carry / 58)
]

-- One byte: the digits, lowest first, times 256, plus the carry.
unfoldable pub add_byte : List ℕ → ℕ → List ℕ
unfolding push_carry
add_byte [] carry = push_carry carry carry
add_byte (d ∷ digits) carry =
    let value = d * 256 + carry in value % 58 ∷ add_byte digits (value / 58)

unfoldable pub add_bytes : List ℕ → List ℕ → List ℕ
unfolding add_byte
add_bytes digits [] = digits
add_bytes digits (byte ∷ bytes) = add_bytes (add_byte digits byte) bytes

-- The digits in the alphabet, highest first.
unfoldable pub digits_text : List ℕ → String
unfolding char_at base58_alphabet
digits_text [] = ""
digits_text (d ∷ digits) = String.◌++◌ (digits_text digits) (char_at d base58_alphabet)

unfoldable pub base58btc_digits : List ℕ → List ℕ
unfolding add_bytes
base58btc_digits input = add_bytes (0 ∷ []) input

unfoldable pub base58btc_encode : List ℕ → String
unfolding base58btc_digits digits_text leading_zeros repeat
base58btc_encode [] = ""
base58btc_encode (byte ∷ bytes) =
    String.◌++◌ (repeat (leading_zeros (byte ∷ bytes)) "1")
      (digits_text (base58btc_digits (byte ∷ bytes)))

unfoldable pub multibase58_multihash_sha3_256 : Platform → String → Result String
unfolding base58btc_encode
multibase58_multihash_sha3_256 p value =
    let normalized = trim value in
    if is_empty normalized
    then throw "Cannot create multihash from empty value."
    else ok (String.◌++◌ "z" (base58btc_encode (22 ∷ 32 ∷ p.sha3_256 normalized)))
