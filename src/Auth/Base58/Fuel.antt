-- ===== src/Auth/Base58/Fuel.antt =====
-- The fuel of the division loop in `sha3_256Multibase` of src/api/tools/backend-auth-service.ts.
use Prim.Native.String
use native.Mathlib.Nat.{pow-succ', mul_assoc}
use dataspace_ica_ts.Common.{
  ℕ, zero, suc, ◌+◌, ◌*◌, ◌/◌, ◌%◌, ◌^◌, ◌<◌, ◌≤◌, String, ◌≡◌, refl, sym, List, [], ◌∷◌, arith,
  eqb, length, if◌then◌else◌,
}
use dataspace_ica_ts.Auth.Base58.{big_endian, base58_digits, char_at, alphabet}

-- Every number of the list is a byte.
abbrev pub AllBytes : List ℕ → Type 0
AllBytes [] = Unit
AllBytes (b ∷ bytes) = (b < 256) × AllBytes bytes

pub digits_zero : (fuel : ℕ) (out : String) → base58_digits fuel 0 out ≡ out
unfolding base58_digits
digits_zero zero out = refl
digits_zero (suc fuel) out = refl

pub digits_step :
    (fuel value : ℕ) (out : String)
    → base58_digits (suc fuel) value out ≡ (
        if eqb value 0
        then out
        else base58_digits fuel (value / 58) (String.◌++◌ (char_at (value % 58) alphabet) out))
unfolding base58_digits
digits_step fuel value out = refl

digits_enough :
    (fuel extra value : ℕ) (out : String)
    → value < 58 ^ fuel
    → base58_digits (extra + fuel) value out ≡ base58_digits fuel value out
digits_enough zero extra value out h =
    let none : value ≡ 0 = omega arith in
    rw (none, digits_zero (extra + 0) out, digits_zero 0 out) refl
digits_enough (suc fuel) extra value out h =
    let size = pow-succ' 58 fuel in
    let less : value / 58 < 58 ^ fuel = ground (arith, size) in
    let sum : extra + suc fuel ≡ suc (extra + fuel) = omega arith in
    let out' = String.◌++◌ (char_at (value % 58) alphabet) out in
    let rest = digits_enough fuel extra (value / 58) out' less in
    rw (sum, digits_step (extra + fuel) value out, digits_step fuel value out, rest) refl

-- A number of `n` bytes is below 256 to the `n`.
pub big_endian-lt :
    (acc n : ℕ) (bytes : List ℕ)
    → AllBytes bytes
    → acc < n
    → big_endian acc bytes < n * 256 ^ length bytes
unfolding big_endian
big_endian-lt acc n [] h k = omega arith
big_endian-lt acc n (b ∷ bytes) h k =
    let byte = h.0 in
    let next : acc * 256 + b < n * 256 = omega arith in
    let rest = big_endian-lt (acc * 256 + b) (n * 256) bytes h.1 next in
    rw (pow-succ' 256 (length bytes), sym (mul_assoc n 256 (256 ^ length bytes))) rest

pub pow_le : (n : ℕ) → 256 ^ n ≤ 58 ^ (2 * n)
pow_le zero = omega arith
pow_le (suc n) =
    let before = pow_le n in
    let twice : 2 * suc n ≡ suc (suc (2 * n)) = omega arith in
    rw (twice, pow-succ' 256 n, pow-succ' 58 (suc (2 * n)), pow-succ' 58 (2 * n)) (omega arith)

-- For a list of bytes, the division loop with the fuel that `base58` gives it has come to an end:
-- with any more fuel it returns the same digits.
pub base58_digits-enough :
    (bytes : List ℕ) (extra : ℕ)
    → AllBytes bytes
    → base58_digits (extra + 2 * length bytes) (big_endian 0 bytes) ""
      ≡ base58_digits (2 * length bytes) (big_endian 0 bytes) ""
base58_digits-enough bytes extra h =
    let small = big_endian-lt 0 1 bytes h (omega arith) in
    let size = pow_le (length bytes) in
    digits_enough (2 * length bytes) extra (big_endian 0 bytes) "" (omega arith)
