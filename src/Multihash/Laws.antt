-- ===== src/Multihash/Laws.antt =====
-- `base58btcEncode` of src/api/tools/multihash.ts and `sha3_256Multibase` of
-- src/api/tools/backend-auth-service.ts, two encoders of base 58.
pub mod Texts
use Prim.Native.String
use Prim.Native.String.{[], ◌∷◌}
use text.Mathlib.TextLemmas.{nil-append, append-nil, append_assoc}
use native.Mathlib.Nat.{pow-succ'}
use dataspace_ica_ts.Common.{
  ℕ, zero, suc, ◌*◌, ◌/◌, ◌%◌, ◌^◌, ◌<◌, String, ◌≡◌, refl, sym, ◌∙◌, ap, inl, inr, false, List, [],
  ◌∷◌, arith, is_empty, eqb, length, if◌then◌else◌,
}
use dataspace_ica_ts.Text.Laws.{is_empty_cons}
use dataspace_ica_ts.Text.Tokens.{is_empty-++}
use dataspace_ica_ts.Auth.Base58.{
  alphabet, char_at, big_endian, base58_digits, base58, leading_zeros, repeat,
}
use dataspace_ica_ts.Auth.Base58.Fuel.{AllBytes, digits_zero, digits_step, big_endian-lt, pow_le}
use dataspace_ica_ts.Multihash.{base58_alphabet, digits_text, base58btc_digits, base58btc_encode}
use dataspace_ica_ts.Multihash.Digits.{
  value_of, AllDigits, IsReduced, base58btc_digits-value, IsArray-add_bytes, IsArray,
}

size : String → ℕ
size [] = 0
size (c ∷ s) = suc (size s)

is_empty-char_at : (i : ℕ) (s : String) → i < size s → is_empty (char_at i s) ≡ false
unfolding char_at size
is_empty-char_at i [] h = absurd (omega arith)
is_empty-char_at zero (c ∷ s) h = is_empty_cons c ""
is_empty-char_at (suc i) (c ∷ s) h = is_empty-char_at i s (omega arith)

same_alphabet : base58_alphabet ≡ alphabet
unfolding base58_alphabet alphabet
same_alphabet = refl

is_empty-digit : (d : ℕ) → d < 58 → is_empty (char_at d alphabet) ≡ false
unfolding alphabet size
is_empty-digit d h = is_empty-char_at d alphabet h

pub digits_text-cons :
    (d : ℕ) (digits : List ℕ)
    → digits_text (d ∷ digits) ≡ String.◌++◌ (digits_text digits) (char_at d alphabet)
unfolding digits_text base58_alphabet alphabet
digits_text-cons d digits = refl

pub digits_text-nil : digits_text [] ≡ ""
unfolding digits_text
digits_text-nil = refl

pub is_empty-digits_text :
    (digits : List ℕ)
    → AllDigits digits
    → 0 < value_of digits
    → is_empty (digits_text digits) ≡ false
is_empty-digits_text [] h k = absurd (omega arith)
is_empty-digits_text (d ∷ digits) h k =
    rw (digits_text-cons d digits)
      (is_empty-++ (digits_text digits) (char_at d alphabet) (is_empty-digit d h.0))

base58_digits-value_of :
    (fuel : ℕ) (digits : List ℕ) (out : String)
    → AllDigits digits
    → IsReduced digits
    → value_of digits < 58 ^ fuel
    → base58_digits fuel (value_of digits) out ≡ String.◌++◌ (digits_text digits) out
base58_digits-value_of fuel [] out h r small =
    rw (digits_zero fuel out, digits_text-nil, nil-append out) refl
base58_digits-value_of zero (d ∷ digits) out h r small = let positive = r.0 in absurd (omega arith)
base58_digits-value_of (suc fuel) (d ∷ digits) out h r small =
    let below = h.0 in
    let positive = r.0 in
    let size = pow-succ' 58 fuel in
    let value = value_of (d ∷ digits) in
    let not_zero : eqb value 0 ≡ false = ground arith in
    let rest : value / 58 ≡ value_of digits = omega arith in
    let digit : value % 58 ≡ d = omega arith in
    let less : value_of digits < 58 ^ fuel = omega arith in
    let next = String.◌++◌ (char_at d alphabet) out in
    rw
      (
        digits_step fuel value out,
        not_zero,
        rest,
        digit,
        base58_digits-value_of fuel digits next h.1 r.1 less,
        digits_text-cons d digits,
        append_assoc (digits_text digits) (char_at d alphabet) out,
      )
      refl

base58-eq :
    (bytes : List ℕ)
    → base58 bytes ≡ (
        let digits = base58_digits (2 * length bytes) (big_endian 0 bytes) "" in
        String.◌++◌ (repeat (leading_zeros bytes) "1") (if is_empty digits then "1" else digits))
unfolding base58
base58-eq bytes = refl

pub base58btc_encode-eq :
    (byte : ℕ) (bytes : List ℕ)
    → base58btc_encode (byte ∷ bytes)
      ≡ String.◌++◌
          (repeat (leading_zeros (byte ∷ bytes)) "1")
          (digits_text (base58btc_digits (byte ∷ bytes)))
unfolding base58btc_encode
base58btc_encode-eq byte bytes = refl

pub digits_text-zero : digits_text (0 ∷ []) ≡ "1"
unfolding digits_text base58_alphabet char_at
digits_text-zero = refl

pub IsArray-base58btc_digits : (input : List ℕ) → IsArray (base58btc_digits input)
unfolding base58btc_digits
IsArray-base58btc_digits input = IsArray-add_bytes (0 ∷ []) input (inl refl)

-- The digits that the division loop yields are those of the array.
digits_text-base58btc_digits :
    (bytes : List ℕ)
    → AllBytes bytes
    → digits_text (base58btc_digits bytes) ≡ (
        let digits = base58_digits (2 * length bytes) (big_endian 0 bytes) "" in
        if is_empty digits then "1" else digits)
digits_text-base58btc_digits bytes h =
    let digits = base58btc_digits bytes in
    let value = base58btc_digits-value bytes in
    elim (IsArray-base58btc_digits bytes) [
      | inl e ↦
          let none : big_endian 0 bytes ≡ 0 = sym value.1 ∙ ap value_of e in
          rw (e, none, digits_zero (2 * length bytes) "", digits_text-zero) refl
      | inr (positive, reduced) ↦
          let small = big_endian-lt 0 1 bytes h (omega arith) in
          let size = pow_le (length bytes) in
          let same = value.1 in
          let less : value_of digits < 58 ^ (2 * length bytes) = omega arith in
          let text = base58_digits-value_of (2 * length bytes) digits "" value.0 reduced less in
          let full = is_empty-digits_text digits value.0 positive in
          rw (sym same, text, append-nil (digits_text digits), full) refl
    ]

-- The two encoders of the repository agree: on a list of bytes that is not empty, the array of
-- digits gives the same text as the division of the number that the bytes are.
pub base58btc_encode-base58 :
    (byte : ℕ) (bytes : List ℕ)
    → AllBytes (byte ∷ bytes)
    → base58btc_encode (byte ∷ bytes) ≡ base58 (byte ∷ bytes)
base58btc_encode-base58 byte bytes h =
    rw
      (
        base58btc_encode-eq byte bytes,
        base58-eq (byte ∷ bytes),
        digits_text-base58btc_digits (byte ∷ bytes) h,
      )
      refl
