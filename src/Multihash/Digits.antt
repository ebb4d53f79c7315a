-- ===== src/Multihash/Digits.antt =====
-- The digit array of `base58btcEncode` in src/api/tools/multihash.ts: its digits and its value.
use dataspace_ica_ts.Common.{
  ℕ, zero, suc, ◌+◌, ◌*◌, ◌/◌, ◌%◌, ◌≤◌, ◌<◌, ◌≡◌, refl, ◌∙◌, ap, ◌⊎◌, inl, inr, false, List, [],
  ◌∷◌, arith, eqb,
}
use dataspace_ica_ts.Auth.Base58.{big_endian}
use dataspace_ica_ts.Multihash.{push_carry, add_byte, add_bytes, base58btc_digits}

-- The number that digits in base 58 stand for, lowest digit first.
abbrev pub value_of : List ℕ → ℕ
value_of [] = 0
value_of (d ∷ digits) = d + 58 * value_of digits

-- Every digit is below 58.
abbrev pub AllDigits : List ℕ → Type 0
AllDigits [] = Unit
AllDigits (d ∷ digits) = (d < 58) × AllDigits digits

-- The highest digit is not 0: what stands from a digit on upwards is a positive number.
abbrev pub IsReduced : List ℕ → Type 0
IsReduced [] = Unit
IsReduced (d ∷ digits) = (0 < value_of (d ∷ digits)) × IsReduced digits

push_carry-suc :
    (fuel carry : ℕ)
    → 0 < carry
    → push_carry (suc fuel) carry ≡ (carry % 58 ∷ push_carry fuel (carry / 58))
unfolding push_carry
push_carry-suc fuel carry h = let e : eqb carry 0 ≡ false = ground arith in rw (push_carry, e) refl

push_carry-zero : (fuel : ℕ) → push_carry fuel 0 ≡ []
unfolding push_carry
push_carry-zero zero = refl
push_carry-zero (suc fuel) = refl

zero-or-positive : (n : ℕ) → (n ≡ 0) ⊎ (0 < n)
zero-or-positive zero = inl refl
zero-or-positive (suc n) = inr (omega arith)

value-push_carry : (fuel carry : ℕ) → carry ≤ fuel → value_of (push_carry fuel carry) ≡ carry
value-push_carry zero carry h = let e : carry ≡ 0 = omega arith in rw (e, push_carry-zero 0) refl
value-push_carry (suc fuel) carry h = elim (zero-or-positive carry) [
  | inl e ↦ rw (e, push_carry-zero (suc fuel)) refl
  | inr k ↦
      let rest = value-push_carry fuel (carry / 58) (omega arith) in
      rw (push_carry-suc fuel carry k, rest) (omega arith)
]

push_carry-none : (carry : ℕ) → push_carry 0 carry ≡ []
unfolding push_carry
push_carry-none carry = refl

AllDigits-push_carry : (fuel carry : ℕ) → AllDigits (push_carry fuel carry)
AllDigits-push_carry zero carry = rw (push_carry-none carry) tt
AllDigits-push_carry (suc fuel) carry = elim (zero-or-positive carry) [
  | inl e ↦ rw (e, push_carry-zero (suc fuel)) tt
  | inr k ↦ rw (push_carry-suc fuel carry k) (omega arith, AllDigits-push_carry fuel (carry / 58))
]

IsReduced-push_carry : (fuel carry : ℕ) → carry ≤ fuel → IsReduced (push_carry fuel carry)
IsReduced-push_carry zero carry h = rw (push_carry-none carry) tt
IsReduced-push_carry (suc fuel) carry h = elim (zero-or-positive carry) [
  | inl e ↦ rw (e, push_carry-zero (suc fuel)) tt
  | inr k ↦
      let less : carry / 58 ≤ fuel = omega arith in
      let rest = value-push_carry fuel (carry / 58) less in
      rw (push_carry-suc fuel carry k, rest)
        (omega arith, IsReduced-push_carry fuel (carry / 58) less)
]

value-add_byte :
    (digits : List ℕ) (carry : ℕ) → value_of (add_byte digits carry) ≡ 256 * value_of digits + carry
unfolding add_byte
value-add_byte [] carry = rw (value-push_carry carry carry (omega arith)) (omega arith)
value-add_byte (d ∷ digits) carry =
    rw (value-add_byte digits ((d * 256 + carry) / 58)) (omega arith)

AllDigits-add_byte : (digits : List ℕ) (carry : ℕ) → AllDigits (add_byte digits carry)
unfolding add_byte
AllDigits-add_byte [] carry = AllDigits-push_carry carry carry
AllDigits-add_byte (d ∷ digits) carry =
    (omega arith, AllDigits-add_byte digits ((d * 256 + carry) / 58))

IsReduced-add_byte :
    (digits : List ℕ) (carry : ℕ) → IsReduced digits → IsReduced (add_byte digits carry)
unfolding add_byte
IsReduced-add_byte [] carry h = IsReduced-push_carry carry carry (omega arith)
IsReduced-add_byte (d ∷ digits) carry h =
    let next = (d * 256 + carry) / 58 in
    let positive = h.0 in
    let rest = value-add_byte digits next in
    (rw rest (omega arith), IsReduced-add_byte digits next h.1)

AllDigits-add_bytes :
    (digits bytes : List ℕ) → AllDigits digits → AllDigits (add_bytes digits bytes)
unfolding add_bytes
AllDigits-add_bytes digits [] h = h
AllDigits-add_bytes digits (byte ∷ bytes) h =
    AllDigits-add_bytes (add_byte digits byte) bytes (AllDigits-add_byte digits byte)

value-add_bytes :
    (digits bytes : List ℕ) → value_of (add_bytes digits bytes) ≡ big_endian (value_of digits) bytes
unfolding add_bytes big_endian
value-add_bytes digits [] = refl
value-add_bytes digits (byte ∷ bytes) =
    let next : 256 * value_of digits + byte ≡ value_of digits * 256 + byte = omega arith in
    value-add_bytes (add_byte digits byte) bytes
    ∙ ap (λ n. big_endian n bytes) (value-add_byte digits byte ∙ next)

-- The array holds digits of base 58, all below 58 as indices of the alphabet, whatever the numbers
-- of the input are, and they stand for the number that the input is in base 256.
pub base58btc_digits-value :
    (input : List ℕ)
    → AllDigits (base58btc_digits input) × (value_of (base58btc_digits input) ≡ big_endian 0 input)
unfolding base58btc_digits
base58btc_digits-value input =
    (AllDigits-add_bytes (0 ∷ []) input (omega arith, tt), value-add_bytes (0 ∷ []) input)

-- The array is the single digit 0, or has a highest digit that is not 0.
abbrev pub IsArray : List ℕ → Type 0
IsArray digits = (digits ≡ (0 ∷ [])) ⊎ ((0 < value_of digits) × IsReduced digits)

IsArray-add_zero : (byte : ℕ) → IsArray (add_byte (0 ∷ []) byte)
unfolding add_byte
IsArray-add_zero byte = elim (zero-or-positive byte) [
  | inl e ↦ inl (rw (e, push_carry-zero 0) refl)
  | inr k ↦
      let next = (0 * 256 + byte) / 58 in
      let positive = value-add_byte (0 ∷ []) byte in
      inr (
        rw positive (omega arith),
        (rw positive (omega arith), IsReduced-push_carry next next (omega arith)),
      )
]

IsArray-add_byte : (digits : List ℕ) (byte : ℕ) → IsArray digits → IsArray (add_byte digits byte)
IsArray-add_byte digits byte (inl e) = rw e (IsArray-add_zero byte)
IsArray-add_byte digits byte (inr (k, h)) =
    inr (rw (value-add_byte digits byte) (omega arith), IsReduced-add_byte digits byte h)

pub IsArray-add_bytes : (digits bytes : List ℕ) → IsArray digits → IsArray (add_bytes digits bytes)
unfolding add_bytes
IsArray-add_bytes digits [] h = h
IsArray-add_bytes digits (byte ∷ bytes) h =
    IsArray-add_bytes (add_byte digits byte) bytes (IsArray-add_byte digits byte h)
