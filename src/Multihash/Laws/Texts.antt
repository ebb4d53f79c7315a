-- ===== src/Multihash/Laws/Texts.antt =====
-- The texts of `base58btcEncode` in src/api/tools/multihash.ts: without white space, and not empty.
use Prim.Native.String.{[], ◌∷◌}
use dataspace_ica_ts.Common.{
  ℕ, zero, suc, String, ◌≡◌, refl, false, inl, inr, List, [], ◌∷◌, is_empty,
}
use dataspace_ica_ts.Text.{is_space}
use dataspace_ica_ts.Text.Tokens.{IsFree, IsFree-++, is_empty-++}
use dataspace_ica_ts.Auth.Base58.{alphabet, char_at, leading_zeros, repeat}
use dataspace_ica_ts.Multihash.{digits_text, base58btc_digits, base58btc_encode}
use dataspace_ica_ts.Multihash.Digits.{base58btc_digits-value}
use dataspace_ica_ts.Multihash.Laws.{
  base58btc_encode-eq, digits_text-cons, digits_text-nil, digits_text-zero, is_empty-digits_text,
  IsArray-base58btc_digits,
}
use dataspace_ica_ts.Multihash.SameAs.{has_no_space}
use dataspace_ica_ts.Multihash.SameAs.Laws.{IsFree-has_no_space}

IsFree-char_at : (i : ℕ) (s : String) → IsFree is_space s → IsFree is_space (char_at i s)
unfolding char_at
IsFree-char_at i [] h = tt
IsFree-char_at zero (c ∷ s) h = (h.0, tt)
IsFree-char_at (suc i) (c ∷ s) h = IsFree-char_at i s h.1

IsFree-alphabet : IsFree is_space alphabet
unfolding alphabet has_no_space
IsFree-alphabet = IsFree-has_no_space alphabet refl

IsFree-digits_text : (digits : List ℕ) → IsFree is_space (digits_text digits)
IsFree-digits_text [] = rw digits_text-nil tt
IsFree-digits_text (d ∷ digits) =
    let digit = IsFree-char_at d alphabet IsFree-alphabet in
    rw (digits_text-cons d digits) (
      IsFree-++ is_space (digits_text digits) (char_at d alphabet) (IsFree-digits_text digits)
        digit)

IsFree-repeat : (n : ℕ) → IsFree is_space (repeat n "1")
unfolding repeat is_space
IsFree-repeat zero = tt
IsFree-repeat (suc n) = IsFree-++ is_space "1" (repeat n "1") (refl, tt) (IsFree-repeat n)

pub IsFree-base58btc_encode :
    (byte : ℕ) (bytes : List ℕ) → IsFree is_space (base58btc_encode (byte ∷ bytes))
IsFree-base58btc_encode byte bytes = rw (base58btc_encode-eq byte bytes) (
    IsFree-++ is_space (repeat (leading_zeros (byte ∷ bytes)) "1")
      (digits_text (base58btc_digits (byte ∷ bytes))) (IsFree-repeat (leading_zeros (byte ∷ bytes)))
      (IsFree-digits_text (base58btc_digits (byte ∷ bytes))))

is_empty-base58btc_digits :
    (bytes : List ℕ) → is_empty (digits_text (base58btc_digits bytes)) ≡ false
is_empty-base58btc_digits bytes = elim (IsArray-base58btc_digits bytes) [
  | inl e ↦ rw (e, digits_text-zero) refl
  | inr (positive, _) ↦
      is_empty-digits_text (base58btc_digits bytes) (base58btc_digits-value bytes).0 positive
]

pub is_empty-base58btc_encode :
    (byte : ℕ) (bytes : List ℕ) → is_empty (base58btc_encode (byte ∷ bytes)) ≡ false
is_empty-base58btc_encode byte bytes = rw (base58btc_encode-eq byte bytes) (
    is_empty-++ (repeat (leading_zeros (byte ∷ bytes)) "1")
      (digits_text (base58btc_digits (byte ∷ bytes))) (is_empty-base58btc_digits (byte ∷ bytes)))
