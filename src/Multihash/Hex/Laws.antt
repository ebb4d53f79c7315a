-- ===== src/Multihash/Hex/Laws.antt =====
-- The bounds of the multihashes made from hexadecimal digests, in src/api/tools/multihash.ts.
use Prim.Native.Char.{Char}
use Prim.Native.String.{[], ◌∷◌}
use dataspace_ica_ts.Common.{
  ℕ, zero, suc, ◌*◌, ◌<◌, String, ◌≡◌, refl, true, arith, List, length, ok,
}
use mathlib.Core.List.{[], ◌∷◌}
use dataspace_ica_ts.Text.{trim, to_lower}
use dataspace_ica_ts.Auth.Base58.Fuel.{AllBytes}
use dataspace_ica_ts.Multihash.Hex.{
  is_hex_digit, is_hex, size, hex_value, bytes_of_hex, multihash_from_hex,
}

hex_value-lt : (c : Char) → is_hex_digit c ≡ true → hex_value c < 16
unfolding is_hex_digit hex_value
hex_value-lt c h = ground arith

is_hex-cons :
    (c : Char) (s : String) → is_hex (c ∷ s) ≡ true → (is_hex_digit c ≡ true) × (is_hex s ≡ true)
unfolding is_hex
is_hex-cons c s h = ground arith

-- Two digits are a byte.
AllBytes-bytes_of_hex : (s : String) → is_hex s ≡ true → AllBytes (bytes_of_hex s)
unfolding bytes_of_hex
AllBytes-bytes_of_hex [] h = tt
AllBytes-bytes_of_hex (c ∷ []) h = tt
AllBytes-bytes_of_hex (c ∷ (d ∷ s)) h =
    let (first, rest) = is_hex-cons c (d ∷ s) h in
    let (second, tail) = is_hex-cons d s rest in
    let high = hex_value-lt c first in
    let low = hex_value-lt d second in (omega arith, AllBytes-bytes_of_hex s tail)

length-bytes_of_hex : (n : ℕ) (s : String) → size s ≡ n * 2 → length (bytes_of_hex s) ≡ n
unfolding bytes_of_hex size
length-bytes_of_hex zero [] h = refl
length-bytes_of_hex (suc n) [] h = omega arith
length-bytes_of_hex n (c ∷ []) h = omega arith
length-bytes_of_hex zero (c ∷ (d ∷ s)) h = omega arith
length-bytes_of_hex (suc n) (c ∷ (d ∷ s)) h =
    let rest = length-bytes_of_hex n s (omega arith) in rw rest refl

-- What a builder returns: the code and the size of the digest, then as many bytes.
abbrev pub IsMultihash : ℕ → ℕ → List ℕ → Type 0
IsMultihash kind bytes result =
    (digest : List ℕ) × (result ≡ (kind ∷ bytes ∷ digest))
    × (length digest ≡ bytes)
    × AllBytes digest

accepted :
    (kind bytes : ℕ) (blank malformed hex : String) (result : List ℕ)
    → multihash_from_hex kind bytes blank malformed hex ≡ ok result
    → (is_hex (to_lower (trim hex)) ≡ true)
      × (size (to_lower (trim hex)) ≡ bytes * 2)
      × (result ≡ (kind ∷ bytes ∷ bytes_of_hex (to_lower (trim hex))))
unfolding multihash_from_hex
accepted kind bytes blank malformed hex result h = ground arith

-- A hexadecimal digest that is accepted yields a multihash: the code of the digest, its size, and
-- exactly that many numbers, each of them a byte.
pub multihash_from_hex-IsMultihash :
    (kind bytes : ℕ) (blank malformed hex : String) (result : List ℕ)
    → multihash_from_hex kind bytes blank malformed hex ≡ ok result
    → IsMultihash kind bytes result
unfolding multihash_from_hex
multihash_from_hex-IsMultihash kind bytes blank malformed hex result h =
    let normalized = to_lower (trim hex) in
    let (digits, sized, same) = accepted kind bytes blank malformed hex result h in
    (
      bytes_of_hex normalized,
      same,
      length-bytes_of_hex bytes normalized sized,
      AllBytes-bytes_of_hex normalized digits,
    )
