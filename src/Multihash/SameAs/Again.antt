-- ===== src/Multihash/SameAs/Again.antt =====
-- A `sameAs` value that `normalizeSameAsHash` of src/api/tools/multihash.ts has normalised stays as it
-- is.
use Prim.Native.String
use Prim.Native.String.{[], ◌∷◌}
use text.Mathlib.TextLemmas.{nil-append, cons-append}
use mathlib.Core.Path.{subst}
use dataspace_ica_ts.Common.{
  ◌∷◌, List, ℕ, String, ◌≡◌, ◌⊎◌, refl, sym, false, true, arith, is_empty, ok, ◌∙◌, ap, Bool-cases,
  inl, inr, if◌then◌else◌,
}
use dataspace_ica_ts.Text.{is_space, trim, to_lower}
use dataspace_ica_ts.Text.Laws.{is_empty_cons, trim_idem}
use dataspace_ica_ts.Text.Tokens.{IsFree, IsFree-++, trim-free, is_empty-++}
use dataspace_ica_ts.Auth.{Platform}
use dataspace_ica_ts.Multihash.Hex.{size}
use dataspace_ica_ts.Multihash.SameAs.{
  starts_with, slice, has_no_space, is_z_text, looks_like_base58_multibase, hash_email,
  looks_like_email, normalize_trimmed, normalize_same_as_hash,
}
use dataspace_ica_ts.Multihash.{base58btc_encode, multibase58_multihash_sha3_256}
use dataspace_ica_ts.Multihash.Laws.Texts.{IsFree-base58btc_encode, is_empty-base58btc_encode}
use dataspace_ica_ts.Multihash.SameAs.Laws.{
  letter_z, IsFree-has_no_space, has_no_space-free, is_z_text-z,
}

to_lower-++ : (s t : String) → to_lower (String.◌++◌ s t) ≡ String.◌++◌ (to_lower s) (to_lower t)
unfolding to_lower
to_lower-++ [] t = rw (nil-append t, nil-append (to_lower t)) refl
to_lower-++ (c ∷ s) t = rw (cons-append c s t, to_lower-++ s t, cons-append) refl

starts_with-nil : (s : String) → starts_with s "" ≡ true
unfolding starts_with
starts_with-nil s = refl

starts_with-++ : (s t : String) → starts_with (String.◌++◌ s t) s ≡ true
unfolding starts_with
starts_with-++ [] t = starts_with-nil (String.◌++◌ "" t)
starts_with-++ (c ∷ s) t =
    let rest = starts_with-++ s t in rw (cons-append c s t) (ground (arith, rest))

slice-++ : (s t : String) → slice (size s) (String.◌++◌ s t) ≡ t
unfolding slice size
slice-++ [] t = nil-append t
slice-++ (c ∷ s) t = rw (cons-append c s t) (slice-++ s t)

IsFree-z_text : (s : String) → is_z_text s ≡ true → IsFree is_space s
unfolding is_z_text is_space
IsFree-z_text [] h = tt
IsFree-z_text (c ∷ s) h =
    let rest : has_no_space s ≡ true = ground (arith, h) in
    (ground (arith, h), IsFree-has_no_space s rest)

is_empty-z_text : (s : String) → is_z_text s ≡ true → is_empty s ≡ false
unfolding is_z_text
is_empty-z_text [] h = absurd (ground arith)
is_empty-z_text (c ∷ s) h = is_empty_cons c s

abbrev pub urn : String
urn = "urn:multibase:"

IsFree-urn : IsFree is_space urn
unfolding has_no_space
IsFree-urn = IsFree-has_no_space urn refl

to_lower-urn : to_lower urn ≡ urn
unfolding to_lower
to_lower-urn = refl

starts_with-urn : (s : String) → starts_with (to_lower (String.◌++◌ urn s)) urn ≡ true
starts_with-urn s = rw (to_lower-++ urn s, to_lower-urn) (starts_with-++ urn (to_lower s))

slice-urn : (s : String) → slice 14 (String.◌++◌ urn s) ≡ s
unfolding size
slice-urn s = slice-++ urn s

looks_like_base58_multibase-z_text :
    (s : String) → is_z_text s ≡ true → looks_like_base58_multibase s ≡ true
unfolding looks_like_base58_multibase
looks_like_base58_multibase-z_text s h = ap is_z_text (trim-free s (IsFree-z_text s h)) ∙ h

normalize_same_as_hash-urn :
    (p : Platform) (s : String)
    → is_z_text s ≡ true
    → normalize_same_as_hash p (String.◌++◌ urn s) ≡ ok (String.◌++◌ urn s)
unfolding normalize_same_as_hash
normalize_same_as_hash-urn p s h =
    let free = IsFree-z_text s h in
    rw
      (
        trim-free (String.◌++◌ urn s) (IsFree-++ is_space urn s IsFree-urn free),
        is_empty-++ urn s (is_empty-z_text s h),
        starts_with-urn s,
        slice-urn s,
        trim-free s free,
        looks_like_base58_multibase-z_text s h,
      )
      refl

normalize_same_as_hash-trim :
    (p : Platform) (v : String) → normalize_same_as_hash p (trim v) ≡ normalize_same_as_hash p v
unfolding normalize_same_as_hash
normalize_same_as_hash-trim p v = ap (normalize_trimmed p) (trim_idem v)

-- A value in its normal form: empty, the trimmed value, or a multibase text behind the prefix.
abbrev IsNormal : String → String → Type 0
IsNormal trimmed n =
    (n ≡ "") ⊎ ((n ≡ trimmed) ⊎ ((s : String) × (n ≡ String.◌++◌ urn s) × (is_z_text s ≡ true)))

is_z_text-base58btc_encode :
    (byte : ℕ) (bytes : List ℕ)
    → is_z_text (String.◌++◌ "z" (base58btc_encode (byte ∷ bytes))) ≡ true
is_z_text-base58btc_encode byte bytes =
    let text = base58btc_encode (byte ∷ bytes) in
    let free = has_no_space-free text (IsFree-base58btc_encode byte bytes) in
    rw (cons-append letter_z "" text, nil-append text)
      (is_z_text-z text free (is_empty-base58btc_encode byte bytes))

hash_email-z_text :
    (p : Platform) (email n : String)
    → hash_email p email ≡ ok n
    → (s : String) × (n ≡ String.◌++◌ urn s) × (is_z_text s ≡ true)
unfolding hash_email multibase58_multihash_sha3_256
hash_email-z_text p email n h = elim (Bool-cases (is_empty (trim (to_lower email)))) [
  | inl blank ↦ absurd (ground (arith, h))
  | inr full ↦
      let digest = p.sha3_256 (trim (to_lower email)) in
      (
        String.◌++◌ "z" (base58btc_encode (22 ∷ 32 ∷ digest)),
        ground (arith, h),
        is_z_text-base58btc_encode 22 (32 ∷ digest),
      )
]

ok_inj : (a b : String) → ok a ≡ ok b → a ≡ b
ok_inj a b e = cc

-- The prefix and a suffix: what follows the prefix is replaced where it is a multibase text.
normalize_suffix :
    (trimmed suffix n : String)
    → (if looks_like_base58_multibase suffix then String.◌++◌ urn suffix else trimmed) ≡ n
    → trim suffix ≡ suffix
    → IsNormal trimmed n
unfolding looks_like_base58_multibase
normalize_suffix trimmed suffix n h k = elim (Bool-cases (is_z_text (trim suffix))) [
  | inl z ↦ inr (inr (suffix, ground (arith, h), sym (ap is_z_text k) ∙ z))
  | inr other ↦ inr (inl (ground (arith, h)))
]

normalize_trimmed-IsNormal :
    (p : Platform) (trimmed n : String)
    → trim trimmed ≡ trimmed
    → normalize_trimmed p trimmed ≡ ok n
    → IsNormal trimmed n
unfolding normalize_trimmed looks_like_base58_multibase
normalize_trimmed-IsNormal p trimmed n k h = elim (Bool-cases (is_empty trimmed)) [
  | inl blank ↦ inl (sym (ok_inj "" n (rw blank at h)))
  | inr full ↦
      let h1 = rw full at h in
      elim (Bool-cases (starts_with (to_lower trimmed) urn)) [
        | inl prefixed ↦
            normalize_suffix trimmed (trim (slice 14 trimmed)) n (ok_inj _ n (rw prefixed at h1))
              (trim_idem (slice 14 trimmed))
        | inr bare ↦
            let h2 = rw bare at h1 in
            elim (Bool-cases (is_z_text (trim trimmed))) [
              | inl z ↦ inr (inr (trimmed, sym (ok_inj _ n (rw z at h2)), sym (ap is_z_text k) ∙ z))
              | inr other ↦
                  let h3 = rw other at h2 in
                  elim (Bool-cases (looks_like_email trimmed)) [
                    | inl email ↦ inr (inr (hash_email-z_text p trimmed n (rw email at h3)))
                    | inr text ↦ inr (inl (sym (ok_inj trimmed n (rw text at h3))))
                  ]
            ]
      ]
]

normalize_same_as_hash-nil : (p : Platform) → normalize_same_as_hash p "" ≡ ok ""
unfolding normalize_same_as_hash trim
normalize_same_as_hash-nil p = refl

-- Normalising a value twice changes nothing more: what `normalizeSameAsHash` returns for any text,
-- an e-mail address included, it returns for that result again, and it does not throw on it.
pub normalize_same_as_hash-again :
    (p : Platform) (value n : String)
    → normalize_same_as_hash p value ≡ ok n
    → normalize_same_as_hash p n ≡ ok n
normalize_same_as_hash-again p value n h =
    elim (normalize_trimmed-IsNormal p (trim value) n (trim_idem value)
      (unfold normalize_same_as_hash in h)) [
        | inl e ↦ rw e (normalize_same_as_hash-nil p)
        | inr (inl e) ↦
            subst (λ t. normalize_same_as_hash p t ≡ ok n) (sym e)
              (normalize_same_as_hash-trim p value ∙ h)
        | inr (inr (s, e, z)) ↦ rw e (normalize_same_as_hash-urn p s z)
      ]
