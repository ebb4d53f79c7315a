-- ===== src/Text/Laws.antt =====
-- Folding and trimming a text twice changes nothing more.
use Prim.Native.Char.{Char, code}
use Prim.Native.String.{[], ◌∷◌}
use text.Mathlib.TextEquality.{Char-path}
use dataspace_ica_ts.Common.{
  ℕ, ◌<◌, String, ◌≡◌, refl, false, ne→==_false, ◌&&◌, arith, Bool-cases, inl, inr, is_empty, ◌+◌,
  ◌-◌,
}
use dataspace_ica_ts.Text.{
  of_code, of_code_at, lower_char, upper_char, to_lower, to_upper, is_space, trim_start, trim_end,
  trim,
}
use Prim.Native.Nat.{compare, Ordering}

code-of_code_at :
    (n : ℕ) (o : Ordering) (e : compare n 55296 ≡ o) → o ≡ Ordering.lt → code (of_code_at n o e) ≡ n
unfolding of_code_at
code-of_code_at n Ordering.lt e h = refl
code-of_code_at n Ordering.eq e h = cc
code-of_code_at n Ordering.gt e h = cc

pub code-of_code : (n : ℕ) → n < 55296 → code (of_code n) ≡ n
unfolding of_code
code-of_code n h = code-of_code_at n (compare n 55296) refl (ground arith)

lower_char_idem : (c : Char) → lower_char (lower_char c) ≡ lower_char c
unfolding lower_char
lower_char_idem c = Char-path _ _ (ground (arith, code-of_code (code c + 32)))

upper_char_idem : (c : Char) → upper_char (upper_char c) ≡ upper_char c
unfolding upper_char
upper_char_idem c = Char-path _ _ (ground (arith, code-of_code (code c - 32)))

pub to_lower_idem : (s : String) → to_lower (to_lower s) ≡ to_lower s
unfolding to_lower
to_lower_idem [] = refl
to_lower_idem (c ∷ s) = cc (lower_char_idem c, to_lower_idem s)

pub to_upper_idem : (s : String) → to_upper (to_upper s) ≡ to_upper s
unfolding to_upper
to_upper_idem [] = refl
to_upper_idem (c ∷ s) = cc (upper_char_idem c, to_upper_idem s)

trim_start_idem : (s : String) → trim_start (trim_start s) ≡ trim_start s
unfolding trim_start
trim_start_idem [] = refl
trim_start_idem (c ∷ s) = elim (Bool-cases (is_space c)) [
  | inl space ↦ rw space (trim_start_idem s)
  | inr other ↦ rw other (rw other)
]

trim_end_idem : (s : String) → trim_end (trim_end s) ≡ trim_end s
unfolding trim_end
trim_end_idem [] = refl
trim_end_idem (c ∷ s) = elim (Bool-cases (is_space c && is_empty (trim_end s))) [
  | inl dropped ↦ rw dropped refl
  | inr kept ↦ rw kept (rw (trim_end_idem s) (rw kept))
]

-- A text that does not begin with white space still does not when its end is trimmed.
trim_start-trim_end : (s : String) → trim_start (trim_end (trim_start s)) ≡ trim_end (trim_start s)
unfolding trim_start trim_end
trim_start-trim_end [] = refl
trim_start-trim_end (c ∷ s) = elim (Bool-cases (is_space c)) [
  | inl space ↦ rw space (trim_start-trim_end s)
  | inr other ↦ rw other (rw other (rw other))
]

pub trim_idem : (s : String) → trim (trim s) ≡ trim s
unfolding trim
trim_idem s = rw (trim_start-trim_end s) (trim_end_idem (trim_start s))

is_space-lower_char : (c : Char) → is_space (lower_char c) ≡ is_space c
unfolding is_space lower_char
is_space-lower_char c = ground (arith, code-of_code (code c + 32))

pub is_empty_cons : (c : Char) (s : String) → is_empty (c ∷ s) ≡ false
is_empty_cons c s = ne→==_false (c ∷ s) "" (λ e. cc)

is_empty-to_lower : (s : String) → is_empty (to_lower s) ≡ is_empty s
unfolding to_lower
is_empty-to_lower [] = refl
is_empty-to_lower (c ∷ s) = rw (is_empty_cons (lower_char c) (to_lower s), is_empty_cons c s) refl

trim_start-to_lower : (s : String) → trim_start (to_lower s) ≡ to_lower (trim_start s)
unfolding trim_start to_lower
trim_start-to_lower [] = refl
trim_start-to_lower (c ∷ s) = elim (Bool-cases (is_space c)) [
  | inl space ↦ rw (is_space-lower_char c, space) (trim_start-to_lower s)
  | inr other ↦ rw (is_space-lower_char c, other) refl
]

trim_end-to_lower : (s : String) → trim_end (to_lower s) ≡ to_lower (trim_end s)
unfolding trim_end to_lower
trim_end-to_lower [] = refl
trim_end-to_lower (c ∷ s) =
    rw (is_space-lower_char c, trim_end-to_lower s, is_empty-to_lower (trim_end s))
      (elim (Bool-cases (is_space c && is_empty (trim_end s))) [
        | inl dropped ↦ rw dropped refl
        | inr kept ↦ rw kept refl
      ])

pub trim-to_lower : (s : String) → trim (to_lower s) ≡ to_lower (trim s)
unfolding trim
trim-to_lower s = rw (trim_start-to_lower s) (trim_end-to_lower (trim_start s))
