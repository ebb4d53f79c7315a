-- ===== src/Text/Slashes.antt =====
-- Segments without a slash: what splitting, trimming and folding leave, and what is joined again.
use Prim.Native.Char.{Char, char, code}
use Prim.Native.String.{[], ◌∷◌}
use text.Mathlib.TextLemmas.{nil-append, cons-append}
use dataspace_ica_ts.Common.{
  ◌+◌, String, ◌≡◌, refl, false, inl, inr, Bool-cases, List, [], ◌∷◌, arith, eqb, ◌&&◌, is_empty,
}
use dataspace_ica_ts.Text.{
  lower_char, to_lower, is_space, trim_start, trim_end, trim, split, split_from, split_at, join,
}
use dataspace_ica_ts.Text.Laws.{code-of_code}
use dataspace_ica_ts.Text.Tokens.{IsFree, is_code, split-free, split-++}

abbrev slash : Char
slash = char 47 tt

-- No character is a slash.
abbrev pub NoSlash : String → Type 0
NoSlash s = IsFree (is_code 47) s

abbrev pub All {ℓ} : {A : Type ℓ} → (A → Type 0) → List A → Type 0
All P [] = Unit
All P (x ∷ xs) = P x × All P xs

split_at-NoSlash :
    (c : Char) (parts : List String)
    → All NoSlash parts
    → All NoSlash (split_at (eqb (code c) 47) c parts)
unfolding split_at
split_at-NoSlash c parts h = elim (Bool-cases (eqb (code c) 47)) [
  | inl slash ↦ rw slash (tt, h)
  | inr other ↦ rw other (extend c parts other h)
]
  where
    extend :
        (d : Char) (rest : List String)
        → eqb (code d) 47 ≡ false
        → All NoSlash rest
        → All NoSlash (split_at false d rest)
    extend d [] e k = ((e, tt), tt)
    extend d (part ∷ rest) e k = ((e, k.0), k.1)

pub split-NoSlash : (s : String) → All NoSlash (split 47 s)
unfolding split split_from
split-NoSlash [] = (tt, tt)
split-NoSlash (c ∷ s) = split_at-NoSlash c (split 47 s) (split-NoSlash s)

trim_start-NoSlash : (s : String) → NoSlash s → NoSlash (trim_start s)
unfolding trim_start
trim_start-NoSlash [] h = tt
trim_start-NoSlash (c ∷ s) h = elim (Bool-cases (is_space c)) [
  | inl space ↦ rw space (trim_start-NoSlash s h.1)
  | inr other ↦ rw other h
]

trim_end-NoSlash : (s : String) → NoSlash s → NoSlash (trim_end s)
unfolding trim_end
trim_end-NoSlash [] h = tt
trim_end-NoSlash (c ∷ s) h = elim (Bool-cases (is_space c && is_empty (trim_end s))) [
  | inl dropped ↦ rw dropped tt
  | inr kept ↦ rw kept (h.0, trim_end-NoSlash s h.1)
]

pub trim-NoSlash : (s : String) → NoSlash s → NoSlash (trim s)
unfolding trim
trim-NoSlash s h = trim_end-NoSlash (trim_start s) (trim_start-NoSlash s h)

lower_char-slash : (c : Char) → eqb (code c) 47 ≡ false → eqb (code (lower_char c)) 47 ≡ false
unfolding lower_char
lower_char-slash c h = ground (arith, code-of_code (code c + 32))

pub to_lower-NoSlash : (s : String) → NoSlash s → NoSlash (to_lower s)
unfolding to_lower
to_lower-NoSlash [] h = tt
to_lower-NoSlash (c ∷ s) h = (lower_char-slash c h.0, to_lower-NoSlash s h.1)

-- Splitting a path at its slashes gives back the segments that were joined.
pub split-join_slash :
    (part : String) (parts : List String)
    → All NoSlash (part ∷ parts)
    → split 47 (join "/" (part ∷ parts)) ≡ part ∷ parts
unfolding join
split-join_slash part [] h = split-free 47 part h.0
split-join_slash part (q ∷ parts) h =
    rw
      (
        cons-append slash [] (join "/" (q ∷ parts)),
        nil-append (join "/" (q ∷ parts)),
        split-++ slash part (join "/" (q ∷ parts)) h.0,
        split-join_slash q parts h.1,
      )
      refl
