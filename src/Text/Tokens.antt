-- ===== src/Text/Tokens.antt =====
-- Texts without white space, or without a separator: trimming, and splitting what was joined.
use Prim.Native.Char.{Char, char, code}
use Prim.Native.String
use Prim.Native.String.{[], ◌∷◌}
use text.Mathlib.TextLemmas.{nil-append, cons-append, append_assoc}
use dataspace_ica_ts.Common.{
  ℕ, String, ◌≡◌, refl, inl, inr, Bool-cases, Bool, false, [], ◌∷◌, arith, eqb, is_empty,
}
use dataspace_ica_ts.Text.Laws.{is_empty_cons}
use dataspace_ica_ts.Text.{is_space, trim_start, trim_end, trim, split_at, split_from, split, join}

-- No character passes the test.
abbrev pub IsFree : (Char → Bool) → String → Type 0
IsFree p [] = Unit
IsFree p (c ∷ s) = (p c ≡ false) × IsFree p s

abbrev pub is_code : ℕ → Char → Bool
is_code n c = eqb (code c) n

pub IsFree-++ :
    (p : Char → Bool) (s t : String) → IsFree p s → IsFree p t → IsFree p (String.◌++◌ s t)
IsFree-++ p [] t h k = rw (nil-append t) k
IsFree-++ p (c ∷ s) t h k = rw (cons-append c s t) (h.0, IsFree-++ p s t h.1 k)

trim_end-free : (s : String) → IsFree is_space s → trim_end s ≡ s
unfolding trim_end
trim_end-free [] h = refl
trim_end-free (c ∷ s) h = rw (h.0, trim_end-free s h.1) refl

trim_start-free : (s : String) → IsFree is_space s → trim_start s ≡ s
unfolding trim_start
trim_start-free [] h = refl
trim_start-free (c ∷ s) h = rw h.0 refl

pub trim-free : (s : String) → IsFree is_space s → trim s ≡ s
unfolding trim
trim-free s h = rw (trim_start-free s h) (trim_end-free s h)

-- Splitting at a character of the code `n`.
pub split-free : (n : ℕ) (s : String) → IsFree (is_code n) s → split n s ≡ (s ∷ [])
unfolding split split_from
split-free n [] h = refl
split-free n (c ∷ s) h = rw (h.0, split-free n s h.1) refl

pub split-++ :
    (c : Char) (s t : String)
    → IsFree (is_code (code c)) s
    → split (code c) (String.◌++◌ s (c ∷ t)) ≡ (s ∷ split (code c) t)
unfolding split split_from split_at
split-++ c [] t h = rw (nil-append (c ∷ t)) (ground arith)
split-++ c (d ∷ s) t h = rw (cons-append d s (c ∷ t), h.0, split-++ c s t h.1) refl

abbrev dot : Char
dot = char 46 tt

join-dot : (s t : String) → join "" (s ∷ "." ∷ t ∷ []) ≡ String.◌++◌ s (dot ∷ t)
unfolding join
join-dot s t = rw (nil-append t, nil-append, cons-append dot [] t, nil-append t) refl

pub split-join_dots :
    (h b s : String)
    → IsFree (is_code 46) h
    → IsFree (is_code 46) b
    → IsFree (is_code 46) s
    → split 46 (join "" (join "" (h ∷ "." ∷ b ∷ []) ∷ "." ∷ s ∷ [])) ≡ (h ∷ b ∷ s ∷ [])
split-join_dots h b s h_free b_free s_free =
    rw
      (
        join-dot (join "" (h ∷ "." ∷ b ∷ [])) s,
        join-dot h b,
        append_assoc h (dot ∷ b) (dot ∷ s),
        cons-append dot b (dot ∷ s),
        split-++ dot h (String.◌++◌ b (dot ∷ s)) h_free,
        split-++ dot b s b_free,
        split-free 46 s s_free,
      )
      refl

pub join_dot-unspaced :
    (s t : String)
    → IsFree is_space s
    → IsFree is_space t
    → IsFree is_space (join "" (s ∷ "." ∷ t ∷ []))
unfolding is_space
join_dot-unspaced s t h k = rw (join-dot s t) (IsFree-++ is_space s (dot ∷ t) h (refl, k))

pub is_empty-++ : (s t : String) → is_empty t ≡ false → is_empty (String.◌++◌ s t) ≡ false
is_empty-++ [] t h = rw (nil-append t) h
is_empty-++ (c ∷ s) t h = rw (cons-append c s t) (is_empty_cons c (String.◌++◌ s t))

pub is_empty-join_dot : (s t : String) → is_empty (join "" (s ∷ "." ∷ t ∷ [])) ≡ false
is_empty-join_dot s t = rw (join-dot s t) (is_empty-++ s (dot ∷ t) (is_empty_cons dot t))

trim_end-++ :
    (s t : String)
    → IsFree is_space t
    → is_empty t ≡ false
    → trim_end (String.◌++◌ s t) ≡ String.◌++◌ s t
unfolding trim_end
trim_end-++ [] t h k = rw (nil-append t) (trim_end-free t h)
trim_end-++ (c ∷ s) t h k =
    rw (cons-append c s t, trim_end-++ s t h k, is_empty-++ s t k)
      (elim (Bool-cases (is_space c)) [ inl e ↦ rw e refl | inr e ↦ rw e refl ])

pub trim-++ :
    (c : Char) (s t : String)
    → is_space c ≡ false
    → IsFree is_space t
    → is_empty t ≡ false
    → trim (String.◌++◌ (c ∷ s) t) ≡ String.◌++◌ (c ∷ s) t
unfolding trim trim_start
trim-++ c s t first h k =
    let e = trim_end-++ (c ∷ s) t h k in rw (cons-append c s t, first) (rw (cons-append c s t) at e)
