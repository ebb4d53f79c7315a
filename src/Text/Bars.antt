-- ===== src/Text/Bars.antt =====
-- Texts without a bar, the separator of keys that are joined from several texts.
use Prim.Native.Char.{Char, char, code}
use Prim.Native.String
use Prim.Native.String.{[], ◌∷◌}
use text.Mathlib.TextLemmas.{nil-append, cons-append}
use dataspace_ica_ts.Common.{
  ◌+◌, ◌-◌, String, ◌≡◌, refl, Bool, true, false, not, ◌&&◌, [], ◌∷◌, arith,
}
use dataspace_ica_ts.Text.{lower_char, upper_char, to_lower, to_upper, split, join}
use dataspace_ica_ts.Text.Laws.{code-of_code}
use dataspace_ica_ts.Text.Tokens.{IsFree, is_code, split-free, split-++}

abbrev bar : Char
bar = char 124 tt

-- The text has no `|`.
abbrev pub lacks_bar : String → Bool
lacks_bar [] = true
lacks_bar (c ∷ s) = not (is_code 124 c) && lacks_bar s

abbrev pub NoBar : String → Type 0
NoBar s = IsFree (is_code 124) s

lower_char-bar : (c : Char) → is_code 124 c ≡ false → is_code 124 (lower_char c) ≡ false
unfolding lower_char
lower_char-bar c h = ground (arith, code-of_code (code c + 32))

upper_char-bar : (c : Char) → is_code 124 c ≡ false → is_code 124 (upper_char c) ≡ false
unfolding upper_char
upper_char-bar c h = ground (arith, code-of_code (code c - 32))

pub to_lower-NoBar : (s : String) → lacks_bar s ≡ true → NoBar (to_lower s)
unfolding to_lower
to_lower-NoBar [] h = tt
to_lower-NoBar (c ∷ s) h = (lower_char-bar c (ground arith), to_lower-NoBar s (ground arith))

pub to_upper-NoBar : (s : String) → lacks_bar s ≡ true → NoBar (to_upper s)
unfolding to_upper
to_upper-NoBar [] h = tt
to_upper-NoBar (c ∷ s) h = (upper_char-bar c (ground arith), to_upper-NoBar s (ground arith))

pub split-join_bars :
    (a b c : String)
    → NoBar a
    → NoBar b
    → NoBar c
    → split 124 (join "" (a ∷ "|" ∷ b ∷ "|" ∷ c ∷ [])) ≡ (a ∷ b ∷ c ∷ [])
unfolding join
split-join_bars a b c h k l =
    rw
      (
        nil-append c,
        cons-append bar [] c,
        nil-append c,
        nil-append (bar ∷ c),
        nil-append (String.◌++◌ b (bar ∷ c)),
        cons-append bar [] (String.◌++◌ b (bar ∷ c)),
        nil-append (String.◌++◌ b (bar ∷ c)),
        nil-append (bar ∷ String.◌++◌ b (bar ∷ c)),
        split-++ bar a (String.◌++◌ b (bar ∷ c)) h,
        split-++ bar b c k,
        split-free 124 c l,
      )
      refl
