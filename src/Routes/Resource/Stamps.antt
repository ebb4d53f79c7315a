-- ===== src/Routes/Resource/Stamps.antt =====
-- Printed numbers of two and of four digits, and a date and a time printed from them.
use Prim.Native.Char.{Char, code}
use Prim.Native.String
use Prim.Native.String.{[], ◌∷◌}
use text.Mathlib.TextEquality.{Char-path}
use text.Mathlib.TextLemmas.{nil-append, cons-append}
use dataspace_ica_ts.Common.{ℕ, ◌+◌, ◌-◌, ◌*◌, ◌/◌, ◌%◌, String, ◌≡◌, refl, ap, true, arith}
use dataspace_ica_ts.Text.{of_code}
use dataspace_ica_ts.Text.Laws.{code-of_code}
use dataspace_ica_ts.Text.Date.{digit, pad2, pad4}
use dataspace_ica_ts.Routes.Resource.{is_digit, two_digits}

digit-code : (c : Char) (n : ℕ) → is_digit c ≡ true → n % 10 ≡ code c - 48 → digit n ≡ (c ∷ "")
unfolding digit
digit-code c n h e =
    let same = Char-path (of_code (48 + n % 10)) c (ground (arith, code-of_code (48 + n % 10))) in
    ap (λ d. d ∷ "") same

pub pad2-two_digits :
    (a b : Char) (n : ℕ)
    → is_digit a ≡ true
    → is_digit b ≡ true
    → n % 100 ≡ two_digits a b
    → pad2 n ≡ (a ∷ (b ∷ ""))
unfolding pad2
pad2-two_digits a b n h k e =
    rw
      (
        digit-code a (n / 10) h (ground arith),
        digit-code b n k (ground arith),
        cons-append a "" (b ∷ ""),
        nil-append (b ∷ ""),
      )
      refl

pub pad4-two_digits :
    (a b c d : Char) (n : ℕ)
    → is_digit a ≡ true
    → is_digit b ≡ true
    → is_digit c ≡ true
    → is_digit d ≡ true
    → n ≡ two_digits a b * 100 + two_digits c d
    → pad4 n ≡ (a ∷ (b ∷ (c ∷ (d ∷ ""))))
unfolding pad4
pad4-two_digits a b c d n ha hb hc hd e =
    rw
      (
        pad2-two_digits a b (n / 100) ha hb (ground arith),
        pad2-two_digits c d n hc hd (ground arith),
        cons-append a (b ∷ "") (c ∷ (d ∷ "")),
        cons-append b "" (c ∷ (d ∷ "")),
        nil-append (c ∷ (d ∷ "")),
      )
      refl

abbrev pub stamp : ℕ → ℕ → ℕ → ℕ → ℕ → String
stamp year day month hour minute =
    String.◌++◌ (pad4 year)
      (String.◌++◌ (pad2 day) (String.◌++◌ (pad2 month) (String.◌++◌ (pad2 hour) (pad2 minute))))

pub two-++ : (a b : Char) (s : String) → String.◌++◌ (a ∷ (b ∷ "")) s ≡ (a ∷ (b ∷ s))
two-++ a b s = rw (cons-append a (b ∷ "") s, cons-append b "" s, nil-append s) refl

pub four-++ :
    (a b c d : Char) (s : String)
    → String.◌++◌ (a ∷ (b ∷ (c ∷ (d ∷ "")))) s ≡ (a ∷ (b ∷ (c ∷ (d ∷ s))))
four-++ a b c d s =
    rw (cons-append a (b ∷ (c ∷ (d ∷ ""))) s, cons-append b (c ∷ (d ∷ "")) s, two-++ c d s) refl

abbrev pub digit_char : ℕ → Char
digit_char n = of_code (48 + n % 10)

code-digit_char : (n : ℕ) → code (digit_char n) ≡ 48 + n % 10
code-digit_char n = code-of_code (48 + n % 10) (omega arith)

pub digit_char-is_digit : (n : ℕ) → is_digit (digit_char n) ≡ true
digit_char-is_digit n = ground (arith, code-digit_char n)

pub two_digits-digit_char : (n : ℕ) → two_digits (digit_char (n / 10)) (digit_char n) ≡ n % 100
two_digits-digit_char n = ground (arith, code-digit_char n, code-digit_char (n / 10))

pad2-chars : (n : ℕ) → pad2 n ≡ (digit_char (n / 10) ∷ (digit_char n ∷ ""))
unfolding pad2 digit
pad2-chars n =
    rw (cons-append (digit_char (n / 10)) "" (digit_char n ∷ ""), nil-append (digit_char n ∷ ""))
      refl

-- The twelve characters of a stamp.
pub stamp-chars :
    (y d m h n : ℕ)
    → stamp y d m h n ≡ (
        digit_char (y / 100 / 10)
        ∷ (digit_char (y / 100)
            ∷ (digit_char (y / 10)
                ∷ (digit_char y
                    ∷ (digit_char (d / 10)
                        ∷ (digit_char d
                            ∷ (digit_char (m / 10)
                                ∷ (digit_char m
                                    ∷ (digit_char (h / 10)
                                        ∷ (digit_char h
                                            ∷ (digit_char (n / 10) ∷ (digit_char n ∷ ""))))))))))))
unfolding pad4
stamp-chars y d m h n =
    rw
      (
        pad2-chars (y / 100),
        pad2-chars y,
        pad2-chars d,
        pad2-chars m,
        pad2-chars h,
        pad2-chars n,
        two-++ (digit_char (y / 100 / 10)) (digit_char (y / 100))
            (digit_char (y / 10) ∷ (digit_char y ∷ "")),
        four-++ (digit_char (y / 100 / 10)) (digit_char (y / 100)) (digit_char (y / 10))
            (digit_char y),
        two-++ (digit_char (d / 10)) (digit_char d),
        two-++ (digit_char (m / 10)) (digit_char m),
        two-++ (digit_char (h / 10)) (digit_char h),
      )
      refl
