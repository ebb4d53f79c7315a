-- ===== src/Text.antt =====
-- What the source uses of ECMAScript strings: `trim`, `toLowerCase`, `toUpperCase`, `split`,
-- `join`, `slice`, decimal printing. Letters are mapped within ASCII, the alphabet of the
-- identifiers, actions and environment values that the code folds; other code points stay.
pub mod Laws
pub mod Date
pub mod Tokens
pub mod Slashes
pub mod Bars
use Prim.Native.Nat.{compare, Ordering}
use Prim.Native.Char.{Char, char, code, nul, IsScalar}
use Prim.Native.String
use Prim.Native.String.{[], ◌∷◌}
use dataspace_ica_ts.Common.{
  ℕ, zero, suc, ◌+◌, ◌-◌, ◌/◌, ◌%◌, String, ◌≡◌, refl, Bool, true, false, ◌&&◌, ◌||◌, List, [], ◌∷◌,
  leb, eqb, is_empty, if◌then◌else◌,
}

IsScalar_of_lt : (n : ℕ) → compare n 55296 ≡ Ordering.lt → IsScalar n
IsScalar_of_lt n h = rw h tt

of_code_at : (n : ℕ) (o : Ordering) → compare n 55296 ≡ o → Char
of_code_at n Ordering.lt e = char n (IsScalar_of_lt n e)
of_code_at n Ordering.eq e = nul
of_code_at n Ordering.gt e = nul

-- The character with a code below the surrogates.
pub of_code : ℕ → Char
unfolding of_code_at IsScalar_of_lt
of_code n = of_code_at n (compare n 55296) refl

lower_char : Char → Char
unfolding of_code
lower_char c = if leb 65 (code c) && leb (code c) 90 then of_code (code c + 32) else c

upper_char : Char → Char
unfolding of_code
upper_char c = if leb 97 (code c) && leb (code c) 122 then of_code (code c - 32) else c

-- `toLowerCase`
unfoldable pub to_lower : String → String
unfolding lower_char
to_lower [] = []
to_lower (c ∷ s) = lower_char c ∷ to_lower s

-- `toUpperCase`
unfoldable pub to_upper : String → String
unfolding upper_char
to_upper [] = []
to_upper (c ∷ s) = upper_char c ∷ to_upper s

-- White space and line terminators of ECMAScript.
unfoldable pub is_space : Char → Bool
is_space c =
    let n = code c in
    leb 9 n && leb n 13
    || eqb n 32
    || eqb n 160
    || eqb n 5760
    || leb 8192 n && leb n 8202
    || eqb n 8232
    || eqb n 8233
    || eqb n 8239
    || eqb n 8287
    || eqb n 12288
    || eqb n 65279

trim_start : String → String
trim_start [] = []
trim_start (c ∷ s) = if is_space c then trim_start s else c ∷ s

trim_end : String → String
trim_end [] = []
trim_end (c ∷ s) = let rest = trim_end s in if is_space c && is_empty rest then [] else c ∷ rest

-- `trim`
unfoldable pub trim : String → String
unfolding trim_start trim_end is_space
trim s = trim_end (trim_start s)

-- One more character: it ends a part, or stands at the head of the first part.
split_at : Bool → Char → List String → List String
split_at true c parts = "" ∷ parts
split_at false c [] = (c ∷ "") ∷ []
split_at false c (part ∷ parts) = (c ∷ part) ∷ parts

split_from : ℕ → String → List String
unfolding split_at
split_from sep [] = "" ∷ []
split_from sep (c ∷ s) = split_at (eqb (code c) sep) c (split_from sep s)

-- `split` by one ASCII character.
unfoldable pub split : ℕ → String → List String
unfolding split_from
split sep s = split_from sep s

-- `join`
unfoldable pub join : String → List String → String
join sep [] = ""
join sep (part ∷ []) = part
join sep (part ∷ (q ∷ rest)) = String.◌++◌ part (String.◌++◌ sep (join sep (q ∷ rest)))
