-- ===== src/Text/Date.antt =====
-- Decimal printing, and `Date.prototype.toISOString` for the years 1970 to 9999.
use mathlib.Core.List.{[], ◌∷◌}
use dataspace_ica_ts.Common.{ℕ, zero, suc, ◌+◌, ◌-◌, ◌*◌, ◌/◌, ◌%◌, String, ltb, leb, if◌then◌else◌}
use dataspace_ica_ts.Text.{of_code, join}
use Prim.Native.String
use Prim.Native.String.{[], ◌∷◌}

unfoldable pub digit : ℕ → String
unfolding of_code
digit n = of_code (48 + n % 10) ∷ []

show_from : ℕ → ℕ → String → String
show_from zero n acc = acc
show_from (suc fuel) n acc =
    let rest = show_from fuel (n / 10) (String.◌++◌ (digit n) acc) in
    if ltb n 10 then String.◌++◌ (digit n) acc else rest

-- `String(n)`: a number below 10 ^ k has at most k digits, and n + 1 rounds are enough.
unfoldable pub show : ℕ → String
unfolding show_from digit
show n = show_from (suc n) n ""

unfoldable pub pad2 : ℕ → String
unfolding digit
pad2 n = String.◌++◌ (digit (n / 10)) (digit n)

pad3 : ℕ → String
unfolding digit pad2
pad3 n = String.◌++◌ (digit (n / 100)) (pad2 n)

unfoldable pub pad4 : ℕ → String
unfolding pad2
pad4 n = String.◌++◌ (pad2 (n / 100)) (pad2 n)

-- Day, month and year of a number of days since 1970-01-01, years counted from March.
date_of : ℕ → String
unfolding pad2 pad4 join
date_of days =
    let z = days + 719468 in
    let era = z / 146097 in
    let doe = z % 146097 in
    let yoe = (doe + doe / 36524 - doe / 1460 - doe / 146096) / 365 in
    let doy = doe + yoe / 100 - 365 * yoe - yoe / 4 in
    let mp = (5 * doy + 2) / 153 in
    let d = doy + 1 - (153 * mp + 2) / 5 in
    let m : ℕ = if ltb mp 10 then mp + 3 else mp - 9 in
    let y : ℕ = if leb m 2 then yoe + era * 400 + 1 else yoe + era * 400 in
    join "-" (pad4 y ∷ pad2 m ∷ pad2 d ∷ [])

-- `new Date(ms).toISOString()`
unfoldable pub to_iso_string : ℕ → String
unfolding date_of pad2 pad3 join
to_iso_string ms =
    let seconds = ms / 1000 in
    join "" (
      date_of (seconds / 86400)
      ∷ "T"
      ∷ pad2 (seconds / 3600 % 24)
      ∷ ":"
      ∷ pad2 (seconds / 60 % 60)
      ∷ ":"
      ∷ pad2 (seconds % 60)
      ∷ "."
      ∷ pad3 (ms % 1000)
      ∷ "Z"
      ∷ [])
