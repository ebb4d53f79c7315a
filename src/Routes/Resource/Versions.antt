-- ===== src/Routes/Resource/Versions.antt =====
-- The version tokens are the printed dates and times, in the order year, day, month, hour, minute.
use Prim.Native.Char.{Char}
use Prim.Native.String.{[], ◌∷◌}
use dataspace_ica_ts.Common.{ℕ, ◌+◌, ◌*◌, ◌/◌, ◌%◌, ◌≤◌, String, ◌≡◌, ◌↔◌, refl, true, arith}
use dataspace_ica_ts.Routes.Resource.{
  is_digit, two_digits, is_digits, is_valid_version, has_valid_numbers, is_valid_version_token,
}
use dataspace_ica_ts.Routes.Resource.Stamps.{
  pad2-two_digits, pad4-two_digits, two-++, four-++, digit_char-is_digit, two_digits-digit_char,
  stamp, stamp-chars,
}

-- A date and a time that the service accepts as a version, printed.
pub record IsVersion (s : String) : Type 0 where
  pub year : ℕ
  pub day : ℕ
  pub month : ℕ
  pub hour : ℕ
  pub minute : ℕ
  pub years : (2000 ≤ year) × (year ≤ 2100)
  pub days : (1 ≤ day) × (day ≤ 31)
  pub months : (1 ≤ month) × (month ≤ 12)
  pub hours : hour ≤ 23
  pub minutes : minute ≤ 59
  pub printed : s ≡ stamp year day month hour minute

is_valid_version_bounds :
    (y d m h n : ℕ)
    → is_valid_version y d m h n ≡ true
    → (2000 ≤ y) × (y ≤ 2100) × (1 ≤ d) × (d ≤ 31) × (1 ≤ m) × (m ≤ 12) × (h ≤ 23) × (n ≤ 59)
unfolding is_valid_version
is_valid_version_bounds y d m h n e = ground arith

is_digits_cons :
    (c : Char) (s : String) → is_digits (c ∷ s) ≡ true → (is_digit c ≡ true) × (is_digits s ≡ true)
unfolding is_digits
is_digits_cons c s e = ground arith

is_valid_version_token_split :
    (s : String)
    → is_valid_version_token s ≡ true
    → (is_digits s ≡ true) × (has_valid_numbers s ≡ true)
unfolding is_valid_version_token
is_valid_version_token_split s e = ground arith

has_valid_numbers-IsVersion :
    (s : String) → is_digits s ≡ true → has_valid_numbers s ≡ true → IsVersion s
unfolding has_valid_numbers
has_valid_numbers-IsVersion
      (y1 ∷ (y2 ∷ (y3 ∷ (y4 ∷ (d1 ∷ (d2 ∷ (m1 ∷ (m2 ∷ (h1 ∷ (h2 ∷ (n1 ∷ (n2 ∷ [])))))))))))) digits
      e =
    let year = two_digits y1 y2 * 100 + two_digits y3 y4 in
    let day = two_digits d1 d2 in
    let month = two_digits m1 m2 in
    let hour = two_digits h1 h2 in
    let minute = two_digits n1 n2 in
    let (low, high, first, last, january, december, hours, minutes) =
      is_valid_version_bounds year day month hour minute e in
    let (y1_is, r1) = is_digits_cons _ _ digits in
    let (y2_is, r2) = is_digits_cons _ _ r1 in
    let (y3_is, r3) = is_digits_cons _ _ r2 in
    let (y4_is, r4) = is_digits_cons _ _ r3 in
    let (d1_is, r5) = is_digits_cons _ _ r4 in
    let (d2_is, r6) = is_digits_cons _ _ r5 in
    let (m1_is, r7) = is_digits_cons _ _ r6 in
    let (m2_is, r8) = is_digits_cons _ _ r7 in
    let (h1_is, r9) = is_digits_cons _ _ r8 in
    let (h2_is, r10) = is_digits_cons _ _ r9 in
    let (n1_is, r11) = is_digits_cons _ _ r10 in
    let (n2_is, _) = is_digits_cons _ _ r11 in
    record {
      year = year;
      day = day;
      month = month;
      hour = hour;
      minute = minute;
      years = (low, high);
      days = (first, last);
      months = (january, december);
      hours = hours;
      minutes = minutes;
      printed =
          rw
            (
              pad4-two_digits y1 y2 y3 y4 year y1_is y2_is y3_is y4_is refl,
              pad2-two_digits d1 d2 day d1_is d2_is (ground arith),
              pad2-two_digits m1 m2 month m1_is m2_is (ground arith),
              pad2-two_digits h1 h2 hour h1_is h2_is (ground arith),
              pad2-two_digits n1 n2 minute n1_is n2_is (ground arith),
              two-++ h1 h2 (n1 ∷ (n2 ∷ "")),
              two-++ m1 m2 (h1 ∷ (h2 ∷ (n1 ∷ (n2 ∷ "")))),
              two-++ d1 d2 (m1 ∷ (m2 ∷ (h1 ∷ (h2 ∷ (n1 ∷ (n2 ∷ "")))))),
              four-++ y1 y2 y3 y4 (d1 ∷ (d2 ∷ (m1 ∷ (m2 ∷ (h1 ∷ (h2 ∷ (n1 ∷ (n2 ∷ "")))))))),
            )
            refl;
    }
has_valid_numbers-IsVersion s digits e = ground arith

is_valid_version_of_bounds :
    (y d m h n : ℕ)
    → (2000 ≤ y) × (y ≤ 2100)
    → (1 ≤ d) × (d ≤ 31)
    → (1 ≤ m) × (m ≤ 12)
    → h ≤ 23
    → n ≤ 59
    → is_valid_version (y / 100 % 100 * 100 + y % 100) (d % 100) (m % 100) (h % 100) (n % 100)
      ≡ true
unfolding is_valid_version
is_valid_version_of_bounds y d m h n p q r s t = ground arith

stamp_is_valid :
    (y d m h n : ℕ)
    → (2000 ≤ y) × (y ≤ 2100)
    → (1 ≤ d) × (d ≤ 31)
    → (1 ≤ m) × (m ≤ 12)
    → h ≤ 23
    → n ≤ 59
    → is_valid_version_token (stamp y d m h n) ≡ true
unfolding is_valid_version_token is_digits has_valid_numbers
stamp_is_valid year day month hour minute ys ds ms hs ns =
    rw
      (
        stamp-chars year day month hour minute,
        digit_char-is_digit (year / 100 / 10),
        digit_char-is_digit (year / 100),
        digit_char-is_digit (year / 10),
        digit_char-is_digit year,
        digit_char-is_digit (day / 10),
        digit_char-is_digit day,
        digit_char-is_digit (month / 10),
        digit_char-is_digit month,
        digit_char-is_digit (hour / 10),
        digit_char-is_digit hour,
        digit_char-is_digit (minute / 10),
        digit_char-is_digit minute,
        two_digits-digit_char (year / 100),
        two_digits-digit_char year,
        two_digits-digit_char day,
        two_digits-digit_char month,
        two_digits-digit_char hour,
        two_digits-digit_char minute,
      )
      (is_valid_version_of_bounds year day month hour minute ys ds ms hs ns)

-- A text is accepted as a version token exactly when it is the printed form, in twelve digits and in
-- the order year, day, month, hour, minute, of a year from 2000 to 2100, a day from 1 to 31, a month
-- from 1 to 12, an hour of at most 23 and a minute of at most 59.
pub is_valid_version_token_iff : (s : String) → (is_valid_version_token s ≡ true) ↔ IsVersion s
is_valid_version_token_iff s = (
  λ valid.
      let (digits, numbers) = is_valid_version_token_split s valid in
      has_valid_numbers-IsVersion s digits numbers,
  λ v. rw v.printed (
      stamp_is_valid v.year v.day v.month v.hour v.minute v.years v.days v.months v.hours
        v.minutes),
)
