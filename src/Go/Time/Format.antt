-- ===== src/Go/Time/Format.antt =====
-- `Time.UTC().Format(time.RFC3339Nano)`: the calendar date and the time of day in UTC, with as many
-- decimals of the second as are not zero.
use Prim.Native.String.{◌∷◌}
use devflow_pipeline.Prelude.{
  ℕ, zero, suc, ◌+◌, ◌-◌, ◌*◌, ◌/◌, ◌%◌, ◌^◌, String, ◌≡◌, refl, ℤ, pos, negsuc, ltb, leb, ◌==◌,
  floor_div, ◌+ℤ◌, if◌then◌else◌,
}
use devflow_pipeline.Go.Decimal.{digit}

-- The remainder of `floor_div`.
abbrev pub floor_mod : ℤ → ℕ → ℕ
floor_mod (pos n) d = n % d
floor_mod (negsuc n) d = d - 1 - n % d

-- The last `width` decimal digits of `n`, before `rest`.
unfoldable pub padded : ℕ → ℕ → String → String
padded zero n rest = rest
padded (suc width) n rest = padded width (n / 10) (digit (n % 10) ∷ rest)

-- A year: four digits, or more where four are not enough, and a sign if negative. The years of
-- every instant within 9 * 10 ^ 8 years of the year 0 fit nine digits.
unfoldable pub year_width : ℕ → ℕ
year_width y = if ltb y 10000 then 4 else if ltb y 100000 then 5 else if ltb y 1000000 then 6 else 9

unfoldable pub year_text : ℤ → String → String
year_text (pos y) rest = padded (year_width y) y rest
year_text (negsuc y) rest = "-" ∷ padded (year_width (suc y)) (suc y) rest

-- The `width` decimals of a fraction without its trailing zeros, behind a dot if any are left.
unfoldable pub decimals : ℕ → ℕ → String → String
decimals zero n rest = rest
decimals (suc width) n rest =
    let shorter = decimals width (n / 10) rest in
    if n % 10 == 0 then shorter else padded (suc width) n rest

unfoldable pub fraction : ℕ → String → String
fraction n rest = if n == 0 then rest else "." ∷ decimals 9 n rest

pub record Civil : Type 0 where
  pub year : ℤ
  pub month : ℕ
  pub day : ℕ

times_400 : ℤ → ℤ
times_400 (pos n) = pos (400 * n)
times_400 (negsuc n) = negsuc (400 * n + 399)

-- The date that lies `days` days after 0000-03-01 of the proleptic Gregorian calendar, by its 400
-- year cycles of 146097 days and by years that begin in March.
pub civil : ℤ → Civil
civil days =
    let era = floor_div days 146097 in
    let doe = floor_mod days 146097 in
    let yoe = (doe + doe / 36524 - doe / 1460 - doe / 146096) / 365 in
    let doy = doe - (365 * yoe + yoe / 4 - yoe / 100) in
    let mp = (5 * doy + 2) / 153 in
    let month = if ltb mp 10 then mp + 3 else mp - 9 in
    record {
      year = times_400 era +ℤ pos (if leb month 2 then yoe + 1 else yoe);
      month = month;
      day = doy - (153 * mp + 2) / 5 + 1;
    }

-- 0001-01-01 lies 306 days after 0000-03-01.
unfoldable pub date_of : ℤ → Civil
unfolding times_400 civil ◌+ℤ◌
date_of instant = civil (floor_div (floor_div instant (10 ^ 9)) 86400 +ℤ pos 306)

-- The date and the time of day of an instant, before the text of a zone.
unfoldable pub date_time : ℤ → String → String
unfolding padded year_width year_text decimals fraction digit date_of
date_time instant zone =
    let seconds = floor_div instant (10 ^ 9) in
    let nanos = floor_mod instant (10 ^ 9) in
    let date = date_of instant in
    let clock = floor_mod seconds 86400 in
    year_text date.year (
      "-"
      ∷ padded 2 date.month (
          "-"
          ∷ padded 2 date.day (
              "T"
              ∷ padded 2 (clock / 3600) (
                  ":"
                  ∷ padded 2 (clock / 60 % 60)
                      (":" ∷ padded 2 (clock % 60) (fraction nanos zone))))))

unfoldable pub rfc3339_nano : ℤ → String
unfolding date_time
rfc3339_nano instant = date_time instant "Z"

zero_time : rfc3339_nano (pos 0) ≡ "0001-01-01T00:00:00Z"
unfolding rfc3339_nano
zero_time = refl

epoch : rfc3339_nano (pos (62_135_596_800 * 10 ^ 9)) ≡ "1970-01-01T00:00:00Z"
unfolding rfc3339_nano
epoch = refl

leap_day :
    rfc3339_nano (pos ((62_135_596_800 + 1_709_251_199) * 10 ^ 9 + 120_000_000))
    ≡ "2024-02-29T23:59:59.12Z"
unfolding rfc3339_nano
leap_day = refl

year_end :
    rfc3339_nano (pos ((62_135_596_800 + 1_735_689_599) * 10 ^ 9 + 1))
    ≡ "2024-12-31T23:59:59.000000001Z"
unfolding rfc3339_nano
year_end = refl

before_zero : rfc3339_nano (negsuc 0) ≡ "0000-12-31T23:59:59.999999999Z"
unfolding rfc3339_nano
before_zero = refl
