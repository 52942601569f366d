-- ===== src/Go/Time/Json.antt =====
-- `Time.MarshalJSON` of Go 1.22, less the quotes: RFC 3339 in the zone of the time.
use Prim.Native.Char.{Char, code}
use Prim.Native.String.{◌∷◌}
use devflow_pipeline.Prelude.{
  ℕ, zero, suc, ◌+◌, ◌-◌, ◌*◌, ◌/◌, ◌%◌, ◌<◌, ◌≤◌, ◌≢◌, ◌^◌, refl, String, Bool, true, false, ◌≡◌,
  inl, inr, ℤ, pos, negsuc, pos_part, neg_part, floor_div, ltb, ◌==◌, ◌+ℤ◌, arith, Bool-cases,
  if◌then◌else◌,
}
use devflow_pipeline.Go.Error.{GoError, errors_new, wrap}
use devflow_pipeline.Go.Call.{Result, ok, err}
use devflow_pipeline.Go.Decimal.{digit, code-digit}
use devflow_pipeline.Go.Time.{Time, second}
use devflow_pipeline.Go.Time.Format.{
  Civil, floor_mod, padded, year_width, year_text, decimals, fraction, date_of, date_time,
}
use devflow_pipeline.Go.Json.Strings.{IsPlain}

-- An offset in nanoseconds.
abbrev nanoseconds : ℤ → ℤ
nanoseconds (pos n) = pos (n * second)
nanoseconds (negsuc n) = negsuc (suc n * second - 1)

-- The whole minutes of an offset, without its sign.
abbrev zone_minutes : ℤ → ℕ
zone_minutes offset = (pos_part offset + neg_part offset) / 60

sign : ℤ → String → String
sign offset rest = if ltb (neg_part offset) 60 then "+" ∷ rest else "-" ∷ rest

-- The zone: `Z`, or the sign, the hours and the minutes.
unfoldable pub zone_text : ℤ → String
unfolding sign padded digit
zone_text (pos zero) = "Z"
zone_text offset =
    sign offset (padded 2 (zone_minutes offset / 60) (":" ∷ padded 2 (zone_minutes offset % 60) ""))

is_year : ℤ → Bool
is_year (pos y) = ltb y 10000
is_year (negsuc y) = false

unfoldable pub format_time : Time → Result String
unfolding is_year
format_time t =
    let local = t.instant +ℤ nanoseconds t.offset in
    if is_year (date_of local).year
    then if ltb (zone_minutes t.offset / 60) 24
      then ok (date_time local (zone_text t.offset))
      else err (
          wrap "json: error calling MarshalJSON for type time.Time"
            (errors_new "Time.MarshalJSON: timezone hour outside of range [0,23]"))
    else err (
        wrap "json: error calling MarshalJSON for type time.Time"
          (errors_new "Time.MarshalJSON: year outside of range [0,9999]"))

in_utc :
    format_time (record { instant = pos (62_135_596_800 * 10 ^ 9 + 5 * 10 ^ 8); offset = pos 0 })
    ≡ ok "1970-01-01T00:00:00.5Z"
unfolding format_time zone_text date_time ◌+ℤ◌
in_utc = refl

in_newfoundland :
    format_time (record { instant = pos (62_135_596_800 * 10 ^ 9); offset = negsuc 12599 })
    ≡ ok "1969-12-31T20:30:00-03:30"
unfolding format_time zone_text date_time ◌+ℤ◌
in_newfoundland = refl

digit-IsPlain : (d : ℕ) (s : String) → d < 10 → IsPlain s → IsPlain (digit d ∷ s)
digit-IsPlain d s small h = rw (code-digit d small) (omega arith, omega arith, omega arith, h)

padded-IsPlain : (width n : ℕ) (rest : String) → IsPlain rest → IsPlain (padded width n rest)
unfolding padded
padded-IsPlain zero n rest h = h
padded-IsPlain (suc width) n rest h =
    padded-IsPlain width (n / 10) (digit (n % 10) ∷ rest)
      (digit-IsPlain (n % 10) rest (omega arith) h)

decimals-IsPlain : (width n : ℕ) (rest : String) → IsPlain rest → IsPlain (decimals width n rest)
unfolding decimals
decimals-IsPlain zero n rest h = h
decimals-IsPlain (suc width) n rest h = elim (Bool-cases (n % 10 == 0)) [
  | inl nothing ↦ rw nothing (decimals-IsPlain width (n / 10) rest h)
  | inr something ↦ rw something (padded-IsPlain (suc width) n rest h)
]

fraction-IsPlain : (n : ℕ) (rest : String) → IsPlain rest → IsPlain (fraction n rest)
unfolding fraction
fraction-IsPlain n rest h = elim (Bool-cases (n == 0)) [
  | inl whole ↦ rw whole h
  | inr part ↦ rw part (omega arith, omega arith, omega arith, decimals-IsPlain 9 n rest h)
]

-- The separators of a date, a time of day and a zone.
abbrev IsMark : ℕ → Type 0
IsMark n = (32 ≤ n) × (n ≢ 34) × (n ≢ 92)

mark-IsPlain : (c : Char) (s : String) → IsMark (code c) → IsPlain s → IsPlain (c ∷ s)
mark-IsPlain c s (low, not_quote, not_escape) h = (low, not_quote, not_escape, h)

two_digits :
    (c : Char) (n : ℕ) (rest : String)
    → IsMark (code c)
    → IsPlain rest
    → IsPlain (c ∷ padded 2 n rest)
two_digits c n rest mark h = mark-IsPlain c (padded 2 n rest) mark (padded-IsPlain 2 n rest h)

year_text-IsPlain : (y : ℤ) (rest : String) → IsPlain rest → IsPlain (year_text y rest)
unfolding year_text
year_text-IsPlain (pos y) rest h = padded-IsPlain (year_width y) y rest h
year_text-IsPlain (negsuc y) rest h =
    mark-IsPlain "-" (padded (year_width (suc y)) (suc y) rest)
      (omega arith, omega arith, omega arith) (padded-IsPlain (year_width (suc y)) (suc y) rest h)

date_time-IsPlain : (instant : ℤ) (zone : String) → IsPlain zone → IsPlain (date_time instant zone)
unfolding date_time
date_time-IsPlain instant zone h =
    let date : Civil = date_of instant in
    let nanos : ℕ = floor_mod instant (10 ^ 9) in
    let clock : ℕ = floor_mod (floor_div instant (10 ^ 9)) 86400 in
    let seconds : String = ":" ∷ padded 2 (clock % 60) (fraction nanos zone) in
    let minutes : String = ":" ∷ padded 2 (clock / 60 % 60) seconds in
    let hours : String = "T" ∷ padded 2 (clock / 3600) minutes in
    let day : String = "-" ∷ padded 2 date.day hours in
    year_text-IsPlain date.year ("-" ∷ padded 2 date.month day) (
      two_digits "-" date.month day (omega arith, omega arith, omega arith)
        (two_digits "-" date.day hours (omega arith, omega arith, omega arith)
          (two_digits "T" (clock / 3600) minutes (omega arith, omega arith, omega arith)
            (two_digits ":" (clock / 60 % 60) seconds (omega arith, omega arith, omega arith)
              (two_digits ":" (clock % 60) (fraction nanos zone)
                (omega arith, omega arith, omega arith) (fraction-IsPlain nanos zone h))))))

sign-IsPlain : (offset : ℤ) (rest : String) → IsPlain rest → IsPlain (sign offset rest)
unfolding sign
sign-IsPlain offset rest h = elim (Bool-cases (ltb (neg_part offset) 60)) [
  | inl east ↦ rw east (omega arith, omega arith, omega arith, h)
  | inr west ↦ rw west (omega arith, omega arith, omega arith, h)
]

signed-IsPlain :
    (offset : ℤ) (minutes : ℕ)
    → IsPlain (sign offset (padded 2 (minutes / 60) (":" ∷ padded 2 (minutes % 60) "")))
signed-IsPlain offset minutes =
    sign-IsPlain offset (padded 2 (minutes / 60) (":" ∷ padded 2 (minutes % 60) "")) (
      padded-IsPlain 2 (minutes / 60) (":" ∷ padded 2 (minutes % 60) "")
        (two_digits ":" (minutes % 60) "" (omega arith, omega arith, omega arith) tt))

zone_text-IsPlain : (offset : ℤ) → IsPlain (zone_text offset)
unfolding zone_text
zone_text-IsPlain (pos zero) = (omega arith, omega arith, omega arith, tt)
zone_text-IsPlain (pos (suc n)) = signed-IsPlain (pos (suc n)) (zone_minutes (pos (suc n)))
zone_text-IsPlain (negsuc n) = signed-IsPlain (negsuc n) (zone_minutes (negsuc n))

formatted-IsPlain :
    (text s : String) (b c : Bool) (e f : GoError)
    → IsPlain text
    → (if b then if c then ok text else err e else err f) ≡ ok s
    → IsPlain s
formatted-IsPlain text s true true e f h same = let equal : text ≡ s = cc same in rw equal at h
formatted-IsPlain text s true false e f h same = absurd (cc same)
formatted-IsPlain text s false c e f h same = absurd (cc same)

-- The text of a time needs no escape.
pub format_time-IsPlain : (t : Time) (s : String) → format_time t ≡ ok s → IsPlain s
unfolding format_time
format_time-IsPlain t s h =
    formatted-IsPlain _ s _ _ _ _
      (date_time-IsPlain (t.instant +ℤ nanoseconds t.offset) (zone_text t.offset)
        (zone_text-IsPlain t.offset))
      h
