-- ===== src/Go/Time.antt =====
-- `time.Time` and `time.Duration`. An instant is its distance in nanoseconds from the zero time,
-- 0001-01-01T00:00:00Z; a time also has the offset of its zone from UTC, in seconds. A duration is
-- in nanoseconds. The monotonic reading is left out: no time that the services compare with another
-- carries one on both sides.
pub mod Format
pub mod Json
use devflow_pipeline.Prelude.{ℕ, ◌*◌, ◌^◌, Bool, ℤ, pos, ltb_ℤ, eqb_ℤ, floor_div, ◌+ℤ◌, ◌-ℤ◌}

pub record Time : Type 0 where
  pub instant : ℤ
  pub offset : ℤ

abbrev pub second : ℕ
second = 10 ^ 9

abbrev pub minute : ℕ
minute = 60 * second

abbrev pub hour : ℕ
hour = 60 * minute

abbrev pub is_zero : Time → Bool
is_zero t = eqb_ℤ t.instant (pos 0)

abbrev pub after : Time → Time → Bool
after t u = ltb_ℤ u.instant t.instant

abbrev pub add : Time → ℕ → Time
add t d = record t { instant = t.instant +ℤ pos d }

abbrev pub utc : Time → Time
utc t = record t { offset = pos 0 }

-- Seconds from the zero time to 1970-01-01T00:00:00Z.
abbrev pub unix_epoch : ℕ
unix_epoch = 62_135_596_800

abbrev pub unix : Time → ℤ
unix t = floor_div t.instant second -ℤ pos unix_epoch
