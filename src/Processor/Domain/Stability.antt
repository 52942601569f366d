-- ===== src/Processor/Domain/Stability.antt =====
-- How the verdict on one event changes as the clock moves on between deliveries.
use devflow_pipeline.Prelude.{
  String, Bool, true, false, ◌≡◌, ◌≢◌, none, some, arith, eq_iff, pos, ◌≤ℤ◌, +ℤ_parts,
}
use devflow_pipeline.Go.Error.{GoError, validation_error}
use devflow_pipeline.Go.Time.{Time, after, add}
use devflow_pipeline.Go.Float.{Float64}
use devflow_pipeline.Processor.Domain.Event.{RawEvent, validate, is_validation, allowed_future_skew}

abbrev pub in_the_future : GoError
in_the_future = validation_error "timestamp" "cannot be in the future"

later_skew :
    (t now later : Time)
    → now.instant ≤ℤ later.instant
    → after t (add now allowed_future_skew) ≡ false
    → after t (add later allowed_future_skew) ≡ false
later_skew t now later h e = ground (
  arith,
  +ℤ_parts now.instant (pos allowed_future_skew),
  +ℤ_parts later.instant (pos allowed_future_skew),
)

skew_at_timestamp : (t : Time) → after t (add t allowed_future_skew) ≡ false
skew_at_timestamp t = ground (arith, +ℤ_parts t.instant (pos allowed_future_skew))

module _ (fl : Float64) (uuid_parse : String → Bool) where
  -- An error of `Validate` is always a ValidationError.
  pub validate-is_validation :
      (e : RawEvent fl) (now : Time) (err : GoError)
      → validate fl uuid_parse e now ≡ some err
      → is_validation err ≡ true
  unfolding validate is_validation
  validate-is_validation e now err h = ground arith

  -- Once accepted, an event is accepted at every later instant.
  pub validate-none_later :
      (e : RawEvent fl) (now later : Time)
      → now.instant ≤ℤ later.instant
      → validate fl uuid_parse e now ≡ none
      → validate fl uuid_parse e later ≡ none
  unfolding validate
  validate-none_later e now later h v = ground (arith, later_skew e.timestamp now later h)

  -- A rejection for any reason but a timestamp in the future is the answer at every instant.
  pub validate_permanent :
      (e : RawEvent fl) (now other : Time) (err : GoError)
      → validate fl uuid_parse e now ≡ some err
      → err ≢ in_the_future
      → validate fl uuid_parse e other ≡ some err
  unfolding validate
  validate_permanent e now other err v h = ground arith

  -- A rejection for a timestamp in the future ends when the clock reaches that timestamp.
  pub validate_transient :
      (e : RawEvent fl) (now : Time)
      → validate fl uuid_parse e now ≡ some in_the_future
      → validate fl uuid_parse e e.timestamp ≡ none
  unfolding validate
  validate_transient e now v = ground (
    arith,
    skew_at_timestamp e.timestamp,
    eq_iff "event_id" "timestamp",
    eq_iff "developer_id" "timestamp",
    eq_iff "repository" "timestamp",
    eq_iff "metric_type" "timestamp",
    eq_iff "value" "timestamp",
    eq_iff "is required" "cannot be in the future",
  )
