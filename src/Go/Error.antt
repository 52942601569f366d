-- ===== src/Go/Error.antt =====
-- Go's `error` values, the dynamic types that the services tell apart, and `errors.As`.
use devflow_pipeline.Prelude.{String, Bool, ℤ}

-- `nil` is `none` of `Option GoError`. `wrap` is `fmt.Errorf("text: %w", err)`.
pub data GoError : Type 0 where
  validation_error : (field reason : String) → GoError
  unsupported_schema_error : (got want : ℤ) → GoError
  already_processed_error : (event_id : String) → GoError
  conditional_check_failed : GoError
  errors_new : (text : String) → GoError
  wrap : (text : String) → GoError → GoError

-- `errors.As` with a target of one dynamic type: the type of the error or of one that it wraps.
unfoldable pub errors_as : (GoError → Bool) → GoError → Bool
errors_as test (wrap text inner) = errors_as test inner
errors_as test (validation_error field reason) = test (validation_error field reason)
errors_as test (unsupported_schema_error got want) = test (unsupported_schema_error got want)
errors_as test (already_processed_error event_id) = test (already_processed_error event_id)
errors_as test conditional_check_failed = test conditional_check_failed
errors_as test (errors_new text) = test (errors_new text)
