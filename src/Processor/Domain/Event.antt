-- ===== src/Processor/Domain/Event.antt =====
-- services/processor/internal/domain/event.go and errors.go.
use devflow_pipeline.Prelude.{
  ℕ, ◌*◌, String, Bool, true, false, not, ◌&&◌, ◌||◌, Option, none, some, ltb, str_eq, ℤ, pos,
  if◌then◌else◌,
}
use devflow_pipeline.Go.Error.{GoError, validation_error}
use devflow_pipeline.Go.Time.{Time, minute, is_zero, after, add}
use devflow_pipeline.Go.Float.{Float64}
use devflow_pipeline.Go.Text.{byte_len, trim_space}

abbrev pub MetricType : Type 0
MetricType = String

abbrev pub metric_commits : MetricType
metric_commits = "commits"

abbrev pub metric_pull_requests : MetricType
metric_pull_requests = "pull_requests"

abbrev pub metric_review_time_minutes : MetricType
metric_review_time_minutes = "review_time_minutes"

-- `MetricType.Valid`
unfoldable pub metric_valid : MetricType → Bool
metric_valid m =
    str_eq m metric_commits || str_eq m metric_pull_requests || str_eq m metric_review_time_minutes

abbrev pub review_time_max_minutes : ℕ
review_time_max_minutes = 1440

abbrev pub allowed_future_skew : ℕ
allowed_future_skew = 5 * minute

abbrev pub max_developer_id_len : ℕ
max_developer_id_len = 128

abbrev pub max_repository_len : ℕ
max_repository_len = 256

abbrev pub current_schema_version : ℤ
current_schema_version = pos 1

abbrev pub new_validation_error : String → String → GoError
new_validation_error field reason = validation_error field reason

-- `domain.IsValidation`: a type assertion, which does not look through wrapping.
unfoldable pub is_validation : GoError → Bool
is_validation (validation_error field reason) = true
is_validation _ = false

module _ (fl : Float64) where
  open fl use {Float, lt, of_ℕ}

  pub record RawEvent : Type 0 where
    pub event_id : String
    pub developer_id : String
    pub metric_type : MetricType
    pub value : Float
    pub repository : String
    pub timestamp : Time

  -- The embedded `RawEvent` is the field `raw`.
  pub record ProcessedEvent : Type 0 where
    pub schema_version : ℤ
    pub raw : RawEvent
    pub processed_at : Time
    pub processor_id : String

  -- `RawEvent.Validate`. `uuid_parse s` is true when `uuid.Parse(s)` of github.com/google/uuid
  -- returns no error.
  unfoldable pub validate : (String → Bool) → RawEvent → Time → Option GoError
  validate uuid_parse e now =
      if str_eq e.event_id ""
      then some (new_validation_error "event_id" "is required")
      else if not (uuid_parse e.event_id)
      then some (new_validation_error "event_id" "must be a valid UUID")
      else if str_eq (trim_space e.developer_id) ""
      then some (new_validation_error "developer_id" "is required")
      else if ltb max_developer_id_len (byte_len e.developer_id)
      then some (new_validation_error "developer_id" "exceeds 128 chars")
      else if ltb max_repository_len (byte_len e.repository)
      then some (new_validation_error "repository" "exceeds 256 chars")
      else if not (metric_valid e.metric_type)
      then some (new_validation_error "metric_type" metric_reason)
      else if lt e.value (of_ℕ 0)
      then some (new_validation_error "value" "must be >= 0")
      else if str_eq e.metric_type metric_review_time_minutes
          && lt (of_ℕ review_time_max_minutes) e.value
      then some (new_validation_error "value" "review_time_minutes cannot exceed 1440")
      else if is_zero e.timestamp
      then some (new_validation_error "timestamp" "is required")
      else if after e.timestamp (add now allowed_future_skew)
      then some (new_validation_error "timestamp" "cannot be in the future")
      else none
    where
      metric_reason : String
      metric_reason = "must be one of commits|pull_requests|review_time_minutes"
