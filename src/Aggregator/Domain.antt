-- ===== src/Aggregator/Domain.antt =====
-- services/aggregator/internal/domain/event.go and errors.go.
use devflow_pipeline.Prelude.{
  ℕ, ◌*◌, String, Bool, true, false, str_eq, ℤ, pos, eqb_ℤ, if◌then◌else◌,
}
use devflow_pipeline.Go.Error.{
  GoError, errors_as, unsupported_schema_error, already_processed_error,
}
use devflow_pipeline.Go.Time.{Time, hour, add, utc, unix}
use devflow_pipeline.Go.Time.Format.{rfc3339_nano}
use devflow_pipeline.Go.Float.{Float64}

abbrev pub supported_schema_version : ℤ
supported_schema_version = pos 1

abbrev pub retention_window : ℕ
retention_window = 30 * 24 * hour

abbrev pub metric_commits : String
metric_commits = "commits"

abbrev pub metric_pull_requests : String
metric_pull_requests = "pull_requests"

abbrev pub metric_review_time_minutes : String
metric_review_time_minutes = "review_time_minutes"

abbrev names_unsupported_schema : GoError → Bool
names_unsupported_schema (unsupported_schema_error got want) = true
names_unsupported_schema _ = false

-- `IsUnsupportedSchema`
unfoldable pub is_unsupported_schema : GoError → Bool
unfolding errors_as
is_unsupported_schema e = errors_as names_unsupported_schema e

abbrev names_already_processed : GoError → Bool
names_already_processed (already_processed_error event_id) = true
names_already_processed _ = false

-- `IsAlreadyProcessed`
unfoldable pub is_already_processed : GoError → Bool
unfolding errors_as
is_already_processed e = errors_as names_already_processed e

-- `Format(time.RFC3339Nano)` of a time in UTC.
abbrev pub utc_text : Time → String
utc_text t = rfc3339_nano t.instant

module _ (fl : Float64) where
  open fl use {Float, of_ℕ, of_ℤ, to_int64, div}

  pub record ProcessedEvent : Type 0 where
    pub schema_version : ℤ
    pub event_id : String
    pub developer_id : String
    pub metric_type : String
    pub value : Float
    pub repository : String
    pub timestamp : Time
    pub processed_at : Time
    pub processor_id : String

  pub record EventRecord : Type 0 where
    pub event_id : String
    pub developer_id : String
    pub metric_type : String
    pub value : Float
    pub repository : String
    pub timestamp : String
    pub processed_at : String
    pub processor_id : String
    pub expires_at : ℤ

  -- `ProcessedEvent.ToRecord`
  unfoldable pub to_record : ProcessedEvent → EventRecord
  to_record e = record {
    event_id = e.event_id;
    developer_id = e.developer_id;
    metric_type = e.metric_type;
    value = e.value;
    repository = e.repository;
    timestamp = utc_text (utc e.timestamp);
    processed_at = utc_text (utc e.processed_at);
    processor_id = e.processor_id;
    expires_at = unix (add e.processed_at retention_window);
  }

  pub record SummaryIncrements : Type 0 where
    pub commits : ℤ
    pub pull_requests : ℤ
    pub review_time_minutes : Float
    pub review_time_count : ℤ
    pub now : Time
    pub event_timestamp : Time

  -- `IncrementsFor`
  unfoldable pub increments_for : ProcessedEvent → Time → SummaryIncrements
  increments_for e now =
      let inc : SummaryIncrements = record {
        commits = pos 0;
        pull_requests = pos 0;
        review_time_minutes = of_ℕ 0;
        review_time_count = pos 0;
        now = now;
        event_timestamp = e.timestamp;
      } in
      if str_eq e.metric_type metric_commits
      then record inc { commits = to_int64 e.value }
      else if str_eq e.metric_type metric_pull_requests
      then record inc { pull_requests = to_int64 e.value }
      else if str_eq e.metric_type metric_review_time_minutes
      then record inc { review_time_minutes = e.value; review_time_count = pos 1 }
      else inc

  pub record DeveloperSummary : Type 0 where
    pub developer_id : String
    pub total_commits : ℤ
    pub total_pull_requests : ℤ
    pub total_review_time_minutes : Float
    pub review_time_count : ℤ
    pub events_processed : ℤ
    pub last_activity : String
    pub updated_at : String

  -- `DeveloperSummary.AvgReviewTimeMinutes`
  unfoldable pub avg_review_time_minutes : DeveloperSummary → Float
  avg_review_time_minutes s =
      if eqb_ℤ s.review_time_count (pos 0)
      then of_ℕ 0
      else div s.total_review_time_minutes (of_ℤ s.review_time_count)
