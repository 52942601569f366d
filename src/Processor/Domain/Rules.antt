-- ===== src/Processor/Domain/Rules.antt =====
-- The business rules of a raw event, stated apart from the code that checks them.
use devflow_pipeline.Prelude.{
  ◌≤◌, String, Bool, true, false, ◌≡◌, ◌≢◌, ◌↔◌, ◌⊎◌, none, arith, eq_iff, pos, ◌≤ℤ◌, ◌+ℤ◌,
}
use devflow_pipeline.Go.Text.{byte_len, trim_space-empty_iff, IsBlank}
use devflow_pipeline.Go.Time.{Time}
use devflow_pipeline.Go.Float.{Float64}
use devflow_pipeline.Processor.Domain.Event.{
  RawEvent, validate, metric_valid, metric_commits, metric_pull_requests,
  metric_review_time_minutes, allowed_future_skew,
}

module _ (fl : Float64) (uuid_parse : String → Bool) where
  open fl use {lt, of_ℕ}

  -- Every rule of the case, at the instant `now`.
  pub record IsAcceptable (e : RawEvent fl) (now : Time) : Type 0 where
    pub id_present : e.event_id ≢ ""
    pub id_uuid : uuid_parse e.event_id ≡ true
    pub developer_present : ¬ IsBlank e.developer_id
    pub developer_short : byte_len e.developer_id ≤ 128
    pub repository_short : byte_len e.repository ≤ 256
    pub metric_known :
        (e.metric_type ≡ metric_commits)
        ⊎ (e.metric_type ≡ metric_pull_requests)
        ⊎ (e.metric_type ≡ metric_review_time_minutes)
    pub value_nonneg : lt e.value (of_ℕ 0) ≡ false
    pub review_capped : e.metric_type ≡ metric_review_time_minutes → lt (of_ℕ 1440) e.value ≡ false
    pub timestamp_set : e.timestamp.instant ≢ pos 0
    pub timestamp_past : e.timestamp.instant ≤ℤ now.instant +ℤ pos allowed_future_skew

  -- The validation passes exactly the events that meet every rule.
  pub validate-none_iff :
      (e : RawEvent fl) (now : Time) → (validate fl uuid_parse e now ≡ none) ↔ IsAcceptable e now
  unfolding validate metric_valid
  validate-none_iff e now = (
    λ h. ground (
      arith,
      eq_iff e.event_id "",
      trim_space-empty_iff e.developer_id,
      eq_iff e.metric_type metric_commits,
      eq_iff e.metric_type metric_pull_requests,
      eq_iff e.metric_type metric_review_time_minutes,
    ),
    λ h. ground (
      arith,
      eq_iff e.event_id "",
      trim_space-empty_iff e.developer_id,
      eq_iff e.metric_type metric_commits,
      eq_iff e.metric_type metric_pull_requests,
      eq_iff e.metric_type metric_review_time_minutes,
    ),
  )
