-- ===== src/Processor/UseCase.antt =====
-- services/processor/internal/usecase/process_event.go.
use devflow_pipeline.Prelude.{String, Bool, Option, none, some}
use devflow_pipeline.Go.Error.{GoError}
use devflow_pipeline.Go.Call.{Call, return, ◌>>=◌, wrap_err}
use devflow_pipeline.Go.Time.{Time}
use devflow_pipeline.Go.Float.{Float64}
use devflow_pipeline.Processor.Domain.Event.{
  RawEvent, ProcessedEvent, validate, current_schema_version,
}

module _ (fl : Float64) where
  -- The event that `Execute` builds at the instant `now`.
  unfoldable pub enrich : String → Time → RawEvent fl → ProcessedEvent fl
  enrich processor_id now raw = record {
    schema_version = current_schema_version;
    raw = raw;
    processed_at = now;
    processor_id = processor_id;
  }

module _ (fl : Float64) (S : Type 0) where
  -- The `Publisher` port and the clock read or change the state `S` of all that runs.
  pub record ProcessEvent : Type 0 where
    pub publish : ProcessedEvent fl → Call S (Option GoError)
    pub clock : Call S Time
    pub processor_id : String

  -- `ProcessEvent.Execute`
  unfoldable pub execute : (String → Bool) → ProcessEvent → RawEvent fl → Call S (Option GoError)
  unfolding enrich
  execute uuid_parse uc raw = do
    now ← uc.clock
    elim (validate fl uuid_parse raw now) [
      | some err ↦ return (some err)
      | none ↦ do
        err ← uc.publish (enrich fl uc.processor_id now raw)
        return (wrap_err "publish processed event" err)
    ]
