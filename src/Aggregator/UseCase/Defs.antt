-- ===== src/Aggregator/UseCase/Defs.antt =====
-- services/aggregator/internal/usecase/aggregate_event.go.
use devflow_pipeline.Prelude.{not, Option, none, some, eqb_ℤ, if◌then◌else◌}
use devflow_pipeline.Go.Error.{GoError, unsupported_schema_error, wrap}
use devflow_pipeline.Go.Call.{Call, return, ◌>>=◌, wrap_err}
use devflow_pipeline.Go.Float.{Float64}
use devflow_pipeline.Aggregator.Domain.{
  ProcessedEvent, supported_schema_version, is_already_processed,
}

module _ (fl : Float64) (S : Type 0) where
  -- The ports `EventRepository` and `SummaryRepository`. The clock of `AggregateEvent` is never read.
  pub record AggregateEvent : Type 0 where
    pub save_event : ProcessedEvent fl → Call S (Option GoError)
    pub update_summary : ProcessedEvent fl → Call S (Option GoError)

  -- `AggregateEvent.Execute`
  unfoldable pub execute : AggregateEvent → ProcessedEvent fl → Call S (Option GoError)
  execute uc evt =
      if not (eqb_ℤ evt.schema_version supported_schema_version)
      then return (some (unsupported_schema_error evt.schema_version supported_schema_version))
      else do
        saved ← uc.save_event evt
        elim saved [
          | some err ↦
              return (if is_already_processed err then none else some (wrap "save event" err))
          | none ↦ do updated ← uc.update_summary evt; return (wrap_err "update summary" updated)
        ]
