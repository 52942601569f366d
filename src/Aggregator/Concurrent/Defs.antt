-- ===== src/Aggregator/Concurrent/Defs.antt =====
-- services/aggregator/internal/usecase/aggregate_event.go and infra/worker/pool.go in small steps: a
-- worker stands between two calls of its ports, and a step is one call.
use devflow_pipeline.Prelude.{
  ℕ, ◌<◌, not, Option, none, some, String, ◌≡◌, eqb_ℤ, ◌==◌, if◌then◌else◌,
}
use devflow_pipeline.Go.Error.{GoError, unsupported_schema_error, wrap}
use devflow_pipeline.Go.Call.{Call, Outcome, returned, panicked}
use devflow_pipeline.Go.Float.{Float64}
use devflow_pipeline.Report.{Report, report, status_unset, status_error, status_ok}
use devflow_pipeline.Aggregator.Domain.{
  supported_schema_version, is_unsupported_schema, is_already_processed,
}
use devflow_pipeline.Aggregator.UseCase.Defs.{AggregateEvent}
use devflow_pipeline.Aggregator.Worker.Defs.{Message}

module _ (fl : Float64) where
  -- What a worker does next: take a message from the channel, with the report of its last one, or call
  -- SaveEvent, UpdateSummary or Delete for the message in hand.
  pub data Phase : Type 0 where
    idle : Option Report → Phase
    saving updating deleting : Message fl → Phase

  -- The branches of `Pool.handle` for an error of Execute.
  abbrev pub failed : GoError → Phase
  failed e = idle (
      some (
        if is_unsupported_schema e
        then report status_error "schema rejected" (some "unsupported_schema")
            "unsupported schema; leaving for DLQ redrive"
        else report status_error "transient failure" none "transient failure; leaving for retry"))

  abbrev pub recovered : Phase
  recovered = idle (some (report status_unset "" none "worker panic recovered"))

  -- From the channel to the first call: the check of the schema version.
  unfoldable pub begin : Message fl → Phase
  begin msg =
      if not (eqb_ℤ msg.event.schema_version supported_schema_version)
      then failed (unsupported_schema_error msg.event.schema_version supported_schema_version)
      else saving msg

  -- From what SaveEvent returned to the next call.
  unfoldable pub after_save : Message fl → Outcome (Option GoError) → Phase
  after_save msg (panicked text) = recovered
  after_save msg (returned (some err)) =
      if is_already_processed err then deleting msg else failed (wrap "save event" err)
  after_save msg (returned none) = updating msg

  -- From what UpdateSummary returned to the next call.
  unfoldable pub after_update : Message fl → Outcome (Option GoError) → Phase
  after_update msg (panicked text) = recovered
  after_update msg (returned (some err)) = failed (wrap "update summary" err)
  after_update msg (returned none) = deleting msg

  -- From what Delete returned to the end of `Pool.handle`.
  unfoldable pub after_delete : Outcome (Option GoError) → Phase
  after_delete (panicked text) = recovered
  after_delete (returned (some err)) =
      idle (some (report status_error "delete failed" none "delete after success failed"))
  after_delete (returned none) = idle (some (report status_ok "" none "aggregated"))

  module _ (S : Type 0) (uc : AggregateEvent fl S) (delete : String → Call S (Option GoError)) where
    -- One call.
    unfoldable pub advance : Phase → S → Phase × S
    unfolding after_save after_update after_delete
    advance (idle r) s = (idle r, s)
    advance (saving msg) s = let (o, s') = uc.save_event msg.event s in (after_save msg o, s')
    advance (updating msg) s =
        let (o, s') = uc.update_summary msg.event s in (after_update msg o, s')
    advance (deleting msg) s = let (o, s') = delete msg.receipt_handle s in (after_delete o, s')

    pub record System : Type 0 where
      pub shared : S
      pub phase : ℕ → Phase

    abbrev pub with_phase : ℕ → Phase → (ℕ → Phase) → ℕ → Phase
    with_phase i p phases j = if j == i then p else phases j

    -- A step of a pool with `workers` workers: one of them takes some message, or makes its next call.
    pub data Step (workers : ℕ) : System → System → Type 0 where
      take :
          (s : System) (i : ℕ) (r : Option Report) (msg : Message fl)
          → i < workers
          → s.phase i ≡ idle r
          → Step workers s (record s { phase = with_phase i (begin msg) s.phase })
      call :
          (s : System) (i : ℕ)
          → i < workers
          → Step workers s (record {
            shared = (advance (s.phase i) s.shared).1;
            phase = with_phase i (advance (s.phase i) s.shared).0 s.phase;
          })

    -- What the pool can reach.
    pub data Run (workers : ℕ) : System → System → Type 0 where
      start : (s : System) → Run workers s s
      more : (s t u : System) → Run workers s t → Step workers t u → Run workers s u
