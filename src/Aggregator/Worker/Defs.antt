-- ===== src/Aggregator/Worker/Defs.antt =====
-- services/aggregator/internal/infra/worker/pool.go and the `Message` of queue/sqs.go: what a worker
-- does with one message.
use devflow_pipeline.Prelude.{
  String, Option, none, some, List, [], ◌∷◌, ℤ, pos, ltb_ℤ, if◌then◌else◌,
}
use devflow_pipeline.Go.Error.{GoError}
use devflow_pipeline.Go.Call.{Call, Outcome, returned, panicked, return, ◌>>=◌}
use devflow_pipeline.Go.Float.{Float64}
use devflow_pipeline.Report.{Report, report, status_unset, status_error, status_ok}
use devflow_pipeline.Aggregator.Domain.{ProcessedEvent, is_unsupported_schema}

module _ (fl : Float64) where
  pub record Message : Type 0 where
    pub event : ProcessedEvent fl
    pub receipt_handle : String
    pub message_id : String

  module _ (S : Type 0) where
    -- The `Handler` port and the `Delete` of the consumer.
    pub record Pool : Type 0 where
      pub delete : String → Call S (Option GoError)
      pub execute : ProcessedEvent fl → Call S (Option GoError)
      pub workers : ℤ

    unfoldable pub new :
        (String → Call S (Option GoError))
        → (ProcessedEvent fl → Call S (Option GoError))
        → ℤ
        → Pool
    new delete execute workers = record {
      delete = delete;
      execute = execute;
      workers = if ltb_ℤ workers (pos 1) then pos 1 else workers;
    }

    -- `Pool.handle`
    unfoldable pub handle : Pool → Message → Call S Report
    handle p msg = do
      err ← p.execute msg.event
      elim err [
        | none ↦ do
          del_err ← p.delete msg.receipt_handle
          elim del_err [
            | some e ↦
                return (report status_error "delete failed" none "delete after success failed")
            | none ↦ return (report status_ok "" none "aggregated")
          ]
        | some e ↦ return (
            if is_unsupported_schema e
            then report status_error "schema rejected" (some "unsupported_schema")
                "unsupported schema; leaving for DLQ redrive"
            else report status_error "transient failure" none
                "transient failure; leaving for retry")
      ]

    -- The deferred `recover` of `Pool.runOne`.
    abbrev recover : Outcome Report → Report
    recover (returned r) = r
    recover (panicked text) = report status_unset "" none "worker panic recovered"

    -- `Pool.runOne`
    unfoldable pub run_one : Pool → Message → S → Report × S
    unfolding handle
    run_one p msg s = let (outcome, s') = handle p msg s in (recover outcome, s')

    -- The body of the goroutine in `Pool.Run`, over the messages that it takes from the channel.
    unfoldable pub worker_loop : Pool → List Message → S → List Report × S
    unfolding run_one
    worker_loop p [] s = ([], s)
    worker_loop p (msg ∷ jobs) s =
        let (r, s') = run_one p msg s in let (rs, s'') = worker_loop p jobs s' in (r ∷ rs, s'')
