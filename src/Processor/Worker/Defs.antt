-- ===== src/Processor/Worker/Defs.antt =====
-- services/processor/internal/infra/worker/pool.go: what a worker does with one message. The
-- report is the status of the message's span and the log line that the worker ends with.
use devflow_pipeline.Prelude.{
  String, Bool, Option, none, some, List, [], ◌∷◌, ℤ, pos, ltb_ℤ, if◌then◌else◌,
}
use devflow_pipeline.Go.Error.{GoError, errors_as}
use devflow_pipeline.Go.Call.{Call, Outcome, returned, panicked, return, ◌>>=◌}
use devflow_pipeline.Go.Float.{Float64}
use devflow_pipeline.Report.{Report, report, status_unset, status_error, status_ok}
use devflow_pipeline.Processor.Domain.Event.{RawEvent, is_validation}
use devflow_pipeline.Processor.Queue.Defs.{Message}

-- `isValidation` of the worker: `errors.As` with the target `*domain.ValidationError`.
unfoldable pub wraps_validation : GoError → Bool
unfolding errors_as is_validation
wraps_validation e = errors_as is_validation e

module _ (fl : Float64) (S : Type 0) where
  -- The `Handler` port and the `Delete` of the consumer.
  pub record Pool : Type 0 where
    pub delete : String → Call S (Option GoError)
    pub execute : RawEvent fl → Call S (Option GoError)
    pub workers : ℤ

  unfoldable pub new :
      (String → Call S (Option GoError)) → (RawEvent fl → Call S (Option GoError)) → ℤ → Pool
  new delete execute workers = record {
    delete = delete;
    execute = execute;
    workers = if ltb_ℤ workers (pos 1) then pos 1 else workers;
  }

  -- `Pool.handle`
  unfoldable pub handle : Pool → Message fl → Call S Report
  unfolding wraps_validation
  handle p msg = do
    err ← p.execute msg.event
    elim err [
      | none ↦ do
        del_err ← p.delete msg.receipt_handle
        elim del_err [
          | some e ↦ return (report status_error "delete failed" none "delete after success failed")
          | none ↦ return (report status_ok "" none "processed")
        ]
      | some e ↦ return (
          if wraps_validation e
          then report status_error "validation rejected" (some "validation")
              "validation failed; leaving for DLQ redrive"
          else report status_error "transient failure" none "transient failure; leaving for retry")
    ]

  -- The deferred `recover` of `Pool.runOne`: a panic is logged, and the message is not deleted.
  abbrev recover : Outcome Report → Report
  recover (returned r) = r
  recover (panicked text) = report status_unset "" none "worker panic recovered"

  -- `Pool.runOne`
  unfoldable pub run_one : Pool → Message fl → S → Report × S
  unfolding handle
  run_one p msg s = let (outcome, s') = handle p msg s in (recover outcome, s')

  -- `Pool.workerLoop` over the messages that the worker takes from the channel until it is closed.
  unfoldable pub worker_loop : Pool → List (Message fl) → S → List Report × S
  unfolding run_one
  worker_loop p [] s = ([], s)
  worker_loop p (msg ∷ jobs) s =
      let (r, s') = run_one p msg s in let (rs, s'') = worker_loop p jobs s' in (r ∷ rs, s'')
