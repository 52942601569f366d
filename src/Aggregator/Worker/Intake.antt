-- ===== src/Aggregator/Worker/Intake.antt =====
-- `dispatch` of services/aggregator/internal/infra/worker/pool.go over the messages of the
-- aggregator, and the worker that takes what it sends.
use devflow_pipeline.Prelude.{ℕ, List}
use devflow_pipeline.Aws.Sqs.{SqsMessage}
use devflow_pipeline.Go.Call.{Result, ok, err}
use devflow_pipeline.Go.Float.{Float64}
use devflow_pipeline.Pool.Defs as pool
use devflow_pipeline.Pool.Defs.{Received, failed, received, Round, Dispatched}
use devflow_pipeline.Aggregator.Worker.Defs.{Message}

module _ (fl : Float64) where
  -- What `dispatch` sees of the result of Receive.
  unfoldable pub polled :
      Result (List (Message fl) × List SqsMessage) → Received (Message fl) SqsMessage
  polled (ok (msgs, parse_fails)) = received msgs parse_fails
  polled (err e) = failed e

  -- `dispatch`, whose text is that of the processor.
  abbrev pub dispatch :
      ℕ → List (Round (Message fl) SqsMessage) → Dispatched (Message fl) SqsMessage
  dispatch = pool.dispatch (Message fl) SqsMessage
