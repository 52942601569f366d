-- ===== src/Aws/Sqs.antt =====
-- The calls of an SQS client that the services make. A request that fails may or may not have taken
-- effect, so nothing is assumed here of the state that a call leaves.
use devflow_pipeline.Prelude.{String, Option, List, ℤ}
use devflow_pipeline.Go.Error.{GoError}
use devflow_pipeline.Go.Call.{Call, Result}
use devflow_pipeline.Propagation.{Attributes}

-- `types.Message`, whose text fields are pointers.
pub record SqsMessage : Type 0 where
  pub body : Option String
  pub receipt_handle : Option String
  pub message_id : Option String
  pub attributes : Attributes

pub record SqsApi (S : Type 0) : Type 0 where
  pub receive_message :
      (queue_url : String) (max_messages wait_time_seconds : ℤ) → Call S (Result (List SqsMessage))
  pub delete_message : (queue_url receipt_handle : String) → Call S (Option GoError)
  pub send_message : (queue_url body : String) → Attributes → Call S (Option GoError)
  pub get_queue_url : (name : String) → Call S (Result (Option String))
