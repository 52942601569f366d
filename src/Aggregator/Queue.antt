-- ===== src/Aggregator/Queue.antt =====
-- services/aggregator/internal/infra/queue/sqs.go. `unmarshal` is the strict JSON decoder on a body.
use devflow_pipeline.Prelude.{
  String, ◌||◌, Option, none, some, List, [], ◌∷◌, ℤ, pos, ltb_ℤ, leb_ℤ, if◌then◌else◌,
}
use devflow_pipeline.Go.Error.{GoError, wrap}
use devflow_pipeline.Go.Call.{Call, Result, ok, err, return, deref, ◌>>=◌, wrap_err}
use devflow_pipeline.Go.Float.{Float64}
use devflow_pipeline.Aws.Sqs.{SqsMessage, SqsApi}
use devflow_pipeline.Aggregator.Domain.{ProcessedEvent}
use devflow_pipeline.Aggregator.Worker.Defs.{Message}

module _ (fl : Float64) (S : Type 0) where
  pub record Consumer : Type 0 where
    pub api : SqsApi S
    pub queue_name : String
    pub queue_url : String
    pub wait_time_seconds : ℤ
    pub max_messages : ℤ

  -- `NewConsumer`
  unfoldable pub new_consumer : SqsApi S → String → String → ℤ → ℤ → Consumer
  new_consumer api queue_name queue_url wait_time_seconds max_messages = record {
    api = api;
    queue_name = queue_name;
    queue_url = queue_url;
    wait_time_seconds = wait_time_seconds;
    max_messages =
        if leb_ℤ max_messages (pos 0) || ltb_ℤ (pos 10) max_messages then pos 10 else max_messages;
  }

  -- `ResolveQueueURL`; `quoted` is the error's text with the name in quotes.
  unfoldable pub resolve_queue_url : (String → String) → SqsApi S → String → Call S (Result String)
  resolve_queue_url quoted api name = do
    out ← api.get_queue_url name
    elim out [
      | err e ↦ return (err (wrap (quoted name) e))
      | ok url ↦ do text ← deref url; return (ok text)
    ]

  -- The loop over `out.Messages`.
  unfoldable pub split_messages :
      (String → Option (ProcessedEvent fl))
      → List SqsMessage
      → Call S (List (Message fl) × List SqsMessage)
  split_messages unmarshal [] = return ([], [])
  split_messages unmarshal (m ∷ ms) = do
    body ← deref m.body
    elim (unmarshal body) [
      | none ↦ do (msgs, failures) ← split_messages unmarshal ms; return (msgs, m ∷ failures)
      | some ev ↦ do
        receipt_handle ← deref m.receipt_handle
        message_id ← deref m.message_id
        (msgs, failures) ← split_messages unmarshal ms
        return (
          record { event = ev; receipt_handle = receipt_handle; message_id = message_id } ∷ msgs,
          failures,
        )
    ]

  -- `Consumer.Receive`
  unfoldable pub receive :
      (String → Option (ProcessedEvent fl))
      → Consumer
      → Call S (Result (List (Message fl) × List SqsMessage))
  unfolding split_messages
  receive unmarshal c = do
    out ← c.api.receive_message c.queue_url c.max_messages c.wait_time_seconds
    elim out [
      | err e ↦ return (err (wrap "receive message" e))
      | ok messages ↦ do split ← split_messages unmarshal messages; return (ok split)
    ]

  -- `Consumer.Delete`
  unfoldable pub delete : Consumer → String → Call S (Option GoError)
  delete c receipt_handle = do
    e ← c.api.delete_message c.queue_url receipt_handle
    return (wrap_err "delete message" e)

  -- `Consumer.Health`
  unfoldable pub health : Consumer → Call S (Option GoError)
  health c = do
    out ← c.api.get_queue_url c.queue_name
    return (elim out [ err e ↦ some e | ok url ↦ none ])
