-- ===== src/Processor/Queue/Defs.antt =====
-- services/processor/internal/infra/queue/sqs.go. `unmarshal` is the strict JSON decoder on a body and
-- `marshal` is `json.Marshal`. Spans are left out, but for the headers that `inject` writes.
use devflow_pipeline.Prelude.{
  String, ◌||◌, Option, none, some, List, [], ◌∷◌, ℤ, pos, ltb_ℤ, leb_ℤ, if◌then◌else◌,
}
use devflow_pipeline.Go.Error.{GoError, wrap}
use devflow_pipeline.Go.Call.{Call, Result, ok, err, return, deref, ◌>>=◌, wrap_err}
use devflow_pipeline.Go.Float.{Float64}
use devflow_pipeline.Aws.Sqs.{SqsMessage, SqsApi}
use devflow_pipeline.Propagation.{Attributes}
use devflow_pipeline.Processor.Domain.Event.{RawEvent, ProcessedEvent}

module _ (fl : Float64) where
  pub record Message : Type 0 where
    pub event : RawEvent fl
    pub receipt_handle : String
    pub message_id : String

  module _ (S : Type 0) where
    -- `Client.QueueURL`; `quoted` is the text of the error with the name in quotes.
    unfoldable pub queue_url : (String → String) → SqsApi S → String → Call S (Result String)
    queue_url quoted api name = do
      out ← api.get_queue_url name
      elim out [
        | err e ↦ return (err (wrap (quoted name) e))
        | ok url ↦ do text ← deref url; return (ok text)
      ]

    pub record Consumer : Type 0 where
      pub api : SqsApi S
      pub queue_url : String
      pub wait_time_seconds : ℤ
      pub max_messages : ℤ

    unfoldable pub new_consumer : SqsApi S → String → ℤ → ℤ → Consumer
    new_consumer api queue_url wait_time_seconds max_messages = record {
      api = api;
      queue_url = queue_url;
      wait_time_seconds = wait_time_seconds;
      max_messages =
          if leb_ℤ max_messages (pos 0) || ltb_ℤ (pos 10) max_messages
          then pos 10
          else max_messages;
    }

    -- The loop over `out.Messages`.
    unfoldable pub split_messages :
        (String → Option (RawEvent fl)) → List SqsMessage → Call S (List Message × List SqsMessage)
    split_messages unmarshal [] = return ([], [])
    split_messages unmarshal (m ∷ ms) = do
      body ← deref m.body
      elim (unmarshal body) [
        | none ↦ do (msgs, failures) ← split_messages unmarshal ms; return (msgs, m ∷ failures)
        | some ev ↦ do
          receipt_handle ← deref m.receipt_handle
          message_id ← deref m.message_id
          (msgs, failures) ← split_messages unmarshal ms
          return (
            record { event = ev; receipt_handle = receipt_handle; message_id = message_id } ∷ msgs,
            failures,
          )
      ]

    -- `Consumer.Receive`
    unfoldable pub receive :
        (String → Option (RawEvent fl))
        → Consumer
        → Call S (Result (List Message × List SqsMessage))
    unfolding split_messages
    receive unmarshal c = do
      out ← c.api.receive_message c.queue_url c.max_messages c.wait_time_seconds
      elim out [
        | err e ↦ return (err (wrap "receive message" e))
        | ok messages ↦ do split ← split_messages unmarshal messages; return (ok split)
      ]

    -- `Consumer.Delete`
    unfoldable pub delete : Consumer → String → Call S (Option GoError)
    delete c receipt_handle = do
      e ← c.api.delete_message c.queue_url receipt_handle
      return (wrap_err "delete message" e)

    pub record Publisher : Type 0 where
      pub api : SqsApi S
      pub queue_url : String
      pub inject : Attributes → Attributes

    -- `Publisher.Publish`
    unfoldable pub publish :
        (ProcessedEvent fl → Result String)
        → Publisher
        → ProcessedEvent fl
        → Call S (Option GoError)
    publish marshal p event = elim (marshal event) [
      | err e ↦ return (some (wrap "marshal processed event" e))
      | ok body ↦ do
        e ← p.api.send_message p.queue_url body (p.inject (some []))
        return (wrap_err "send message" e)
    ]
