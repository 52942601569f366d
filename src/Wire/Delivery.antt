-- ===== src/Wire/Delivery.antt =====
-- A batch of messages that Publish of the processor sent, in Receive of the aggregator.
use devflow_pipeline.Prelude.{
  ◌^◌, ◌≤◌, ◌<◌, String, ◌≡◌, refl, ap, Option, some, List, [], ◌∷◌, map, pos_part, neg_part,
}
use devflow_pipeline.Go.Call.{ok, returned}
use devflow_pipeline.Go.Float.{Float64}
use devflow_pipeline.Go.Json.{Scalars}
use devflow_pipeline.Aws.Sqs.{SqsMessage}
use devflow_pipeline.Processor.Domain.Event.{ProcessedEvent}
use devflow_pipeline.Processor.Codec.{marshal_processed_event}
use devflow_pipeline.Aggregator.Codec.{unmarshal_processed_event}
use devflow_pipeline.Aggregator.Domain as aggregator
use devflow_pipeline.Aggregator.Worker.Defs.{Message}
use devflow_pipeline.Aggregator.Queue.{split_messages}
use devflow_pipeline.Wire.Event.{received, ReadsBack, IsExact, unmarshal-marshal}

module _ (fl : Float64) where
  abbrev pub event_of : Message fl → aggregator.ProcessedEvent fl
  event_of x = x.event

module _ (fl : Float64) (unmarshal : String → Option (aggregator.ProcessedEvent fl))
    (S : Type 0) where
  pub split_nothing : (s : S) → split_messages fl S unmarshal [] s ≡ (returned ([], []), s)
  unfolding split_messages
  split_nothing s = refl

  pub split_parsed :
      (m : SqsMessage) (ms : List SqsMessage) (xs : List (Message fl))
      (ev : aggregator.ProcessedEvent fl) (body handle id : String) (s : S)
      → m.body ≡ some body
      → unmarshal body ≡ some ev
      → m.receipt_handle ≡ some handle
      → m.message_id ≡ some id
      → split_messages fl S unmarshal ms s ≡ (returned (xs, []), s)
      → split_messages fl S unmarshal (m ∷ ms) s
        ≡ (returned (record { event = ev; receipt_handle = handle; message_id = id } ∷ xs, []), s)
  unfolding split_messages
  split_parsed m ms xs ev body handle id s b u h i rest = simp (b, u, h, i, rest)

module _ (fl : Float64) (sc : Scalars fl) where
  -- A message with the body that Publish writes for the event, and with the handles that SQS sets.
  pub record IsDelivery (e : ProcessedEvent fl) (m : SqsMessage) : Type 0 where
    pub body : String
    pub marshalled : marshal_processed_event fl sc e ≡ ok body
    pub body_set : m.body ≡ some body
    pub receipt_handle : String
    pub receipt_handle_set : m.receipt_handle ≡ some receipt_handle
    pub message_id : String
    pub message_id_set : m.message_id ≡ some message_id
    pub exact_timestamp : IsExact fl sc e.raw.timestamp
    pub exact_processed_at : IsExact fl sc e.processed_at
    pub version_low : neg_part e.schema_version ≤ 2 ^ 63
    pub version_high : pos_part e.schema_version < 2 ^ 63

  read_one :
      (r : ReadsBack fl sc) (e : ProcessedEvent fl) (m : SqsMessage) (d : IsDelivery e m)
      → unmarshal_processed_event fl sc d.body ≡ some (received fl sc e)
  read_one r e m d =
      unmarshal-marshal fl sc r e d.body d.exact_timestamp d.exact_processed_at d.version_low
        d.version_high d.marshalled

  pub data AreDelivered : List (ProcessedEvent fl) → List SqsMessage → Type 0 where
    nothing : AreDelivered [] []
    one :
        {e : ProcessedEvent fl} {es : List (ProcessedEvent fl)} {m : SqsMessage}
        {ms : List SqsMessage}
        → IsDelivery e m
        → AreDelivered es ms
        → AreDelivered (e ∷ es) (m ∷ ms)

  -- If the texts of finite numbers are JSON and are read back: the
  -- loop of the aggregator's Receive, on a batch of messages whose bodies are those that the processor
  -- writes, of events whose times and versions are as IsDelivery says, ends without a panic or a
  -- failure, with the events as they were, in the order of the batch.
  pub split_messages-AreDelivered :
      (r : ReadsBack fl sc) (S : Type 0) (es : List (ProcessedEvent fl)) (ms : List SqsMessage)
      (s : S)
      → AreDelivered es ms
      → (xs : List (Message fl)) × (split_messages fl S (unmarshal_processed_event fl sc) ms s
          ≡ (returned (xs, []), s))
        × (map (event_of fl) xs ≡ map (received fl sc) es)
  split_messages-AreDelivered r S _ _ s nothing =
      ([], split_nothing fl (unmarshal_processed_event fl sc) S s, refl)
  split_messages-AreDelivered r S _ _ s (one {e} {es} {m} {ms} d rest) =
      let (xs, returns, same) = split_messages-AreDelivered r S es ms s rest in
      (
        record {
          event = received fl sc e;
          receipt_handle = d.receipt_handle;
          message_id = d.message_id;
        }
            ∷ xs,
        split_parsed fl (unmarshal_processed_event fl sc) S m ms xs (received fl sc e) d.body
            d.receipt_handle d.message_id s d.body_set (read_one r e m d) d.receipt_handle_set
            d.message_id_set returns,
        ap (λ (l : List (aggregator.ProcessedEvent fl)). received fl sc e ∷ l) same,
      )
