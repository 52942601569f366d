-- ===== src/Processor/Queue/Partition.antt =====
-- What Receive makes of a batch, and the size of a batch.
use devflow_pipeline.Prelude.{
  ◌<ℤ◌, ◌⊎◌, String, ◌≡◌, refl, Option, none, some, List, [], ◌∷◌, All, ℤ, pos, ◌≤ℤ◌, arith,
}
use devflow_pipeline.Go.Call.{returned}
use devflow_pipeline.Go.Float.{Float64}
use devflow_pipeline.Aws.Sqs.{SqsMessage, SqsApi}
use devflow_pipeline.Processor.Domain.Event.{RawEvent}
use devflow_pipeline.Processor.Queue.Defs.{Message, new_consumer, split_messages}

-- The fields that SQS documents to be set on every message that it returns.
pub record HasFields (m : SqsMessage) : Type 0 where
  pub body : String
  pub body_set : m.body ≡ some body
  pub receipt_handle : String
  pub receipt_handle_set : m.receipt_handle ≡ some receipt_handle
  pub message_id : String
  pub message_id_set : m.message_id ≡ some message_id

module _ (fl : Float64) (unmarshal : String → Option (RawEvent fl)) where
  -- A batch, the messages that parse and those that do not, both in the order of the batch.
  pub data IsSplit : List SqsMessage → List (Message fl) → List SqsMessage → Type 0 where
    nothing : IsSplit [] [] []
    parsed :
        {m : SqsMessage} {ms : List SqsMessage} {x : Message fl} {xs : List (Message fl)}
        {failures : List SqsMessage} {body : String}
        → m.body ≡ some body
        → unmarshal body ≡ some x.event
        → m.receipt_handle ≡ some x.receipt_handle
        → m.message_id ≡ some x.message_id
        → IsSplit ms xs failures
        → IsSplit (m ∷ ms) (x ∷ xs) failures
    unparsed :
        {m : SqsMessage} {ms : List SqsMessage} {xs : List (Message fl)}
        {failures : List SqsMessage} {body : String}
        → m.body ≡ some body
        → unmarshal body ≡ none
        → IsSplit ms xs failures
        → IsSplit (m ∷ ms) xs (m ∷ failures)

  abbrev pub Splits : Type 0 → List SqsMessage → Type 0
  Splits S ms =
      (s : S)
      → (xs : List (Message fl)) × (failures : List SqsMessage) × (split_messages fl S unmarshal ms
            s
          ≡ (returned (xs, failures), s))
        × IsSplit ms xs failures

  split_one :
      (S : Type 0) (m : SqsMessage) (ms : List SqsMessage) (f : HasFields m)
      (o : Option (RawEvent fl))
      → unmarshal f.body ≡ o
      → Splits S ms
      → Splits S (m ∷ ms)
  unfolding split_messages
  split_one S m ms f none e rest s =
      let (xs, failures, returns, split) = rest s in
      (xs, m ∷ failures, simp (f.body_set, e, returns), unparsed f.body_set e split)
  split_one S m ms f (some ev) e rest s =
      let (xs, failures, returns, split) = rest s in
      (
        record { event = ev; receipt_handle = f.receipt_handle; message_id = f.message_id } ∷ xs,
        failures,
        simp (f.body_set, e, f.receipt_handle_set, f.message_id_set, returns),
        parsed f.body_set e f.receipt_handle_set f.message_id_set split,
      )

  -- The loop of Receive ends without a panic on every batch whose messages have their fields set,
  -- and each message of the batch is then either parsed, with its event and its handles, or listed
  -- among the failures, in order.
  pub split_messages-IsSplit : (S : Type 0) (ms : List SqsMessage) → All HasFields ms → Splits S ms
  unfolding split_messages
  split_messages-IsSplit S [] h s = ([], [], refl, nothing)
  split_messages-IsSplit S (m ∷ ms) h s =
      split_one S m ms h.0 (unmarshal h.0.body) refl (split_messages-IsSplit S ms h.1) s

-- A consumer asks for 1 to 10 messages at a time, and for as many as it was told if that is so.
pub new_consumer-max_messages :
    (fl : Float64) (S : Type 0) (api : SqsApi S) (url : String) (wait n : ℤ)
    → let c = new_consumer fl S api url wait n in
      (pos 1 ≤ℤ c.max_messages)
      × (c.max_messages ≤ℤ pos 10)
      × ((c.max_messages ≡ n) ⊎ (n <ℤ pos 1) ⊎ (pos 10 <ℤ n))
unfolding new_consumer
new_consumer-max_messages fl S api url wait n = ground arith
