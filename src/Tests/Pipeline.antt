-- ===== src/Tests/Pipeline.antt =====
-- Two raw events through both services. The second one has a negative value, and SQS delivers the
-- first one, once it is published, twice.
use devflow_pipeline.Prelude.{ℕ, ◌≡◌, inl, refl, String, Option, List, [], ◌∷◌, pos, ◌+ℤ◌}
use devflow_pipeline.Go.Call.{returned}
use devflow_pipeline.Go.Text.{trim_space}
use devflow_pipeline.Processor.Domain.Event.{ProcessedEvent, validate, metric_valid}
use devflow_pipeline.Processor.UseCase.{execute}
use devflow_pipeline.Processor.Queue.Defs as raw
use devflow_pipeline.Processor.Worker.Defs.{worker_loop as processor_loop}
use devflow_pipeline.Processor.Worker.Acks.{Logged, processor}
use devflow_pipeline.Processor.Worker.Published.{publications}
use devflow_pipeline.Aggregator.Worker.Defs.{Message, worker_loop}
use devflow_pipeline.Aggregator.Queue.{split_messages}
use devflow_pipeline.Aggregator.Codec.{unmarshal_processed_event}
use devflow_pipeline.Aggregator.Domain as aggregator
use devflow_pipeline.Aggregator.UseCase.AtMostOnce.{Counted, aggregator as over_ports}
use devflow_pipeline.Wire.Event.{received}
use devflow_pipeline.Wire.Delivery.{split_nothing, split_parsed}
use devflow_pipeline.Aws.Sqs.{SqsMessage}
use devflow_pipeline.Wire.Batches.{AreReceived, none_yet, batch as next}
use devflow_pipeline.Wire.Pipeline.{IsExactlyOnce, worker_loop-IsExactlyOnce}
use devflow_pipeline.Tests.Fixtures.{integers, any_uuid, commit_event}
use devflow_pipeline.Tests.Memory.{Tables}
use devflow_pipeline.Tests.Answers.{ports, stored, memory-Answers}
use devflow_pipeline.Tests.Aggregator.{forget, empty, ports-IsRepository}
use devflow_pipeline.Tests.Processor.{ports as processor_ports, message, negative}
use devflow_pipeline.Tests.Wire.{
  plain, plain-ReadsBack, event, event_read, text, sent, batch, events, batch-AreDelivered,
}

abbrev jobs : List (raw.Message integers)
jobs = message commit_event "a" ∷ message negative "b" ∷ []

abbrev start : Logged integers ℕ
start = record { world = 1001; log = [] }

abbrev one_published : List (ProcessedEvent integers)
one_published = event ∷ []

jobs_published :
    publications integers ℕ
      (processor_loop integers
        (Logged integers ℕ)
        (processor integers ℕ any_uuid processor_ports "p-1" (pos 5))
        jobs
        start).1.log
    ≡ one_published
unfolding processor_loop processor execute validate trim_space metric_valid ◌+ℤ◌
jobs_published = refl

abbrev pub arrival : Message integers
arrival = record { event = received integers plain event; receipt_handle = "rh"; message_id = "m" }

abbrev decoder : String → Option (aggregator.ProcessedEvent integers)
decoder = unmarshal_processed_event integers plain

sent_split :
    (ms : List SqsMessage) (xs : List (Message integers))
    → split_messages integers Tables decoder ms empty ≡ (returned (xs, []), empty)
    → split_messages integers Tables decoder (sent ∷ ms) empty
      ≡ (returned (arrival ∷ xs, []), empty)
sent_split ms xs rest =
    split_parsed integers decoder Tables sent ms xs (received integers plain event) text "rh" "m"
      empty refl event_read refl refl rest

pub batch_split :
    split_messages integers Tables decoder batch empty
    ≡ (returned (arrival ∷ arrival ∷ [], []), empty)
batch_split =
    sent_split (sent ∷ []) (arrival ∷ [])
      (sent_split [] [] (split_nothing integers decoder Tables empty))

arrived : AreReceived integers plain Tables events (arrival ∷ arrival ∷ [])
arrived = next batch-AreDelivered batch_split none_yet

worker_loop-IsExactlyOnce_example :
    IsExactlyOnce integers plain ℕ Tables any_uuid "p-1" jobs
      (processor_loop integers
        (Logged integers ℕ)
        (processor integers ℕ any_uuid processor_ports "p-1" (pos 5))
        jobs
        start).0
      (worker_loop integers
        (Counted integers Tables)
        (over_ports integers Tables ports forget (pos 5))
        (arrival ∷ arrival ∷ [])
        (record { world = empty; counted = [] })).1.counted
worker_loop-IsExactlyOnce_example =
    worker_loop-IsExactlyOnce integers plain plain-ReadsBack ℕ any_uuid processor_ports "p-1"
      (pos 5) Tables ports stored ports-IsRepository memory-Answers forget (λ handle w id. refl)
      (pos 5) jobs 1001 empty events (arrival ∷ arrival ∷ [])
      (rw jobs_published (inl refl, (inl refl, tt))) (rw jobs_published (inl refl, tt)) arrived
      (λ id. refl)
