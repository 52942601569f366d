-- ===== src/Wire/Counted.antt =====
-- From the events that the processor enriches to the calls of UpdateSummary in the aggregator.
use devflow_pipeline.Prelude.{
  String, Bool, false, ◌≡◌, ◌⊎◌, inl, inr, refl, ap, Option, List, [], ◌∷◌, map, ℤ, All, arith,
  eqb_ℤ,
}
use devflow_pipeline.Go.Error.{GoError}
use devflow_pipeline.Go.Call.{Call, returned}
use devflow_pipeline.Go.Float.{Float64}
use devflow_pipeline.Go.Json.{Scalars}
use devflow_pipeline.Go.Time.{Time}
use devflow_pipeline.Aws.Sqs.{SqsMessage}
use devflow_pipeline.Processor.Domain.Event.{RawEvent, ProcessedEvent}
use devflow_pipeline.Processor.UseCase.{enrich}
use devflow_pipeline.Aggregator.Domain as aggregator
use devflow_pipeline.Aggregator.Domain.{supported_schema_version}
use devflow_pipeline.Aggregator.Queue.{split_messages}
use devflow_pipeline.Aggregator.Worker.Defs.{Message, worker_loop}
use devflow_pipeline.Aggregator.UseCase.Defs.{AggregateEvent}
use devflow_pipeline.Aggregator.UseCase.AtMostOnce.{Counted, aggregator as over_ports}
use devflow_pipeline.Aggregator.UseCase.Complete.{
  Answers, HasId, AllCounted, worker_loop-AllCounted,
}
use devflow_pipeline.Aggregator.Codec.{unmarshal_processed_event}
use devflow_pipeline.Wire.Event.{received, ReadsBack}
use devflow_pipeline.Wire.Delivery.{AreDelivered, event_of, split_messages-AreDelivered}

module _ (fl : Float64) where
  -- What Execute of the processor publishes.
  abbrev pub IsEnriched : ProcessedEvent fl → Type 0
  IsEnriched e = (id : String) × (now : Time) × (raw : RawEvent fl) × (e ≡ enrich fl id now raw)

  -- The event was handed to UpdateSummary.
  abbrev pub IsCounted : List (aggregator.ProcessedEvent fl) → ProcessedEvent fl → Type 0
  IsCounted es e = HasId fl e.raw.event_id es

  IsEnriched-version :
      (e : ProcessedEvent fl) → IsEnriched e → e.schema_version ≡ supported_schema_version
  unfolding enrich
  IsEnriched-version e (id, now, raw, same) = rw same refl

module _ (fl : Float64) (sc : Scalars fl) where
  one-IsCounted :
      (e : ProcessedEvent fl) (x : Message fl) (cs : List (aggregator.ProcessedEvent fl))
      → x.event ≡ received fl sc e
      → IsEnriched fl e
      → (eqb_ℤ x.event.schema_version supported_schema_version ≡ false)
        ⊎ HasId fl x.event.event_id cs
      → IsCounted fl cs e
  one-IsCounted e x cs same enriched (inl other) =
      absurd (ground (arith, same, other, IsEnriched-version fl e enriched))
  one-IsCounted e x cs same enriched (inr has) =
      rw (ap (λ (d : aggregator.ProcessedEvent fl). d.event_id) same) at has

  pub batch-IsCounted :
      (es : List (ProcessedEvent fl)) (xs : List (Message fl))
      (cs : List (aggregator.ProcessedEvent fl))
      → map (event_of fl) xs ≡ map (received fl sc) es
      → All (IsEnriched fl) es
      → AllCounted fl xs cs
      → All (IsCounted fl cs) es
  batch-IsCounted [] xs cs same enriched counted = tt
  batch-IsCounted (e ∷ es) [] cs same enriched counted = absurd (cc same)
  batch-IsCounted (e ∷ es) (x ∷ xs) cs same enriched counted = (
    one-IsCounted e x cs (cc same) enriched.0 counted.0,
    batch-IsCounted es xs cs (cc same) enriched.1 counted.1,
  )

  module _ (r : ReadsBack fl sc) (W : Type 0) (uc : AggregateEvent fl W)
      (stored : W → String → Bool) (a : Answers fl W uc stored)
      (delete : String → Call W (Option GoError))
      (delete_frame : (handle : String) (w : W) (id : String)
        → stored (delete handle w).1 id ≡ stored w id)
      (workers : ℤ) where
    -- If the texts of finite numbers are JSON and are read back, the ports
    -- of the aggregator answer and its Delete touches no row: a batch of messages with the bodies that
    -- the processor marshals of enriched events, whose times and versions are as IsDelivery says, is
    -- split without a failure, and a worker that takes the messages, from an empty events table, calls
    -- UpdateSummary for the id of every event of the batch.
    pub enriched-IsCounted :
        (S : Type 0) (s : S) (w : W) (es : List (ProcessedEvent fl)) (ms : List SqsMessage)
        → All (IsEnriched fl) es
        → AreDelivered fl sc es ms
        → ((id : String) → stored w id ≡ false)
        → (xs : List (Message fl)) × (split_messages fl S (unmarshal_processed_event fl sc) ms s
            ≡ (returned (xs, []), s))
          × All
              (IsCounted fl
                (worker_loop fl
                  (Counted fl W)
                  (over_ports fl W uc delete workers)
                  xs
                  (record { world = w; counted = [] })).1.counted)
              es
    enriched-IsCounted S s w es ms enriched delivered empty =
        let (xs, returns, same) = split_messages-AreDelivered fl sc r S es ms s delivered in
        (
          xs,
          returns,
          batch-IsCounted es xs _ same enriched
              (worker_loop-AllCounted fl W uc stored a delete delete_frame workers xs w empty),
        )
