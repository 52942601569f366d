-- ===== src/Wire/Batches.antt =====
-- The batches that the aggregator receives of the processor's events.
use mathlib.Core.List.{map-append}
use devflow_pipeline.Prelude.{◌≡◌, refl, List, [], ◌∷◌, ◌++◌, map, All}
use devflow_pipeline.Go.Call.{returned}
use devflow_pipeline.Go.Float.{Float64}
use devflow_pipeline.Go.Json.{Scalars}
use devflow_pipeline.Aws.Sqs.{SqsMessage}
use devflow_pipeline.Processor.Domain.Event.{ProcessedEvent}
use devflow_pipeline.Aggregator.Queue.{split_messages}
use devflow_pipeline.Aggregator.Worker.Defs.{Message}
use devflow_pipeline.Aggregator.Codec.{unmarshal_processed_event}
use devflow_pipeline.Wire.Event.{received, ReadsBack}
use devflow_pipeline.Wire.Delivery.{AreDelivered, event_of, split_messages-AreDelivered}

module _ (fl : Float64) (sc : Scalars fl) (V : Type 0) where
  -- What Receive of the aggregator makes of batches that deliver the events, in their order.
  pub data AreReceived : List (ProcessedEvent fl) → List (Message fl) → Type 0 where
    none_yet : AreReceived [] []
    batch :
        {es later : List (ProcessedEvent fl)} {ms : List SqsMessage} {xs ys : List (Message fl)}
        {v : V}
        → AreDelivered fl sc es ms
        → split_messages fl V (unmarshal_processed_event fl sc) ms v ≡ (returned (xs, []), v)
        → AreReceived later ys
        → AreReceived (es ++ later) (xs ++ ys)

  batch-same :
      (r : ReadsBack fl sc) (es : List (ProcessedEvent fl)) (ms : List SqsMessage)
      (xs : List (Message fl)) (v : V)
      → AreDelivered fl sc es ms
      → split_messages fl V (unmarshal_processed_event fl sc) ms v ≡ (returned (xs, []), v)
      → map (event_of fl) xs ≡ map (received fl sc) es
  batch-same r es ms xs v delivered split =
      let (zs, returns, same) = split_messages-AreDelivered fl sc r V es ms v delivered in
      let equal : xs ≡ zs = cc (split, returns) in rw equal same

  pub received-same :
      (r : ReadsBack fl sc) (es : List (ProcessedEvent fl)) (xs : List (Message fl))
      → AreReceived es xs
      → map (event_of fl) xs ≡ map (received fl sc) es
  received-same r _ _ none_yet = refl
  received-same r _ _ (batch {es} {later} {ms} {xs} {ys} {v} delivered split rest) =
      rw
        (
          map-append (event_of fl) xs ys,
          map-append (received fl sc) es later,
          batch-same r es ms xs v delivered split,
          received-same r later ys rest,
        )
        refl

  -- What holds of the events as they were sent holds of them as they were received.
  pub received-All :
      (P : ProcessedEvent fl → Type 0) (es : List (ProcessedEvent fl)) (xs : List (Message fl))
      → map (event_of fl) xs ≡ map (received fl sc) es
      → All P es
      → All (λ (m : Message fl). (e : ProcessedEvent fl) × P e × (m.event ≡ received fl sc e)) xs
  received-All P [] [] same h = tt
  received-All P [] (x ∷ xs) same h = absurd (cc same)
  received-All P (e ∷ es) [] same h = tt
  received-All P (e ∷ es) (x ∷ xs) same h = ((e, h.0, cc same), received-All P es xs (cc same) h.1)
