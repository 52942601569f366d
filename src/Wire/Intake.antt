-- ===== src/Wire/Intake.antt =====
-- From the batches that the aggregator polls, through its dispatcher, to the calls of UpdateSummary.
use mathlib.Core.List.{map-append}
use devflow_pipeline.Prelude.{
  String, Bool, false, ◌≡◌, ◌∙◌, refl, ap, Option, List, [], ◌∷◌, ◌++◌, map, ℤ, All,
}
use devflow_pipeline.Go.Error.{GoError}
use devflow_pipeline.Go.Call.{Call, Result, ok, returned}
use devflow_pipeline.Go.Float.{Float64}
use devflow_pipeline.Go.Json.{Scalars}
use devflow_pipeline.Aws.Sqs.{SqsMessage}
use devflow_pipeline.Pool.Defs.{failed, received, Round, receive_backoff_initial}
use devflow_pipeline.Pool.Delivery.{all_received, jobs_all}
use devflow_pipeline.Processor.Domain.Event.{ProcessedEvent}
use devflow_pipeline.Aggregator.Codec.{unmarshal_processed_event}
use devflow_pipeline.Aggregator.Queue.{Consumer, receive, split_messages}
use devflow_pipeline.Aggregator.Worker.Defs.{Message, worker_loop}
use devflow_pipeline.Aggregator.Worker.Intake.{polled, dispatch}
use devflow_pipeline.Aggregator.UseCase.Defs.{AggregateEvent}
use devflow_pipeline.Aggregator.UseCase.AtMostOnce.{Counted, aggregator as over_ports}
use devflow_pipeline.Aggregator.UseCase.Complete.{Answers, worker_loop-AllCounted}
use devflow_pipeline.Wire.Event.{received as event_received, ReadsBack}
use devflow_pipeline.Wire.Delivery.{AreDelivered, event_of, split_messages-AreDelivered}
use devflow_pipeline.Wire.Counted.{IsEnriched, IsCounted, batch-IsCounted}

module _ (fl : Float64) (sc : Scalars fl) (S : Type 0) where
  abbrev receive_events : Consumer fl S → Call S (Result (List (Message fl) × List SqsMessage))
  receive_events = receive fl S (unmarshal_processed_event fl sc)

  -- A poll that returns a batch with the events.
  pub record Returns (es : List (ProcessedEvent fl)) (r : Round (Message fl) SqsMessage)
      : Type 0 where
    pub consumer : Consumer fl S
    pub before : S
    pub messages : List SqsMessage
    pub after : S
    pub sent :
        consumer.api.receive_message consumer.queue_url consumer.max_messages
          consumer.wait_time_seconds before
        ≡ (returned (ok messages), after)
    pub delivered : AreDelivered fl sc es messages
    pub result : Result (List (Message fl) × List SqsMessage)
    pub received_so : (receive_events consumer before).0 ≡ returned result
    pub shown : r.polled ≡ polled fl result

  -- The turns of the dispatcher in which Receive fails or returns batches with the events, in order.
  pub data Polls : List (ProcessedEvent fl) → List (Round (Message fl) SqsMessage) → Type 0 where
    no_turn : Polls [] []
    outage :
        {es : List (ProcessedEvent fl)} {r : Round (Message fl) SqsMessage}
        {rounds : List (Round (Message fl) SqsMessage)} {e : GoError}
        → r.polled ≡ failed e
        → Polls es rounds
        → Polls es (r ∷ rounds)
    turn :
        {es later : List (ProcessedEvent fl)} {r : Round (Message fl) SqsMessage}
        {rounds : List (Round (Message fl) SqsMessage)}
        → Returns es r
        → Polls later rounds
        → Polls (es ++ later) (r ∷ rounds)

  pub receive-ok :
      (c : Consumer fl S) (s s' : S) (ms : List SqsMessage) (xs : List (Message fl))
      → c.api.receive_message c.queue_url c.max_messages c.wait_time_seconds s
        ≡ (returned (ok ms), s')
      → split_messages fl S (unmarshal_processed_event fl sc) ms s' ≡ (returned (xs, []), s')
      → (receive_events c s).0 ≡ returned (ok (xs, []))
  unfolding receive
  receive-ok c s s' ms xs sent split = rw (sent, split) refl

  Returns-events :
      (b : ReadsBack fl sc) (es : List (ProcessedEvent fl)) (r : Round (Message fl) SqsMessage)
      → Returns es r
      → (xs : List (Message fl)) × (r.polled ≡ received xs [])
        × (map (event_of fl) xs ≡ map (event_received fl sc) es)
  unfolding polled
  Returns-events b es r h =
      let (xs, split, same) =
        split_messages-AreDelivered fl sc b S es h.messages h.after h.delivered in
      let out : h.result ≡ ok (xs, []) =
        cc (h.received_so, receive-ok h.consumer h.before h.after h.messages xs h.sent split) in
      (xs, h.shown ∙ ap (polled fl) out, same)

  Polls-events :
      (b : ReadsBack fl sc) (es : List (ProcessedEvent fl))
      (rounds : List (Round (Message fl) SqsMessage))
      → Polls es rounds
      → map (event_of fl) (all_received (Message fl) SqsMessage rounds)
        ≡ map (event_received fl sc) es
  unfolding all_received
  Polls-events b _ _ no_turn = refl
  Polls-events b _ _ (outage {es} {r} {rounds} down rest) =
      rw (all_received, down) (Polls-events b es rounds rest)
  Polls-events b _ _ (turn {es} {later} {r} {rounds} h rest) =
      let (xs, shown, same) = Returns-events b es r h in
      rw
        (
          all_received,
          shown,
          map-append (event_of fl) xs (all_received (Message fl) SqsMessage rounds),
          map-append (event_received fl sc) es later,
          same,
          Polls-events b later rounds rest,
        )
        refl

module _ (fl : Float64) (sc : Scalars fl) (b : ReadsBack fl sc) (S W : Type 0)
    (uc : AggregateEvent fl W) (stored : W → String → Bool) (a : Answers fl W uc stored)
    (delete : String → Call W (Option GoError))
    (delete_frame : (handle : String) (w : W) (id : String)
      → stored (delete handle w).1 id ≡ stored w id)
    (workers : ℤ) where
  -- If the texts of finite numbers are JSON and are read back, the ports of the aggregator answer and its
  -- Delete touches no row: while the dispatcher polls, whatever fails, batches whose bodies the processor
  -- marshals of enriched events with times and versions as IsDelivery says, and until it has returned, a
  -- worker that takes all that it sends, from an empty events table, calls UpdateSummary for the id of
  -- every event of every batch.
  pub dispatch-IsCounted :
      (es : List (ProcessedEvent fl)) (rounds : List (Round (Message fl) SqsMessage)) (w : W)
      → All (IsEnriched fl) es
      → Polls fl sc S es rounds
      → (dispatch fl receive_backoff_initial rounds).stopped ≡ false
      → ((id : String) → stored w id ≡ false)
      → All
          (IsCounted fl
            (worker_loop fl
              (Counted fl W)
              (over_ports fl W uc delete workers)
              (dispatch fl receive_backoff_initial rounds).jobs
              (record { world = w; counted = [] })).1.counted)
          es
  dispatch-IsCounted es rounds w enriched polls running empty =
      let jobs : List (Message fl) = (dispatch fl receive_backoff_initial rounds).jobs in
      let all : jobs ≡ all_received (Message fl) SqsMessage rounds =
        jobs_all (Message fl) SqsMessage receive_backoff_initial rounds running in
      batch-IsCounted fl sc es jobs _
        (ap (map (event_of fl)) all ∙ Polls-events fl sc S b es rounds polls) enriched
        (worker_loop-AllCounted fl W uc stored a delete delete_frame workers jobs w empty)
