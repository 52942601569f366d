-- ===== src/Wire/Pipeline.antt =====
-- From the raw events that a worker of the processor takes to the calls of UpdateSummary in the
-- aggregator.
use devflow_pipeline.Prelude.{
  String, Bool, false, ◌≡◌, inl, inr, ◌∙◌, Option, List, [], ◌∷◌, ℤ, All, All-imp, IsAmong,
  All-IsAmong,
}
use devflow_pipeline.Go.Error.{GoError}
use devflow_pipeline.Go.Call.{Call}
use devflow_pipeline.Go.Float.{Float64}
use devflow_pipeline.Go.Json.{Scalars}
use devflow_pipeline.Report.{Report}
use devflow_pipeline.Processor.Domain.Event.{ProcessedEvent}
use devflow_pipeline.Processor.Queue.Defs as raw
use devflow_pipeline.Processor.Worker.Defs as processor_worker
use devflow_pipeline.Processor.Worker.Acks.{
  Action, IsLog, Ports, Logged, processor, worker_loop-IsLog,
}
use devflow_pipeline.Processor.Worker.Published.{
  publications, IsSource, log-sources, AreSettled, log-AreSettled,
}
use devflow_pipeline.Aggregator.Domain as aggregator
use devflow_pipeline.Aggregator.Worker.Defs.{Message, worker_loop}
use devflow_pipeline.Aggregator.UseCase.Defs.{AggregateEvent}
use devflow_pipeline.Aggregator.UseCase.AtMostOnce.{
  Counted, aggregator as over_ports, IsRepository, DistinctIds, worker_loop-DistinctIds,
}
use devflow_pipeline.Aggregator.UseCase.Complete.{Answers, HasId, worker_loop-AllCounted}
use devflow_pipeline.Aggregator.UseCase.Sources.{worker_loop-All}
use devflow_pipeline.Wire.Event.{received, ReadsBack}
use devflow_pipeline.Wire.Batches.{AreReceived, received-same, received-All}
use devflow_pipeline.Wire.Counted.{IsEnriched, IsCounted, batch-IsCounted}

-- `cs` holds the events that the aggregator handed to UpdateSummary, whatever that call returned, and
-- `jobs` the messages that a worker of the processor took.
pub record IsExactlyOnce (fl : Float64) (sc : Scalars fl) (W V : Type 0)
    (uuid_parse : String → Bool) (id : String) (jobs : List (raw.Message fl))
    (reports : List Report) (cs : List (aggregator.ProcessedEvent fl)) : Type 0 where
  -- The event of a message that was reported as a success was handed to UpdateSummary.
  pub none_lost :
      AreSettled fl W uuid_parse id (λ (event_id : String). HasId fl event_id cs) jobs reports
  -- No event id was handed over twice.
  pub none_twice : DistinctIds fl V cs
  -- All that was handed over is the enriched form of an event that was taken and meets every rule.
  pub none_invented :
      All
        (λ (d : aggregator.ProcessedEvent fl).
          (e : ProcessedEvent fl) × IsSource fl W uuid_parse id jobs e × (d ≡ received fl sc e))
        cs

module _ (fl : Float64) (sc : Scalars fl) (r : ReadsBack fl sc) (W : Type 0)
    (uuid_parse : String → Bool) (p : Ports fl W) (id : String) (processor_workers : ℤ) (V : Type 0)
    (uc : AggregateEvent fl V) (stored : V → String → Bool) (c : IsRepository fl V uc stored)
    (a : Answers fl V uc stored) (delete : String → Call V (Option GoError))
    (delete_frame : (handle : String) (v : V) (row : String)
      → stored (delete handle v).1 row ≡ stored v row)
    (aggregator_workers : ℤ) where
  source-IsEnriched :
      (jobs : List (raw.Message fl)) (e : ProcessedEvent fl)
      → IsSource fl W uuid_parse id jobs e
      → IsEnriched fl e
  source-IsEnriched [] e h = absurd h
  source-IsEnriched (msg ∷ jobs) e (inl (now, ok, same)) = (id, now, msg.event, same)
  source-IsEnriched (msg ∷ jobs) e (inr later) = source-IsEnriched jobs e later

  module _ (jobs : List (raw.Message fl)) (v : V) (es : List (ProcessedEvent fl))
      (xs : List (Message fl)) (arrived : AreReceived fl sc V es xs) where
    abbrev counted : List (aggregator.ProcessedEvent fl)
    counted =
        (worker_loop fl (Counted fl V) (over_ports fl V uc delete aggregator_workers) xs
          (record { world = v; counted = [] })).1.counted

    arrived-IsCounted :
        All (IsSource fl W uuid_parse id jobs) es
        → ((row : String) → stored v row ≡ false)
        → All (IsCounted fl counted) es
    arrived-IsCounted sources empty =
        batch-IsCounted fl sc es xs counted (received-same fl sc V r es xs arrived)
          (All-imp (IsSource fl W uuid_parse id jobs) (IsEnriched fl) (source-IsEnriched jobs) es
            sources)
          (worker_loop-AllCounted fl V uc stored a delete delete_frame aggregator_workers xs v
            empty)

    counted-IsSource :
        All (IsSource fl W uuid_parse id jobs) es
        → All
            (λ (d : aggregator.ProcessedEvent fl).
              (e : ProcessedEvent fl) × IsSource fl W uuid_parse id jobs e × (d ≡ received fl sc e))
            counted
    counted-IsSource sources =
        worker_loop-All fl V uc delete aggregator_workers
          (λ (d : aggregator.ProcessedEvent fl).
            (e : ProcessedEvent fl) × IsSource fl W uuid_parse id jobs e × (d ≡ received fl sc e))
          xs (record { world = v; counted = [] })
          (received-All fl sc V (IsSource fl W uuid_parse id jobs) es xs
            (received-same fl sc V r es xs arrived) sources)
          tt

    exactly_once :
        (reports : List Report) (log : List (Action fl W))
        → IsLog fl W uuid_parse id jobs reports log
        → All (IsAmong (publications fl W log)) es
        → All (IsAmong es) (publications fl W log)
        → ((row : String) → stored v row ≡ false)
        → IsExactlyOnce fl sc W V uuid_parse id jobs reports counted
    exactly_once reports log is_log only every empty =
        let published : List (ProcessedEvent fl) = publications fl W log in
        let sources : All (IsSource fl W uuid_parse id jobs) es =
          All-imp (IsAmong published) (IsSource fl W uuid_parse id jobs)
            (λ e among.
              All-IsAmong (IsSource fl W uuid_parse id jobs) published e
                (log-sources fl W uuid_parse id jobs reports log is_log) among)
            es only in
        record {
          none_lost =
              log-AreSettled fl W uuid_parse id (λ (event_id : String). HasId fl event_id counted)
                jobs reports log is_log
                (All-imp (IsAmong es) (IsCounted fl counted)
                  (λ e among.
                    All-IsAmong (IsCounted fl counted) es e (arrived-IsCounted sources empty) among)
                  published every);
          none_twice =
              worker_loop-DistinctIds fl V uc stored c delete
                (λ handle w row h. delete_frame handle w row ∙ h) aggregator_workers xs v;
          none_invented = counted-IsSource sources;
        }

  -- A worker of the processor takes `jobs`, whatever its ports answer, and a worker of the
  -- aggregator, on an empty events table, takes batches that deliver what was published, with times
  -- and versions as IsDelivery says, each event once or more, in any order, and nothing else. If the
  -- texts of finite numbers are JSON and are read back, the ports of the aggregator keep their
  -- contract and answer, and its Delete touches no row: the aggregator hands
  -- to UpdateSummary, whatever that call returns, every event whose message the processor reported as a
  -- success, no event id twice, and only enriched forms of events in `jobs` that meet every rule.
  pub worker_loop-IsExactlyOnce :
      (jobs : List (raw.Message fl)) (w : W) (v : V) (es : List (ProcessedEvent fl))
      (xs : List (Message fl))
      → let (reports, s) =
          processor_worker.worker_loop fl
            (Logged fl W)
            (processor fl W uuid_parse p id processor_workers)
            jobs
            (record { world = w; log = [] }) in
        All (IsAmong (publications fl W s.log)) es
        → All (IsAmong es) (publications fl W s.log)
        → AreReceived fl sc V es xs
        → ((row : String) → stored v row ≡ false)
        → IsExactlyOnce fl sc W V uuid_parse id jobs reports
            (worker_loop fl
              (Counted fl V)
              (over_ports fl V uc delete aggregator_workers)
              xs
              (record { world = v; counted = [] })).1.counted
  worker_loop-IsExactlyOnce jobs w v es xs only every arrived empty =
      let (reports, s) =
        processor_worker.worker_loop fl (Logged fl W)
          (processor fl W uuid_parse p id processor_workers) jobs
          (record { world = w; log = [] }) in
      let (log, grown, is_log) =
        worker_loop-IsLog fl W uuid_parse p id processor_workers jobs
          (record { world = w; log = [] }) in
      exactly_once jobs v es xs arrived reports log is_log (rw grown at only) (rw grown at every)
        empty
