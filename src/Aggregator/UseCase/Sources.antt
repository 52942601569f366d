-- ===== src/Aggregator/UseCase/Sources.antt =====
-- Where the events come from that a worker of the aggregator counts.
use devflow_pipeline.Prelude.{String, ◌≡◌, inl, inr, Option, List, [], ◌∷◌, arith, All, ℤ}
use devflow_pipeline.Go.Error.{GoError}
use devflow_pipeline.Go.Call.{Call}
use devflow_pipeline.Go.Float.{Float64}
use devflow_pipeline.Aggregator.Domain.{ProcessedEvent}
use devflow_pipeline.Aggregator.UseCase.Defs.{AggregateEvent, execute}
use devflow_pipeline.Aggregator.UseCase.AtMostOnce.{Counted, counting, aggregator, execute-Leaves}
use devflow_pipeline.Aggregator.Worker.Defs.{Message, run_one, worker_loop}

module _ (fl : Float64) (W : Type 0) (uc : AggregateEvent fl W)
    (delete : String → Call W (Option GoError)) (workers : ℤ) (P : ProcessedEvent fl → Type 0) where
  execute-All :
      (e : ProcessedEvent fl) (s : Counted fl W)
      → P e
      → All P s.counted
      → All P (execute fl (Counted fl W) (counting fl W uc) e s).1.counted
  execute-All e s p h = elim (execute-Leaves fl W uc e s) [
    | inl same ↦ rw same h
    | inr (inl saved) ↦ rw saved h
    | inr (inr (found, counted)) ↦ rw counted (p, h)
  ]

  step-counted :
      (msg : Message fl) (s : Counted fl W)
      → (run_one fl (Counted fl W) (aggregator fl W uc delete workers) msg s).1.counted
        ≡ (execute fl (Counted fl W) (counting fl W uc) msg.event s).1.counted
  unfolding run_one aggregator
  step-counted msg s = ground arith

  -- What holds of every event that is delivered to a worker, and of every one that was counted before,
  -- holds of every one that is counted in the end, whatever the ports answer.
  pub worker_loop-All :
      (jobs : List (Message fl)) (s : Counted fl W)
      → All (λ (m : Message fl). P m.event) jobs
      → All P s.counted
      → All P (worker_loop fl (Counted fl W) (aggregator fl W uc delete workers) jobs s).1.counted
  unfolding worker_loop
  worker_loop-All [] s ps h = h
  worker_loop-All (msg ∷ jobs) s ps h =
      worker_loop-All jobs (run_one fl (Counted fl W) (aggregator fl W uc delete workers) msg s).1
        ps.1 (rw (step-counted msg s) (execute-All msg.event s ps.0 h))
