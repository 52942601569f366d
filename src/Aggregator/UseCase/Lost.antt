-- ===== src/Aggregator/UseCase/Lost.antt =====
-- A failure between the two writes of `AggregateEvent.Execute`.
use devflow_pipeline.Prelude.{
  String, Bool, true, ◌≡◌, inl, inr, refl, ◌∙◌, Option, none, some, List, [], ◌∷◌, arith, All, ℤ,
  eqb_ℤ,
}
use devflow_pipeline.Go.Error.{GoError}
use devflow_pipeline.Go.Call.{Call, returned}
use devflow_pipeline.Go.Float.{Float64}
use devflow_pipeline.Report.{status_error}
use devflow_pipeline.Aggregator.Domain.{ProcessedEvent, supported_schema_version}
use devflow_pipeline.Aggregator.UseCase.Defs.{AggregateEvent, execute}
use devflow_pipeline.Aggregator.UseCase.AtMostOnce.{
  IsRepository, Counted, counting, aggregator, execute-Leaves, run_one_redelivered,
}
use devflow_pipeline.Aggregator.Worker.Defs.{Message, run_one, worker_loop}

module _ (fl : Float64) (W : Type 0) (uc : AggregateEvent fl W) (stored : W → String → Bool)
    (R : IsRepository fl W uc stored) (delete : String → Call W (Option GoError))
    (delete_keeps : (handle : String) (w : W) (id : String)
      → stored w id ≡ true
      → stored (delete handle w).1 id ≡ true)
    (workers : ℤ) where
  abbrev step : Message fl → Counted fl W → Counted fl W
  step msg s = (run_one fl (Counted fl W) (aggregator fl W uc delete workers) msg s).1

  abbrev loop : List (Message fl) → Counted fl W → Counted fl W
  loop jobs s = (worker_loop fl (Counted fl W) (aggregator fl W uc delete workers) jobs s).1

  execute_keeps :
      (e : ProcessedEvent fl) (s : Counted fl W) (id : String)
      → stored s.world id ≡ true
      → stored (execute fl (Counted fl W) (counting fl W uc) e s).1.world id ≡ true
  execute_keeps e s id h = elim (execute-Leaves fl W uc e s) [
    | inl same ↦ rw same h
    | inr (inl saved) ↦ rw saved (R.save_keeps e s.world id h)
    | inr (inr (found, counted)) ↦
        rw counted (R.update_keeps e (uc.save_event e s.world).1 id (R.save_keeps e s.world id h))
  ]

  run_one_keeps :
      (msg : Message fl) (s : Counted fl W) (id : String)
      → stored s.world id ≡ true
      → stored (step msg s).world id ≡ true
  unfolding run_one aggregator
  run_one_keeps msg s id h =
      let kept = execute_keeps msg.event s id h in
      let s' : Counted fl W = (execute fl (Counted fl W) (counting fl W uc) msg.event s).1 in
      ground (arith, kept, delete_keeps msg.receipt_handle s'.world id kept)

  loop_redelivered :
      (id : String) (again : List (Message fl)) (s : Counted fl W)
      → All (λ (m : Message fl). m.event.event_id ≡ id) again
      → stored s.world id ≡ true
      → (loop again s).counted ≡ s.counted
  unfolding worker_loop
  loop_redelivered id [] s same h = refl
  loop_redelivered id (msg ∷ again) s same h =
      loop_redelivered id again (step msg s) same.1 (run_one_keeps msg s id h)
      ∙ run_one_redelivered fl W uc stored R delete delete_keeps workers msg s (rw same.0 h)

  first_try :
      (msg : Message fl) (s : Counted fl W) (err : GoError)
      → eqb_ℤ msg.event.schema_version supported_schema_version ≡ true
      → (uc.save_event msg.event s.world).0 ≡ returned none
      → (uc.update_summary msg.event (uc.save_event msg.event s.world).1).0 ≡ returned (some err)
      → let (r, s') = run_one fl (Counted fl W) (aggregator fl W uc delete workers) msg s in
        (r.status ≡ status_error)
        × (s'.counted ≡ msg.event ∷ s.counted)
        × (s'.world ≡ (uc.update_summary msg.event (uc.save_event msg.event s.world).1).1)
  unfolding run_one aggregator execute
  first_try msg s err v saved failed = (
    ground (arith, v, saved, failed),
    ground (arith, v, saved, failed),
    ground (arith, v, saved, failed),
  )

  -- With ports that keep their contract and a Delete that removes no row: when SaveEvent succeeds for
  -- an event of the supported schema and UpdateSummary then fails, the worker reports an error, and
  -- UpdateSummary is called for none of the redeliveries: a failed update is never tried again.
  pub worker_loop_uncounted :
      (msg : Message fl) (s : Counted fl W) (err : GoError) (again : List (Message fl))
      → eqb_ℤ msg.event.schema_version supported_schema_version ≡ true
      → (uc.save_event msg.event s.world).0 ≡ returned none
      → (uc.update_summary msg.event (uc.save_event msg.event s.world).1).0 ≡ returned (some err)
      → All (λ (m : Message fl). m.event.event_id ≡ msg.event.event_id) again
      → let (r, s') = run_one fl (Counted fl W) (aggregator fl W uc delete workers) msg s in
        (r.status ≡ status_error)
        × (s'.counted ≡ msg.event ∷ s.counted)
        × ((loop again s').counted ≡ s'.counted)
  worker_loop_uncounted msg s err again v saved failed same =
      let (status, counted, world) = first_try msg s err v saved failed in
      let there =
        R.update_keeps msg.event (uc.save_event msg.event s.world).1 msg.event.event_id
          (R.save_fresh msg.event s.world saved).1 in
      (
        status,
        counted,
        loop_redelivered msg.event.event_id again (step msg s) same (rw world there),
      )
