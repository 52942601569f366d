-- ===== src/Aggregator/Concurrent/Sums.antt =====
-- The developers' rows under several workers on the DynamoDB repository.
use devflow_pipeline.Prelude.{ℕ, String, ◌≡◌, refl, Option, none, ℤ, ◌+ℤ◌}
use devflow_pipeline.Go.Error.{GoError}
use devflow_pipeline.Go.Call.{Call, Result, returned}
use devflow_pipeline.Go.Decimal.{itoa}
use devflow_pipeline.Go.Float.{Float64}
use devflow_pipeline.Aws.Dynamo.{Item}
use devflow_pipeline.Aggregator.Domain.{ProcessedEvent, EventRecord, to_record}
use devflow_pipeline.Aggregator.UseCase.Defs.{AggregateEvent}
use devflow_pipeline.Aggregator.UseCase.AtMostOnce.{
  Counted, counting, deleting as logged_delete, DistinctIds,
}
use devflow_pipeline.Aggregator.Repository.Defs.{DynamoDb, update_summary}
use devflow_pipeline.Aggregator.Repository.Contract.{
  use_case, Assumptions, stored_by, use_case-IsRepository,
}
use devflow_pipeline.Aggregator.Repository.Totals.{ShowsRow, totals_of}
use devflow_pipeline.Aggregator.Repository.Sums.{save_frame, counted_one, IsSummed}
use devflow_pipeline.Aggregator.Concurrent.Defs.{
  Phase, idle, saving, updating, deleting, advance, take, call, start, more,
}
use devflow_pipeline.Aggregator.Concurrent.Interleavings.{Pools, Runs, IsFresh, run-DistinctIds}

module _ (fl : Float64) (W : Type 0) (marshal_map : EventRecord fl → Result Item)
    (r : DynamoDb fl W) (plus : String → String → String) (row : W → String → String → Option Item)
    (a : Assumptions fl W marshal_map r plus row)
    (adds : (m n : ℤ) → plus (itoa m) (itoa n) ≡ itoa (m +ℤ n))
    (succeeds : (e : ProcessedEvent fl) (w : W) → (update_summary fl W r e w).0 ≡ returned none)
    (delete : String → Call W (Option GoError))
    (delete_keeps : (handle : String) (w : W) (table id : String)
      → row (delete handle w).1 table id ≡ row w table id)
    (workers : ℕ) where
  abbrev uc : AggregateEvent fl W
  uc = use_case fl W marshal_map r

  abbrev Summed : Counted fl W → Type 0
  Summed = IsSummed fl W marshal_map r plus row a adds succeeds

  abbrev next : Phase fl → Counted fl W → Phase fl × Counted fl W
  next = advance fl (Counted fl W) (counting fl W uc) (logged_delete fl W delete)

  call-Summed : (p : Phase fl) (s : Counted fl W) → Summed s → Summed (next p s).1
  unfolding advance
  call-Summed (idle last) s h dev = h dev
  call-Summed (saving msg) s h dev =
      rw
        (save_frame fl W marshal_map r plus row a adds succeeds msg.event s.world
          (marshal_map (to_record fl msg.event)) dev refl)
        (h dev)
  call-Summed (updating msg) s h dev =
      counted_one fl W marshal_map r plus row a adds succeeds msg.event s.world s.counted dev
        (h dev)
  call-Summed (deleting msg) s h dev = rw delete_keeps (h dev)

  run-Summed :
      (s t : Pools fl W uc delete)
      → Runs fl W uc delete workers s t
      → Summed s.shared
      → Summed t.shared
  run-Summed _ _ (start s) h = h
  run-Summed _ _ (more s t _ before (take _ i last msg below q)) h = run-Summed s t before h
  run-Summed _ _ (more s t _ before (call _ i below)) h =
      call-Summed (t.phase i) t.shared (run-Summed s t before h)

  -- Over a DynamoDB that behaves as documented and adds decimals, with updates that all succeed and a
  -- Delete that touches no row, from a fresh pool and an empty summary table, and however the
  -- calls of the workers interleave: the integer counters in each developer's row are the sums
  -- over the events of that developer that were counted, and no two counted events have one id.
  pub run-sums :
      (s t : Pools fl W uc delete)
      → Runs fl W uc delete workers s t
      → IsFresh fl W uc delete s
      → ((dev : String) → row s.shared.world r.summary_table dev ≡ none)
      → ((dev : String)
          → ShowsRow (row t.shared.world r.summary_table dev) (totals_of fl dev t.shared.counted))
        × DistinctIds fl W t.shared.counted
  run-sums s t runs is_fresh empty = (
    run-Summed s t runs (λ dev. rw (empty dev, is_fresh.0) (unfold totals_of in refl)),
    run-DistinctIds fl W uc (stored_by fl W marshal_map r row)
        (use_case-IsRepository fl W marshal_map r plus row a) delete
        (λ handle w id h. rw delete_keeps h) workers s t runs is_fresh,
  )
