-- ===== src/Aggregator/Concurrent/Orders.antt =====
-- Two runs of the aggregator's workers that count the same events, each in its own order.
use devflow_pipeline.Prelude.{ℕ, String, ◌≡◌, Option, none, ℤ, ◌+ℤ◌}
use devflow_pipeline.Go.Error.{GoError}
use devflow_pipeline.Go.Call.{Call, Result, returned}
use devflow_pipeline.Go.Decimal.{itoa}
use devflow_pipeline.Go.Float.{Float64}
use devflow_pipeline.Aws.Dynamo.{Item}
use devflow_pipeline.Aggregator.Domain.{ProcessedEvent, EventRecord}
use devflow_pipeline.Aggregator.Repository.Defs.{DynamoDb, update_summary}
use devflow_pipeline.Aggregator.Repository.Contract.{use_case, Assumptions}
use devflow_pipeline.Aggregator.Repository.Totals.{Totals, ShowsRow, totals_of}
use devflow_pipeline.Aggregator.Repository.Bag.{bag_of, totals_of-bag_of}
use devflow_pipeline.Aggregator.Concurrent.Interleavings.{Pools, Runs, IsFresh}
use devflow_pipeline.Aggregator.Concurrent.Sums.{run-sums}

module _ (fl : Float64) (W : Type 0) (marshal_map : EventRecord fl → Result Item)
    (r : DynamoDb fl W) (plus : String → String → String) (row : W → String → String → Option Item)
    (a : Assumptions fl W marshal_map r plus row)
    (adds : (m n : ℤ) → plus (itoa m) (itoa n) ≡ itoa (m +ℤ n))
    (succeeds : (e : ProcessedEvent fl) (w : W) → (update_summary fl W r e w).0 ≡ returned none)
    (delete : String → Call W (Option GoError))
    (delete_keeps : (handle : String) (w : W) (table id : String)
      → row (delete handle w).1 table id ≡ row w table id) where
  -- A run of some workers to `t`, from a fresh pool and an empty summary table.
  pub record RunsTo (workers : ℕ) (t : Pools fl W (use_case fl W marshal_map r) delete)
      : Type 0 where
    pub first : Pools fl W (use_case fl W marshal_map r) delete
    pub runs : Runs fl W (use_case fl W marshal_map r) delete workers first t
    pub is_fresh : IsFresh fl W (use_case fl W marshal_map r) delete first
    pub empty : (dev : String) → row first.shared.world r.summary_table dev ≡ none

  -- Over a DynamoDB that behaves as documented and adds decimals, with updates that all succeed and a
  -- Delete that touches no row: two runs from fresh pools and empty summary tables, of any numbers of
  -- workers and with any interleavings, that have counted the same bag of events show the same
  -- integer counters in the row of each developer.
  pub run-bag_of :
      (m n : ℕ) (t u : Pools fl W (use_case fl W marshal_map r) delete)
      → RunsTo m t
      → RunsTo n u
      → bag_of fl t.shared.counted ≡ bag_of fl u.shared.counted
      → (dev : String)
      → (shown : Totals) × ShowsRow (row t.shared.world r.summary_table dev) shown
        × ShowsRow (row u.shared.world r.summary_table dev) shown
  run-bag_of m n t u to_t to_u same dev =
      let (shows_t, distinct_t) =
        run-sums fl W marshal_map r plus row a adds succeeds delete delete_keeps m to_t.first t
          to_t.runs to_t.is_fresh to_t.empty in
      let (shows_u, distinct_u) =
        run-sums fl W marshal_map r plus row a adds succeeds delete delete_keeps n to_u.first u
          to_u.runs to_u.is_fresh to_u.empty in
      (
        totals_of fl dev t.shared.counted,
        shows_t dev,
        rw (totals_of-bag_of fl dev t.shared.counted u.shared.counted same) (shows_u dev),
      )
