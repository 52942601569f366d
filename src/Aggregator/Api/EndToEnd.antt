-- ===== src/Aggregator/Api/EndToEnd.antt =====
-- From the messages of the aggregator to the summaries that its API serves.
use devflow_pipeline.Prelude.{ℕ, String, ◌≡◌, ◌≢◌, Option, none, ℤ, ◌+ℤ◌}
use devflow_pipeline.Go.Error.{GoError}
use devflow_pipeline.Go.Call.{Call, Result, returned}
use devflow_pipeline.Go.Decimal.{itoa}
use devflow_pipeline.Go.Float.{Float64}
use devflow_pipeline.Aws.Dynamo.{Item}
use devflow_pipeline.Aggregator.Domain.{ProcessedEvent, EventRecord, DeveloperSummary}
use devflow_pipeline.Aggregator.Repository.Defs.{DynamoDb, update_summary}
use devflow_pipeline.Aggregator.Repository.Contract.{use_case, Assumptions}
use devflow_pipeline.Aggregator.Repository.Totals.{totals_of}
use devflow_pipeline.Aggregator.Concurrent.Interleavings.{Pools, Runs, IsFresh}
use devflow_pipeline.Aggregator.Concurrent.Sums.{run-sums}
use devflow_pipeline.Aggregator.Api.Defs.{summary}
use devflow_pipeline.Aggregator.Api.Totals.{
  Fits, CaughtUp, Reads, IsSummary, new_handler, summary-ShowsRow,
}

module _ (fl : Float64) (W : Type 0) (marshal_map : EventRecord fl → Result Item)
    (r : DynamoDb fl W) (plus : String → String → String) (row : W → String → String → Option Item)
    (a : Assumptions fl W marshal_map r plus row)
    (adds : (m n : ℤ) → plus (itoa m) (itoa n) ≡ itoa (m +ℤ n))
    (succeeds : (e : ProcessedEvent fl) (w : W) → (update_summary fl W r e w).0 ≡ returned none)
    (delete : String → Call W (Option GoError))
    (delete_keeps : (handle : String) (w : W) (table id : String)
      → row (delete handle w).1 table id ≡ row w table id)
    (workers : ℕ) (unmarshal_event : Item → Result (EventRecord fl))
    (unmarshal_map : Item → Result (DeveloperSummary fl)) (ping_sqs : Call W (Option GoError))
    (error_text : GoError → String) (b : Reads fl unmarshal_map) where
  -- Under the assumptions on DynamoDB and its codec, with updates that all succeed and a Delete that
  -- touches no row: after any interleaving of the workers' calls, from a fresh pool and an empty
  -- summary table, if GetItem, which reads with eventual consistency, returns the developer's row as it
  -- then is, the summary of that developer answers with the sums over that developer's counted events,
  -- if `int64` holds these sums.
  pub run-summary :
      (s t : Pools fl W (use_case fl W marshal_map r) delete)
      → Runs fl W (use_case fl W marshal_map r) delete workers s t
      → IsFresh fl W (use_case fl W marshal_map r) delete s
      → ((dev : String) → row s.shared.world r.summary_table dev ≡ none)
      → (dev : String) → dev ≢ ""
      → CaughtUp fl W r row dev t.shared.world
      → Fits (totals_of fl dev t.shared.counted)
      → IsSummary fl
          (summary fl W
            (new_handler fl W r unmarshal_event unmarshal_map ping_sqs error_text)
            dev
            t.shared.world).0
          (totals_of fl dev t.shared.counted)
  run-summary s t runs is_fresh empty dev named got fits =
      let (shows, distinct) =
        run-sums fl W marshal_map r plus row a adds succeeds delete delete_keeps workers s t runs
          is_fresh empty in
      summary-ShowsRow fl W r unmarshal_event unmarshal_map ping_sqs error_text row b t.shared.world
        dev (totals_of fl dev t.shared.counted) named got (shows dev) fits
