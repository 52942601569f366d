-- ===== src/Tests/Aggregator.antt =====
-- Deliveries to the aggregator over the DynamoDB in memory.
use devflow_pipeline.Prelude.{String, true, ◌≡◌, refl, Option, none, some, List, [], ◌∷◌, pos}
use devflow_pipeline.Go.Error.{GoError}
use devflow_pipeline.Go.Call.{Call, return, returned}
use devflow_pipeline.Aggregator.Domain.{ProcessedEvent, to_record, is_already_processed}
use devflow_pipeline.Aggregator.UseCase.Defs.{AggregateEvent, execute}
use devflow_pipeline.Aggregator.UseCase.AtMostOnce.{
  Counted, aggregator, DistinctIds, IsRepository, worker_loop-DistinctIds,
}
use devflow_pipeline.Aggregator.Worker.Defs.{Message, run_one, worker_loop}
use devflow_pipeline.Aggregator.Repository.Defs.{save_event, update_summary}
use devflow_pipeline.Aws.Dynamo.{find, is_conditional_check}
use devflow_pipeline.Aggregator.Repository.Contract.{stored_by, use_case-IsRepository}
use devflow_pipeline.Aggregator.Repository.Totals.{Totals, ShowsRow, totals_of}
use devflow_pipeline.Aggregator.Repository.Sums.{worker_loop-sums}
use devflow_pipeline.Tests.Fixtures.{integers, at_second}
use devflow_pipeline.Go.Error.{errors_new}
use devflow_pipeline.Report.{status_error}
use devflow_pipeline.Aggregator.UseCase.Lost.{worker_loop_uncounted}
use devflow_pipeline.Tests.Answers.{ports, stored, memory-Answers}
use devflow_pipeline.Aggregator.UseCase.Complete.{AllCounted, worker_loop-AllCounted}
use devflow_pipeline.Aggregator.Domain.{increments_for}
use devflow_pipeline.Aggregator.Repository.Totals.{
  AddsRest, plus_increments, count_event, plus_increments-count_event,
}
use devflow_pipeline.Propagation.{get, set, get-set}
use devflow_pipeline.Tests.Memory.{
  Tables, rows, plus, plus-itoa, marshal_map, repository, memory-Assumptions,
}

abbrev pub commits : ProcessedEvent integers
commits = record {
  schema_version = pos 1;
  event_id = "e-1";
  developer_id = "dev-1";
  metric_type = "commits";
  value = pos 3;
  repository = "org/repo";
  timestamp = at_second 1000;
  processed_at = at_second 1001;
  processor_id = "p-1";
}

abbrev pub review : ProcessedEvent integers
review = record commits { event_id = "e-2"; metric_type = "review_time_minutes"; value = pos 45 }

abbrev future_schema : ProcessedEvent integers
future_schema = record commits { event_id = "e-3"; schema_version = pos 2 }

abbrev pub message : ProcessedEvent integers → Message integers
message e = record { event = e; receipt_handle = "rh"; message_id = "m" }

-- The first event arrives twice.
abbrev jobs : List (Message integers)
jobs = message commits ∷ message review ∷ message commits ∷ message future_schema ∷ []

abbrev pub empty : Tables
empty = λ table id. none

pub ports-IsRepository : IsRepository integers Tables ports stored
ports-IsRepository =
    use_case-IsRepository integers Tables marshal_map repository plus rows memory-Assumptions

abbrev pub forget : String → Call Tables (Option GoError)
forget handle = return none

abbrev final : List (Message integers) → Counted integers Tables
final ms =
    (worker_loop integers (Counted integers Tables)
      (aggregator integers Tables ports forget (pos 5)) ms
      (record { world = empty; counted = [] })).1

use_case-IsRepository_example :
    IsRepository integers Tables ports (stored_by integers Tables marshal_map repository rows)
use_case-IsRepository_example =
    use_case-IsRepository integers Tables marshal_map repository plus rows memory-Assumptions

worker_loop-DistinctIds_example : DistinctIds integers Tables (final jobs).counted
worker_loop-DistinctIds_example =
    worker_loop-DistinctIds integers Tables ports
      (stored_by integers Tables marshal_map repository rows) ports-IsRepository forget
      (λ handle w id h. h) (pos 5) jobs empty

review_stored :
    stored_by integers Tables marshal_map repository rows (final jobs).world "e-2" ≡ true
unfolding worker_loop aggregator execute save_event update_summary to_record find
    is_already_processed is_conditional_check
review_stored = refl

final_counted : (final jobs).counted ≡ review ∷ commits ∷ []
unfolding worker_loop aggregator execute save_event update_summary to_record find
    is_already_processed is_conditional_check
final_counted = refl

pub updates_succeed :
    (e : ProcessedEvent integers) (w : Tables)
    → (update_summary integers Tables repository e w).0 ≡ returned none
unfolding update_summary
updates_succeed e w = refl

worker_loop-sums_example :
    ((dev : String)
      → ShowsRow
          (rows (final jobs).world "developer_summary" dev)
          (totals_of integers dev (final jobs).counted))
    × DistinctIds integers Tables (final jobs).counted
worker_loop-sums_example =
    worker_loop-sums integers Tables marshal_map repository plus rows memory-Assumptions plus-itoa
      updates_succeed forget (λ handle w table id. refl) (pos 5) jobs empty (λ dev. refl)

worker_loop-AllCounted_example : AllCounted integers jobs (final jobs).counted
worker_loop-AllCounted_example =
    worker_loop-AllCounted integers Tables ports stored memory-Answers forget (λ handle w id. refl)
      (pos 5) jobs empty (λ id. refl)

abbrev some_totals : Totals
some_totals = record {
  commits = pos 4;
  pull_requests = pos 2;
  review_time_count = pos 0;
  events_processed = pos 6;
}

plus_increments-count_event_example :
    (plus_increments integers some_totals (increments_for integers commits (at_second 2000))
      ≡ count_event integers some_totals commits)
    × AddsRest integers commits (at_second 2000) (increments_for integers commits (at_second 2000))
plus_increments-count_event_example =
    plus_increments-count_event integers some_totals commits (at_second 2000)

get-set_example :
    get
      (set
        (some (
          ("traceparent", record { data_type = some "String"; string_value = some "00-a-b-01" })
          ∷ []))
        "traceparent"
        "00-c-d-01")
      "traceparent"
    ≡ "00-c-d-01"
get-set_example =
    get-set
      (some (
        ("traceparent", record { data_type = some "String"; string_value = some "00-a-b-01" })
        ∷ []))
      "traceparent" "traceparent" "00-c-d-01"

-- Ports whose updates are throttled.
abbrev throttled : AggregateEvent integers Tables
throttled = record ports { update_summary = λ e w. (returned (some (errors_new "throttled")), w) }

throttled-IsRepository : IsRepository integers Tables throttled stored
throttled-IsRepository = record {
  save_fresh = ports-IsRepository.save_fresh;
  save_keeps = ports-IsRepository.save_keeps;
  update_keeps = λ e w id h. h;
}

abbrev start : Counted integers Tables
start = record { world = empty; counted = [] }

save_fresh_row : (ports.save_event commits empty).0 ≡ returned none
unfolding save_event to_record find is_conditional_check
save_fresh_row = refl

worker_loop_uncounted_example :
    let (r, s') =
      run_one integers
        (Counted integers Tables)
        (aggregator integers Tables throttled forget (pos 5))
        (message commits)
        start in
    (r.status ≡ status_error)
    × (s'.counted ≡ commits ∷ [])
    × ((worker_loop integers
          (Counted integers Tables)
          (aggregator integers Tables throttled forget (pos 5))
          (message commits ∷ message commits ∷ [])
          s').1.counted
        ≡ s'.counted)
worker_loop_uncounted_example =
    worker_loop_uncounted integers Tables throttled stored throttled-IsRepository forget
      (λ handle w id h. h) (pos 5) (message commits) start (errors_new "throttled")
      (message commits ∷ message commits ∷ []) refl save_fresh_row refl (refl, (refl, tt))
