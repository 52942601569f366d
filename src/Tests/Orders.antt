-- ===== src/Tests/Orders.antt =====
-- Two workers and two events, in both orders.
use mathlib.Core.Quot
use mathlib.Core.List.Permᴰ.{swap}
use devflow_pipeline.Prelude.{ℕ, ◌<◌, arith, ◌≡◌, ◌==◌, if◌then◌else◌, refl, none}
use devflow_pipeline.Aggregator.Domain.{ProcessedEvent, to_record}
use devflow_pipeline.Aggregator.Repository.Defs.{save_event, update_summary}
use devflow_pipeline.Aggregator.Repository.Totals.{Totals, ShowsRow}
use devflow_pipeline.Aggregator.Repository.Bag.{bag_of}
use devflow_pipeline.Aws.Dynamo.{find}
use devflow_pipeline.Aggregator.Concurrent.Defs.{idle, begin, advance, take, call, start, more}
use devflow_pipeline.Aggregator.Concurrent.Interleavings.{Runs}
use devflow_pipeline.Aggregator.Concurrent.Orders.{RunsTo, run-bag_of}
use devflow_pipeline.Tests.Fixtures.{integers}
use devflow_pipeline.Tests.Memory.{
  Tables, rows, plus, plus-itoa, marshal_map, repository, memory-Assumptions,
}
use devflow_pipeline.Tests.Answers.{ports}
use devflow_pipeline.Tests.Aggregator.{commits, review, message, forget, updates_succeed}
use devflow_pipeline.Tests.Concurrent.{Shared, fresh_pool, called, fresh_pool-IsFresh}

abbrev took : ℕ → ProcessedEvent integers → Shared → Shared
took i e s = record s { phase = λ j. if j == i then begin integers (message e) else s.phase j }

-- Worker `i` takes the event, saves it and updates the summary.
abbrev served : ℕ → ProcessedEvent integers → Shared → Shared
served i e s = called i (called i (took i e s))

serve :
    (s : Shared) (i : ℕ) (e : ProcessedEvent integers)
    → Runs integers Tables ports forget 5 fresh_pool s
    → i < 5
    → s.phase i ≡ idle none
    → Runs integers Tables ports forget 5 fresh_pool (served i e s)
serve s i e runs below q =
    more fresh_pool (called i (took i e s)) (served i e s)
      (more fresh_pool (took i e s) (called i (took i e s))
        (more fresh_pool s (took i e s) runs (take s i none (message e) below q))
        (call (took i e s) i below))
      (call (called i (took i e s)) i below)

abbrev pair : ProcessedEvent integers → ProcessedEvent integers → Shared
pair d e = served 1 e (served 0 d fresh_pool)

pair-RunsTo :
    (d e : ProcessedEvent integers)
    → RunsTo integers Tables marshal_map repository plus rows memory-Assumptions plus-itoa
        updates_succeed forget
        (λ handle w table id. refl)
        5
        (pair d e)
pair-RunsTo d e = record {
  first = fresh_pool;
  runs =
      serve (served 0 d fresh_pool) 1 e (serve fresh_pool 0 d (start fresh_pool) (omega arith) refl)
        (omega arith) refl;
  is_fresh = fresh_pool-IsFresh;
  empty = λ dev. refl;
}

same_bag :
    bag_of integers (pair commits review).shared.counted
    ≡ bag_of integers (pair review commits).shared.counted
unfolding advance begin save_event update_summary find to_record
same_bag = Quot.sound (swap refl refl)

run-bag_of_example :
    (shown : Totals) × ShowsRow
      ((pair commits review).shared.world "developer_summary" "dev-1")
      shown
    × ShowsRow ((pair review commits).shared.world "developer_summary" "dev-1") shown
run-bag_of_example =
    run-bag_of integers Tables marshal_map repository plus rows memory-Assumptions plus-itoa
      updates_succeed forget (λ handle w table id. refl) 5 5 (pair commits review)
      (pair review commits) (pair-RunsTo commits review) (pair-RunsTo review commits) same_bag
      "dev-1"
