-- ===== src/Tests/Concurrent.antt =====
-- Two workers that take one event at the same time.
use devflow_pipeline.Prelude.{ℕ, arith, ◌==◌, if◌then◌else◌, refl, String, none, []}
use devflow_pipeline.Aggregator.UseCase.AtMostOnce.{
  Counted, counting, DistinctIds, deleting as logged_delete,
}
use devflow_pipeline.Aggregator.Repository.Totals.{ShowsRow, totals_of}
use devflow_pipeline.Aggregator.Concurrent.Defs.{
  Phase, idle, begin, advance, take, call, start, more,
}
use devflow_pipeline.Aggregator.Concurrent.Interleavings.{Pools, Runs, IsFresh, run-DistinctIds}
use devflow_pipeline.Aggregator.Concurrent.Sums.{run-sums}
use devflow_pipeline.Tests.Fixtures.{integers}
use devflow_pipeline.Tests.Memory.{
  Tables, rows, plus, plus-itoa, marshal_map, repository, memory-Assumptions,
}
use devflow_pipeline.Tests.Answers.{ports, stored}
use devflow_pipeline.Tests.Aggregator.{
  commits, message, empty, forget, updates_succeed, ports-IsRepository,
}

abbrev pub Shared : Type 0
Shared = Pools integers Tables ports forget

abbrev pub fresh_pool : Shared
fresh_pool = record { shared = record { world = empty; counted = [] }; phase = λ i. idle none }

abbrev next : Phase integers → Counted integers Tables → Phase integers × Counted integers Tables
next =
    advance integers (Counted integers Tables) (counting integers Tables ports)
      (logged_delete integers Tables forget)

abbrev took : ℕ → Shared → Shared
took i s = record s { phase = λ j. if j == i then begin integers (message commits) else s.phase j }

abbrev pub called : ℕ → Shared → Shared
called i s = record {
  shared = (next (s.phase i) s.shared).1;
  phase = λ j. if j == i then (next (s.phase i) s.shared).0 else s.phase j;
}

abbrev both_took : Shared
both_took = took 1 (took 0 fresh_pool)

abbrev both_saved : Shared
both_saved = called 1 (called 0 both_took)

abbrev pub both_done : Shared
both_done = called 1 (called 0 both_saved)

pub race : Runs integers Tables ports forget 5 fresh_pool both_done
race =
    more fresh_pool (called 0 both_saved) both_done
      (more fresh_pool both_saved (called 0 both_saved)
        (more fresh_pool (called 0 both_took) both_saved
          (more fresh_pool both_took (called 0 both_took)
            (more fresh_pool (took 0 fresh_pool) both_took
              (more fresh_pool fresh_pool (took 0 fresh_pool) (start fresh_pool)
                (take fresh_pool 0 none (message commits) (omega arith) refl))
              (take (took 0 fresh_pool) 1 none (message commits) (omega arith) refl))
            (call both_took 0 (omega arith)))
          (call (called 0 both_took) 1 (omega arith)))
        (call both_saved 0 (omega arith)))
      (call (called 0 both_saved) 1 (omega arith))

pub fresh_pool-IsFresh : IsFresh integers Tables ports forget fresh_pool
fresh_pool-IsFresh = (refl, λ i. refl)

run-DistinctIds_example : DistinctIds integers Tables both_done.shared.counted
run-DistinctIds_example =
    run-DistinctIds integers Tables ports stored ports-IsRepository forget (λ handle w id h. h) 5
      fresh_pool both_done race fresh_pool-IsFresh

run-sums_example :
    ((dev : String)
      → ShowsRow
          (both_done.shared.world "developer_summary" dev)
          (totals_of integers dev both_done.shared.counted))
    × DistinctIds integers Tables both_done.shared.counted
run-sums_example =
    run-sums integers Tables marshal_map repository plus rows memory-Assumptions plus-itoa
      updates_succeed forget (λ handle w table id. refl) 5 fresh_pool both_done race
      fresh_pool-IsFresh (λ dev. refl)
