-- ===== src/Tests/Processor.antt =====
-- The validation and a worker of the processor.
use devflow_pipeline.Prelude.{
  ℕ, suc, ◌*◌, ◌+◌, ◌^◌, String, ◌≡◌, ◌≢◌, ◌↔◌, refl, Option, none, some, List, [], ◌∷◌, ◌++◌,
  arith, str_eq, if◌then◌else◌, eq_iff, pos, negsuc, ◌+ℤ◌,
}
use devflow_pipeline.Go.Error.{GoError, validation_error}
use devflow_pipeline.Go.Call.{return, panic, returned}
use devflow_pipeline.Go.Text.{trim_space}
use devflow_pipeline.Aws.Sqs.{SqsMessage}
use devflow_pipeline.Processor.Domain.Event.{RawEvent, validate, metric_valid}
use devflow_pipeline.Processor.Domain.Rules.{IsAcceptable, validate-none_iff}
use devflow_pipeline.Processor.Domain.Stability.{
  in_the_future, validate_permanent, validate_transient, validate-none_later,
}
use devflow_pipeline.Processor.UseCase.{execute, enrich}
use devflow_pipeline.Processor.Queue.Defs.{Message}
use devflow_pipeline.Processor.Queue.Partition.{Splits, HasFields, split_messages-IsSplit}
use devflow_pipeline.Processor.Worker.Defs.{run_one, worker_loop}
use devflow_pipeline.Processor.Worker.Acks.{
  Ports, Logged, Action, published, deleted, processor, run_one-publishes, run_one-rejects, IsLog,
  worker_loop-IsLog,
}
use devflow_pipeline.Tests.Fixtures.{integers, at_second, any_uuid, commit_event}

abbrev check : RawEvent integers → ℕ → Option GoError
check e n = validate integers any_uuid e (at_second n)

commit_accepted : check commit_event 1000 ≡ none
unfolding validate trim_space metric_valid ◌+ℤ◌
commit_accepted = refl

-- Five minutes ahead is accepted, and a nanosecond more is not.
skew_edge :
    (check commit_event 700 ≡ none)
    × (validate integers any_uuid
          (record commit_event {
            timestamp = record { instant = pos (1000 * 10 ^ 9 + 1); offset = pos 0 };
          })
          (at_second 700)
        ≡ some in_the_future)
unfolding validate trim_space metric_valid ◌+ℤ◌
skew_edge = (refl, refl)

rejections :
    (check (record commit_event { event_id = "" }) 1000
      ≡ some (validation_error "event_id" "is required"))
    × (check (record commit_event { developer_id = " \t " }) 1000
        ≡ some (validation_error "developer_id" "is required"))
    × (check (record commit_event { value = negsuc 0 }) 1000
        ≡ some (validation_error "value" "must be >= 0"))
    × (check (record commit_event { metric_type = "review_time_minutes"; value = pos 1441 }) 1000
        ≡ some (validation_error "value" "review_time_minutes cannot exceed 1440"))
    × (check (record commit_event { timestamp = at_second 0 }) 1000
        ≡ some (validation_error "timestamp" "is required"))
unfolding validate trim_space metric_valid ◌+ℤ◌
rejections = (refl, refl, refl, refl, refl)

validate-none_iff_example :
    (check commit_event 1000 ≡ none) ↔ IsAcceptable integers any_uuid commit_event (at_second 1000)
validate-none_iff_example = validate-none_iff integers any_uuid commit_event (at_second 1000)

abbrev pub negative : RawEvent integers
negative = record commit_event { value = negsuc 4 }

abbrev value_error : GoError
value_error = validation_error "value" "must be >= 0"

value_error-ne-future : value_error ≢ in_the_future
value_error-ne-future p = ground (arith, p, eq_iff "value" "timestamp")

negative_rejected : check negative 1000 ≡ some value_error
unfolding validate trim_space metric_valid ◌+ℤ◌
negative_rejected = refl

validate_permanent_example : check negative 9000 ≡ some value_error
validate_permanent_example =
    validate_permanent integers any_uuid negative (at_second 1000) (at_second 9000) value_error
      negative_rejected value_error-ne-future

early_rejected : check commit_event 10 ≡ some in_the_future
unfolding validate trim_space metric_valid ◌+ℤ◌
early_rejected = refl

validate_transient_example : check commit_event 1000 ≡ none
validate_transient_example =
    validate_transient integers any_uuid commit_event (at_second 10) early_rejected

validate-none_later_example : check commit_event 2000 ≡ none
validate-none_later_example =
    validate-none_later integers any_uuid commit_event (at_second 1000) (at_second 2000)
      (omega arith) commit_accepted

-- The body "{}" holds the event, and no other body parses.
abbrev read_body : String → Option (RawEvent integers)
read_body body = if str_eq body "{}" then some commit_event else none

abbrev raw_message : SqsMessage
raw_message = record {
  body = some "{}";
  receipt_handle = some "rh-1";
  message_id = some "m-1";
  attributes = none;
}

abbrev bad_message : SqsMessage
bad_message = record raw_message { body = some "?" }

abbrev bad_message-HasFields : HasFields bad_message
bad_message-HasFields = record {
  body = "?";
  body_set = refl;
  receipt_handle = "rh-1";
  receipt_handle_set = refl;
  message_id = "m-1";
  message_id_set = refl;
}

abbrev raw_message-HasFields : HasFields raw_message
raw_message-HasFields = record {
  body = "{}";
  body_set = refl;
  receipt_handle = "rh-1";
  receipt_handle_set = refl;
  message_id = "m-1";
  message_id_set = refl;
}

split_messages-IsSplit_example : Splits integers read_body ℕ (raw_message ∷ bad_message ∷ [])
split_messages-IsSplit_example =
    split_messages-IsSplit integers read_body ℕ (raw_message ∷ bad_message ∷ [])
      (raw_message-HasFields, (bad_message-HasFields, tt))

-- The world counts the seconds. The clock ticks once for each reading, the queue takes everything.
abbrev pub ports : Ports integers ℕ
ports = record {
  publish = λ event. return none;
  delete = λ handle. return none;
  clock = λ n. (returned (at_second n), suc n);
}

abbrev broken_ports : Ports integers ℕ
broken_ports = record ports { publish = λ event. panic "boom" }

abbrev pub message : RawEvent integers → String → Message integers
message e handle = record { event = e; receipt_handle = handle; message_id = "m" }

abbrev start : Logged integers ℕ
start = record { world = 1000; log = [] }

two_messages :
    (worker_loop integers
      (Logged integers ℕ)
      (processor integers ℕ any_uuid ports "p-1" (pos 5))
      (message commit_event "a" ∷ message negative "b" ∷ [])
      start).1
    ≡ record {
      world = 1002;
      log = published (enrich integers "p-1" (at_second 1000) commit_event) ∷ deleted "a" ∷ [];
    }
unfolding worker_loop processor execute validate trim_space metric_valid ◌+ℤ◌
two_messages = refl

panic_contained :
    (run_one integers
      (Logged integers ℕ)
      (processor integers ℕ any_uuid broken_ports "p-1" (pos 5))
      (message commit_event "a")
      start).1
    ≡ record { world = 1001; log = [] }
unfolding run_one processor execute validate trim_space metric_valid ◌+ℤ◌
panic_contained = refl

run_one-publishes_example :
    (run_one integers
      (Logged integers ℕ)
      (processor integers ℕ any_uuid ports "p-1" (pos 5))
      (message commit_event "a")
      start).1.log
    ≡ published (enrich integers "p-1" (at_second 1000) commit_event) ∷ deleted "a" ∷ []
run_one-publishes_example =
    run_one-publishes integers ℕ any_uuid ports "p-1" (pos 5) (message commit_event "a") start
      (at_second 1000) 1001 1001 refl
      ((validate-none_iff integers any_uuid commit_event (at_second 1000)).0 commit_accepted) refl

run_one-rejects_example :
    let (r, s) =
      run_one integers
        (Logged integers ℕ)
        (processor integers ℕ any_uuid ports "p-1" (pos 5))
        (message negative "b")
        start in
    (s ≡ record { world = 1001; log = [] }) × (r.rejection_kind ≡ some "validation")
run_one-rejects_example =
    run_one-rejects integers ℕ any_uuid ports "p-1" (pos 5) (message negative "b") start
      (at_second 1000) 1001 value_error refl negative_rejected

worker_loop-IsLog_example :
    let jobs = message commit_event "a" ∷ message negative "b" ∷ [] in
    let (reports, s') =
      worker_loop integers
        (Logged integers ℕ)
        (processor integers ℕ any_uuid ports "p-1" (pos 5))
        jobs
        start in
    (added : List (Action integers ℕ)) × (s'.log ≡ start.log ++ added)
    × IsLog integers ℕ any_uuid "p-1" jobs reports added
worker_loop-IsLog_example =
    worker_loop-IsLog integers ℕ any_uuid ports "p-1" (pos 5)
      (message commit_event "a" ∷ message negative "b" ∷ []) start
