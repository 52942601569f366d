-- ===== src/Tests/Fixtures.antt =====
-- Numbers, events and ports for the tests. Integers stand for `float64`.
use devflow_pipeline.Prelude.{
  ℕ, ◌*◌, String, Bool, true, none, some, [], ℤ, pos, pos_part, ltb_ℤ, floor_div,
}
use devflow_pipeline.Go.Call.{return, ok}
use devflow_pipeline.Aws.Sqs.{SqsApi}
use devflow_pipeline.Go.Decimal.{itoa}
use devflow_pipeline.Go.Float.{Float64}
use devflow_pipeline.Go.Time.{Time, second}
use devflow_pipeline.Processor.Domain.Event.{RawEvent}

abbrev pub integers : Float64
integers = record {
  Float = ℤ;
  lt = ltb_ℤ;
  of_ℕ = pos;
  of_ℤ = λ n. n;
  to_int64 = λ n. n;
  div = λ a b. floor_div a (pos_part b);
  ftoa = itoa;
}

abbrev pub at_second : ℕ → Time
at_second n = record { instant = pos (n * second); offset = pos 0 }

abbrev pub any_uuid : String → Bool
any_uuid s = true

abbrev pub commit_event : RawEvent integers
commit_event = record {
  event_id = "6ba7b810-9dad-11d1-80b4-00c04fd430c8";
  developer_id = "dev-1";
  metric_type = "commits";
  value = pos 3;
  repository = "org/repo";
  timestamp = at_second 1000;
}

-- An SQS that accepts everything and has nothing to deliver.
abbrev pub quiet_sqs : SqsApi ℕ
quiet_sqs = record {
  receive_message = λ url n wait. return (ok []);
  delete_message = λ url handle. return none;
  send_message = λ url body attributes. return none;
  get_queue_url = λ name. return (ok (some name));
}
