-- ===== src/Tests/Wire.antt =====
-- Events on their way from the processor to the aggregator.
use devflow_pipeline.Prelude.{
  ℕ, String, ◌≡◌, refl, Option, none, some, List, [], ◌∷◌, ℤ, ◌+ℤ◌, str_eq, if◌then◌else◌, pos, All,
  arith,
}
use devflow_pipeline.Go.Call.{Result, ok, returned}
use devflow_pipeline.Go.Decimal.{itoa, read_integer, read_integer-itoa}
use devflow_pipeline.Go.Time.{Time}
use devflow_pipeline.Go.Time.Format.{date_time}
use devflow_pipeline.Go.Time.Json.{format_time, zone_text}
use devflow_pipeline.Go.Json.{number, literal, Members, object, Scalars, same_name, set_string}
use devflow_pipeline.Go.Json.Quote.{quote}
use devflow_pipeline.Go.Json.Unquote.{unquote}
use devflow_pipeline.Go.Json.Lex.{scan_string}
use devflow_pipeline.Go.Json.Parse.{
  parse_document, parse_object, parse_members, parse_member, parse_value, skip_space, size,
}
use devflow_pipeline.Go.Json.Print.{print}
use devflow_pipeline.Go.Json.Numbers.{IsNumber, itoa-IsNumber}
use devflow_pipeline.Aws.Sqs.{SqsMessage}
use devflow_pipeline.Processor.Domain.Event.{ProcessedEvent}
use devflow_pipeline.Processor.UseCase.{enrich}
use devflow_pipeline.Processor.Codec.{
  marshal_processed_event, processed_event_members, decode_raw_event, unmarshal_raw_event,
  zero_raw_event,
}
use devflow_pipeline.Aggregator.Codec.{unmarshal_processed_event}
use devflow_pipeline.Aggregator.Worker.Defs.{Message, worker_loop}
use devflow_pipeline.Aggregator.Queue.{split_messages}
use devflow_pipeline.Aggregator.UseCase.AtMostOnce.{Counted, aggregator as over_ports}
use devflow_pipeline.Wire.Event.{received, ReadsBack, IsExact, unmarshal-marshal}
use devflow_pipeline.Wire.Delivery.{IsDelivery, AreDelivered, nothing, one}
use devflow_pipeline.Wire.Counted.{IsEnriched, IsCounted, enriched-IsCounted}
use devflow_pipeline.Wire.Strict.{IsKnown, raw_names, unmarshal_raw_event-IsKnown}
use devflow_pipeline.Tests.Fixtures.{integers, at_second, commit_event}
use devflow_pipeline.Tests.Memory.{Tables}
use devflow_pipeline.Tests.Answers.{ports, stored, memory-Answers}
use devflow_pipeline.Tests.Aggregator.{forget, empty}

-- The time of a text.
abbrev time_of : String → Option Time
time_of s =
    if str_eq s "0001-01-01T00:16:40Z"
    then some (at_second 1000)
    else if str_eq s "0001-01-01T00:16:41Z"
    then some (at_second 1001)
    else none

-- Floats that are integers, and two times.
abbrev pub plain : Scalars integers
plain = record { format_float = λ z. ok (itoa z); parse_float = read_integer; parse_time = time_of }

read_written : (z : ℤ) (s : String) → Result.ok (itoa z) ≡ ok s → read_integer s ≡ some z
read_written z s h = let same : itoa z ≡ s = cc h in rw same at (read_integer-itoa z)

written-IsNumber : (z : ℤ) (s : String) → Result.ok (itoa z) ≡ ok s → IsNumber s
written-IsNumber z s h = let same : itoa z ≡ s = cc h in rw (← same) (itoa-IsNumber z)

pub plain-ReadsBack : ReadsBack integers plain
plain-ReadsBack = record { parse-format = read_written; format_float-IsNumber = written-IsNumber }

sent-IsExact : IsExact integers plain (at_second 1000)
unfolding format_time zone_text date_time ◌+ℤ◌
sent-IsExact s h = let same : "0001-01-01T00:16:40Z" ≡ s = cc h in rw (← same) refl

processed-IsExact : IsExact integers plain (at_second 1001)
unfolding format_time zone_text date_time ◌+ℤ◌
processed-IsExact s h = let same : "0001-01-01T00:16:41Z" ≡ s = cc h in rw (← same) refl

abbrev pub event : ProcessedEvent integers
event = enrich integers "p-1" (at_second 1001) commit_event

abbrev pub text : String
text = print (
    ("schema_version", number (itoa (pos 1)))
    ∷ ("event_id", literal (quote commit_event.event_id))
    ∷ ("developer_id", literal (quote "dev-1"))
    ∷ ("metric_type", literal (quote "commits"))
    ∷ ("value", number (itoa (pos 3)))
    ∷ ("repository", literal (quote "org/repo"))
    ∷ ("timestamp", literal "0001-01-01T00:16:40Z")
    ∷ ("processed_at", literal "0001-01-01T00:16:41Z")
    ∷ ("processor_id", literal (quote "p-1"))
    ∷ [])

event_marshalled : marshal_processed_event integers plain event ≡ ok text
unfolding marshal_processed_event processed_event_members enrich format_time zone_text date_time
    ◌+ℤ◌
event_marshalled = refl

unmarshal-marshal_example :
    unmarshal_processed_event integers plain text ≡ some (received integers plain event)
unfolding enrich
unmarshal-marshal_example =
    unmarshal-marshal integers plain plain-ReadsBack event text sent-IsExact processed-IsExact
      (omega arith) (omega arith) event_marshalled

pub event_read :
    unmarshal_processed_event integers plain text ≡ some (received integers plain event)
unfolding enrich
event_read =
    unmarshal-marshal integers plain plain-ReadsBack event text sent-IsExact processed-IsExact
      (omega arith) (omega arith) event_marshalled

abbrev pub sent : SqsMessage
sent = record {
  body = some text;
  receipt_handle = some "rh";
  message_id = some "m";
  attributes = some [];
}

sent-IsDelivery : IsDelivery integers plain event sent
unfolding enrich
sent-IsDelivery = record {
  body = text;
  marshalled = event_marshalled;
  body_set = refl;
  receipt_handle = "rh";
  receipt_handle_set = refl;
  message_id = "m";
  message_id_set = refl;
  exact_timestamp = sent-IsExact;
  exact_processed_at = processed-IsExact;
  version_low = omega arith;
  version_high = omega arith;
}

-- The same message twice, as SQS may deliver it.
abbrev pub batch : List SqsMessage
batch = sent ∷ sent ∷ []

abbrev pub events : List (ProcessedEvent integers)
events = event ∷ event ∷ []

pub batch-AreDelivered : AreDelivered integers plain events batch
batch-AreDelivered = one sent-IsDelivery (one sent-IsDelivery nothing)

pub event-IsEnriched : IsEnriched integers event
event-IsEnriched = ("p-1", at_second 1001, commit_event, refl)

enriched-IsCounted_example :
    (xs : List (Message integers)) × (split_messages integers ℕ
        (unmarshal_processed_event integers plain)
        batch
        0
      ≡ (returned (xs, []), 0))
    × All
        (IsCounted integers
          (worker_loop integers
            (Counted integers Tables)
            (over_ports integers Tables ports forget (pos 5))
            xs
            (record { world = empty; counted = [] })).1.counted)
        events
enriched-IsCounted_example =
    enriched-IsCounted integers plain plain-ReadsBack Tables ports stored memory-Answers forget
      (λ handle w id. refl) (pos 5) ℕ 0 empty events batch
      (event-IsEnriched, (event-IsEnriched, tt)) batch-AreDelivered (λ id. refl)

-- A key in capitals is that of the field, the last one of two counts, and what follows is left unread.
abbrev shouting : Members
shouting = ("DEVELOPER_ID", literal "dev-1") ∷ ("developer_id", literal "\\u0064ev-2") ∷ []

abbrev shouted : String
shouted = " { \"DEVELOPER_ID\" : \"dev-1\",\n\"developer_id\":\"\\u0064ev-2\" } {"

shouted_parsed : parse_document shouted ≡ some (object shouting)
unfolding parse_document parse_object parse_members parse_member parse_value skip_space scan_string
    unquote size
shouted_parsed = refl

shouted_read :
    unmarshal_raw_event integers plain shouted
    ≡ some (record (zero_raw_event integers plain) { developer_id = "dev-2" })
unfolding unmarshal_raw_event decode_raw_event same_name set_string unquote
shouted_read = rw shouted_parsed refl

unmarshal_raw_event-IsKnown_example : All (IsKnown raw_names) shouting
unmarshal_raw_event-IsKnown_example =
    unmarshal_raw_event-IsKnown integers plain shouted shouting
      (record (zero_raw_event integers plain) { developer_id = "dev-2" }) shouted_parsed
      shouted_read

-- A field that the processor does not know, and a body that is no JSON.
unknown_refused : unmarshal_raw_event integers plain "{\"extra\":\"x\"}" ≡ none
unfolding unmarshal_raw_event decode_raw_event same_name parse_document parse_object parse_members
    parse_member parse_value skip_space scan_string unquote size
unknown_refused = refl

cut_refused : unmarshal_raw_event integers plain "{\"event_id\":\"x" ≡ none
unfolding unmarshal_raw_event decode_raw_event same_name parse_document parse_object parse_members
    parse_member parse_value skip_space scan_string unquote size
cut_refused = refl
