-- ===== src/Processor/Codec.antt =====
-- The JSON of services/processor/internal/domain/event.go: the strict decoding of a raw event, and
-- what `json.Marshal` writes of a processed event. The embedded RawEvent has its members in place.
use mathlib.Core.Option
use devflow_pipeline.Prelude.{String, Option, none, [], ◌∷◌, pos, if◌then◌else◌}
use devflow_pipeline.Go.Call.{Result, ok, and_then}
use devflow_pipeline.Go.Decimal.{itoa}
use devflow_pipeline.Go.Float.{Float64}
use devflow_pipeline.Go.Time.{Time}
use devflow_pipeline.Go.Time.Json.{format_time}
use devflow_pipeline.Go.Json.{
  Value, Members, Document, literal, number, Scalars, same_name, set_string, set_float, set_time,
  decode,
}
use devflow_pipeline.Go.Json.Quote.{quote}
use devflow_pipeline.Go.Json.Parse.{parse_document}
use devflow_pipeline.Go.Json.Print.{print}
use devflow_pipeline.Processor.Domain.Event.{RawEvent, ProcessedEvent}

abbrev pub zero_time : Time
zero_time = record { instant = pos 0; offset = pos 0 }

module _ (fl : Float64) (sc : Scalars fl) where
  open fl use {of_ℕ}

  abbrev pub zero_raw_event : RawEvent fl
  zero_raw_event = record {
    event_id = "";
    developer_id = "";
    metric_type = "";
    value = of_ℕ 0;
    repository = "";
    timestamp = zero_time;
  }

  -- A member into the field whose tag it matches.
  unfoldable pub set_raw_event : String → Value → RawEvent fl → Option (RawEvent fl)
  set_raw_event key v e =
      if same_name key "event_id"
      then Option.map (λ x. record e { event_id = x }) (set_string v e.event_id)
      else if same_name key "developer_id"
      then Option.map (λ x. record e { developer_id = x }) (set_string v e.developer_id)
      else if same_name key "metric_type"
      then Option.map (λ x. record e { metric_type = x }) (set_string v e.metric_type)
      else if same_name key "value"
      then Option.map (λ x. record e { value = x }) (set_float fl sc v e.value)
      else if same_name key "repository"
      then Option.map (λ x. record e { repository = x }) (set_string v e.repository)
      else if same_name key "timestamp"
      then Option.map (λ x. record e { timestamp = x }) (set_time fl sc v e.timestamp)
      else none

  -- The first document of a body into a zero RawEvent, with DisallowUnknownFields.
  unfoldable pub decode_raw_event : Document → Option (RawEvent fl)
  unfolding set_raw_event decode
  decode_raw_event = decode set_raw_event zero_raw_event

  -- `dec.Decode(&ev)`, of the text of a body.
  unfoldable pub unmarshal_raw_event : String → Option (RawEvent fl)
  unfolding Option.bind
  unmarshal_raw_event text = Option.bind (parse_document text) decode_raw_event

  -- The members of a ProcessedEvent, in the order of the fields.
  unfoldable pub processed_event_members : ProcessedEvent fl → Result Members
  processed_event_members e = and_then (sc.format_float e.raw.value) λ value.
      and_then (format_time e.raw.timestamp) λ timestamp.
        and_then (format_time e.processed_at) λ processed_at. ok (
          ("schema_version", number (itoa e.schema_version))
          ∷ ("event_id", literal (quote e.raw.event_id))
          ∷ ("developer_id", literal (quote e.raw.developer_id))
          ∷ ("metric_type", literal (quote e.raw.metric_type))
          ∷ ("value", number value)
          ∷ ("repository", literal (quote e.raw.repository))
          ∷ ("timestamp", literal timestamp)
          ∷ ("processed_at", literal processed_at)
          ∷ ("processor_id", literal (quote e.processor_id))
          ∷ [])

  -- `json.Marshal(event)`
  unfoldable pub marshal_processed_event : ProcessedEvent fl → Result String
  marshal_processed_event e = and_then (processed_event_members e) λ members. ok (print members)
