-- ===== src/Aggregator/Codec.antt =====
-- The strict decoding of a processed event: the JSON tags of
-- services/aggregator/internal/domain/event.go and the decoder of infra/queue/sqs.go.
use mathlib.Core.Option
use devflow_pipeline.Prelude.{String, Option, none, pos, if◌then◌else◌}
use devflow_pipeline.Go.Float.{Float64}
use devflow_pipeline.Go.Json.{
  Value, Document, Scalars, same_name, set_string, set_int, set_float, set_time, decode,
}
use devflow_pipeline.Go.Json.Parse.{parse_document}
use devflow_pipeline.Aggregator.Domain.{ProcessedEvent}

module _ (fl : Float64) (sc : Scalars fl) where
  open fl use {of_ℕ}

  abbrev pub zero_processed_event : ProcessedEvent fl
  zero_processed_event = record {
    schema_version = pos 0;
    event_id = "";
    developer_id = "";
    metric_type = "";
    value = of_ℕ 0;
    repository = "";
    timestamp = record { instant = pos 0; offset = pos 0 };
    processed_at = record { instant = pos 0; offset = pos 0 };
    processor_id = "";
  }

  -- A member into the field whose tag it matches.
  unfoldable pub set_processed_event :
      String → Value → ProcessedEvent fl → Option (ProcessedEvent fl)
  set_processed_event key v e =
      if same_name key "schema_version"
      then Option.map (λ x. record e { schema_version = x }) (set_int v e.schema_version)
      else if same_name key "event_id"
      then Option.map (λ x. record e { event_id = x }) (set_string v e.event_id)
      else if same_name key "developer_id"
      then Option.map (λ x. record e { developer_id = x }) (set_string v e.developer_id)
      else if same_name key "metric_type"
      then Option.map (λ x. record e { metric_type = x }) (set_string v e.metric_type)
      else if same_name key "value"
      then Option.map (λ x. record e { value = x }) (set_float fl sc v e.value)
      else if same_name key "repository"
      then Option.map (λ x. record e { repository = x }) (set_string v e.repository)
      else if same_name key "timestamp"
      then Option.map (λ x. record e { timestamp = x }) (set_time fl sc v e.timestamp)
      else if same_name key "processed_at"
      then Option.map (λ x. record e { processed_at = x }) (set_time fl sc v e.processed_at)
      else if same_name key "processor_id"
      then Option.map (λ x. record e { processor_id = x }) (set_string v e.processor_id)
      else none

  -- The first document of a body into a zero ProcessedEvent, with DisallowUnknownFields.
  unfoldable pub decode_processed_event : Document → Option (ProcessedEvent fl)
  unfolding set_processed_event decode
  decode_processed_event = decode set_processed_event zero_processed_event

  -- `dec.Decode(&ev)`, of the text of a body.
  unfoldable pub unmarshal_processed_event : String → Option (ProcessedEvent fl)
  unfolding Option.bind
  unmarshal_processed_event text = Option.bind (parse_document text) decode_processed_event
