-- ===== src/Wire/Strict.antt =====
-- Members that the decoders of the two queues know.
use devflow_pipeline.Prelude.{
  String, true, ◌≡◌, ◌⊎◌, refl, Option, none, some, List, [], ◌∷◌, All, arith,
}
use devflow_pipeline.Go.Float.{Float64}
use devflow_pipeline.Go.Json.{Value, Members, object, Scalars, same_name, bind}
use devflow_pipeline.Go.Json.Parse.{parse_document}
use devflow_pipeline.Processor.Domain.Event.{RawEvent}
use devflow_pipeline.Processor.Codec.{set_raw_event, decode_raw_event, unmarshal_raw_event}
use devflow_pipeline.Aggregator.Domain.{ProcessedEvent}
use devflow_pipeline.Aggregator.Codec.{
  set_processed_event, decode_processed_event, unmarshal_processed_event,
}

-- The keys that match one of the names.
abbrev pub IsKnown : List String → String × Value → Type 0
IsKnown [] m = ⊥
IsKnown (name ∷ names) m = (same_name m.0 name ≡ true) ⊎ IsKnown names m

abbrev pub raw_names : List String
raw_names = "event_id" ∷ "developer_id" ∷ "metric_type" ∷ "value" ∷ "repository" ∷ "timestamp" ∷ []

abbrev pub processed_names : List String
processed_names =
    "schema_version" ∷ "event_id" ∷ "developer_id" ∷ "metric_type" ∷ "value" ∷ "repository"
    ∷ "timestamp" ∷ "processed_at" ∷ "processor_id" ∷ []

module _ {E : Type 0} (set : String → Value → E → Option E) (names : List String)
    (knows : (key : String) (v : Value) (e e' : E)
      → set key v e ≡ some e'
      → IsKnown names (key, v)) where
  bind_one :
      (key : String) (v : Value) (ms : Members) (e e' : E) (o : Option E)
      → set key v e ≡ o
      → bind set ((key, v) ∷ ms) e ≡ some e'
      → ((e₁ : E) → bind set ms e₁ ≡ some e' → All (IsKnown names) ms)
      → All (IsKnown names) ((key, v) ∷ ms)
  unfolding bind
  bind_one key v ms e e' none q h rest = absurd (ground (arith, q, h))
  bind_one key v ms e e' (some e₁) q h rest = (knows key v e e₁ q, rest e₁ (rw (q, bind) at h))

  bind-IsKnown : (ms : Members) (e e' : E) → bind set ms e ≡ some e' → All (IsKnown names) ms
  bind-IsKnown [] e e' h = tt
  bind-IsKnown ((key, v) ∷ ms) e e' h =
      bind_one key v ms e e' (set key v e) refl h (λ e₁ t. bind-IsKnown ms e₁ e' t)

module _ (fl : Float64) (sc : Scalars fl) where
  set_raw_event-IsKnown :
      (key : String) (v : Value) (e e' : RawEvent fl)
      → set_raw_event fl sc key v e ≡ some e'
      → IsKnown raw_names (key, v)
  unfolding set_raw_event
  set_raw_event-IsKnown key v e e' h = ground (arith, h)

  set_processed_event-IsKnown :
      (key : String) (v : Value) (e e' : ProcessedEvent fl)
      → set_processed_event fl sc key v e ≡ some e'
      → IsKnown processed_names (key, v)
  unfolding set_processed_event
  set_processed_event-IsKnown key v e e' h = ground (arith, h)

  -- A text with one object at its front that the processor's strict decoder accepts has no member there
  -- but those of a raw event, whose names are matched without regard to case.
  pub unmarshal_raw_event-IsKnown :
      (text : String) (ms : Members) (e : RawEvent fl)
      → parse_document text ≡ some (object ms)
      → unmarshal_raw_event fl sc text ≡ some e
      → All (IsKnown raw_names) ms
  unfolding unmarshal_raw_event decode_raw_event
  unmarshal_raw_event-IsKnown text ms e parsed h =
      bind-IsKnown (set_raw_event fl sc) raw_names set_raw_event-IsKnown ms _ e (rw parsed at h)

  -- A text with one object at its front that the aggregator's strict decoder accepts has no member there
  -- but those of a processed event, whose names are matched without regard to case.
  pub unmarshal_processed_event-IsKnown :
      (text : String) (ms : Members) (e : ProcessedEvent fl)
      → parse_document text ≡ some (object ms)
      → unmarshal_processed_event fl sc text ≡ some e
      → All (IsKnown processed_names) ms
  unfolding unmarshal_processed_event decode_processed_event
  unmarshal_processed_event-IsKnown text ms e parsed h =
      bind-IsKnown (set_processed_event fl sc) processed_names set_processed_event-IsKnown ms _ e
        (rw parsed at h)
