-- ===== src/Wire/Event.antt =====
-- One event, from `json.Marshal` in the processor to the strict decoder of the aggregator.
use devflow_pipeline.Prelude.{
  ◌^◌, ◌≤◌, ◌<◌, String, ◌≡◌, refl, some, [], ◌∷◌, pos_part, neg_part, arith,
}
use devflow_pipeline.Go.Call.{Result, ok, err}
use devflow_pipeline.Go.Decimal.{itoa, atoi, atoi-itoa}
use devflow_pipeline.Go.Float.{Float64}
use devflow_pipeline.Go.Time.{Time}
use devflow_pipeline.Go.Time.Json.{format_time, format_time-IsPlain}
use devflow_pipeline.Go.Json.{
  Members, object, number, literal, Scalars, same_name, set_string, set_int, set_float, set_time,
}
use devflow_pipeline.Go.Json.Quote.{quote}
use devflow_pipeline.Go.Json.Unquote.{unquote-quote}
use devflow_pipeline.Go.Json.Print.{print}
use devflow_pipeline.Go.Json.Strings.{IsPlain, IsPlain-IsText, quote-IsText}
use devflow_pipeline.Go.Json.Numbers.{IsNumber, itoa-IsNumber}
use devflow_pipeline.Go.Json.RoundTrip.{ArePrinted, parse_document-print}
use devflow_pipeline.Processor.Domain.Event.{ProcessedEvent}
use devflow_pipeline.Processor.Codec.{processed_event_members, marshal_processed_event}
use devflow_pipeline.Aggregator.Domain as aggregator
use devflow_pipeline.Aggregator.Codec.{decode_processed_event, unmarshal_processed_event}

module _ (fl : Float64) (sc : Scalars fl) where
  -- The event as the aggregator's type holds it.
  abbrev pub received : ProcessedEvent fl → aggregator.ProcessedEvent fl
  received e = record {
    schema_version = e.schema_version;
    event_id = e.raw.event_id;
    developer_id = e.raw.developer_id;
    metric_type = e.raw.metric_type;
    value = e.raw.value;
    repository = e.raw.repository;
    timestamp = e.raw.timestamp;
    processed_at = e.processed_at;
    processor_id = e.processor_id;
  }

  -- What is relied on of numbers: the text of a finite one is a number of JSON and is read back.
  pub record ReadsBack : Type 0 where
    pub parse-format :
        (x : fl.Float) (s : String) → sc.format_float x ≡ ok s → sc.parse_float s ≡ some x
    pub format_float-IsNumber : (x : fl.Float) (s : String) → sc.format_float x ≡ ok s → IsNumber s

  -- A time whose text is read back: one whose zone is whole minutes from UTC.
  abbrev pub IsExact : Time → Type 0
  IsExact t = (s : String) → format_time t ≡ ok s → sc.parse_time s ≡ some t

  -- The members whose scalars have these texts.
  abbrev members : ProcessedEvent fl → String → String → String → Members
  members e value timestamp processed_at =
      (("schema_version", number (itoa e.schema_version))
        ∷ ("event_id", literal (quote e.raw.event_id))
        ∷ ("developer_id", literal (quote e.raw.developer_id))
        ∷ ("metric_type", literal (quote e.raw.metric_type))
        ∷ ("value", number value)
        ∷ ("repository", literal (quote e.raw.repository))
        ∷ ("timestamp", literal timestamp)
        ∷ ("processed_at", literal processed_at)
        ∷ ("processor_id", literal (quote e.processor_id))
        ∷ [])

  members-ArePrinted :
      (e : ProcessedEvent fl) (value timestamp processed_at : String)
      → IsNumber value
      → IsPlain timestamp
      → IsPlain processed_at
      → ArePrinted (members e value timestamp processed_at)
  members-ArePrinted e value timestamp processed_at v t p = (
    itoa-IsNumber e.schema_version,
    (
      quote-IsText e.raw.event_id,
      (
        quote-IsText e.raw.developer_id,
        (
          quote-IsText e.raw.metric_type,
          (
            v,
            (
              quote-IsText e.raw.repository,
              (
                IsPlain-IsText timestamp t,
                (IsPlain-IsText processed_at p, (quote-IsText e.processor_id, tt)),
              ),
            ),
          ),
        ),
      ),
    ),
  )

  decode-members :
      (e : ProcessedEvent fl) (value timestamp processed_at : String)
      → atoi (itoa e.schema_version) ≡ some e.schema_version
      → sc.parse_float value ≡ some e.raw.value
      → sc.parse_time timestamp ≡ some e.raw.timestamp
      → sc.parse_time processed_at ≡ some e.processed_at
      → decode_processed_event fl sc (object (members e value timestamp processed_at))
        ≡ some (received e)
  unfolding decode_processed_event set_string set_int set_float set_time same_name
  decode-members e value timestamp processed_at n v t p = ground (
    arith,
    n,
    v,
    t,
    p,
    unquote-quote e.raw.event_id,
    unquote-quote e.raw.developer_id,
    unquote-quote e.raw.metric_type,
    unquote-quote e.raw.repository,
    unquote-quote e.processor_id,
  )

  unmarshal-print :
      (e : ProcessedEvent fl) (ms : Members)
      → ArePrinted ms
      → decode_processed_event fl sc (object ms) ≡ some (received e)
      → unmarshal_processed_event fl sc (print ms) ≡ some (received e)
  unfolding unmarshal_processed_event
  unmarshal-print e ms printed decoded = rw (parse_document-print ms printed) decoded

  marshalled :
      (r : ReadsBack) (e : ProcessedEvent fl) (text : String) (v t p : Result String)
      → sc.format_float e.raw.value ≡ v
      → format_time e.raw.timestamp ≡ t
      → format_time e.processed_at ≡ p
      → IsExact e.raw.timestamp
      → IsExact e.processed_at
      → atoi (itoa e.schema_version) ≡ some e.schema_version
      → marshal_processed_event fl sc e ≡ ok text
      → unmarshal_processed_event fl sc text ≡ some (received e)
  unfolding marshal_processed_event processed_event_members
  marshalled r e text (err x) t p qv qt qp et ep n h = ground (arith, qv, h)
  marshalled r e text (ok v) (err x) p qv qt qp et ep n h = ground (arith, qv, qt, h)
  marshalled r e text (ok v) (ok t) (err x) qv qt qp et ep n h = ground (arith, qv, qt, qp, h)
  marshalled r e text (ok v) (ok t) (ok p) qv qt qp et ep n h =
      let same : text ≡ print (members e v t p) = ground (arith, qv, qt, qp, h) in
      let printed : ArePrinted (members e v t p) =
        members-ArePrinted e v t p (r.format_float-IsNumber e.raw.value v qv)
          (format_time-IsPlain e.raw.timestamp t qt) (format_time-IsPlain e.processed_at p qp) in
      rw same (
        unmarshal-print e (members e v t p) printed
          (decode-members e v t p n (r.parse-format e.raw.value v qv) (et t qt) (ep p qp)))

  -- If the texts of finite numbers are JSON and are read back: the text that the processor marshals
  -- of an event with a version that `int` holds and times that are read back as they were, whatever
  -- characters its strings have, the aggregator's strict decoder accepts, and it finds each field as
  -- it was.
  pub unmarshal-marshal :
      (r : ReadsBack) (e : ProcessedEvent fl) (text : String)
      → IsExact e.raw.timestamp
      → IsExact e.processed_at
      → neg_part e.schema_version ≤ 2 ^ 63
      → pos_part e.schema_version < 2 ^ 63
      → marshal_processed_event fl sc e ≡ ok text
      → unmarshal_processed_event fl sc text ≡ some (received e)
  unmarshal-marshal r e text et ep lo hi h =
      marshalled r e text _ _ _ refl refl refl et ep (atoi-itoa e.schema_version lo hi) h
