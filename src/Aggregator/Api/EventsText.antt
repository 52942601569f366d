-- ===== src/Aggregator/Api/EventsText.antt =====
-- What a client reads of the bodies of ListEvents.
use devflow_pipeline.Prelude.{String, ◌≡◌, ◌⊎◌, inl, inr, refl, some, List, [], ◌∷◌, map, All}
use devflow_pipeline.Go.Error.{GoError}
use devflow_pipeline.Go.Call.{Outcome, Result, ok, err, returned}
use devflow_pipeline.Go.Float.{Float64}
use devflow_pipeline.Go.Json.{literal, number, Members, Scalars}
use devflow_pipeline.Go.Json.Unquote.{unquote, unquote-quote}
use devflow_pipeline.Go.Json.Strings.{quote-IsText}
use devflow_pipeline.Go.Json.Numbers.{IsNumber}
use devflow_pipeline.Go.Json.RoundTrip.{ArePrinted}
use devflow_pipeline.Go.Json.Array.{parse_array, parse_array-print_objects}
use devflow_pipeline.Aggregator.Api.Defs.{ApiEvent, Response, events_resp, to_api_event}
use devflow_pipeline.Aggregator.Domain.{ProcessedEvent, to_record}
use devflow_pipeline.Go.Time.Format.{rfc3339_nano}
use devflow_pipeline.Aggregator.Api.Encode.{event_members, events_members, written}
use devflow_pipeline.Go.Json.Quote.{quote}
use devflow_pipeline.Aggregator.Api.Text.{value_of, WritesNumbers, IsRefused}

module _ (fl : Float64) where
  -- An event as the handler shows its row.
  abbrev pub shown : ProcessedEvent fl → ApiEvent fl
  shown e = to_api_event fl (to_record fl e)

module _ (fl : Float64) (sc : Scalars fl) where
  -- One of the events has such a value.
  abbrev pub HasRefused : List (ProcessedEvent fl) → Type 0
  HasRefused [] = ⊥
  HasRefused (e ∷ es) = IsRefused fl sc e.value ⊎ HasRefused es

  event_members-ArePrinted :
      (e : ProcessedEvent fl) (value : String)
      → IsNumber value
      → ArePrinted (event_members fl sc (shown fl e) value)
  event_members-ArePrinted e value v =
      let row = shown fl e in
      (
        quote-IsText row.event_id,
        (
          quote-IsText row.developer_id,
          (
            quote-IsText row.metric_type,
            (
              v,
              (
                quote-IsText row.repository,
                (
                  quote-IsText row.timestamp,
                  (quote-IsText row.processed_at, (quote-IsText row.processor_id, tt)),
                ),
              ),
            ),
          ),
        ),
      )

  -- A member with the key whose string a client reads as `s`.
  abbrev pub Reads : Members → String → String → Type 0
  Reads m key s = (text : String) × (value_of key m ≡ some (literal text)) × (unquote text ≡ s)

  -- An object with the fields of an event, its instants in RFC 3339.
  pub record ShowsEvent (e : ProcessedEvent fl) (m : Members) : Type 0 where
    pub event_id : Reads m "event_id" e.event_id
    pub developer_id : Reads m "developer_id" e.developer_id
    pub metric_type : Reads m "metric_type" e.metric_type
    pub value :
        (text : String) × (sc.format_float e.value ≡ ok text)
        × (value_of "value" m ≡ some (number text))
    pub repository : Reads m "repository" e.repository
    pub timestamp : Reads m "timestamp" (rfc3339_nano e.timestamp.instant)
    pub processed_at : Reads m "processed_at" (rfc3339_nano e.processed_at.instant)
    pub processor_id : Reads m "processor_id" e.processor_id

  event_members-ShowsEvent :
      (e : ProcessedEvent fl) (value : String)
      → sc.format_float e.value ≡ ok value
      → ShowsEvent e (event_members fl sc (shown fl e) value)
  unfolding to_record
  event_members-ShowsEvent e value q = record {
    event_id = (quote e.event_id, refl, unquote-quote e.event_id);
    developer_id = (quote e.developer_id, refl, unquote-quote e.developer_id);
    metric_type = (quote e.metric_type, refl, unquote-quote e.metric_type);
    value = (value, q, refl);
    repository = (quote e.repository, refl, unquote-quote e.repository);
    timestamp = (
      quote (rfc3339_nano e.timestamp.instant),
      refl,
      unquote-quote (rfc3339_nano e.timestamp.instant),
    );
    processed_at = (
      quote (rfc3339_nano e.processed_at.instant),
      refl,
      unquote-quote (rfc3339_nano e.processed_at.instant),
    );
    processor_id = (quote e.processor_id, refl, unquote-quote e.processor_id);
  }

  -- Objects that show the events, in order.
  abbrev pub AreShown : List (ProcessedEvent fl) → List Members → Type 0
  AreShown [] [] = Unit
  AreShown [] (m ∷ ms) = ⊥
  AreShown (e ∷ es) [] = ⊥
  AreShown (e ∷ es) (m ∷ ms) = ShowsEvent e m × AreShown es ms

  -- The body of the events is an array with an object for each event, or the value of one was refused
  -- and nothing is written.
  abbrev pub IsArray : String → List (ProcessedEvent fl) → Type 0
  IsArray text es =
      ((all : List Members) × (parse_array text ≡ some (all, "\n")) × AreShown es all)
      ⊎ ((text ≡ "") × HasRefused es)

  record Encoded (es : List (ProcessedEvent fl)) (all : List Members) : Type 0 where
    encoded : events_members fl sc (map (shown fl) es) ≡ ok all
    printed : All ArePrinted all
    shown : AreShown es all

  AreEncoded : List (ProcessedEvent fl) → Type 0
  AreEncoded es =
      ((all : List Members) × Encoded es all)
      ⊎ (((x : GoError) × (events_members fl sc (map (shown fl) es) ≡ err x)) × HasRefused es)

  encoded_next :
      (n : WritesNumbers fl sc) (e : ProcessedEvent fl) (es : List (ProcessedEvent fl))
      (o : Result String)
      → sc.format_float e.value ≡ o
      → AreEncoded es
      → AreEncoded (e ∷ es)
  unfolding events_members AreEncoded to_record
  encoded_next n e es (err x) q later = inr ((x, rw q refl), inl (x, q))
  encoded_next n e es (ok value) q (inl (all, later)) = inl (
    event_members fl sc (shown fl e) value ∷ all,
    record {
      encoded = rw (q, later.encoded) refl;
      printed = (event_members-ArePrinted e value (n e.value value q), later.printed);
      shown = (event_members-ShowsEvent e value q, later.shown);
    },
  )
  encoded_next n e es (ok value) q (inr ((x, fails), refused)) =
      inr ((x, rw (q, fails) refl), inr refused)

  events-AreEncoded : (n : WritesNumbers fl sc) (es : List (ProcessedEvent fl)) → AreEncoded es
  unfolding events_members AreEncoded
  events-AreEncoded n [] = inl ([], record { encoded = refl; printed = tt; shown = tt })
  events-AreEncoded n (e ∷ es) =
      encoded_next n e es (sc.format_float e.value) refl (events-AreEncoded n es)

  pub events-IsArray :
      (n : WritesNumbers fl sc) (spec : String) (es : List (ProcessedEvent fl))
      → IsArray (written fl sc spec (events_resp (map (shown fl) es))) es
  unfolding written AreEncoded
  events-IsArray n spec es = elim (events-AreEncoded n es) [
    | inl (all, h) ↦ inl (all, rw h.encoded (parse_array-print_objects all "\n" h.printed), h.shown)
    | inr ((x, fails), refused) ↦ inr (rw fails refl, refused)
  ]

  -- The answer of a list by its status and its text.
  abbrev pub IsEventsText : String → Outcome (Response fl) → List (ProcessedEvent fl) → Type 0
  IsEventsText spec o es =
      (resp : Response fl) × (o ≡ returned resp)
      × (resp.status ≡ 200)
      × IsArray (written fl sc spec resp.body) es
