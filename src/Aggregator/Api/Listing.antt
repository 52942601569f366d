-- ===== src/Aggregator/Api/Listing.antt =====
-- From the rows that SaveEvent writes to the events that ListEvents serves.
use devflow_pipeline.Prelude.{String, ◌≡◌, ◌≢◌, refl, Option, List, [], ◌∷◌, map, arith, eq_iff}
use devflow_pipeline.Go.Error.{GoError}
use devflow_pipeline.Go.Call.{Call, Result, ok, returned}
use devflow_pipeline.Go.Float.{Float64}
use devflow_pipeline.Aws.Dynamo.{Item, member_s}
use devflow_pipeline.Aggregator.Domain.{ProcessedEvent, EventRecord, to_record, DeveloperSummary}
use devflow_pipeline.Aggregator.Repository.Defs.{DynamoDb, unmarshal_all, list_by_developer}
use devflow_pipeline.Aggregator.Api.Defs.{to_api_event, list_events, write_json, events_resp}
use devflow_pipeline.Aggregator.Api.Totals.{new_handler}
use devflow_pipeline.Go.Json.{Scalars}
use devflow_pipeline.Aggregator.Api.Text.{WritesNumbers}
use devflow_pipeline.Aggregator.Api.EventsText.{shown, IsEventsText, events-IsArray}

module _ (fl : Float64) (W : Type 0) (marshal_map : EventRecord fl → Result Item)
    (unmarshal_event : Item → Result (EventRecord fl)) where
  -- The items are the rows of the events, in order.
  abbrev pub AreRows : List (ProcessedEvent fl) → List Item → Type 0
  AreRows [] [] = Unit
  AreRows [] (item ∷ items) = ⊥
  AreRows (e ∷ es) [] = ⊥
  AreRows (e ∷ es) (item ∷ items) = (marshal_map (to_record fl e) ≡ ok item) × AreRows es items

  module _
      (reads : (rec : EventRecord fl) (item : Item)
        → marshal_map rec ≡ ok item
        → unmarshal_event item ≡ ok rec) where
    unmarshal_next :
        (item : Item) (items : List Item) (rec : EventRecord fl) (recs : List (EventRecord fl))
        → unmarshal_event item ≡ ok rec
        → unmarshal_all unmarshal_event items ≡ ok recs
        → unmarshal_all unmarshal_event (item ∷ items) ≡ ok (rec ∷ recs)
    unfolding unmarshal_all
    unmarshal_next item items rec recs one rest = ground (arith, one, rest)

    unmarshal_all-AreRows :
        (es : List (ProcessedEvent fl)) (items : List Item)
        → AreRows es items
        → unmarshal_all unmarshal_event items ≡ ok (map (to_record fl) es)
    unfolding unmarshal_all
    unmarshal_all-AreRows [] [] h = refl
    unmarshal_all-AreRows [] (item ∷ items) h = absurd h
    unmarshal_all-AreRows (e ∷ es) [] h = absurd h
    unmarshal_all-AreRows (e ∷ es) (item ∷ items) h =
        unmarshal_next item items (to_record fl e) (map (to_record fl) es)
          (reads (to_record fl e) item h.0) (unmarshal_all-AreRows es items h.1)

    map-shown :
        (es : List (ProcessedEvent fl))
        → map (to_api_event fl) (map (to_record fl) es) ≡ map (shown fl) es
    map-shown [] = refl
    map-shown (e ∷ es) = rw (map-shown es) refl

    -- If UnmarshalMap reads back what MarshalMap wrote of a row, and Query returns the rows that were
    -- written for some events, ListEvents of a developer with a name answers 200 with these events,
    -- each with the fields of its row, in the order of the Query.
    pub list_events-shown :
        (r : DynamoDb fl W) (unmarshal_map : Item → Result (DeveloperSummary fl))
        (ping_sqs : Call W (Option GoError)) (error_text : GoError → String) (dev : String) (w : W)
        (es : List (ProcessedEvent fl)) (items : List Item)
        → dev ≢ ""
        → (r.api.query r.events_table r.gsi_name "developer_id = :d"
            ((":d", member_s dev) ∷ [])
            w).0
          ≡ returned (ok items)
        → AreRows es items
        → (list_events fl W
            (new_handler fl W r unmarshal_event unmarshal_map ping_sqs error_text)
            dev
            w).0
          ≡ returned (write_json fl 200 (events_resp (map (shown fl) es)))
    unfolding list_events list_by_developer
    list_events-shown r unmarshal_map ping_sqs error_text dev w es items named queried rows =
        ground (arith, queried, eq_iff dev "", unmarshal_all-AreRows es items rows, map-shown es)

    -- If UnmarshalMap reads back what MarshalMap wrote of a row, the texts of finite numbers are JSON, and
    -- Query returns the rows that were written for some events: ListEvents of a developer with a name
    -- answers 200, and the text of its body is read as an array of objects, one for each event in
    -- the order of the Query, whose members are the event's fields: its strings with all characters, its
    -- instants in RFC 3339 and its value as a number; or
    -- json.Marshal has refused the value of an event and the body is empty.
    pub list_events-IsEventsText :
        (r : DynamoDb fl W) (unmarshal_map : Item → Result (DeveloperSummary fl))
        (ping_sqs : Call W (Option GoError)) (error_text : GoError → String) (sc : Scalars fl)
        (n : WritesNumbers fl sc) (spec dev : String) (w : W) (es : List (ProcessedEvent fl))
        (items : List Item)
        → dev ≢ ""
        → (r.api.query r.events_table r.gsi_name "developer_id = :d"
            ((":d", member_s dev) ∷ [])
            w).0
          ≡ returned (ok items)
        → AreRows es items
        → IsEventsText fl sc spec
            (list_events fl W
              (new_handler fl W r unmarshal_event unmarshal_map ping_sqs error_text)
              dev
              w).0
            es
    list_events-IsEventsText r unmarshal_map ping_sqs error_text sc n spec dev w es items named
          queried rows =
        (
          write_json fl 200 (events_resp (map (shown fl) es)),
          list_events-shown r unmarshal_map ping_sqs error_text dev w es items named queried rows,
          refl,
          events-IsArray fl sc n spec es,
        )
