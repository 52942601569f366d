-- ===== src/Tests/Listing.antt =====
-- ListEvents over a table with two rows of a developer.
use devflow_pipeline.Prelude.{String, ◌≡◌, refl, Option, none, some, List, [], ◌∷◌, ℤ, pos}
use devflow_pipeline.Go.Error.{errors_new}
use devflow_pipeline.Go.Call.{Result, ok, err, return}
use devflow_pipeline.Go.Decimal.{itoa, read_integer, read_integer-itoa}
use devflow_pipeline.Aws.Dynamo.{Item, AttributeValue, member_s, member_n, find}
use devflow_pipeline.Aggregator.Domain.{EventRecord, to_record, DeveloperSummary}
use devflow_pipeline.Aggregator.Repository.Defs.{DynamoDb}
use devflow_pipeline.Aggregator.Api.Defs.{list_events}
use devflow_pipeline.Aggregator.Api.Totals.{new_handler}
use devflow_pipeline.Aggregator.Api.Listing.{list_events-IsEventsText}
use devflow_pipeline.Aggregator.Api.EventsText.{IsEventsText}
use devflow_pipeline.Tests.Wire.{plain, plain-ReadsBack}
use devflow_pipeline.Tests.Fixtures.{integers}
use devflow_pipeline.Tests.Memory.{Tables, repository}
use devflow_pipeline.Tests.Api.{dev_1, dev_named}
use devflow_pipeline.Tests.Aggregator.{commits, review, empty}

abbrev item_for : EventRecord integers → Item
item_for rec =
    ("event_id", member_s rec.event_id)
    ∷ ("developer_id", member_s rec.developer_id)
    ∷ ("metric_type", member_s rec.metric_type)
    ∷ ("value", member_n (itoa rec.value))
    ∷ ("repository", member_s rec.repository)
    ∷ ("timestamp", member_s rec.timestamp)
    ∷ ("processed_at", member_s rec.processed_at)
    ∷ ("processor_id", member_s rec.processor_id)
    ∷ ("expires_at", member_n (itoa rec.expires_at))
    ∷ []

abbrev write_row : EventRecord integers → Result Item
write_row rec = ok (item_for rec)

abbrev text_of : Option AttributeValue → String
text_of none = ""
text_of (some (member_s text)) = text
text_of (some (member_n text)) = ""

abbrev known : Option ℤ → ℤ
known none = pos 0
known (some z) = z

abbrev number_of : Option AttributeValue → ℤ
number_of none = pos 0
number_of (some (member_s text)) = pos 0
number_of (some (member_n text)) = known (read_integer text)

abbrev read_row : Item → Result (EventRecord integers)
read_row item = ok (record {
  event_id = text_of (find "event_id" item);
  developer_id = text_of (find "developer_id" item);
  metric_type = text_of (find "metric_type" item);
  value = number_of (find "value" item);
  repository = text_of (find "repository" item);
  timestamp = text_of (find "timestamp" item);
  processed_at = text_of (find "processed_at" item);
  processor_id = text_of (find "processor_id" item);
  expires_at = number_of (find "expires_at" item);
})

read-item_for : (rec : EventRecord integers) → read_row (item_for rec) ≡ ok rec
unfolding find
read-item_for rec = rw (read_integer-itoa rec.value, read_integer-itoa rec.expires_at) refl

reads :
    (rec : EventRecord integers) (item : Item) → write_row rec ≡ ok item → read_row item ≡ ok rec
reads rec item h = let same : item_for rec ≡ item = cc h in rw same at (read-item_for rec)

abbrev rows_of_dev : List Item
rows_of_dev = item_for (to_record integers commits) ∷ item_for (to_record integers review) ∷ []

-- The index holds the two rows.
abbrev indexed : DynamoDb integers Tables
indexed = record repository {
  api = record (repository.api) { query = λ table index condition values. return (ok rows_of_dev) };
}

abbrev no_summary : Item → Result (DeveloperSummary integers)
no_summary item = err (errors_new "no summary")

list_events-IsEventsText_example :
    IsEventsText integers plain ""
      (list_events integers Tables
        (new_handler integers Tables indexed read_row no_summary (return none) (λ e. "error"))
        dev_1
        empty).0
      (commits ∷ review ∷ [])
list_events-IsEventsText_example =
    list_events-IsEventsText integers Tables write_row read_row reads indexed no_summary
      (return none) (λ e. "error") plain (plain-ReadsBack.format_float-IsNumber) "" dev_1 empty
      (commits ∷ review ∷ []) rows_of_dev dev_named refl (refl, (refl, tt))
