-- ===== src/Aggregator/Repository/Defs.antt =====
-- services/aggregator/internal/infra/repository/dynamodb.go, over a DynamoDB client. The marshalling
-- of package attributevalue is a parameter of each operation that uses it.
use devflow_pipeline.Prelude.{String, Option, none, some, List, [], ◌∷◌, if◌then◌else◌}
use devflow_pipeline.Go.Error.{GoError, already_processed_error, wrap}
use devflow_pipeline.Go.Call.{Call, Result, ok, err, return, ◌>>=◌, wrap_err}
use devflow_pipeline.Go.Time.{Time, utc}
use devflow_pipeline.Go.Float.{Float64}
use devflow_pipeline.Go.Decimal.{itoa}
use devflow_pipeline.Aws.Dynamo.{
  Item, member_s, member_n, UpdateExpression, DynamoApi, is_conditional_check,
}
use devflow_pipeline.Aggregator.Domain.{
  ProcessedEvent, EventRecord, to_record, utc_text, SummaryIncrements, increments_for,
  DeveloperSummary,
}

-- The loop of ListByDeveloper over the items.
unfoldable pub unmarshal_all : {A : Type 0} → (Item → Result A) → List Item → Result (List A)
unmarshal_all unmarshal [] = ok []
unmarshal_all unmarshal (item ∷ items) =
    let rest = unmarshal_all unmarshal items in
    elim (unmarshal item) [
      | err e ↦ err (wrap "unmarshal event" e)
      | ok rec ↦ elim rest [ err e ↦ err e | ok recs ↦ ok (rec ∷ recs) ]
    ]

-- `updateExpr` of UpdateSummary, by its clauses.
abbrev pub update_expr : UpdateExpression
update_expr = record {
  add_clause =
      ("total_commits", ":inc_c")
      ∷ ("total_pull_requests", ":inc_pr")
      ∷ ("total_review_time_minutes", ":inc_rtm")
      ∷ ("review_time_count", ":inc_rtc")
      ∷ ("events_processed", ":one")
      ∷ [];
  set_clause = ("last_activity", ":ts") ∷ ("updated_at", ":now") ∷ [];
}

module _ (fl : Float64) where
  open fl use {ftoa}

  pub record DynamoDb (W : Type 0) : Type 0 where
    pub api : DynamoApi W
    pub events_table : String
    pub summary_table : String
    pub gsi_name : String
    pub clock : Call W Time

  -- The values `:inc_c`, … of UpdateSummary.
  unfoldable pub expression_values : SummaryIncrements fl → Item
  expression_values inc =
      (":inc_c", member_n (itoa inc.commits))
      ∷ (":inc_pr", member_n (itoa inc.pull_requests))
      ∷ (":inc_rtm", member_n (ftoa inc.review_time_minutes))
      ∷ (":inc_rtc", member_n (itoa inc.review_time_count))
      ∷ (":one", member_n "1")
      ∷ (":ts", member_s (utc_text (utc inc.event_timestamp)))
      ∷ (":now", member_s (utc_text (utc inc.now)))
      ∷ []

  module _ (W : Type 0) where
    -- `New`
    unfoldable pub new : DynamoApi W → String → String → Call W Time → DynamoDb W
    new api events_table summary_table now = record {
      api = api;
      events_table = events_table;
      summary_table = summary_table;
      gsi_name = "developer_id-index";
      clock = now;
    }

    -- `SaveEvent`
    unfoldable pub save_event :
        (EventRecord fl → Result Item) → DynamoDb W → ProcessedEvent fl → Call W (Option GoError)
    save_event marshal_map r evt =
        let rec = to_record fl evt in
        elim (marshal_map rec) [
          | err e ↦ return (some (wrap "marshal event" e))
          | ok item ↦ do
            put ← r.api.put_item r.events_table item "attribute_not_exists(event_id)"
            elim put [
              | none ↦ return none
              | some e ↦ return (
                  some (
                    if is_conditional_check e
                    then already_processed_error rec.event_id
                    else wrap "put event" e))
            ]
        ]

    -- `UpdateSummary`
    unfoldable pub update_summary : DynamoDb W → ProcessedEvent fl → Call W (Option GoError)
    unfolding expression_values
    update_summary r evt = do
      now ← r.clock
      e ←
          r.api.update_item r.summary_table ("developer_id", evt.developer_id) update_expr
            (expression_values (increments_for fl evt now))
      return (wrap_err "update summary" e)

    -- `ListByDeveloper`
    unfoldable pub list_by_developer :
        (Item → Result (EventRecord fl))
        → DynamoDb W
        → String
        → Call W (Result (List (EventRecord fl)))
    unfolding unmarshal_all
    list_by_developer unmarshal_map r developer_id = do
      out ←
          r.api.query r.events_table r.gsi_name "developer_id = :d"
            ((":d", member_s developer_id) ∷ [])
      elim out [
        | err e ↦ return (err (wrap "query events by developer" e))
        | ok items ↦ return (unmarshal_all unmarshal_map items)
      ]

    -- `GetSummary`; `none` is `found = false`.
    unfoldable pub get_summary :
        (Item → Result (DeveloperSummary fl))
        → DynamoDb W
        → String
        → Call W (Result (Option (DeveloperSummary fl)))
    get_summary unmarshal_map r developer_id = do
      out ← r.api.get_item r.summary_table ("developer_id", developer_id)
      elim out [
        | err e ↦ return (err (wrap "get summary" e))
        | ok [] ↦ return (ok none)
        | ok (attribute ∷ item) ↦ return (elim (unmarshal_map (attribute ∷ item)) [
          | err e ↦ err (wrap "unmarshal summary" e)
          | ok s ↦ ok (some s)
        ])
      ]

    -- `HealthEvents`
    unfoldable pub health_events : DynamoDb W → Call W (Option GoError)
    health_events r = r.api.describe_table r.events_table
