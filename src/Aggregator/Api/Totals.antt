-- ===== src/Aggregator/Api/Totals.antt =====
-- `GET /metrics/{developer_id}/summary` over the DynamoDB repository.
use devflow_pipeline.Prelude.{
  ◌^◌, ◌≤◌, ◌<◌, String, false, ◌≡◌, ◌≢◌, eq_iff, ◌⊎◌, inl, inr, refl, Option, none, some, [], ◌∷◌,
  ℤ, arith, str_eq, pos_part, neg_part,
}
use devflow_pipeline.Go.Error.{GoError}
use devflow_pipeline.Go.Call.{Call, Outcome, Result, ok, returned}
use devflow_pipeline.Go.Float.{Float64}
use devflow_pipeline.Aws.Dynamo.{Item, find}
use devflow_pipeline.Aggregator.Domain.{DeveloperSummary, EventRecord}
use devflow_pipeline.Aggregator.Repository.Defs.{
  DynamoDb, get_summary, list_by_developer, health_events,
}
use devflow_pipeline.Aggregator.Repository.Totals.{Totals, Shows, ShowsRow, no_totals}
use devflow_pipeline.Aggregator.Api.Defs.{
  Handler, Response, SummaryResp, summary_resp, write_json, write_error, summary, to_summary_resp,
}

-- The item of a GetItem response: empty where there is no row.
abbrev pub item_of : Option Item → Item
item_of none = []
item_of (some item) = item

abbrev FitsInt64 : ℤ → Type 0
FitsInt64 z = (neg_part z ≤ 2 ^ 63) × (pos_part z < 2 ^ 63)

-- Counters that `int64` holds.
abbrev pub Fits : Totals → Type 0
Fits t =
    FitsInt64 t.commits
    × FitsInt64 t.pull_requests
    × FitsInt64 t.review_time_count
    × FitsInt64 t.events_processed

module _ (fl : Float64) where
  -- A decoded row has the counters.
  pub record Counts (d : DeveloperSummary fl) (t : Totals) : Type 0 where
    pub commits : d.total_commits ≡ t.commits
    pub pull_requests : d.total_pull_requests ≡ t.pull_requests
    pub review_time_count : d.review_time_count ≡ t.review_time_count
    pub events_processed : d.events_processed ≡ t.events_processed

  -- A response that reports the counters.
  pub record Reports (resp : SummaryResp fl) (t : Totals) : Type 0 where
    pub commits : resp.total_commits ≡ t.commits
    pub pull_requests : resp.total_pull_requests ≡ t.pull_requests
    pub review_time_count : resp.review_time_count ≡ t.review_time_count
    pub events_processed : resp.events_processed ≡ t.events_processed

  -- The answers of the summary: not found, for counters that are all 0, or the counters.
  abbrev pub IsSummary : Outcome (Response fl) → Totals → Type 0
  IsSummary o t =
      ((o ≡ returned (write_error fl 404 "not found")) × (t ≡ no_totals))
      ⊎ ((resp : SummaryResp fl) × (o ≡ returned (write_json fl 200 (summary_resp resp)))
          × Reports resp t)

  -- What is assumed of UnmarshalMap: that it decodes decimal numbers that `int64` holds.
  pub record Reads (unmarshal_map : Item → Result (DeveloperSummary fl)) : Type 0 where
    pub decodes :
        (item : Item) (t : Totals)
        → Shows item t
        → Fits t
        → (d : DeveloperSummary fl) × (unmarshal_map item ≡ ok d) × Counts d t

  -- GetItem, which reads with eventual consistency, has caught up with the row of the developer: it
  -- returns this row.
  abbrev pub CaughtUp :
      (W : Type 0) → DynamoDb fl W → (W → String → String → Option Item) → String → W → Type 0
  CaughtUp W r row dev w =
      (r.api.get_item r.summary_table ("developer_id", dev) w).0
      ≡ returned (ok (item_of (row w r.summary_table dev)))

  -- `api.NewHandler(repo, &pinger{consumer: consumer, repo: repo})` of the service's main.
  abbrev pub new_handler :
      (W : Type 0)
      → DynamoDb fl W
      → (Item → Result (EventRecord fl))
      → (Item → Result (DeveloperSummary fl))
      → Call W (Option GoError)
      → (GoError → String)
      → Handler fl W
  new_handler W r unmarshal_event unmarshal_map ping_sqs error_text = record {
    list_by_developer = list_by_developer fl W unmarshal_event r;
    get_summary = get_summary fl W unmarshal_map r;
    ping_sqs = ping_sqs;
    ping_ddb = health_events fl W r;
    error_text = error_text;
  }

  module _ (W : Type 0) (r : DynamoDb fl W) (unmarshal_event : Item → Result (EventRecord fl))
      (unmarshal_map : Item → Result (DeveloperSummary fl)) (ping_sqs : Call W (Option GoError))
      (error_text : GoError → String) (row : W → String → String → Option Item)
      (a : Reads unmarshal_map) where
    abbrev handler : Handler fl W
    handler = new_handler W r unmarshal_event unmarshal_map ping_sqs error_text

    row_summary :
        (w : W) (dev : String) (t : Totals) (o : Option Item)
        → row w r.summary_table dev ≡ o
        → CaughtUp W r row dev w
        → str_eq dev "" ≡ false
        → ShowsRow o t
        → Fits t
        → IsSummary (summary fl W handler dev w).0 t
    unfolding summary get_summary find
    row_summary w dev t none q got n shows fits = inl (ground (arith, got, q, n), shows)
    row_summary w dev t (some []) q got n shows fits = absurd (cc (shows.commits))
    row_summary w dev t (some (attribute ∷ item)) q got n shows fits =
        let (d, decoded, counts) = a.decodes (attribute ∷ item) t shows fits in
        inr (
          to_summary_resp fl d,
          ground (arith, got, q, n, decoded),
          record {
            commits = counts.commits;
            pull_requests = counts.pull_requests;
            review_time_count = counts.review_time_count;
            events_processed = counts.events_processed;
          },
        )

    -- Over an UnmarshalMap that decodes the row: where GetItem returns the row of a developer, and this
    -- row shows counters that `int64` holds, the summary of that developer answers 200
    -- with these counters, or 404 where there is no row and the counters are all 0.
    pub summary-ShowsRow :
        (w : W) (dev : String) (t : Totals)
        → dev ≢ ""
        → CaughtUp W r row dev w
        → ShowsRow (row w r.summary_table dev) t
        → Fits t
        → IsSummary (summary fl W handler dev w).0 t
    summary-ShowsRow w dev t named got shows fits =
        row_summary w dev t (row w r.summary_table dev) refl got
          (ground (arith, named, eq_iff dev "")) shows fits
