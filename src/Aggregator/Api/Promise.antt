-- ===== src/Aggregator/Api/Promise.antt =====
-- What the API promises for each of its resources.
use devflow_pipeline.Prelude.{
  ℕ, String, ◌≡◌, ◌≢◌, true, ◌⊎◌, refl, Option, none, some, List, [], ◌∷◌, map, pos, eqb_ℤ,
  if◌then◌else◌,
}
use devflow_pipeline.Go.Error.{GoError}
use devflow_pipeline.Go.Call.{returned, Result, ok, err}
use devflow_pipeline.Go.Float.{Float64}
use devflow_pipeline.Aggregator.Domain.{EventRecord, DeveloperSummary, avg_review_time_minutes}
use devflow_pipeline.Aggregator.Api.Defs.{
  Handler, Response, Request, Body, ApiEvent, SummaryResp, health_resp, events_resp, summary_resp,
  error_resp, open_api_document, docs_document, to_api_event, to_summary_resp,
}

-- The resources of the API document.
pub data Route : Type 0 where
  health_of_service open_api_of_service docs_of_service : Route
  events_of summary_of : (developer : String) → Route

-- The segments of the path of a resource.
abbrev pub path_of : Route → List String
path_of health_of_service = "health" ∷ []
path_of open_api_of_service = "openapi.yaml" ∷ []
path_of docs_of_service = "docs" ∷ []
path_of (events_of dev) = "metrics" ∷ dev ∷ []
path_of (summary_of dev) = "metrics" ∷ dev ∷ "summary" ∷ []

abbrev pub IsNamed : Route → Type 0
IsNamed (events_of dev) = dev ≢ ""
IsNamed (summary_of dev) = dev ≢ ""
IsNamed _ = Unit

-- A GET or HEAD of the resource by its path; a developer has a name.
pub record Asks (req : Request) (route : Route) : Type 0 where
  pub gets : (req.method ≡ "GET") ⊎ (req.method ≡ "HEAD")
  pub clean : req.is_clean ≡ true
  pub path : req.segments ≡ path_of route
  pub named : IsNamed route

module _ (fl : Float64) where
  open fl use {of_ℕ, of_ℤ, div}

  -- An event of a response with the fields of a row.
  pub record ShowsRow (rec : EventRecord fl) (e : ApiEvent fl) : Type 0 where
    pub event_id : e.event_id ≡ rec.event_id
    pub developer_id : e.developer_id ≡ rec.developer_id
    pub metric_type : e.metric_type ≡ rec.metric_type
    pub value : e.value ≡ rec.value
    pub repository : e.repository ≡ rec.repository
    pub timestamp : e.timestamp ≡ rec.timestamp
    pub processed_at : e.processed_at ≡ rec.processed_at
    pub processor_id : e.processor_id ≡ rec.processor_id

  -- The events of a response show the rows, in order.
  abbrev pub ShowRows : List (EventRecord fl) → List (ApiEvent fl) → Type 0
  ShowRows [] [] = Unit
  ShowRows [] (e ∷ es) = ⊥
  ShowRows (rec ∷ recs) [] = ⊥
  ShowRows (rec ∷ recs) (e ∷ es) = ShowsRow rec e × ShowRows recs es

  pub map-ShowRows : (recs : List (EventRecord fl)) → ShowRows recs (map (to_api_event fl) recs)
  map-ShowRows [] = tt
  map-ShowRows (rec ∷ recs) = (
    record {
      event_id = refl;
      developer_id = refl;
      metric_type = refl;
      value = refl;
      repository = refl;
      timestamp = refl;
      processed_at = refl;
      processor_id = refl;
    },
    map-ShowRows recs,
  )

  -- A summary of a response with the fields of a row, and the mean of the review times, which is 0 where
  -- there is none.
  pub record ShowsSummary (d : DeveloperSummary fl) (resp : SummaryResp fl) : Type 0 where
    pub developer_id : resp.developer_id ≡ d.developer_id
    pub total_commits : resp.total_commits ≡ d.total_commits
    pub total_pull_requests : resp.total_pull_requests ≡ d.total_pull_requests
    pub total_review_time_minutes : resp.total_review_time_minutes ≡ d.total_review_time_minutes
    pub review_time_count : resp.review_time_count ≡ d.review_time_count
    pub events_processed : resp.events_processed ≡ d.events_processed
    pub last_activity : resp.last_activity ≡ d.last_activity
    pub updated_at : resp.updated_at ≡ d.updated_at
    pub mean : resp.avg_review_time_minutes ≡ (
        if eqb_ℤ d.review_time_count (pos 0)
        then of_ℕ 0
        else div d.total_review_time_minutes (of_ℤ d.review_time_count))

  pub to_summary_resp-ShowsSummary :
      (d : DeveloperSummary fl) → ShowsSummary d (to_summary_resp fl d)
  unfolding avg_review_time_minutes
  to_summary_resp-ShowsSummary d = record {
    developer_id = refl;
    total_commits = refl;
    total_pull_requests = refl;
    total_review_time_minutes = refl;
    review_time_count = refl;
    events_processed = refl;
    last_activity = refl;
    updated_at = refl;
    mean = refl;
  }

module _ (fl : Float64) (S : Type 0) (h : Handler fl S) where
  -- What the ports return for a resource.
  abbrev pub Answer : Route → Type 0
  Answer health_of_service = Option GoError × Option GoError
  Answer (events_of dev) = Result (List (EventRecord fl))
  Answer (summary_of dev) = Result (Option (DeveloperSummary fl))
  Answer _ = Unit

  abbrev pub Returns : (route : Route) → Answer route → S → Type 0
  Returns health_of_service (sqs, ddb) s =
      ((h.ping_sqs s).0 ≡ returned sqs) × ((h.ping_ddb (h.ping_sqs s).1).0 ≡ returned ddb)
  Returns open_api_of_service x s = Unit
  Returns docs_of_service x s = Unit
  Returns (events_of dev) x s = (h.list_by_developer dev s).0 ≡ returned x
  Returns (summary_of dev) x s = (h.get_summary dev s).0 ≡ returned x

  -- The response is JSON with the status and the body.
  abbrev Is : Response fl → ℕ → Body fl → Type 0
  Is resp status body =
      (resp.status ≡ status) × (resp.content_type ≡ "application/json") × (resp.body ≡ body)

  -- The response that the API promises for a resource.
  abbrev pub Meets : (route : Route) → Answer route → Response fl → Type 0
  Meets health_of_service (none, none) resp = Is resp 200 (health_resp "ok" "ok" "ok")
  Meets health_of_service (none, some e) resp =
      Is resp 503 (health_resp "degraded" "ok" (h.error_text e))
  Meets health_of_service (some e, none) resp =
      Is resp 503 (health_resp "degraded" (h.error_text e) "ok")
  Meets health_of_service (some e, some d) resp =
      Is resp 503 (health_resp "degraded" (h.error_text e) (h.error_text d))
  Meets open_api_of_service x resp =
      (resp.status ≡ 200)
      × (resp.content_type ≡ "application/yaml; charset=utf-8")
      × (resp.body ≡ open_api_document)
  Meets docs_of_service x resp =
      (resp.status ≡ 200)
      × (resp.content_type ≡ "text/html; charset=utf-8")
      × (resp.body ≡ docs_document)
  Meets (events_of dev) (ok recs) resp =
      (es : List (ApiEvent fl)) × Is resp 200 (events_resp es) × ShowRows fl recs es
  Meets (events_of dev) (err e) resp = Is resp 500 (error_resp (h.error_text e))
  Meets (summary_of dev) (ok (some d)) resp =
      (body : SummaryResp fl) × Is resp 200 (summary_resp body) × ShowsSummary fl d body
  Meets (summary_of dev) (ok none) resp = Is resp 404 (error_resp "not found")
  Meets (summary_of dev) (err e) resp = Is resp 500 (error_resp (h.error_text e))
