-- ===== src/Aggregator/Api/Defs.antt =====
-- services/aggregator/internal/infra/api/handlers.go, router.go and docs.go. A body is the value that
-- is encoded, whose text is in Aggregator/Api/Encode; `error_text` is the method `Error` of errors.
use devflow_pipeline.Prelude.{
  ℕ, String, Bool, true, false, Option, none, some, List, [], ◌∷◌, ℤ, map, str_eq, if◌then◌else◌,
  ◌||◌, ◌&&◌,
}
use devflow_pipeline.Go.Error.{GoError}
use devflow_pipeline.Go.Call.{Call, Result, ok, err, return, ◌>>=◌}
use devflow_pipeline.Go.Float.{Float64}
use devflow_pipeline.Aggregator.Domain.{EventRecord, DeveloperSummary, avg_review_time_minutes}

-- What `http.ServeMux` reads of a request: the method, the path cut at its slashes, with each segment
-- unescaped, and whether the escaped path is clean, with no segment `.` or `..` and no empty one but the
-- last.
pub record Request : Type 0 where
  pub method : String
  pub segments : List String
  pub is_clean : Bool

is_nil : Option GoError → Bool
is_nil none = true
is_nil (some e) = false

module _ (fl : Float64) where
  open fl use {Float}

  -- `apiEvent`
  pub record ApiEvent : Type 0 where
    pub event_id : String
    pub developer_id : String
    pub metric_type : String
    pub value : Float
    pub repository : String
    pub timestamp : String
    pub processed_at : String
    pub processor_id : String

  -- `summaryResp`
  pub record SummaryResp : Type 0 where
    pub developer_id : String
    pub total_commits : ℤ
    pub total_pull_requests : ℤ
    pub avg_review_time_minutes : Float
    pub total_review_time_minutes : Float
    pub review_time_count : ℤ
    pub events_processed : ℤ
    pub last_activity : String
    pub updated_at : String

  -- `healthResp`, `[]apiEvent`, `summaryResp`, the map of `writeError`, and the two documents.
  pub data Body : Type 0 where
    health_resp : (status sqs dynamodb : String) → Body
    events_resp : List ApiEvent → Body
    summary_resp : SummaryResp → Body
    error_resp : (message : String) → Body
    open_api_document docs_document : Body

  pub record Response : Type 0 where
    pub status : ℕ
    pub content_type : String
    pub cache_control : Option String
    pub body : Body

  -- `writeJSON`
  abbrev pub write_json : ℕ → Body → Response
  write_json status body = record {
    status = status;
    content_type = "application/json";
    cache_control = none;
    body = body;
  }

  -- `writeError`
  abbrev pub write_error : ℕ → String → Response
  write_error status message = write_json status (error_resp message)

  abbrev pub to_api_event : EventRecord fl → ApiEvent
  to_api_event rec = record {
    event_id = rec.event_id;
    developer_id = rec.developer_id;
    metric_type = rec.metric_type;
    value = rec.value;
    repository = rec.repository;
    timestamp = rec.timestamp;
    processed_at = rec.processed_at;
    processor_id = rec.processor_id;
  }

  abbrev pub to_summary_resp : DeveloperSummary fl → SummaryResp
  to_summary_resp s = record {
    developer_id = s.developer_id;
    total_commits = s.total_commits;
    total_pull_requests = s.total_pull_requests;
    avg_review_time_minutes = avg_review_time_minutes fl s;
    total_review_time_minutes = s.total_review_time_minutes;
    review_time_count = s.review_time_count;
    events_processed = s.events_processed;
    last_activity = s.last_activity;
    updated_at = s.updated_at;
  }

  module _ (S : Type 0) where
    -- `Handler`, with its `Reader` and its `Pinger`.
    pub record Handler : Type 0 where
      pub list_by_developer : String → Call S (Result (List (EventRecord fl)))
      pub get_summary : String → Call S (Result (Option (DeveloperSummary fl)))
      pub ping_sqs : Call S (Option GoError)
      pub ping_ddb : Call S (Option GoError)
      pub error_text : GoError → String

    check_text : Handler → Option GoError → String
    check_text h none = "ok"
    check_text h (some e) = h.error_text e

    -- `Handler.Health`
    unfoldable pub health : Handler → Call S Response
    unfolding check_text is_nil
    health h = do
      sqs ← h.ping_sqs
      ddb ← h.ping_ddb
      return (
          if is_nil sqs && is_nil ddb
          then write_json 200 (health_resp "ok" (check_text h sqs) (check_text h ddb))
          else write_json 503 (health_resp "degraded" (check_text h sqs) (check_text h ddb)))

    -- `Handler.ListEvents`
    unfoldable pub list_events : Handler → String → Call S Response
    list_events h dev =
        if str_eq dev "" then return (write_error 400 "developer_id required") else do
          out ← h.list_by_developer dev
          return (elim out [
            | err e ↦ write_error 500 (h.error_text e)
            | ok recs ↦ write_json 200 (events_resp (map to_api_event recs))
          ])

    -- `Handler.Summary`
    unfoldable pub summary : Handler → String → Call S Response
    summary h dev = if str_eq dev "" then return (write_error 400 "developer_id required") else do
      out ← h.get_summary dev
      return (elim out [
        | err e ↦ write_error 500 (h.error_text e)
        | ok none ↦ write_error 404 "not found"
        | ok (some s) ↦ write_json 200 (summary_resp (to_summary_resp s))
      ])

    -- `Handler.OpenAPI`
    abbrev pub open_api : Call S Response
    open_api = return (record {
      status = 200;
      content_type = "application/yaml; charset=utf-8";
      cache_control = some "public, max-age=300";
      body = open_api_document;
    })

    -- `Handler.Docs`
    abbrev pub docs : Call S Response
    docs = return (record {
      status = 200;
      content_type = "text/html; charset=utf-8";
      cache_control = some "public, max-age=300";
      body = docs_document;
    })

    -- The routes of `NewRouter` by the segments of the path. A wildcard matches one segment that is not
    -- empty, and `fallback` is the answer of `http.ServeMux` where no route matches.
    unfoldable pub routes_get :
        Handler → (Request → Call S Response) → Request → List String → Call S Response
    routes_get h fallback req [] = fallback req
    routes_get h fallback req (a ∷ []) =
        if str_eq a "health"
        then health h
        else if str_eq a "openapi.yaml"
        then open_api
        else if str_eq a "docs"
        then docs
        else fallback req
    routes_get h fallback req (a ∷ b ∷ []) =
        if str_eq a "metrics"
        then if str_eq b "" then fallback req else list_events h b
        else fallback req
    routes_get h fallback req (a ∷ b ∷ c ∷ []) =
        if str_eq a "metrics"
        then if str_eq b ""
          then fallback req
          else if str_eq c "summary"
          then summary h b
          else fallback req
        else fallback req
    routes_get h fallback req (a ∷ b ∷ c ∷ d ∷ rest) = fallback req

    -- The mux of `NewRouter`: a pattern with `GET` matches HEAD too, and a path that is not clean is
    -- redirected, which is left to `fallback`.
    unfoldable pub routes : Handler → (Request → Call S Response) → Request → Call S Response
    unfolding routes_get
    routes h fallback req =
        if req.is_clean && (str_eq req.method "GET" || str_eq req.method "HEAD")
        then routes_get h fallback req req.segments
        else fallback req
