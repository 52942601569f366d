-- ===== src/Aggregator/Api/Encode.antt =====
-- The texts of the bodies: `json.NewEncoder(w).Encode(body)` in
-- services/aggregator/internal/infra/api/handlers.go, and the two documents of docs.go. `spec` is the
-- embedded file openapi.yaml.
use Prim.Native.String.{◌++◌}
use devflow_pipeline.Prelude.{String, List, [], ◌∷◌}
use devflow_pipeline.Go.Call.{Result, ok, err, and_then}
use devflow_pipeline.Go.Decimal.{itoa}
use devflow_pipeline.Go.Float.{Float64}
use devflow_pipeline.Go.Json.{Members, literal, number, Scalars}
use devflow_pipeline.Go.Json.Quote.{quote, quote_before}
use devflow_pipeline.Go.Json.Print.{before, print_members}
use devflow_pipeline.Go.Json.Array.{print_objects}
use devflow_pipeline.Aggregator.Api.Defs.{
  ApiEvent, SummaryResp, Body, health_resp, events_resp, summary_resp, error_resp,
  open_api_document, docs_document,
}

-- `docsHTML`
abbrev docs_html : String
docs_html =
    "<!doctype html>\n<html lang=\"en\">\n<head>\n  <meta charset=\"utf-8\" />\n"
    ++ "  <title>devflow-pipeline — Aggregator API</title>\n"
    ++ "  <meta name=\"viewport\" content=\"width=device-width,initial-scale=1\" />\n"
    ++ "  <style>body{margin:0;padding:0}</style>\n</head>\n<body>\n"
    ++ "  <redoc spec-url=\"/openapi.yaml\"></redoc>\n"
    ++ "  <script src=\"https://cdn.redoc.ly/redoc/latest/bundles/redoc.standalone.js\"></script>\n"
    ++ "</body>\n</html>"

-- An object and the newline of the encoder.
abbrev pub object_line : Members → String
object_line members = String.◌∷◌ "{" (print_members members "\n")

module _ (fl : Float64) (sc : Scalars fl) where
  -- `apiEvent`, with the text of its value.
  abbrev pub event_members : ApiEvent fl → String → Members
  event_members e value =
      ("event_id", literal (quote e.event_id))
      ∷ ("developer_id", literal (quote e.developer_id))
      ∷ ("metric_type", literal (quote e.metric_type))
      ∷ ("value", number value)
      ∷ ("repository", literal (quote e.repository))
      ∷ ("timestamp", literal (quote e.timestamp))
      ∷ ("processed_at", literal (quote e.processed_at))
      ∷ ("processor_id", literal (quote e.processor_id))
      ∷ []

  -- `[]apiEvent`
  unfoldable pub events_members : List (ApiEvent fl) → Result (List Members)
  events_members [] = ok []
  events_members (e ∷ es) =
      and_then (sc.format_float e.value)
        λ value. and_then (events_members es) λ rest. ok (event_members e value ∷ rest)

  -- `summaryResp`, with the texts of its floats.
  abbrev pub summary_members : SummaryResp fl → String → String → Members
  summary_members s average total =
      ("developer_id", literal (quote s.developer_id))
      ∷ ("total_commits", number (itoa s.total_commits))
      ∷ ("total_pull_requests", number (itoa s.total_pull_requests))
      ∷ ("avg_review_time_minutes", number average)
      ∷ ("total_review_time_minutes", number total)
      ∷ ("review_time_count", number (itoa s.review_time_count))
      ∷ ("events_processed", number (itoa s.events_processed))
      ∷ ("last_activity", literal (quote s.last_activity))
      ∷ ("updated_at", literal (quote s.updated_at))
      ∷ []

  -- The text of a body, or the error that writeJSON drops. The keys of a map are sorted.
  unfoldable pub encode : (spec : String) → Body fl → Result String
  unfolding events_members
  encode spec (health_resp status sqs dynamodb) = ok (
      before "{\"status\":\"" (
        quote_before status (
          before "\",\"checks\":{" (
            print_members
              (("dynamodb", literal (quote dynamodb)) ∷ ("sqs", literal (quote sqs)) ∷ []) "}\n"))))
  encode spec (events_resp es) = and_then (events_members es) λ all. ok (print_objects all "\n")
  encode spec (summary_resp s) = and_then (sc.format_float s.avg_review_time_minutes) λ average.
      and_then (sc.format_float s.total_review_time_minutes)
        λ total. ok (object_line (summary_members s average total))
  encode spec (error_resp message) = ok (object_line (("error", literal (quote message)) ∷ []))
  encode spec open_api_document = ok spec
  encode spec docs_document = ok docs_html

  -- What is written of an encoding: nothing where it fails.
  abbrev pub sent : Result String → String
  sent (ok text) = text
  sent (err e) = ""

  -- What the handler writes.
  unfoldable pub written : (spec : String) → Body fl → String
  unfolding encode
  written spec body = sent (encode spec body)
