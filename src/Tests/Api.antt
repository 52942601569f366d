-- ===== src/Tests/Api.antt =====
-- Requests to the API over the DynamoDB in memory.
use devflow_pipeline.Prelude.{
  str_eq, if◌then◌else◌, String, true, inl, ◌≡◌, ◌≢◌, refl, Option, none, some, [], ◌∷◌, ℤ, pos,
  arith, eq_iff,
}
use devflow_pipeline.Go.Error.{GoError, errors_new}
use devflow_pipeline.Go.Call.{Call, Result, ok, err, return, returned}
use devflow_pipeline.Go.Decimal.{read_integer}
use devflow_pipeline.Aws.Dynamo.{Item, AttributeValue, member_n, find}
use devflow_pipeline.Aggregator.Domain.{DeveloperSummary, EventRecord}
use devflow_pipeline.Aggregator.Repository.Totals.{Totals}
use devflow_pipeline.Aggregator.Repository.Defs.{get_summary}
use devflow_pipeline.Aggregator.Api.Defs.{
  health_resp, Handler, Request, Response, routes, write_error,
}
use devflow_pipeline.Aggregator.Api.Router.{new_router, new_router-nested}
use devflow_pipeline.Aggregator.Api.Promise.{
  Route, health_of_service, open_api_of_service, docs_of_service, events_of, summary_of, Asks,
  Meets,
}
use devflow_pipeline.Aggregator.Api.Answers.{routes-Meets, routes-fallback}
use devflow_pipeline.Aggregator.Api.Totals.{new_handler}
use devflow_pipeline.Aggregator.Api.Encode.{written}
use devflow_pipeline.Go.Json.Quote.{quote_before}
use devflow_pipeline.Go.Json.Print.{before, print_members}
use devflow_pipeline.Tests.Wire.{plain}
use devflow_pipeline.Tests.Fixtures.{integers}
use devflow_pipeline.Tests.Memory.{Tables, repository}
use devflow_pipeline.Tests.Concurrent.{fresh_pool}

known : Option ℤ → ℤ
known none = pos 0
known (some z) = z

counter : Option AttributeValue → ℤ
unfolding known
counter (some (member_n text)) = known (read_integer text)
counter _ = pos 0

-- The counters of a row.
abbrev decode : Item → Result (DeveloperSummary integers)
decode item = ok (record {
  developer_id = "";
  total_commits = counter (find "total_commits" item);
  total_pull_requests = counter (find "total_pull_requests" item);
  total_review_time_minutes = pos 0;
  review_time_count = counter (find "review_time_count" item);
  events_processed = counter (find "events_processed" item);
  last_activity = "";
  updated_at = "";
})

abbrev no_rows : Item → Result (EventRecord integers)
no_rows item = err (errors_new "no row")

abbrev text : GoError → String
text e = "error"

abbrev handler : Handler integers Tables
handler = new_handler integers Tables repository no_rows decode (return none) text

abbrev pub dev_1 : String
dev_1 = "dev-1"

pub dev_named : dev_1 ≢ ""
dev_named e = ground (arith, e, eq_iff dev_1 "")

health_text :
    written integers plain "" (health_resp "degraded" "access \"denied\"" "ok")
    ≡ "{\"status\":\"degraded\",\"checks\":{\"dynamodb\":\"ok\",\"sqs\":\"access \\\"denied\\\"\"}}\n"
unfolding written before quote_before print_members
health_text = refl

abbrev up : Option GoError
up = none

abbrev missing : Request → Call Tables (Response integers)
missing req = return (write_error integers 404 "404 page not found")

abbrev get_summary_of_dev : Request
get_summary_of_dev = record {
  method = "GET";
  segments = "metrics" ∷ "dev-1" ∷ "summary" ∷ [];
  is_clean = true;
}

-- No event of the developer has been counted.
abbrev no_row : Result (Option (DeveloperSummary integers))
no_row = ok none

gets_none : (handler.get_summary dev_1 fresh_pool.shared.world).0 ≡ returned no_row
unfolding get_summary
gets_none = refl

routes-Meets_example :
    (resp : Response integers) × ((routes integers Tables handler missing get_summary_of_dev
        fresh_pool.shared.world).0
      ≡ returned resp)
    × Meets integers Tables handler (summary_of dev_1) no_row resp
routes-Meets_example =
    routes-Meets integers Tables handler missing get_summary_of_dev (summary_of dev_1) no_row
      fresh_pool.shared.world
      (record { gets = inl refl; clean = refl; path = refl; named = dev_named }) gets_none

-- A request for the events of no developer.
abbrev get_no_one : Request
get_no_one = record { method = "GET"; segments = "metrics" ∷ "" ∷ []; is_clean = true }

no_one_unasked : (route : Route) → ¬ Asks get_no_one route
no_one_unasked health_of_service a = cc (a.path)
no_one_unasked open_api_of_service a = cc (a.path)
no_one_unasked docs_of_service a = cc (a.path)
no_one_unasked (events_of dev) a = a.named (cc (a.path))
no_one_unasked (summary_of dev) a = cc (a.path)

routes-fallback_example : routes integers Tables handler missing get_no_one ≡ missing get_no_one
routes-fallback_example = routes-fallback integers Tables handler missing get_no_one no_one_unasked

-- Two middlewares that each let one method through.
abbrev only :
    String → (Request → Call Tables (Response integers)) → Request → Call Tables (Response integers)
only method next req =
    if str_eq req.method method then next req else return (write_error integers 405 method)

new_router-nested_example :
    new_router integers Tables (λ next. next) missing handler (only "GET" ∷ only "HEAD" ∷ [])
    ≡ only "GET" (only "HEAD" (routes integers Tables handler missing))
new_router-nested_example =
    new_router-nested integers Tables (λ next. next) missing handler (only "GET" ∷ only "HEAD" ∷ [])
