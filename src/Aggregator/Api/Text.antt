-- ===== src/Aggregator/Api/Text.antt =====
-- What a client reads of the bodies.
use devflow_pipeline.Prelude.{
  String, ◌≡◌, ◌⊎◌, inl, inr, refl, Option, none, some, [], ◌∷◌, str_eq, if◌then◌else◌,
}
use devflow_pipeline.Go.Error.{GoError}
use devflow_pipeline.Go.Call.{Outcome, Result, ok, err, returned}
use devflow_pipeline.Go.Decimal.{itoa}
use devflow_pipeline.Go.Float.{Float64}
use devflow_pipeline.Go.Json.{Value, number, Members, object, Scalars}
use devflow_pipeline.Go.Json.Quote.{quote_before}
use devflow_pipeline.Go.Json.Parse.{parse_document}
use devflow_pipeline.Go.Json.Print.{print_members}
use devflow_pipeline.Go.Json.Strings.{quote-IsText}
use devflow_pipeline.Go.Json.Numbers.{IsNumber, itoa-IsNumber}
use devflow_pipeline.Go.Json.RoundTrip.{ArePrinted, parse_document-print_members}
use devflow_pipeline.Aggregator.Repository.Totals.{Totals, no_totals}
use devflow_pipeline.Aggregator.Api.Defs.{
  SummaryResp, Response, summary_resp, write_json, write_error,
}
use devflow_pipeline.Aggregator.Api.Totals.{IsSummary, Reports}
use devflow_pipeline.Aggregator.Api.Encode.{summary_members, written}

-- The value of the first member with the key.
abbrev pub value_of : String → Members → Option Value
value_of key [] = none
value_of key ((k, v) ∷ members) =
    let later = value_of key members in if str_eq k key then some v else later

-- An object with the counters.
pub record ShowsTotals (members : Members) (t : Totals) : Type 0 where
  pub commits : value_of "total_commits" members ≡ some (number (itoa t.commits))
  pub pull_requests : value_of "total_pull_requests" members ≡ some (number (itoa t.pull_requests))
  pub review_time_count :
      value_of "review_time_count" members ≡ some (number (itoa t.review_time_count))
  pub events_processed :
      value_of "events_processed" members ≡ some (number (itoa t.events_processed))

module _ (fl : Float64) (sc : Scalars fl) where
  -- The text of a finite number is a number of JSON.
  abbrev pub WritesNumbers : Type 0
  WritesNumbers = (x : fl.Float) (s : String) → sc.format_float x ≡ ok s → IsNumber s

  -- A float that json.Marshal refuses.
  abbrev pub IsRefused : fl.Float → Type 0
  IsRefused x = (e : GoError) × (sc.format_float x ≡ err e)

  summary_members-ArePrinted :
      (s : SummaryResp fl) (average total : String)
      → IsNumber average
      → IsNumber total
      → ArePrinted (summary_members fl sc s average total)
  summary_members-ArePrinted s average total a t = (
    quote-IsText s.developer_id,
    (
      itoa-IsNumber s.total_commits,
      (
        itoa-IsNumber s.total_pull_requests,
        (
          a,
          (
            t,
            (
              itoa-IsNumber s.review_time_count,
              (
                itoa-IsNumber s.events_processed,
                (quote-IsText s.last_activity, (quote-IsText s.updated_at, tt)),
              ),
            ),
          ),
        ),
      ),
    ),
  )

  -- The body of a summary is an object with the counters, or a float was refused and nothing is written.
  abbrev pub IsObject : String → SummaryResp fl → Totals → Type 0
  IsObject text s t =
      ((members : Members) × (parse_document text ≡ some (object members)) × ShowsTotals members t)
      ⊎ ((text ≡ "")
          × (IsRefused s.avg_review_time_minutes ⊎ IsRefused s.total_review_time_minutes))

  summary_members-ShowsTotals :
      (s : SummaryResp fl) (t : Totals) (average total : String)
      → Reports fl s t
      → ShowsTotals (summary_members fl sc s average total) t
  summary_members-ShowsTotals s t average total r = record {
    commits = rw r.commits refl;
    pull_requests = rw r.pull_requests refl;
    review_time_count = rw r.review_time_count refl;
    events_processed = rw r.events_processed refl;
  }

  summary_written :
      (n : WritesNumbers) (spec : String) (s : SummaryResp fl) (t : Totals) (a b : Result String)
      → sc.format_float s.avg_review_time_minutes ≡ a
      → sc.format_float s.total_review_time_minutes ≡ b
      → Reports fl s t
      → IsObject (written fl sc spec (summary_resp s)) s t
  unfolding written
  summary_written n spec s t (err x) b qa qb r = inr (rw qa refl, inl (x, qa))
  summary_written n spec s t (ok a) (err x) qa qb r = inr (rw (qa, qb) refl, inr (x, qb))
  summary_written n spec s t (ok a) (ok b) qa qb r = inl (
    summary_members fl sc s a b,
    rw (qa, qb)
        (parse_document-print_members (summary_members fl sc s a b) "\n" (
          summary_members-ArePrinted s a b (n s.avg_review_time_minutes a qa)
            (n s.total_review_time_minutes b qb))),
    summary_members-ShowsTotals s t a b r,
  )

  -- The answers of the summary by their status and their text.
  abbrev pub IsSummaryText : String → Outcome (Response fl) → Totals → Type 0
  IsSummaryText spec o t =
      (resp : Response fl) × (o ≡ returned resp)
      × (((resp.status ≡ 404)
            × (written fl sc spec resp.body ≡ "{\"error\":\"not found\"}\n")
            × (t ≡ no_totals))
          ⊎ ((resp.status ≡ 200)
              × (s : SummaryResp fl) × (resp.body ≡ summary_resp s)
              × IsObject (written fl sc spec resp.body) s t))

  pub summary-IsSummaryText :
      (n : WritesNumbers) (spec : String) (o : Outcome (Response fl)) (t : Totals)
      → IsSummary fl o t
      → IsSummaryText spec o t
  unfolding written quote_before print_members
  summary-IsSummaryText n spec o t (inl (same, none_counted)) =
      (write_error fl 404 "not found", same, inl (refl, refl, none_counted))
  summary-IsSummaryText n spec o t (inr (resp, same, reports)) = (
    write_json fl 200 (summary_resp resp),
    same,
    inr (refl, resp, refl, summary_written n spec resp t _ _ refl refl reports),
  )
