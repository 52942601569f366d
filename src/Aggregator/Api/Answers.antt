-- ===== src/Aggregator/Api/Answers.antt =====
-- What the routes answer.
use devflow_pipeline.Prelude.{
  String, ◌≡◌, ◌≢◌, true, false, ◌⊎◌, inl, inr, refl, Option, none, some, List, [], ◌∷◌, map, arith,
  str_eq, eq_iff, Bool-cases,
}
use devflow_pipeline.Go.Error.{GoError}
use devflow_pipeline.Go.Call.{Call, returned, Result, ok, err}
use devflow_pipeline.Go.Float.{Float64}
use devflow_pipeline.Aggregator.Domain.{EventRecord, DeveloperSummary}
use devflow_pipeline.Aggregator.Api.Promise.{
  Route, health_of_service, open_api_of_service, docs_of_service, events_of, summary_of, path_of,
  IsNamed, Asks, map-ShowRows, to_summary_resp-ShowsSummary, Answer, Returns, Meets,
}
use devflow_pipeline.Aggregator.Api.Defs.{
  Handler, Response, Request, health_resp, events_resp, summary_resp, error_resp, write_json,
  to_api_event, to_summary_resp, health, list_events, summary, routes, routes_get,
}

module _ (fl : Float64) (S : Type 0) (h : Handler fl S) where
  abbrev healthy : Response fl
  healthy = write_json fl 200 (health_resp "ok" "ok" "ok")

  abbrev degraded : String → String → Response fl
  degraded sqs ddb = write_json fl 503 (health_resp "degraded" sqs ddb)

  -- The call answers with a response for the resource.
  Serves : (route : Route) → Answer fl S h route → S → Call S (Response fl) → Type 0
  Serves route x s call =
      (resp : Response fl) × ((call s).0 ≡ returned resp) × Meets fl S h route x resp

  health-Serves :
      (x : Option GoError × Option GoError) (s : S)
      → Returns fl S h health_of_service x s
      → Serves health_of_service x s (health fl S h)
  unfolding health Serves
  health-Serves (none, none) s (q, q') = (healthy, rw (q, q') refl, (refl, refl, refl))
  health-Serves (none, some e) s (q, q') =
      (degraded "ok" (h.error_text e), rw (q, q') refl, (refl, refl, refl))
  health-Serves (some e, none) s (q, q') =
      (degraded (h.error_text e) "ok", rw (q, q') refl, (refl, refl, refl))
  health-Serves (some e, some d) s (q, q') =
      (degraded (h.error_text e) (h.error_text d), rw (q, q') refl, (refl, refl, refl))

  list_events-Serves :
      (dev : String) (x : Result (List (EventRecord fl))) (s : S)
      → str_eq dev "" ≡ false
      → Returns fl S h (events_of dev) x s
      → Serves (events_of dev) x s (list_events fl S h dev)
  unfolding list_events Serves
  list_events-Serves dev (ok recs) s n q = (
    write_json fl 200 (events_resp (map (to_api_event fl) recs)),
    rw (n, q) refl,
    (map (to_api_event fl) recs, (refl, refl, refl), map-ShowRows fl recs),
  )
  list_events-Serves dev (err e) s n q =
      (write_json fl 500 (error_resp (h.error_text e)), rw (n, q) refl, (refl, refl, refl))

  summary-Serves :
      (dev : String) (x : Result (Option (DeveloperSummary fl))) (s : S)
      → str_eq dev "" ≡ false
      → Returns fl S h (summary_of dev) x s
      → Serves (summary_of dev) x s (summary fl S h dev)
  unfolding summary Serves
  summary-Serves dev (ok (some d)) s n q = (
    write_json fl 200 (summary_resp (to_summary_resp fl d)),
    rw (n, q) refl,
    (to_summary_resp fl d, (refl, refl, refl), to_summary_resp-ShowsSummary fl d),
  )
  summary-Serves dev (ok none) s n q =
      (write_json fl 404 (error_resp "not found"), rw (n, q) refl, (refl, refl, refl))
  summary-Serves dev (err e) s n q =
      (write_json fl 500 (error_resp (h.error_text e)), rw (n, q) refl, (refl, refl, refl))

  differs : (a b : String) → a ≢ b → str_eq a b ≡ false
  differs a b n = ground (arith, n, eq_iff a b)

  same_or_not : (a b : String) → (a ≡ b) ⊎ (a ≢ b)
  same_or_not a b = elim (Bool-cases (str_eq a b)) [
    | inl same ↦ inl ((eq_iff a b).0 same)
    | inr other ↦ inr (λ e. ground (arith, e, other, eq_iff a b))
  ]

  module _ (fallback : Request → Call S (Response fl)) (req : Request) where
    path-Serves :
        (route : Route) (x : Answer fl S h route) (s : S)
        → IsNamed route
        → Returns fl S h route x s
        → Serves route x s (routes_get fl S h fallback req (path_of route))
    unfolding routes_get
    path-Serves health_of_service x s named q = health-Serves x s q
    path-Serves open_api_of_service x s named q = unfold Serves in (_, refl, (refl, refl, refl))
    path-Serves docs_of_service x s named q = unfold Serves in (_, refl, (refl, refl, refl))
    path-Serves (events_of dev) x s named q =
        rw (differs dev "" named) (list_events-Serves dev x s (differs dev "" named) q)
    path-Serves (summary_of dev) x s named q =
        rw (differs dev "" named) (summary-Serves dev x s (differs dev "" named) q)

    routes-get :
        (route : Route)
        → Asks req route
        → routes fl S h fallback req ≡ routes_get fl S h fallback req (path_of route)
    unfolding routes
    routes-get route a = elim (a.gets) [
      | inl get ↦ rw (get, a.clean, a.path) refl
      | inr head ↦ rw (head, a.clean, a.path) refl
    ]

    -- A GET or HEAD of one of the five resources, with a name where it asks for a developer, for which
    -- the ports return: the routes answer with what Meets says of that resource and developer: 200 with
    -- what the ports returned, 500 with the error of the repository, 404 for a developer with no summary,
    -- 503 with both checks for the health where one failed, and never 400.
    pub routes-Meets :
        (route : Route) (x : Answer fl S h route) (s : S)
        → Asks req route
        → Returns fl S h route x s
        → (resp : Response fl) × ((routes fl S h fallback req s).0 ≡ returned resp)
          × Meets fl S h route x resp
    routes-Meets route x s a q =
        rw (routes-get route a) (unfold Serves in (path-Serves route x s a.named q))

    module _ (clean : req.is_clean ≡ true) (gets : (req.method ≡ "GET") ⊎ (req.method ≡ "HEAD"))
        (unasked : (route : Route) → ¬ Asks req route) where
      -- The path is not that of a resource.
      no_path : (route : Route) → IsNamed route → req.segments ≢ path_of route
      no_path route named e =
          unasked route (record { gets = gets; clean = clean; path = e; named = named })

      left :
          (segments : List String)
          → req.segments ≡ segments
          → routes_get fl S h fallback req segments ≡ fallback req
      unfolding routes_get
      left [] q = refl
      left (a ∷ []) q =
          rw
            (
              differs a "health" (λ e. no_path health_of_service tt (rw (q, e) refl)),
              differs a "openapi.yaml" (λ e. no_path open_api_of_service tt (rw (q, e) refl)),
              differs a "docs" (λ e. no_path docs_of_service tt (rw (q, e) refl)),
            )
            refl
      left (a ∷ b ∷ []) q = elim (same_or_not a "metrics") [
        | inl m ↦ elim (same_or_not b "") [
          | inl e ↦ ground (arith, m, e, eq_iff a "metrics", eq_iff b "")
          | inr n ↦ absurd (no_path (events_of b) n (rw (q, m) refl))
        ]
        | inr n ↦ rw (differs a "metrics" n) refl
      ]
      left (a ∷ b ∷ c ∷ []) q = elim (same_or_not a "metrics") [
        | inl m ↦ elim (same_or_not b "") [
          | inl e ↦ ground (arith, m, e, eq_iff a "metrics", eq_iff b "")
          | inr n ↦ elim (same_or_not c "summary") [
            | inl t ↦ absurd (no_path (summary_of b) n (rw (q, m, t) refl))
            | inr other ↦
                ground (arith, differs c "summary" other, eq_iff a "metrics", eq_iff b "", m, n)
          ]
        ]
        | inr n ↦ rw (differs a "metrics" n) refl
      ]
      left (a ∷ b ∷ c ∷ d ∷ rest) q = refl

    -- A request that is no GET or HEAD of one of the five resources, with a name where it asks for a
    -- developer, by a clean path reaches no handler: the mux answers it.
    pub routes-fallback :
        (unasked : (route : Route) → ¬ Asks req route) → routes fl S h fallback req ≡ fallback req
    unfolding routes
    routes-fallback unasked = elim (Bool-cases (req.is_clean)) [
      | inr dirty ↦ rw dirty refl
      | inl clean ↦ elim (same_or_not req.method "GET") [
        | inl get ↦ ground (arith, left clean (inl get) unasked req.segments refl)
        | inr n ↦ elim (same_or_not req.method "HEAD") [
          | inl head ↦ ground (arith, left clean (inr head) unasked req.segments refl)
          | inr o ↦ rw (differs req.method "GET" n, differs req.method "HEAD" o, clean) refl
        ]
      ]
    ]
