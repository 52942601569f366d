-- ===== src/Aggregator/Repository/Totals.antt =====
-- The integer counters of a developer's row, and the count of events.
use devflow_pipeline.Prelude.{
  String, ◌≡◌, refl, Option, none, some, List, [], ◌∷◌, arith, str_eq, ℤ, pos, ◌+ℤ◌, int_laws,
  eq_iff, if◌then◌else◌,
}
use devflow_pipeline.Go.Decimal.{itoa}
use devflow_pipeline.Go.Time.{Time}
use devflow_pipeline.Go.Float.{Float64}
use devflow_pipeline.Aws.Dynamo.{Item, member_n, find, find-assign, updated}
use devflow_pipeline.Aggregator.Domain.{ProcessedEvent, SummaryIncrements, increments_for}
use devflow_pipeline.Aggregator.Repository.Defs.{expression_values, update_expr}

-- The counters of a row that are integers.
pub record Totals : Type 0 where
  pub commits : ℤ
  pub pull_requests : ℤ
  pub review_time_count : ℤ
  pub events_processed : ℤ

abbrev pub no_totals : Totals
no_totals = record {
  commits = pos 0;
  pull_requests = pos 0;
  review_time_count = pos 0;
  events_processed = pos 0;
}

-- A row shows its counters in decimal.
pub record Shows (item : Item) (t : Totals) : Type 0 where
  pub commits : find "total_commits" item ≡ some (member_n (itoa t.commits))
  pub pull_requests : find "total_pull_requests" item ≡ some (member_n (itoa t.pull_requests))
  pub review_time_count : find "review_time_count" item ≡ some (member_n (itoa t.review_time_count))
  pub events_processed : find "events_processed" item ≡ some (member_n (itoa t.events_processed))

-- A developer with no row has counted nothing.
abbrev pub ShowsRow : Option Item → Totals → Type 0
ShowsRow none t = t ≡ no_totals
ShowsRow (some item) t = Shows item t

zero-+ℤ : (a : ℤ) → pos 0 +ℤ a ≡ a
zero-+ℤ a = omega int_laws

itoa-one : itoa (pos 1) ≡ "1"
unfolding itoa
itoa-one = refl

+ℤ-zero : (a : ℤ) → a +ℤ pos 0 ≡ a
+ℤ-zero a = omega int_laws

module _ (fl : Float64) where
  open fl use {to_int64, of_ℕ}

  abbrev pub plus_increments : Totals → SummaryIncrements fl → Totals
  plus_increments t inc = record {
    commits = t.commits +ℤ inc.commits;
    pull_requests = t.pull_requests +ℤ inc.pull_requests;
    review_time_count = t.review_time_count +ℤ inc.review_time_count;
    events_processed = t.events_processed +ℤ pos 1;
  }

  -- What one event adds to the counters of its developer.
  unfoldable pub count_event : Totals → ProcessedEvent fl → Totals
  count_event t e = record {
    commits = if str_eq e.metric_type "commits" then t.commits +ℤ to_int64 e.value else t.commits;
    pull_requests =
        if str_eq e.metric_type "pull_requests"
        then t.pull_requests +ℤ to_int64 e.value
        else t.pull_requests;
    review_time_count =
        if str_eq e.metric_type "review_time_minutes"
        then t.review_time_count +ℤ pos 1
        else t.review_time_count;
    events_processed = t.events_processed +ℤ pos 1;
  }

  -- The counters of one developer over events, the last one first.
  unfoldable pub totals_of : String → List (ProcessedEvent fl) → Totals
  totals_of dev [] = no_totals
  totals_of dev (e ∷ es) =
      let before = totals_of dev es in
      if str_eq dev e.developer_id then count_event before e else before

  pub increments-counted :
      (t : Totals) (e : ProcessedEvent fl) (now : Time)
      → plus_increments t (increments_for fl e now) ≡ count_event t e
  unfolding increments_for count_event
  increments-counted t e now = ground (
    arith,
    +ℤ-zero t.commits,
    +ℤ-zero t.pull_requests,
    +ℤ-zero t.review_time_count,
    eq_iff e.metric_type "commits",
    eq_iff e.metric_type "pull_requests",
    eq_iff e.metric_type "review_time_minutes",
    eq_iff "commits" "pull_requests",
    eq_iff "commits" "review_time_minutes",
    eq_iff "pull_requests" "review_time_minutes",
  )

  -- The parts of the increments of an event that are no integer counters.
  pub record AddsRest (e : ProcessedEvent fl) (now : Time) (inc : SummaryIncrements fl)
      : Type 0 where
    pub review_time :
        inc.review_time_minutes
        ≡ (if str_eq e.metric_type "review_time_minutes" then e.value else of_ℕ 0)
    pub last_activity : inc.event_timestamp ≡ e.timestamp
    pub updated_at : inc.now ≡ now

  -- Adding what IncrementsFor returns, at any instant, to the integer counters is counting the event;
  -- what it adds to the review time is the value of a review time and 0 for every other event, and it
  -- carries the timestamp of the event and the instant.
  pub plus_increments-count_event :
      (t : Totals) (e : ProcessedEvent fl) (now : Time)
      → (plus_increments t (increments_for fl e now) ≡ count_event t e)
        × AddsRest e now (increments_for fl e now)
  unfolding increments_for
  plus_increments-count_event t e now = (
    increments-counted t e now,
    record {
      review_time = ground (
        arith,
        eq_iff e.metric_type "commits",
        eq_iff e.metric_type "pull_requests",
        eq_iff e.metric_type "review_time_minutes",
        eq_iff "commits" "pull_requests",
        eq_iff "commits" "review_time_minutes",
        eq_iff "pull_requests" "review_time_minutes",
      );
      last_activity = ground arith;
      updated_at = ground arith;
    },
  )

  module _ (plus : String → String → String)
      (adds : (a b : ℤ) → plus (itoa a) (itoa b) ≡ itoa (a +ℤ b)) where
    adds_one : (a : ℤ) → plus (itoa a) "1" ≡ itoa (a +ℤ pos 1)
    adds_one a = rw (← itoa-one) (adds a (pos 1))

    pub updated-Shows :
        (inc : SummaryIncrements fl) (dev : String) (o : Option Item) (t : Totals)
        → ShowsRow o t
        → Shows
            (updated plus (expression_values fl inc) update_expr ("developer_id", dev) o)
            (plus_increments t inc)
    unfolding updated expression_values find
    updated-Shows inc dev none t h = record {
      commits = simp (find-assign, h, zero-+ℤ);
      pull_requests = simp (find-assign, h, zero-+ℤ);
      review_time_count = simp (find-assign, h, zero-+ℤ);
      events_processed = simp (find-assign, h, zero-+ℤ, itoa-one);
    }
    updated-Shows inc dev (some item) t h = record {
      commits = simp (find-assign, h.commits, adds);
      pull_requests = simp (find-assign, h.pull_requests, adds);
      review_time_count = simp (find-assign, h.review_time_count, adds);
      events_processed = simp (find-assign, h.events_processed, adds_one);
    }
