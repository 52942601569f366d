-- ===== src/Aggregator/Concurrent/Safe.antt =====
-- The invariant of several workers on one events table, and what keeps it.
use devflow_pipeline.Prelude.{
  ℕ, ◌==◌, String, Bool, true, false, ◌≡◌, ◌≢◌, ◌⊎◌, Option, none, some, ◌∷◌, arith, All,
  Bool-cases, inl, inr, if◌then◌else◌,
}
use devflow_pipeline.Go.Float.{Float64}
use devflow_pipeline.Aggregator.Domain.{ProcessedEvent}
use devflow_pipeline.Aggregator.UseCase.Defs.{AggregateEvent}
use devflow_pipeline.Aggregator.UseCase.AtMostOnce.{
  IsRepository, Counted, DistinctIds, AllStored, fresh,
}
use devflow_pipeline.Aggregator.Worker.Defs.{Message}
use devflow_pipeline.Aggregator.Concurrent.Defs.{Phase, idle, saving, updating, deleting}

-- The id of the event that a worker is about to count.
abbrev pub pending : {fl : Float64} → Phase fl → Option String
pending (idle r) = none
pending (saving msg) = none
pending (updating msg) = some msg.event.event_id
pending (deleting msg) = none

still_pending :
    {fl : Float64}
    → (i j : ℕ) (p q : Phase fl) (id : String) → pending (if j == i then p else q) ≡ some id
    → ((j ≡ i) × (pending p ≡ some id)) ⊎ ((j ≢ i) × (pending q ≡ some id))
still_pending i j p q id h = elim (Bool-cases (j == i)) [
  | inl same ↦ inl (ground (arith, same), ground (arith, same, h))
  | inr other ↦ inr (λ e. ground (arith, other, e), ground (arith, other, h))
]

module _ (fl : Float64) (W : Type 0) (uc : AggregateEvent fl W) (stored : W → String → Bool)
    (R : IsRepository fl W uc stored) where
  -- What each worker is about to count is stored, is not yet counted, and is no other worker's.
  pub record IsSafe (s : Counted fl W) (phase : ℕ → Phase fl) : Type 0 where
    pub counted_stored : AllStored fl W uc stored R s.world s.counted
    pub distinct : DistinctIds fl W s.counted
    pub pending_stored :
        (i : ℕ) (id : String) → pending (phase i) ≡ some id → stored s.world id ≡ true
    pub pending_fresh :
        (i : ℕ) (id : String)
        → pending (phase i) ≡ some id
        → All (λ (d : ProcessedEvent fl). d.event_id ≢ id) s.counted
    pub pending_alone :
        (i j : ℕ) (id : String) → pending (phase i) ≡ some id → pending (phase j) ≡ some id → i ≡ j

  -- A worker that is not about to count moves on, in a world that keeps every row.
  pub moved :
      (s : Counted fl W) (phase : ℕ → Phase fl) (i : ℕ) (p : Phase fl) (w : W)
      → IsSafe s phase
      → pending p ≡ none
      → ((id : String) → stored s.world id ≡ true → stored w id ≡ true)
      → AllStored fl W uc stored R w s.counted
      → IsSafe (record s { world = w }) (λ j. if j == i then p else phase j)
  moved s phase i p w h q keeps all = record {
    counted_stored = all;
    distinct = h.distinct;
    pending_stored = λ j id e. ground (arith, e, q, keeps id, h.pending_stored j id);
    pending_fresh = λ j id e. elim (still_pending i j p (phase j) id e) [
      | inl (same, now) ↦ absurd (cc (now, q))
      | inr (other, before) ↦ h.pending_fresh j id before
    ];
    pending_alone = λ j k id e e'. ground (arith, e, e', q, h.pending_alone j k id);
  }

  -- A save that succeeded, in a world that keeps every row and has that of the event.
  pub saved :
      (s : Counted fl W) (phase : ℕ → Phase fl) (i : ℕ) (msg : Message fl) (w : W)
      → IsSafe s phase
      → stored s.world msg.event.event_id ≡ false
      → stored w msg.event.event_id ≡ true
      → ((id : String) → stored s.world id ≡ true → stored w id ≡ true)
      → AllStored fl W uc stored R w s.counted
      → IsSafe (record s { world = w }) (λ j. if j == i then updating msg else phase j)
  saved s phase i msg w h absent there keeps all = record {
    counted_stored = all;
    distinct = h.distinct;
    pending_stored = λ j id e. elim (still_pending i j (updating msg) (phase j) id e) [
      | inl (same, now) ↦ ground (arith, now, there)
      | inr (other, before) ↦ keeps id (h.pending_stored j id before)
    ];
    pending_fresh = λ j id e. elim (still_pending i j (updating msg) (phase j) id e) [
      | inl (same, now) ↦
          fresh fl W uc stored R s.world id s.counted (ground (arith, now, absent)) h.counted_stored
      | inr (other, before) ↦ h.pending_fresh j id before
    ];
    pending_alone = λ j k id e e'. ground (
      arith,
      still_pending i j (updating msg) (phase j) id e,
      still_pending i k (updating msg) (phase k) id e',
      absent,
      h.pending_stored j id,
      h.pending_stored k id,
      h.pending_alone j k id,
    );
  }

  -- The worker counts what it was about to count.
  pub counted :
      (s : Counted fl W) (phase : ℕ → Phase fl) (i : ℕ) (e : ProcessedEvent fl) (p : Phase fl)
      (w : W)
      → IsSafe s phase
      → pending (phase i) ≡ some e.event_id
      → pending p ≡ none
      → ((id : String) → stored s.world id ≡ true → stored w id ≡ true)
      → AllStored fl W uc stored R w s.counted
      → IsSafe (record { world = w; counted = e ∷ s.counted }) (λ j. if j == i then p else phase j)
  counted s phase i e p w h mine q keeps all = record {
    counted_stored = (keeps e.event_id (h.pending_stored i e.event_id mine), all);
    distinct = (h.pending_fresh i e.event_id mine, h.distinct);
    pending_stored = λ j id now. ground (arith, now, q, keeps id, h.pending_stored j id);
    pending_fresh = λ j id now. elim (still_pending i j p (phase j) id now) [
      | inl (same, mended) ↦ absurd (cc (mended, q))
      | inr (other, before) ↦ (
        λ same_id. other (h.pending_alone j i id before (rw mine (cc same_id))),
        h.pending_fresh j id before,
      )
    ];
    pending_alone = λ j k id a b. ground (arith, a, b, q, h.pending_alone j k id);
  }
