-- ===== src/Aggregator/UseCase/Complete.antt =====
-- Deliveries to a worker of the aggregator whose ports answer.
use devflow_pipeline.Prelude.{
  String, Bool, true, false, ◌≡◌, ◌≢◌, ◌⊎◌, inl, inr, refl, sym, Bool-cases, Option, none, some,
  List, [], ◌∷◌, arith, All, ℤ, eqb_ℤ,
}
use devflow_pipeline.Go.Error.{GoError}
use devflow_pipeline.Go.Call.{Call, Outcome, returned, panicked}
use devflow_pipeline.Go.Float.{Float64}
use devflow_pipeline.Aggregator.Domain.{ProcessedEvent, supported_schema_version}
use devflow_pipeline.Aggregator.UseCase.Defs.{AggregateEvent, execute}
use devflow_pipeline.Aggregator.UseCase.AtMostOnce.{Counted, counting, aggregator, execute-Leaves}
use devflow_pipeline.Aggregator.Worker.Defs.{Message, run_one, worker_loop}

-- Ports that answer: a save succeeds, or finds the row and changes nothing; and a call adds no row
-- but that of a save that succeeds.
pub record Answers (fl : Float64) (W : Type 0) (uc : AggregateEvent fl W)
    (stored : W → String → Bool) : Type 0 where
  pub save_answers :
      (e : ProcessedEvent fl) (w : W)
      → ((uc.save_event e w).0 ≡ returned none)
        ⊎ (((uc.save_event e w).0 ≢ returned none)
            × (stored w e.event_id ≡ true)
            × ((uc.save_event e w).1 ≡ w))
  pub save_adds :
      (e : ProcessedEvent fl) (w : W) (id : String)
      → stored (uc.save_event e w).1 id ≡ true
      → (stored w id ≡ true) ⊎ (id ≡ e.event_id)
  pub update_adds :
      (e : ProcessedEvent fl) (w : W) (id : String)
      → stored (uc.update_summary e w).1 id ≡ true
      → stored w id ≡ true

module _ (fl : Float64) where
  -- Some event of the list has the id.
  abbrev pub HasId : String → List (ProcessedEvent fl) → Type 0
  HasId id [] = ⊥
  HasId id (e ∷ es) = (e.event_id ≡ id) ⊎ HasId id es

  -- Each event among the jobs is counted, or has another schema version.
  abbrev pub AllCounted : List (Message fl) → List (ProcessedEvent fl) → Type 0
  AllCounted jobs es =
      All
        (λ (m : Message fl).
          (eqb_ℤ m.event.schema_version supported_schema_version ≡ false)
          ⊎ HasId m.event.event_id es)
        jobs

module _ (fl : Float64) (W : Type 0) (uc : AggregateEvent fl W) (stored : W → String → Bool)
    (A : Answers fl W uc stored) where
  -- Each row is that of a counted event.
  abbrev IsFull : Counted fl W → Type 0
  IsFull s = (id : String) → stored s.world id ≡ true → HasId fl id s.counted

  abbrev after : ProcessedEvent fl → Counted fl W → Counted fl W
  after e s = (execute fl (Counted fl W) (counting fl W uc) e s).1

  execute_fresh :
      (e : ProcessedEvent fl) (s : Counted fl W)
      → eqb_ℤ e.schema_version supported_schema_version ≡ true
      → (uc.save_event e s.world).0 ≡ returned none
      → after e s ≡ record {
        world = (uc.update_summary e (uc.save_event e s.world).1).1;
        counted = e ∷ s.counted;
      }
  unfolding execute
  execute_fresh e s v q = ground (arith, v, q)

  execute_refused :
      (e : ProcessedEvent fl) (s : Counted fl W) (o : Outcome (Option GoError))
      → (uc.save_event e s.world).0 ≡ o
      → o ≢ returned none
      → (uc.save_event e s.world).1 ≡ s.world
      → after e s ≡ s
  unfolding execute
  execute_refused e s (panicked t) q n same = ground (arith, q, same)
  execute_refused e s (returned (some err)) q n same = ground (arith, q, same)
  execute_refused e s (returned none) q n same = absurd (n refl)

  execute_unsupported :
      (e : ProcessedEvent fl) (s : Counted fl W)
      → eqb_ℤ e.schema_version supported_schema_version ≡ false
      → after e s ≡ s
  unfolding execute
  execute_unsupported e s v = ground (arith, v)

  fresh-IsFull :
      (e : ProcessedEvent fl) (s : Counted fl W)
      → IsFull s
      → IsFull (record {
        world = (uc.update_summary e (uc.save_event e s.world).1).1;
        counted = e ∷ s.counted;
      })
  fresh-IsFull e s h id there =
      elim (A.save_adds e s.world id (A.update_adds e (uc.save_event e s.world).1 id there)) [
        | inl old ↦ inr (h id old)
        | inr new ↦ inl (sym new)
      ]

  -- One delivery keeps the rows counted, and leaves its event counted if its schema is supported.
  execute_counts :
      (e : ProcessedEvent fl) (s : Counted fl W)
      → IsFull s
      → IsFull (after e s)
        × (eqb_ℤ e.schema_version supported_schema_version ≡ true
            → HasId fl e.event_id (after e s).counted)
  execute_counts e s h = elim (Bool-cases (eqb_ℤ e.schema_version supported_schema_version)) [
    | inr other ↦ rw (execute_unsupported e s other) (h, λ v. cc (v, other))
    | inl v ↦ elim (A.save_answers e s.world) [
      | inl q ↦ rw (execute_fresh e s v q) (fresh-IsFull e s h, λ _. inl refl)
      | inr (n, there, same) ↦
          rw (execute_refused e s (uc.save_event e s.world).0 refl n same)
            (h, λ _. h e.event_id there)
    ]
  ]

  -- What an execution counted stays counted.
  HasId-execute :
      (e : ProcessedEvent fl) (s : Counted fl W) (id : String)
      → HasId fl id s.counted
      → HasId fl id (after e s).counted
  HasId-execute e s id h = elim (execute-Leaves fl W uc e s) [
    | inl same ↦ rw same h
    | inr (inl saved) ↦ rw saved h
    | inr (inr (found, counted)) ↦ rw counted (inr h)
  ]

  module _ (delete : String → Call W (Option GoError))
      (delete_frame : (handle : String) (w : W) (id : String)
        → stored (delete handle w).1 id ≡ stored w id)
      (workers : ℤ) where
    abbrev step : Message fl → Counted fl W → Counted fl W
    step msg s = (run_one fl (Counted fl W) (aggregator fl W uc delete workers) msg s).1

    step-after :
        (msg : Message fl) (s : Counted fl W)
        → ((step msg s).counted ≡ (after msg.event s).counted)
          × ((id : String) → stored (step msg s).world id ≡ stored (after msg.event s).world id)
    unfolding run_one aggregator
    step-after msg s = (
      ground arith,
      λ id. ground (arith, delete_frame msg.receipt_handle (after msg.event s).world id),
    )

    step_counts :
        (msg : Message fl) (s : Counted fl W)
        → IsFull s
        → IsFull (step msg s)
          × (eqb_ℤ msg.event.schema_version supported_schema_version ≡ true
              → HasId fl msg.event.event_id (step msg s).counted)
    step_counts msg s h =
        let (full, has) = execute_counts msg.event s h in
        let (same, rows) = step-after msg s in
        (λ id there. rw same (full id (rw rows at there)), λ v. rw same (has v))

    abbrev loop : List (Message fl) → Counted fl W → Counted fl W
    loop jobs s = (worker_loop fl (Counted fl W) (aggregator fl W uc delete workers) jobs s).1

    HasId-loop :
        (jobs : List (Message fl)) (s : Counted fl W) (id : String)
        → HasId fl id s.counted
        → HasId fl id (loop jobs s).counted
    unfolding worker_loop
    HasId-loop [] s id h = h
    HasId-loop (msg ∷ jobs) s id h =
        HasId-loop jobs (step msg s) id (rw (step-after msg s).0 (HasId-execute msg.event s id h))

    loop_counts :
        (jobs : List (Message fl)) (s : Counted fl W)
        → IsFull s
        → AllCounted fl jobs (loop jobs s).counted
    unfolding worker_loop
    loop_counts [] s h = tt
    loop_counts (msg ∷ jobs) s h =
        let (full, has) = step_counts msg s h in
        (
          elim (Bool-cases (eqb_ℤ msg.event.schema_version supported_schema_version)) [
            | inl v ↦ inr (HasId-loop jobs (step msg s) msg.event.event_id (has v))
            | inr other ↦ inl other
          ],
          loop_counts jobs (step msg s) full,
        )

    -- While the ports answer and Delete touches no row, a worker that starts on an empty events table calls
    -- UpdateSummary for every event id that is delivered to it with the supported schema version.
    pub worker_loop-AllCounted :
        (jobs : List (Message fl)) (w : W)
        → ((id : String) → stored w id ≡ false)
        → AllCounted fl jobs (loop jobs (record { world = w; counted = [] })).counted
    worker_loop-AllCounted jobs w empty =
        loop_counts jobs (record { world = w; counted = [] }) (λ id there. cc (empty id, there))
