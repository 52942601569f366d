-- ===== src/Aggregator/UseCase/AtMostOnce.antt =====
-- How often a worker of the aggregator calls UpdateSummary for one event id.
use devflow_pipeline.Prelude.{
  String, Bool, true, false, ◌≡◌, ◌≢◌, ◌⊎◌, inl, inr, refl, Option, none, some, List, [], ◌∷◌,
  arith, All, ℤ,
}
use devflow_pipeline.Go.Error.{GoError}
use devflow_pipeline.Go.Call.{Call, Outcome, returned, panicked}
use devflow_pipeline.Go.Float.{Float64}
use devflow_pipeline.Aggregator.Domain.{ProcessedEvent}
use devflow_pipeline.Aggregator.UseCase.Defs.{AggregateEvent, execute}
use devflow_pipeline.Aggregator.Worker.Defs.{Message, Pool, new, run_one, worker_loop}

-- What the ports promise of the rows of the events table, as aggregate_event.go's comment on
-- `EventRepository` says. `stored s id` tells whether the row of `id` is there.
pub record IsRepository (fl : Float64) (W : Type 0) (uc : AggregateEvent fl W)
    (stored : W → String → Bool) : Type 0 where
  -- A save that succeeds has found no row, and leaves one.
  pub save_fresh :
      (e : ProcessedEvent fl) (w : W)
      → (uc.save_event e w).0 ≡ returned none
      → (stored w e.event_id ≡ false) × (stored (uc.save_event e w).1 e.event_id ≡ true)
  -- No save and no update removes a row.
  pub save_keeps :
      (e : ProcessedEvent fl) (w : W) (id : String)
      → stored w id ≡ true
      → stored (uc.save_event e w).1 id ≡ true
  pub update_keeps :
      (e : ProcessedEvent fl) (w : W) (id : String)
      → stored w id ≡ true
      → stored (uc.update_summary e w).1 id ≡ true

module _ (fl : Float64) (W : Type 0) where
  -- The state of the ports, with the events for which UpdateSummary was called, the last one first.
  pub record Counted : Type 0 where
    pub world : W
    pub counted : List (ProcessedEvent fl)

  -- The use case over ports that log.
  abbrev pub counting : AggregateEvent fl W → AggregateEvent fl Counted
  counting uc = record {
    save_event = λ e s. let (r, w) = uc.save_event e s.world in (r, record s { world = w });
    update_summary = λ e s.
        let (r, w) = uc.update_summary e s.world in
        (r, record { world = w; counted = e ∷ s.counted });
  }

  -- What Execute leaves: the state that it found, that of a save alone, or that of a save that
  -- succeeded and of an update.
  abbrev pub Leaves : AggregateEvent fl W → ProcessedEvent fl → Counted → Counted → Type 0
  Leaves uc e s s' =
      let (o, w) = uc.save_event e s.world in
      (s' ≡ s)
      ⊎ (s' ≡ record s { world = w })
      ⊎ ((o ≡ returned none)
          × (s' ≡ record { world = (uc.update_summary e w).1; counted = e ∷ s.counted }))

  saved-Leaves :
      (uc : AggregateEvent fl W) (e : ProcessedEvent fl) (s : Counted)
      (o : Outcome (Option GoError))
      → (uc.save_event e s.world).0 ≡ o
      → Leaves uc e s (execute fl Counted (counting uc) e s).1
  unfolding execute
  saved-Leaves uc e s (panicked t) q = ground (arith, q)
  saved-Leaves uc e s (returned (some err)) q = ground (arith, q)
  saved-Leaves uc e s (returned none) q = ground (arith, q)

  pub execute-Leaves :
      (uc : AggregateEvent fl W) (e : ProcessedEvent fl) (s : Counted)
      → Leaves uc e s (execute fl Counted (counting uc) e s).1
  execute-Leaves uc e s = saved-Leaves uc e s (uc.save_event e s.world).0 refl

  -- `Delete` touches neither table.
  abbrev pub deleting : (String → Call W (Option GoError)) → String → Call Counted (Option GoError)
  deleting delete handle s = let (r, w) = delete handle s.world in (r, record s { world = w })

  -- A worker over ports that log.
  unfoldable pub aggregator :
      AggregateEvent fl W → (String → Call W (Option GoError)) → ℤ → Pool fl Counted
  unfolding new
  aggregator uc delete workers =
      new fl Counted (deleting delete) (execute fl Counted (counting uc)) workers

  -- No two events of the list have one id.
  abbrev pub DistinctIds : List (ProcessedEvent fl) → Type 0
  DistinctIds [] = Unit
  DistinctIds (e ∷ es) =
      All (λ (d : ProcessedEvent fl). d.event_id ≢ e.event_id) es × DistinctIds es

  module _ (uc : AggregateEvent fl W) (stored : W → String → Bool)
      (R : IsRepository fl W uc stored) where
    abbrev pub AllStored : W → List (ProcessedEvent fl) → Type 0
    AllStored w es = All (λ (d : ProcessedEvent fl). stored w d.event_id ≡ true) es

    abbrev IsGood : Counted → Type 0
    IsGood s = AllStored s.world s.counted × DistinctIds s.counted

    pub AllStored-save :
        (e : ProcessedEvent fl) (w : W) (es : List (ProcessedEvent fl))
        → AllStored w es
        → AllStored (uc.save_event e w).1 es
    AllStored-save e w [] h = tt
    AllStored-save e w (d ∷ es) h = (R.save_keeps e w d.event_id h.0, AllStored-save e w es h.1)

    pub AllStored-update :
        (e : ProcessedEvent fl) (w : W) (es : List (ProcessedEvent fl))
        → AllStored w es
        → AllStored (uc.update_summary e w).1 es
    AllStored-update e w [] h = tt
    AllStored-update e w (d ∷ es) h =
        (R.update_keeps e w d.event_id h.0, AllStored-update e w es h.1)

    -- What is not stored is none of what is.
    pub fresh :
        (w : W) (id : String) (es : List (ProcessedEvent fl))
        → stored w id ≡ false
        → AllStored w es
        → All (λ (d : ProcessedEvent fl). d.event_id ≢ id) es
    fresh w id [] n h = tt
    fresh w id (d ∷ es) n h = (λ p. cc (n, h.0, p), fresh w id es n h.1)

    execute-IsGood :
        (e : ProcessedEvent fl) (s : Counted)
        → IsGood s
        → IsGood (execute fl Counted (counting uc) e s).1
    execute-IsGood e s h = elim (execute-Leaves uc e s) [
      | inl same ↦ rw same h
      | inr (inl saved) ↦ rw saved (AllStored-save e s.world s.counted h.0, h.1)
      | inr (inr (found, counted)) ↦
          let w = (uc.save_event e s.world).1 in
          let new_row = R.save_fresh e s.world found in
          rw counted (
            (
              R.update_keeps e w e.event_id new_row.1,
              AllStored-update e w s.counted (AllStored-save e s.world s.counted h.0),
            ),
            (fresh s.world e.event_id s.counted new_row.0 h.0, h.1),
          )
    ]

    module _ (delete : String → Call W (Option GoError))
        (delete_keeps : (handle : String) (w : W) (id : String)
          → stored w id ≡ true
          → stored (delete handle w).1 id ≡ true)
        (workers : ℤ) where
      pub AllStored-delete :
          (handle : String) (w : W) (es : List (ProcessedEvent fl))
          → AllStored w es
          → AllStored (delete handle w).1 es
      AllStored-delete handle w [] h = tt
      AllStored-delete handle w (d ∷ es) h =
          (delete_keeps handle w d.event_id h.0, AllStored-delete handle w es h.1)

      run_one-IsGood :
          (msg : Message fl) (s : Counted)
          → IsGood s
          → IsGood (run_one fl Counted (aggregator uc delete workers) msg s).1
      unfolding run_one aggregator
      run_one-IsGood msg s h =
          let good = execute-IsGood msg.event s h in
          let s' : Counted = (execute fl Counted (counting uc) msg.event s).1 in
          ground (arith, good, AllStored-delete msg.receipt_handle s'.world s'.counted good.0)

      worker_loop-IsGood :
          (jobs : List (Message fl)) (s : Counted)
          → IsGood s
          → IsGood (worker_loop fl Counted (aggregator uc delete workers) jobs s).1
      unfolding worker_loop
      worker_loop-IsGood [] s h = h
      worker_loop-IsGood (msg ∷ jobs) s h = worker_loop-IsGood jobs _ (run_one-IsGood msg s h)

      -- In any run of a worker over any messages, delivered in any order and as often as may be, and
      -- whatever the ports answer within their contract, panics and failures included, if Delete
      -- removes no row: UpdateSummary is called at most once for each event id.
      pub worker_loop-DistinctIds :
          (jobs : List (Message fl)) (w : W)
          → DistinctIds
              (worker_loop fl Counted
                (aggregator uc delete workers)
                jobs
                (record { world = w; counted = [] })).1.counted
      worker_loop-DistinctIds jobs w = (worker_loop-IsGood jobs _ (tt, tt)).1

      -- If the ports keep their contract, a delivery of an event whose row is already there never reaches
      -- UpdateSummary.
      pub run_one_redelivered :
          (msg : Message fl) (s : Counted)
          → stored s.world msg.event.event_id ≡ true
          → (run_one fl Counted (aggregator uc delete workers) msg s).1.counted ≡ s.counted
      unfolding run_one aggregator execute
      run_one_redelivered msg s h = ground (arith, h, R.save_fresh msg.event s.world)
