-- ===== src/Aggregator/Repository/Sums.antt =====
-- What a worker of the aggregator leaves in the summary table.
use mathlib.Core.Path.{subst}
use devflow_pipeline.Prelude.{
  String, false, ◌≡◌, inl, inr, refl, Option, none, List, [], ◌∷◌, arith, str_eq, eq_iff, ℤ, ◌+ℤ◌,
  Bool-cases,
}
use devflow_pipeline.Go.Error.{GoError}
use devflow_pipeline.Go.Call.{Call, Outcome, returned, panicked, Result, ok, err}
use devflow_pipeline.Go.Decimal.{itoa}
use devflow_pipeline.Go.Time.{Time}
use devflow_pipeline.Go.Float.{Float64}
use devflow_pipeline.Aws.Dynamo.{Item}
use devflow_pipeline.Aggregator.Domain.{ProcessedEvent, EventRecord, to_record, increments_for}
use devflow_pipeline.Aggregator.UseCase.Defs.{AggregateEvent, execute}
use devflow_pipeline.Aggregator.UseCase.AtMostOnce.{
  Counted, counting, aggregator, DistinctIds, execute-Leaves, worker_loop-DistinctIds,
}
use devflow_pipeline.Aggregator.Worker.Defs.{Message, run_one, worker_loop}
use devflow_pipeline.Aggregator.Repository.Defs.{
  DynamoDb, save_event, update_summary, expression_values, update_expr,
}
use devflow_pipeline.Aggregator.Repository.Contract.{
  use_case, Assumptions, stored_by, use_case-IsRepository,
}
use devflow_pipeline.Aggregator.Repository.Totals.{
  Totals, ShowsRow, count_event, totals_of, increments-counted, updated-Shows,
}

module _ (fl : Float64) (W : Type 0) (marshal_map : EventRecord fl → Result Item)
    (r : DynamoDb fl W) (plus : String → String → String) (row : W → String → String → Option Item)
    (a : Assumptions fl W marshal_map r plus row)
    (adds : (m n : ℤ) → plus (itoa m) (itoa n) ≡ itoa (m +ℤ n))
    (succeeds : (e : ProcessedEvent fl) (w : W)
      → (update_summary fl W r e w).0 ≡ returned none) where
  abbrev uc : AggregateEvent fl W
  uc = use_case fl W marshal_map r

  summary_not_events : str_eq r.summary_table r.events_table ≡ false
  summary_not_events = ground (
    arith,
    a.two_tables,
    eq_iff r.events_table r.summary_table,
    eq_iff r.summary_table r.events_table,
  )

  pub save_frame :
      (e : ProcessedEvent fl) (w : W) (m : Result Item) (dev : String)
      → marshal_map (to_record fl e) ≡ m
      → row (uc.save_event e w).1 r.summary_table dev ≡ row w r.summary_table dev
  unfolding save_event
  save_frame e w (err x) dev q = ground (arith, q)
  save_frame e w (ok item) dev q = ground (
    arith,
    q,
    a.documented.put_frame w r.events_table item r.summary_table dev summary_not_events,
  )

  update_own :
      (e : ProcessedEvent fl) (w : W) (o : Outcome Time) (t : Totals)
      → (r.clock w).0 ≡ o
      → ShowsRow (row w r.summary_table e.developer_id) t
      → ShowsRow (row (uc.update_summary e w).1 r.summary_table e.developer_id) (count_event fl t e)
  unfolding update_summary
  update_own e w (panicked x) t q h = cc (succeeds e w)
  update_own e w (returned now) t q h =
      let w1 = (r.clock w).1 in
      let values = expression_values fl (increments_for fl e now) in
      let key : String × String = ("developer_id", e.developer_id) in
      let call = r.api.update_item r.summary_table key update_expr values w1 in
      let called : call.0 ≡ returned none = ground (arith, q, succeeds e w) in
      let reached : (uc.update_summary e w).1 ≡ call.1 = ground (arith, q, called) in
      rw
        (
          reached,
          a.documented.update_applies w1 r.summary_table key update_expr values a.summary_key
              called,
          a.clock_keeps w r.summary_table e.developer_id,
          ← increments-counted fl t e now,
        )
        (updated-Shows fl plus adds (increments_for fl e now) e.developer_id
          (row w r.summary_table e.developer_id) t h)

  update_other :
      (e : ProcessedEvent fl) (w : W) (o : Outcome Time) (dev : String)
      → (r.clock w).0 ≡ o
      → str_eq dev e.developer_id ≡ false
      → row (uc.update_summary e w).1 r.summary_table dev ≡ row w r.summary_table dev
  unfolding update_summary
  update_other e w (panicked x) dev q n = ground (arith, q, a.clock_keeps w r.summary_table dev)
  update_other e w (returned now) dev q n = ground (
    arith,
    q,
    a.clock_keeps w r.summary_table dev,
    a.documented.update_frame (r.clock w).1 r.summary_table ("developer_id", e.developer_id)
        update_expr (expression_values fl (increments_for fl e now)) r.summary_table dev (inr n),
  )

  -- Each developer's row shows the sums over the counted events.
  abbrev pub IsSummed : Counted fl W → Type 0
  IsSummed s =
      (dev : String) → ShowsRow (row s.world r.summary_table dev) (totals_of fl dev s.counted)

  pub counted_one :
      (e : ProcessedEvent fl) (w : W) (es : List (ProcessedEvent fl)) (dev : String)
      → ShowsRow (row w r.summary_table dev) (totals_of fl dev es)
      → ShowsRow (row (uc.update_summary e w).1 r.summary_table dev) (totals_of fl dev (e ∷ es))
  unfolding totals_of
  counted_one e w es dev h = elim (Bool-cases (str_eq dev e.developer_id)) [
    | inl same ↦
        let p = (eq_iff dev e.developer_id).0 same in
        let mine = subst (λ d. ShowsRow (row w r.summary_table d) (totals_of fl dev es)) p h in
        rw same (rw p (update_own e w (r.clock w).0 (totals_of fl dev es) refl mine))
    | inr other ↦ rw (other, update_other e w (r.clock w).0 dev refl other) h
  ]

  execute-IsSummed :
      (e : ProcessedEvent fl) (s : Counted fl W)
      → IsSummed s
      → IsSummed (execute fl (Counted fl W) (counting fl W uc) e s).1
  execute-IsSummed e s h dev =
      let saved_row = save_frame e s.world (marshal_map (to_record fl e)) dev refl in
      elim (execute-Leaves fl W uc e s) [
        | inl same ↦ rw same (h dev)
        | inr (inl saved) ↦ rw (saved, saved_row) (h dev)
        | inr (inr (found, counted)) ↦
            rw counted
              (counted_one e (uc.save_event e s.world).1 s.counted dev (rw saved_row (h dev)))
      ]

  module _ (delete : String → Call W (Option GoError))
      (delete_keeps : (handle : String) (w : W) (table id : String)
        → row (delete handle w).1 table id ≡ row w table id)
      (workers : ℤ) where
    run_one-IsSummed :
        (msg : Message fl) (s : Counted fl W)
        → IsSummed s
        → IsSummed (run_one fl (Counted fl W) (aggregator fl W uc delete workers) msg s).1
    unfolding run_one aggregator
    run_one-IsSummed msg s h dev =
        let good = execute-IsSummed msg.event s h dev in
        let s' : Counted fl W = (execute fl (Counted fl W) (counting fl W uc) msg.event s).1 in
        ground (arith, good, delete_keeps msg.receipt_handle s'.world r.summary_table dev)

    loop-IsSummed :
        (jobs : List (Message fl)) (s : Counted fl W)
        → IsSummed s
        → IsSummed (worker_loop fl (Counted fl W) (aggregator fl W uc delete workers) jobs s).1
    unfolding worker_loop
    loop-IsSummed [] s h = h
    loop-IsSummed (msg ∷ jobs) s h = loop-IsSummed jobs _ (run_one-IsSummed msg s h)

    -- Over a DynamoDB that behaves as documented and adds decimals, with updates that all succeed and a
    -- Delete that touches no row, from an empty summary table, and over any messages in any order and
    -- as often as may be: the integer counters in each developer's row are the sums over the
    -- events of that developer that were counted, and no two counted events have one id.
    pub worker_loop-sums :
        (jobs : List (Message fl)) (w : W)
        → ((dev : String) → row w r.summary_table dev ≡ none)
        → let s' =
            (worker_loop fl
              (Counted fl W)
              (aggregator fl W uc delete workers)
              jobs
              (record { world = w; counted = [] })).1 in
          ((dev : String)
            → ShowsRow (row s'.world r.summary_table dev) (totals_of fl dev s'.counted))
          × DistinctIds fl W s'.counted
    worker_loop-sums jobs w empty = (
      loop-IsSummed jobs (record { world = w; counted = [] })
          (λ dev. rw (empty dev) (unfold totals_of in refl)),
      worker_loop-DistinctIds fl W uc (stored_by fl W marshal_map r row)
          (use_case-IsRepository fl W marshal_map r plus row a) delete
          (λ handle w' id h. rw delete_keeps h) workers jobs w,
    )
