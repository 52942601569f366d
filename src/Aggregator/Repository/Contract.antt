-- ===== src/Aggregator/Repository/Contract.antt =====
-- The repository and the contract of the use case's ports.
use devflow_pipeline.Prelude.{
  String, Bool, true, false, ◌≡◌, inl, refl, Option, none, some, arith, str_eq,
}
use devflow_pipeline.Go.Call.{Outcome, returned, panicked, Result, ok, err}
use devflow_pipeline.Go.Time.{Time}
use devflow_pipeline.Go.Float.{Float64}
use devflow_pipeline.Aws.Dynamo.{Item, member_s, find, IsDocumented}
use devflow_pipeline.Aggregator.Domain.{ProcessedEvent, EventRecord, to_record, increments_for}
use devflow_pipeline.Aggregator.UseCase.Defs.{AggregateEvent}
use devflow_pipeline.Aggregator.UseCase.AtMostOnce.{IsRepository}
use devflow_pipeline.Aggregator.Repository.Defs.{
  DynamoDb, save_event, update_summary, expression_values, update_expr,
}

abbrev pub is_there : Option Item → Bool
is_there none = false
is_there (some item) = true

module _ (fl : Float64) (W : Type 0) (marshal_map : EventRecord fl → Result Item)
    (r : DynamoDb fl W) where
  -- `usecase.New(repo, repo, nil)`
  abbrev pub use_case : AggregateEvent fl W
  use_case = record {
    save_event = save_event fl W marshal_map r;
    update_summary = update_summary fl W r;
  }

  -- The rows of the events table.
  abbrev pub stored_by : (W → String → String → Option Item) → W → String → Bool
  stored_by row w id = is_there (row w r.events_table id)

  -- What is assumed: DynamoDB as documented, the hash keys of the two tables, items that hold their
  -- `event_id`, a clock that writes to no table, and two tables.
  pub record Assumptions (plus : String → String → String) (row : W → String → String → Option Item)
      : Type 0 where
    pub documented : IsDocumented W r.api plus row
    pub events_key : documented.hash_key r.events_table ≡ "event_id"
    pub summary_key : documented.hash_key r.summary_table ≡ "developer_id"
    pub marshalled :
        (rec : EventRecord fl) (item : Item)
        → marshal_map rec ≡ ok item
        → find "event_id" item ≡ some (member_s rec.event_id)
    pub clock_keeps : (w : W) (table id : String) → row (r.clock w).1 table id ≡ row w table id
    pub two_tables : str_eq r.events_table r.summary_table ≡ false

  module _ (plus : String → String → String) (row : W → String → String → Option Item)
      (a : Assumptions plus row) where
    save_fresh :
        (e : ProcessedEvent fl) (w : W) (m : Result Item)
        → marshal_map (to_record fl e) ≡ m
        → (use_case.save_event e w).0 ≡ returned none
        → (stored_by row w e.event_id ≡ false)
          × (stored_by row (use_case.save_event e w).1 e.event_id ≡ true)
    unfolding save_event to_record
    save_fresh e w (err x) q h = ground (arith, q)
    save_fresh e w (ok item) q h = ground (
      arith,
      q,
      a.documented.put_stores w r.events_table e.event_id item a.events_key
          (a.marshalled (to_record fl e) item q),
    )

    save_keeps :
        (e : ProcessedEvent fl) (w : W) (m : Result Item) (id : String) (old : Item)
        → marshal_map (to_record fl e) ≡ m
        → row w r.events_table id ≡ some old
        → row (use_case.save_event e w).1 r.events_table id ≡ some old
    unfolding save_event
    save_keeps e w (err x) id old q h = ground (arith, q)
    save_keeps e w (ok item) id old q h = ground (
      arith,
      q,
      a.documented.put_keeps w r.events_table item r.events_table id old a.events_key h,
    )

    update_keeps :
        (e : ProcessedEvent fl) (w : W) (id : String)
        → row (use_case.update_summary e w).1 r.events_table id ≡ row w r.events_table id
    unfolding update_summary
    update_keeps e w id = let (o, w') = r.clock w in update_at o refl
      where
        update_at :
            (o : Outcome Time)
            → (r.clock w).0 ≡ o
            → row (use_case.update_summary e w).1 r.events_table id ≡ row w r.events_table id
        update_at (panicked t) q = ground (arith, q, a.clock_keeps w r.events_table id)
        update_at (returned now) q = ground (
          arith,
          q,
          a.clock_keeps w r.events_table id,
          a.documented.update_frame (r.clock w).1 r.summary_table ("developer_id", e.developer_id)
              update_expr (expression_values fl (increments_for fl e now)) r.events_table id
              (inl a.two_tables),
        )

    is_there-some : (o : Option Item) → is_there o ≡ true → (i : Item) × (o ≡ some i)
    is_there-some none h = cc
    is_there-some (some i) h = (i, refl)

    -- Over a DynamoDB that behaves as documented, with a codec that keeps `event_id`, a clock that
    -- writes no row and two tables, SaveEvent and UpdateSummary keep the contract of
    -- `EventRepository` and `SummaryRepository`: a save succeeds only for an event that has no row,
    -- and leaves its row; and neither removes one.
    pub use_case-IsRepository : IsRepository fl W use_case (stored_by row)
    use_case-IsRepository = record {
      save_fresh = λ e w h. save_fresh e w (marshal_map (to_record fl e)) refl h;
      save_keeps = λ e w id h.
          let (old, q) = is_there-some _ h in
          rw (save_keeps e w (marshal_map (to_record fl e)) id old refl q);
      update_keeps = λ e w id h. rw update_keeps h;
    }
