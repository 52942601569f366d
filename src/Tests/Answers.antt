-- ===== src/Tests/Answers.antt =====
-- The use case over the DynamoDB in memory, as ports that answer.
use devflow_pipeline.Prelude.{
  String, Bool, true, ◌≡◌, ◌≢◌, ◌⊎◌, inl, inr, refl, Option, none, some, arith, eq_iff,
}
use devflow_pipeline.Go.Call.{returned}
use devflow_pipeline.Aws.Dynamo.{Item, find, is_conditional_check}
use devflow_pipeline.Aggregator.Domain.{ProcessedEvent, to_record}
use devflow_pipeline.Aggregator.UseCase.Defs.{AggregateEvent}
use devflow_pipeline.Aggregator.UseCase.Complete.{Answers}
use devflow_pipeline.Aggregator.Repository.Defs.{save_event, update_summary}
use devflow_pipeline.Aggregator.Repository.Contract.{use_case, stored_by}
use devflow_pipeline.Tests.Fixtures.{integers}
use devflow_pipeline.Tests.Memory.{Tables, rows, marshal_map, repository}

abbrev pub ports : AggregateEvent integers Tables
ports = use_case integers Tables marshal_map repository

abbrev pub stored : Tables → String → Bool
stored = stored_by integers Tables marshal_map repository rows

save_answers :
    (e : ProcessedEvent integers) (w : Tables) (o : Option Item)
    → w "events" e.event_id ≡ o
    → ((ports.save_event e w).0 ≡ returned none)
      ⊎ (((ports.save_event e w).0 ≢ returned none)
          × (stored w e.event_id ≡ true)
          × ((ports.save_event e w).1 ≡ w))
unfolding save_event to_record find is_conditional_check
save_answers e w none q = inl (simp q)
save_answers e w (some old) q = inr (ground (arith, q), ground (arith, q), ground (arith, q))

save_adds :
    (e : ProcessedEvent integers) (w : Tables) (id : String) (o : Option Item)
    → w "events" e.event_id ≡ o
    → stored (ports.save_event e w).1 id ≡ true
    → (stored w id ≡ true) ⊎ (id ≡ e.event_id)
unfolding save_event to_record find is_conditional_check
save_adds e w id none q h = ground (arith, q, h, eq_iff id e.event_id)
save_adds e w id (some old) q h = inl (ground (arith, q, h))

update_adds :
    (e : ProcessedEvent integers) (w : Tables) (id : String)
    → stored (ports.update_summary e w).1 id ≡ true
    → stored w id ≡ true
unfolding update_summary
update_adds e w id h = h

pub memory-Answers : Answers integers Tables ports stored
memory-Answers = record {
  save_answers = λ e w. save_answers e w (w "events" e.event_id) refl;
  save_adds = λ e w id h. save_adds e w id (w "events" e.event_id) refl h;
  update_adds = update_adds;
}
