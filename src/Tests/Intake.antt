-- ===== src/Tests/Intake.antt =====
-- A poll that fails, and one that returns a message twice.
use devflow_pipeline.Prelude.{false, ◌≡◌, refl, none, List, [], ◌∷◌, pos, All}
use devflow_pipeline.Go.Error.{errors_new}
use devflow_pipeline.Go.Call.{ok, return}
use devflow_pipeline.Aws.Sqs.{SqsMessage}
use devflow_pipeline.Pool.Defs.{
  Received, failed, received, Round, receive_backoff_initial, dispatch as pool_dispatch,
}
use devflow_pipeline.Aggregator.Queue.{Consumer}
use devflow_pipeline.Aggregator.Worker.Defs.{Message, worker_loop}
use devflow_pipeline.Aggregator.Worker.Intake.{polled, dispatch}
use devflow_pipeline.Aggregator.UseCase.AtMostOnce.{Counted, aggregator as over_ports}
use devflow_pipeline.Wire.Counted.{IsCounted}
use devflow_pipeline.Wire.Intake.{
  Returns, Polls, no_turn, outage, turn, receive-ok, dispatch-IsCounted,
}
use devflow_pipeline.Tests.Fixtures.{integers}
use devflow_pipeline.Tests.Memory.{Tables}
use devflow_pipeline.Tests.Answers.{ports, stored, memory-Answers}
use devflow_pipeline.Tests.Aggregator.{forget, empty}
use devflow_pipeline.Tests.Wire.{
  plain, plain-ReadsBack, batch, events, batch-AreDelivered, event-IsEnriched,
}
use devflow_pipeline.Tests.Pipeline.{arrival, batch_split}

abbrev poll : Received (Message integers) SqsMessage → Round (Message integers) SqsMessage
poll polled = record {
  done_before = false;
  polled = polled;
  done_after_error = false;
  int63n = λ n. 0;
  done_in_wait = false;
  taken = none;
}

abbrev rounds : List (Round (Message integers) SqsMessage)
rounds =
    poll (failed (errors_new "connection refused"))
    ∷ poll (received (arrival ∷ arrival ∷ []) [])
    ∷ []

-- A queue that holds the batch.
abbrev consumer : Consumer integers Tables
consumer = record {
  api = record {
    receive_message = λ url n wait. return (ok batch);
    delete_message = λ url handle. return none;
    send_message = λ url body attributes. return none;
    get_queue_url = λ name. return (ok none);
  };
  queue_name = "processed-events";
  queue_url = "http://localhost/processed-events";
  wait_time_seconds = pos 10;
  max_messages = pos 10;
}

batch-Returns : Returns integers plain Tables events (poll (received (arrival ∷ arrival ∷ []) []))
unfolding polled
batch-Returns = record {
  consumer = consumer;
  before = empty;
  messages = batch;
  after = empty;
  sent = refl;
  delivered = batch-AreDelivered;
  result = ok (arrival ∷ arrival ∷ [], []);
  received_so =
      receive-ok integers plain Tables consumer empty empty batch (arrival ∷ arrival ∷ []) refl
        batch_split;
  shown = refl;
}

rounds-Polls : Polls integers plain Tables events rounds
rounds-Polls = outage refl (turn batch-Returns no_turn)

still_running : (dispatch integers receive_backoff_initial rounds).stopped ≡ false
unfolding pool_dispatch
still_running = refl

dispatch-IsCounted_example :
    All
      (IsCounted integers
        (worker_loop integers
          (Counted integers Tables)
          (over_ports integers Tables ports forget (pos 5))
          (dispatch integers receive_backoff_initial rounds).jobs
          (record { world = empty; counted = [] })).1.counted)
      events
dispatch-IsCounted_example =
    dispatch-IsCounted integers plain plain-ReadsBack Tables Tables ports stored memory-Answers
      forget (λ handle w id. refl) (pos 5) events rounds empty
      (event-IsEnriched, (event-IsEnriched, tt)) rounds-Polls still_running (λ id. refl)
