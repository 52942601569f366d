-- ===== src/Processor/Main/Defs.antt =====
-- services/processor/cmd/processor/main.go: the start of the service and the code that the process ends
-- with. Log lines, and the level that `parseLogLevel` reads for them, are left out.
use devflow_pipeline.Prelude.{ℕ, String, Bool, some, pos}
use devflow_pipeline.Go.Error.{wrap}
use devflow_pipeline.Go.Call.{Call, Result, ok, err, return, ◌>>=◌}
use devflow_pipeline.Go.Float.{Float64}
use devflow_pipeline.Go.Time.{Time}
use devflow_pipeline.Go.Json.{Scalars}
use devflow_pipeline.Processor.Codec.{marshal_processed_event}
use devflow_pipeline.Go.Process.{Ended, finished, deferring, Drain, ended, exit_code}
use devflow_pipeline.Aws.Sqs.{SqsApi}
use devflow_pipeline.Aws.Client as aws
use devflow_pipeline.Aws.Client.{new_sqs_client}
use devflow_pipeline.Propagation.{Attributes}
use devflow_pipeline.Tracing as tracing
use devflow_pipeline.Processor.Config.{Config, load}
use devflow_pipeline.Processor.UseCase.{ProcessEvent, execute}
use devflow_pipeline.Processor.Queue.Defs.{
  Consumer, Publisher, queue_url, new_consumer, delete, publish,
}
use devflow_pipeline.Processor.Worker.Defs.{Pool, new}

module _ (fl : Float64) (S Exporter Resource AwsConfig : Type 0) where
  -- What is around the service: the environment, the host, the clients' libraries and the clock. `serve`
  -- is the time from the start of the pool to the end of the wait after the signal; `Pool.Drain` has
  -- its steps.
  pub record Env : Type 0 where
    pub environ : String → String
    pub hostname : String
    pub otel : tracing.Sdk S Exporter Resource
    pub sdk : aws.Sdk S AwsConfig
    pub quoted : String → String
    pub inject : Attributes → Attributes
    pub uuid_parse : String → Bool
    pub scalars : Scalars fl
    pub now : Call S Time
    pub serve : Consumer fl S → Pool fl S → Call S Drain

  -- `queue.NewPublisher`
  abbrev pub new_publisher : Env → SqsApi S → String → Publisher fl S
  new_publisher env api url = record { api = api; queue_url = url; inject = env.inject }

  -- `usecase.NewProcessEvent(publisher, cfg.ProcessorID, nil)`
  abbrev pub new_process_event : Env → Publisher fl S → String → ProcessEvent fl S
  new_process_event env publisher id = record {
    publish = publish fl S (marshal_processed_event fl env.scalars) publisher;
    clock = env.now;
    processor_id = id;
  }

  -- `run` from the URL of the queue processed-events on.
  unfoldable pub with_out_url : Env → Config → SqsApi S → String → Result String → Call S Ended
  unfolding ended
  with_out_url env cfg api raw_url (err e) = return (finished (some e))
  with_out_url env cfg api raw_url (ok out_url) = do
    let consumer = new_consumer fl S api raw_url cfg.wait_time_seconds (pos 10)
    let uc = new_process_event env (new_publisher env api out_url) cfg.processor_id
    let pool = new fl S (delete fl S consumer) (execute fl S env.uuid_parse uc) cfg.workers
    end ← env.serve consumer pool
    return (ended end)

  -- `run` from the URL of the queue raw-events on.
  unfoldable pub with_raw_url : Env → Config → SqsApi S → Result String → Call S Ended
  with_raw_url env cfg api (err e) = return (finished (some e))
  with_raw_url env cfg api (ok raw_url) = do
    out_url ← queue_url fl S env.quoted api cfg.out_queue_name
    with_out_url env cfg api raw_url out_url

  -- `run` from the client on.
  unfoldable pub with_client : Env → Config → Result (SqsApi S) → Call S Ended
  with_client env cfg (err e) = return (finished (some (wrap "aws client" e)))
  with_client env cfg (ok api) = do
    raw_url ← queue_url fl S env.quoted api cfg.raw_queue_name
    with_raw_url env cfg api raw_url

  -- `run` from the set-up of tracing on. What it defers is the flush of the spans.
  unfoldable pub with_tracing : Env → Config → Result (tracing.Shutdown S) → Call S Ended
  with_tracing env cfg (err e) = return (finished (some (wrap "tracing init" e)))
  with_tracing env cfg (ok shutdown) = deferring shutdown (do
    client ← new_sqs_client S AwsConfig env.sdk cfg.aws_region cfg.aws_endpoint_url
    with_client env cfg client)

  -- `run`
  unfoldable pub run : Env → Config → Call S Ended
  unfolding with_tracing with_client with_raw_url with_out_url
  run env cfg = do
    shutdown_tracing ←
        tracing.init S Exporter Resource env.environ env.otel "devflow-processor" "dev"
    with_tracing env cfg shutdown_tracing

  -- `main` from the configuration on.
  unfoldable pub with_config : Env → Result Config → Call S ℕ
  unfolding run exit_code
  with_config env (err e) = return 1
  with_config env (ok cfg) = do end ← run env cfg; return (exit_code end)

  -- `main`, with the code that the process exits with.
  unfoldable pub main : Env → Call S ℕ
  unfolding with_config
  main env = with_config env (load env.environ env.hostname)
