-- ===== src/Aggregator/Main/Defs.antt =====
-- services/aggregator/cmd/aggregator/main.go: the start of the service, its shutdown, and the code that
-- the process ends with. Log lines, and the level that `parseLogLevel` reads for them, are left out.
use devflow_pipeline.Prelude.{ℕ, String, Option, none, some, [], pos}
use devflow_pipeline.Go.Error.{GoError, wrap}
use devflow_pipeline.Go.Call.{Call, Result, ok, err, return, ◌>>=◌}
use devflow_pipeline.Go.Float.{Float64}
use devflow_pipeline.Go.Time.{Time}
use devflow_pipeline.Go.Process.{Ended, finished, deferring, Drain, ended, exit_code}
use devflow_pipeline.Aws.Sqs.{SqsApi}
use devflow_pipeline.Aws.Dynamo.{Item, DynamoApi}
use devflow_pipeline.Aws.Client as aws
use devflow_pipeline.Aws.Client.{new_sqs_client, new_dynamodb_client}
use devflow_pipeline.Tracing as tracing
use devflow_pipeline.Aggregator.Tracing.{init}
use devflow_pipeline.Aggregator.Config.{Config, load}
use devflow_pipeline.Aggregator.Domain.{EventRecord, DeveloperSummary}
use devflow_pipeline.Aggregator.UseCase.Defs.{AggregateEvent, execute}
use devflow_pipeline.Aggregator.Repository.Defs as repository
use devflow_pipeline.Aggregator.Repository.Defs.{DynamoDb}
use devflow_pipeline.Aggregator.Queue.{Consumer, resolve_queue_url, new_consumer, delete, health}
use devflow_pipeline.Aggregator.Worker.Defs.{Pool, new}
use devflow_pipeline.Aggregator.Api.Defs.{Handler}
use devflow_pipeline.Aggregator.Api.Totals.{new_handler}
use devflow_pipeline.Aggregator.Api.Router.{HttpHandler, new_router}

-- What `run` is woken by: a signal, or the end of `ListenAndServe`, where `ErrServerClosed` is nil.
pub data Woken : Type 0 where
  signalled : Woken
  http_done : Option GoError → Woken

module _ (fl : Float64) (S Exporter Resource AwsConfig : Type 0) where
  -- What is around the service: the environment, the clients' libraries, the HTTP server and the clock.
  -- `serve` is the time from the start of the pool and of the server to the first `select`, `shutdown`
  -- is `srv.Shutdown`, and `wait` is the last `select`.
  pub record Env : Type 0 where
    pub environ : String → String
    pub otel : tracing.Sdk S Exporter Resource
    pub sdk : aws.Sdk S AwsConfig
    pub quoted : String → String
    pub marshal_map : EventRecord fl → Result Item
    pub unmarshal_event : Item → Result (EventRecord fl)
    pub unmarshal_summary : Item → Result (DeveloperSummary fl)
    pub error_text : GoError → String
    pub instrument : HttpHandler fl S → HttpHandler fl S
    pub not_found : HttpHandler fl S
    pub now : Call S Time
    pub serve : Consumer fl S → Pool fl S → (addr : String) → HttpHandler fl S → Call S Woken
    pub shutdown : Call S (Option GoError)
    pub wait : Call S Drain

  -- `usecase.New(repo, repo, nil)`
  abbrev pub new_aggregate_event : Env → DynamoDb fl S → AggregateEvent fl S
  new_aggregate_event env repo = record {
    save_event = repository.save_event fl S env.marshal_map repo;
    update_summary = repository.update_summary fl S repo;
  }

  -- `pinger`
  pub record Pinger : Type 0 where
    pub consumer : Consumer fl S
    pub repo : DynamoDb fl S

  abbrev pub ping_sqs : Pinger → Call S (Option GoError)
  ping_sqs p = health fl S p.consumer

  abbrev pub ping_ddb : Pinger → Call S (Option GoError)
  ping_ddb p = repository.health_events fl S p.repo

  -- `api.NewHandler(repo, &pinger{…})`
  abbrev pub handler_of : Env → Pinger → Handler fl S
  handler_of env p =
      record (new_handler fl S p.repo env.unmarshal_event env.unmarshal_summary (ping_sqs p)
        env.error_text) { ping_ddb = ping_ddb p }

  -- `run` from the first `select` on.
  unfoldable pub after_serve : Env → Woken → Call S Ended
  unfolding ended
  after_serve env (http_done (some e)) = return (finished (some (wrap "http server" e)))
  after_serve env (http_done none) = do _ ← env.shutdown; end ← env.wait; return (ended end)
  after_serve env signalled = do _ ← env.shutdown; end ← env.wait; return (ended end)

  -- `run` from the DynamoDB client on.
  unfoldable pub with_dynamodb : Env → Config → Consumer fl S → Result (DynamoApi S) → Call S Ended
  unfolding after_serve
  with_dynamodb env cfg consumer (err e) = return (finished (some (wrap "ddb client" e)))
  with_dynamodb env cfg consumer (ok api) = do
    let repo = repository.new fl S api cfg.events_table cfg.summary_table env.now
    let uc = new_aggregate_event env repo
    let pool = new fl S (delete fl S consumer) (execute fl S uc) cfg.workers
    let router =
        new_router fl S env.instrument env.not_found
          (handler_of env (record { consumer = consumer; repo = repo })) []
    woken ← env.serve consumer pool cfg.http_addr router
    after_serve env woken

  -- `run` from the URL of the queue on.
  unfoldable pub with_queue_url : Env → Config → SqsApi S → Result String → Call S Ended
  unfolding with_dynamodb
  with_queue_url env cfg api (err e) = return (finished (some e))
  with_queue_url env cfg api (ok url) = do
    client ← new_dynamodb_client S AwsConfig env.sdk cfg.aws_region cfg.aws_endpoint_url
    with_dynamodb env cfg
        (new_consumer fl S api cfg.in_queue_name url cfg.wait_time_seconds (pos 10)) client

  -- `run` from the SQS client on.
  unfoldable pub with_sqs : Env → Config → Result (SqsApi S) → Call S Ended
  unfolding with_queue_url
  with_sqs env cfg (err e) = return (finished (some (wrap "sqs client" e)))
  with_sqs env cfg (ok api) = do
    url ← resolve_queue_url fl S env.quoted api cfg.in_queue_name
    with_queue_url env cfg api url

  -- `run` from the set-up of tracing on. What it defers is the flush of the spans.
  unfoldable pub with_tracing : Env → Config → Result (tracing.Shutdown S) → Call S Ended
  unfolding with_sqs
  with_tracing env cfg (err e) = return (finished (some (wrap "tracing init" e)))
  with_tracing env cfg (ok shutdown) = deferring shutdown (do
    client ← new_sqs_client S AwsConfig env.sdk cfg.aws_region cfg.aws_endpoint_url
    with_sqs env cfg client)

  -- `run`
  unfoldable pub run : Env → Config → Call S Ended
  unfolding with_tracing
  run env cfg = do
    shutdown_tracing ← init S Exporter Resource env.environ env.otel "devflow-aggregator" "dev"
    with_tracing env cfg shutdown_tracing

  -- `main` from the configuration on.
  unfoldable pub with_config : Env → Result Config → Call S ℕ
  unfolding run exit_code
  with_config env (err e) = return 1
  with_config env (ok cfg) = do end ← run env cfg; return (exit_code end)

  -- `main`, with the code that the process exits with.
  unfoldable pub main : Env → Call S ℕ
  unfolding with_config
  main env = with_config env (load env.environ)
