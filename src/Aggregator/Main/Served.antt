-- ===== src/Aggregator/Main/Served.antt =====
-- What `run` of the aggregator has served when it ends.
use devflow_pipeline.Prelude.{String, ◌≡◌, refl, ◌⊎◌, inl, inr, none, some, [], pos, ◌≤ℤ◌, arith}
use devflow_pipeline.Go.Error.{GoError, wrap}
use devflow_pipeline.Go.Call.{Call, Result, ok, err, returned, return, ◌>>=◌}
use devflow_pipeline.Go.Float.{Float64}
use devflow_pipeline.Go.Process.{Ended, finished, Drain, ended, >>=-returned, deferring-returned}
use devflow_pipeline.Aws.Sqs.{SqsApi}
use devflow_pipeline.Aws.Dynamo.{DynamoApi}
use devflow_pipeline.Aws.Client.{new_sqs_client, new_dynamodb_client}
use devflow_pipeline.Tracing as tracing
use devflow_pipeline.Aggregator.Config.{Config}
use devflow_pipeline.Aggregator.UseCase.Defs.{execute}
use devflow_pipeline.Aggregator.Repository.Defs as repository
use devflow_pipeline.Aggregator.Repository.Defs.{DynamoDb}
use devflow_pipeline.Aggregator.Queue.{Consumer, resolve_queue_url, new_consumer, delete}
use devflow_pipeline.Aggregator.Worker.Defs.{Pool, new}
use devflow_pipeline.Aggregator.Api.Router.{HttpHandler, new_router}
use devflow_pipeline.Aggregator.Main.Defs.{
  Env, Woken, signalled, http_done, new_aggregate_event, handler_of, after_serve, with_dynamodb,
  with_queue_url, with_sqs, with_tracing,
}

module _ (fl : Float64) (S Exporter Resource AwsConfig : Type 0)
    (env : Env fl S Exporter Resource AwsConfig) where
  -- From the state `s`, the shutdown returns, and the wait for the workers ends the run as `end` says.
  pub record HasStopped (s : S) (end : Ended) : Type 0 where
    pub drain : Drain
    pub waited : (env.wait (env.shutdown s).1).0 ≡ returned drain
    pub ends : end ≡ ended drain

  -- The pool, which runs the use case over the tables of `cfg`, and the server of the router have been
  -- served with the settings of `cfg`, a failure of the server was not the end of it, and the run has
  -- ended as `end` says.
  pub record WasServed (cfg : Config) (end : Ended) : Type 0 where
    pub consumer : Consumer fl S
    pub pool : Pool fl S
    pub router : HttpHandler fl S
    pub repo : DynamoDb fl S
    pub executes :
        pool.execute ≡ execute fl S (new_aggregate_event fl S Exporter Resource AwsConfig env repo)
    pub deletes : pool.delete ≡ delete fl S consumer
    pub routed :
        router
        ≡ new_router fl S env.instrument env.not_found
            (handler_of fl S Exporter Resource AwsConfig env
              (record { consumer = consumer; repo = repo }))
            []
    pub events_table : repo.events_table ≡ cfg.events_table
    pub summary_table : repo.summary_table ≡ cfg.summary_table
    pub before : S
    pub woken : Woken
    pub served : (env.serve consumer pool cfg.http_addr router before).0 ≡ returned woken
    pub without_failure : (woken ≡ signalled) ⊎ (woken ≡ http_done none)
    pub stopped : HasStopped (env.serve consumer pool cfg.http_addr router before).1 end
    pub wait_time_seconds : consumer.wait_time_seconds ≡ cfg.wait_time_seconds
    pub workers : pos 1 ≤ℤ cfg.workers → pool.workers ≡ cfg.workers

  abbrev pub Fails : Ended → Type 0
  Fails end = (e : GoError) × (end ≡ finished (some e))

  shutdown-HasStopped :
      (s : S) (end : Ended)
      → ((env.shutdown >>= (λ _. env.wait >>= (λ d. return (ended d)))) s).0 ≡ returned end
      → HasStopped s end
  shutdown-HasStopped s end h =
      let finish : Call S Ended = env.wait >>= (λ d. return (ended d)) in
      let (e, q, r) = >>=-returned env.shutdown (λ _. finish) s end h in
      let (d, stops, same) =
        >>=-returned env.wait (λ d. return (ended d)) (env.shutdown s).1 end r in
      record { drain = d; waited = stops; ends = cc same }

  after_serve-HasStopped :
      (woken : Woken) (s : S) (end : Ended)
      → (after_serve fl S Exporter Resource AwsConfig env woken s).0 ≡ returned end
      → Fails end ⊎ (((woken ≡ signalled) ⊎ (woken ≡ http_done none)) × HasStopped s end)
  unfolding after_serve
  after_serve-HasStopped signalled s end h = inr (inl refl, shutdown-HasStopped s end h)
  after_serve-HasStopped (http_done none) s end h = inr (inr refl, shutdown-HasStopped s end h)
  after_serve-HasStopped (http_done (some e)) s end h = inl (wrap "http server" e, cc h)

  with_dynamodb-WasServed :
      (cfg : Config) (consumer : Consumer fl S) (client : Result (DynamoApi S)) (s : S)
      (end : Ended)
      → consumer.wait_time_seconds ≡ cfg.wait_time_seconds
      → (with_dynamodb fl S Exporter Resource AwsConfig env cfg consumer client s).0 ≡ returned end
      → Fails end ⊎ WasServed cfg end
  unfolding with_dynamodb new repository.new
  with_dynamodb-WasServed cfg consumer (err e) s end same h = inl (wrap "ddb client" e, cc h)
  with_dynamodb-WasServed cfg consumer (ok api) s end same h =
      let repo : DynamoDb fl S =
        repository.new fl S api cfg.events_table cfg.summary_table env.now in
      let pool : Pool fl S =
        new fl S (delete fl S consumer)
          (execute fl S (new_aggregate_event fl S Exporter Resource AwsConfig env repo))
          cfg.workers in
      let router : HttpHandler fl S =
        new_router fl S env.instrument env.not_found
          (handler_of fl S Exporter Resource AwsConfig env
            (record { consumer = consumer; repo = repo }))
          [] in
      let (woken, q, r) =
        >>=-returned (env.serve consumer pool cfg.http_addr router)
          (after_serve fl S Exporter Resource AwsConfig env) s end h in
      elim (after_serve-HasStopped woken _ end r) [
        | inl e ↦ inl e
        | inr (quiet, stopped) ↦ inr (record {
          consumer = consumer;
          pool = pool;
          router = router;
          repo = repo;
          executes = refl;
          deletes = refl;
          routed = refl;
          events_table = refl;
          summary_table = refl;
          before = s;
          woken = woken;
          served = q;
          without_failure = quiet;
          stopped = stopped;
          wait_time_seconds = same;
          workers = λ p. ground arith;
        })
      ]

  with_queue_url-WasServed :
      (cfg : Config) (api : SqsApi S) (url : Result String) (s : S) (end : Ended)
      → (with_queue_url fl S Exporter Resource AwsConfig env cfg api url s).0 ≡ returned end
      → Fails end ⊎ WasServed cfg end
  unfolding with_queue_url new_consumer
  with_queue_url-WasServed cfg api (err e) s end h = inl (e, cc h)
  with_queue_url-WasServed cfg api (ok url) s end h =
      let consumer : Consumer fl S =
        new_consumer fl S api cfg.in_queue_name url cfg.wait_time_seconds (pos 10) in
      let open_client : Call S (Result (DynamoApi S)) =
        new_dynamodb_client S AwsConfig env.sdk cfg.aws_region cfg.aws_endpoint_url in
      let (client, q, r) =
        >>=-returned open_client (with_dynamodb fl S Exporter Resource AwsConfig env cfg consumer) s
          end h in
      with_dynamodb-WasServed cfg consumer client (open_client s).1 end refl r

  with_sqs-WasServed :
      (cfg : Config) (client : Result (SqsApi S)) (s : S) (end : Ended)
      → (with_sqs fl S Exporter Resource AwsConfig env cfg client s).0 ≡ returned end
      → Fails end ⊎ WasServed cfg end
  unfolding with_sqs
  with_sqs-WasServed cfg (err e) s end h = inl (wrap "sqs client" e, cc h)
  with_sqs-WasServed cfg (ok api) s end h =
      let ask : Call S (Result String) = resolve_queue_url fl S env.quoted api cfg.in_queue_name in
      let (url, q, r) =
        >>=-returned ask (with_queue_url fl S Exporter Resource AwsConfig env cfg api) s end h in
      with_queue_url-WasServed cfg api url (ask s).1 end r

  pub with_tracing-WasServed :
      (cfg : Config) (t : Result (tracing.Shutdown S)) (s : S) (end : Ended)
      → (with_tracing fl S Exporter Resource AwsConfig env cfg t s).0 ≡ returned end
      → Fails end ⊎ WasServed cfg end
  unfolding with_tracing
  with_tracing-WasServed cfg (err e) s end h = inl (wrap "tracing init" e, cc h)
  with_tracing-WasServed cfg (ok shutdown) s end h =
      let open_client : Call S (Result (SqsApi S)) =
        new_sqs_client S AwsConfig env.sdk cfg.aws_region cfg.aws_endpoint_url in
      let rest : Result (SqsApi S) → Call S Ended =
        with_sqs fl S Exporter Resource AwsConfig env cfg in
      let body = deferring-returned shutdown (open_client >>= rest) s end h in
      let (client, q, r) = >>=-returned open_client rest s end body in
      with_sqs-WasServed cfg client (open_client s).1 end r
