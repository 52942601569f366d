-- ===== src/Processor/Main/Exit.antt =====
-- What the exit code of the processor tells.
use devflow_pipeline.Prelude.{ℕ, sym, String, ◌≡◌, refl, ◌⊎◌, inl, inr, some, pos, ◌≤ℤ◌, arith}
use devflow_pipeline.Go.Error.{GoError, wrap}
use devflow_pipeline.Go.Call.{Call, Result, ok, err, returned, return, ◌>>=◌}
use devflow_pipeline.Go.Float.{Float64}
use devflow_pipeline.Go.Process.{
  Ended, finished, Drain, drained, grace_exceeded, ended, exit_code, >>=-returned,
  deferring-returned,
}
use devflow_pipeline.Aws.Sqs.{SqsApi}
use devflow_pipeline.Aws.Client.{new_sqs_client}
use devflow_pipeline.Tracing as tracing
use devflow_pipeline.Processor.Config.{Config, load, IsUsable, load-IsUsable}
use devflow_pipeline.Processor.Queue.Defs.{Consumer, Publisher, queue_url, new_consumer, delete}
use devflow_pipeline.Processor.Worker.Defs.{Pool, new}
use devflow_pipeline.Processor.UseCase.{execute}
use devflow_pipeline.Processor.Main.Defs.{
  Env, with_out_url, with_raw_url, with_client, with_tracing, run, with_config, main, run,
  new_publisher, new_process_event,
}

module _ (fl : Float64) (S Exporter Resource AwsConfig : Type 0)
    (env : Env fl S Exporter Resource AwsConfig) where
  -- The pool has been served with the settings of `cfg`, and the service has ended as `end` says.
  pub record WasServed (cfg : Config) (end : Ended) : Type 0 where
    pub consumer : Consumer fl S
    pub pool : Pool fl S
    pub publisher : Publisher fl S
    pub executes :
        pool.execute
        ≡ execute fl S env.uuid_parse
            (new_process_event fl S Exporter Resource AwsConfig env publisher cfg.processor_id)
    pub deletes : pool.delete ≡ delete fl S consumer
    pub before : S
    pub drain : Drain
    pub served : (env.serve consumer pool before).0 ≡ returned drain
    pub ends : end ≡ ended drain
    pub wait_time_seconds : consumer.wait_time_seconds ≡ cfg.wait_time_seconds
    pub workers : pos 1 ≤ℤ cfg.workers → pool.workers ≡ cfg.workers

  -- `run` returns an error, or has served.
  abbrev pub Ends : Config → Ended → Type 0
  Ends cfg end = ((e : GoError) × (end ≡ finished (some e))) ⊎ WasServed cfg end

  with_out_url-Ends :
      (cfg : Config) (api : SqsApi S) (raw_url : String) (out : Result String) (s : S) (end : Ended)
      → (with_out_url fl S Exporter Resource AwsConfig env cfg api raw_url out s).0 ≡ returned end
      → Ends cfg end
  unfolding with_out_url new_consumer new
  with_out_url-Ends cfg api raw_url (err e) s end h = inl (e, cc h)
  with_out_url-Ends cfg api raw_url (ok out_url) s end h =
      let consumer : Consumer fl S = new_consumer fl S api raw_url cfg.wait_time_seconds (pos 10) in
      let pool : Pool fl S =
        new fl S (delete fl S consumer)
          (execute fl S env.uuid_parse (
            new_process_event fl S Exporter Resource AwsConfig env
              (new_publisher fl S Exporter Resource AwsConfig env api out_url) cfg.processor_id))
          cfg.workers in
      let (d, q, r) = >>=-returned (env.serve consumer pool) (λ x. return (ended x)) s end h in
      inr (record {
        consumer = consumer;
        pool = pool;
        publisher = new_publisher fl S Exporter Resource AwsConfig env api out_url;
        executes = refl;
        deletes = refl;
        before = s;
        drain = d;
        served = q;
        ends = cc r;
        wait_time_seconds = refl;
        workers = λ p. ground arith;
      })

  with_raw_url-Ends :
      (cfg : Config) (api : SqsApi S) (raw : Result String) (s : S) (end : Ended)
      → (with_raw_url fl S Exporter Resource AwsConfig env cfg api raw s).0 ≡ returned end
      → Ends cfg end
  unfolding with_raw_url
  with_raw_url-Ends cfg api (err e) s end h = inl (e, cc h)
  with_raw_url-Ends cfg api (ok raw_url) s end h =
      let ask : Call S (Result String) = queue_url fl S env.quoted api cfg.out_queue_name in
      let (out, q, r) =
        >>=-returned ask (with_out_url fl S Exporter Resource AwsConfig env cfg api raw_url) s end
          h in
      with_out_url-Ends cfg api raw_url out (ask s).1 end r

  with_client-Ends :
      (cfg : Config) (client : Result (SqsApi S)) (s : S) (end : Ended)
      → (with_client fl S Exporter Resource AwsConfig env cfg client s).0 ≡ returned end
      → Ends cfg end
  unfolding with_client
  with_client-Ends cfg (err e) s end h = inl (wrap "aws client" e, cc h)
  with_client-Ends cfg (ok api) s end h =
      let ask : Call S (Result String) = queue_url fl S env.quoted api cfg.raw_queue_name in
      let (raw, q, r) =
        >>=-returned ask (with_raw_url fl S Exporter Resource AwsConfig env cfg api) s end h in
      with_raw_url-Ends cfg api raw (ask s).1 end r

  with_tracing-Ends :
      (cfg : Config) (t : Result (tracing.Shutdown S)) (s : S) (end : Ended)
      → (with_tracing fl S Exporter Resource AwsConfig env cfg t s).0 ≡ returned end
      → Ends cfg end
  unfolding with_tracing
  with_tracing-Ends cfg (err e) s end h = inl (wrap "tracing init" e, cc h)
  with_tracing-Ends cfg (ok shutdown) s end h =
      let open_client : Call S (Result (SqsApi S)) =
        new_sqs_client S AwsConfig env.sdk cfg.aws_region cfg.aws_endpoint_url in
      let body =
        deferring-returned shutdown
          (open_client >>= with_client fl S Exporter Resource AwsConfig env cfg) s end h in
      let (client, q, r) =
        >>=-returned open_client (with_client fl S Exporter Resource AwsConfig env cfg) s end
          body in
      with_client-Ends cfg client (open_client s).1 end r

  -- The service was served to its end, within the grace period.
  pub record WasDrained : Type 0 where
    pub cfg : Config
    pub loaded : load env.environ env.hostname ≡ ok cfg
    pub usable : IsUsable cfg
    pub consumer : Consumer fl S
    pub pool : Pool fl S
    pub publisher : Publisher fl S
    pub executes :
        pool.execute
        ≡ execute fl S env.uuid_parse
            (new_process_event fl S Exporter Resource AwsConfig env publisher cfg.processor_id)
    pub deletes : pool.delete ≡ delete fl S consumer
    pub before : S
    pub served : (env.serve consumer pool before).0 ≡ returned drained
    pub wait_time_seconds : consumer.wait_time_seconds ≡ cfg.wait_time_seconds
    pub workers : pool.workers ≡ cfg.workers

  served-WasDrained :
      (cfg : Config) (end : Ended)
      → load env.environ env.hostname ≡ ok cfg
      → exit_code end ≡ 0
      → WasServed cfg end
      → WasDrained
  unfolding exit_code ended
  served-WasDrained cfg end loaded code w =
      let usable : IsUsable cfg = load-IsUsable env.environ env.hostname cfg loaded in
      record {
        cfg = cfg;
        loaded = loaded;
        usable = usable;
        consumer = w.consumer;
        pool = w.pool;
        publisher = w.publisher;
        executes = w.executes;
        deletes = w.deletes;
        before = w.before;
        served = in_time w.drain w.served w.ends;
        wait_time_seconds = w.wait_time_seconds;
        workers = w.workers usable.workers;
      }
    where
      in_time :
          (d : Drain)
          → (env.serve w.consumer w.pool w.before).0 ≡ returned d
          → end ≡ ended d
          → (env.serve w.consumer w.pool w.before).0 ≡ returned drained
      in_time drained served ends = served
      in_time grace_exceeded served ends = absurd (ground (arith, code, ends))

  config-Ends :
      (o : Result Config) (s : S) (code : ℕ)
      → load env.environ env.hostname ≡ o
      → (with_config fl S Exporter Resource AwsConfig env o s).0 ≡ returned code
      → (code ≡ 1)
        ⊎ ((cfg : Config) × (load env.environ env.hostname ≡ ok cfg)
            × (end : Ended) × (code ≡ exit_code end)
            × Ends cfg end)
  unfolding with_config run
  config-Ends (err e) s code q h = inl (cc h)
  config-Ends (ok cfg) s code q h =
      let init : Call S (Result (tracing.Shutdown S)) =
        tracing.init S Exporter Resource env.environ env.otel "devflow-processor" "dev" in
      let (end, ran, same) =
        >>=-returned (run fl S Exporter Resource AwsConfig env cfg) (λ end. return (exit_code end))
          s code h in
      let (t, inited, ended) =
        >>=-returned init (with_tracing fl S Exporter Resource AwsConfig env cfg) s end ran in
      inr (cfg, q, end, cc same, with_tracing-Ends cfg t (init s).1 end ended)

  -- A main that returns a code: it is 1, or `run` has ended with it.
  pub main-Ends :
      (s : S) (code : ℕ)
      → (main fl S Exporter Resource AwsConfig env s).0 ≡ returned code
      → (code ≡ 1)
        ⊎ ((cfg : Config) × (load env.environ env.hostname ≡ ok cfg)
            × (end : Ended) × (code ≡ exit_code end)
            × Ends cfg end)
  unfolding main
  main-Ends s code h = config-Ends (load env.environ env.hostname) s code refl h

  ends-WasDrained :
      (cfg : Config) (end : Ended)
      → load env.environ env.hostname ≡ ok cfg
      → 0 ≡ exit_code end
      → Ends cfg end
      → WasDrained
  unfolding exit_code
  ends-WasDrained cfg end loaded code (inl (e, same)) = absurd (ground (arith, code, same))
  ends-WasDrained cfg end loaded code (inr w) = served-WasDrained cfg end loaded (sym code) w

  -- When the processor exits with code 0, `Load` has accepted a usable configuration, and a pool that
  -- runs Execute with its name, with its number of workers and its wait time, was served until all of
  -- its workers were done within the grace period.
  pub main-WasDrained :
      (s : S) → (main fl S Exporter Resource AwsConfig env s).0 ≡ returned 0 → WasDrained
  main-WasDrained s h = elim (main-Ends s 0 h) [
    | inl other ↦ absurd (omega (arith, other))
    | inr (cfg, loaded, end, code, ends) ↦ ends-WasDrained cfg end loaded code ends
  ]
