-- ===== src/Aggregator/Main/Exit.antt =====
-- What the exit code of the aggregator tells.
use devflow_pipeline.Prelude.{ℕ, sym, ◌≡◌, refl, ◌⊎◌, inl, inr, arith}
use devflow_pipeline.Go.Call.{Call, Result, ok, err, returned, return}
use devflow_pipeline.Go.Float.{Float64}
use devflow_pipeline.Go.Process.{
  Ended, Drain, drained, grace_exceeded, ended, exit_code, >>=-returned,
}
use devflow_pipeline.Tracing as tracing
use devflow_pipeline.Aggregator.Config.{Config, load, IsUsable, load-IsUsable}
use devflow_pipeline.Aggregator.Main.Defs.{Env, with_tracing, run, with_config, main}
use devflow_pipeline.Aggregator.Main.Served.{Fails, WasServed, with_tracing-WasServed}

module _ (fl : Float64) (S Exporter Resource AwsConfig : Type 0)
    (env : Env fl S Exporter Resource AwsConfig) where
  -- The service was served to its end, and its workers were done within the grace period.
  pub record WasStopped : Type 0 where
    pub cfg : Config
    pub loaded : load env.environ ≡ ok cfg
    pub usable : IsUsable cfg
    pub end : Ended
    pub service : WasServed fl S Exporter Resource AwsConfig env cfg end
    pub in_time : service.stopped.drain ≡ drained
    pub workers : service.pool.workers ≡ cfg.workers

  in_time : (end : Ended) (d : Drain) → exit_code end ≡ 0 → end ≡ ended d → d ≡ drained
  unfolding exit_code ended
  in_time end drained code ends = refl
  in_time end grace_exceeded code ends = absurd (ground (arith, code, ends))

  abbrev pub Ends : Config → Ended → Type 0
  Ends cfg end =
      Fails fl S Exporter Resource AwsConfig env end
      ⊎ WasServed fl S Exporter Resource AwsConfig env cfg end

  config-Ends :
      (o : Result Config) (s : S) (code : ℕ)
      → load env.environ ≡ o
      → (with_config fl S Exporter Resource AwsConfig env o s).0 ≡ returned code
      → (code ≡ 1)
        ⊎ ((cfg : Config) × (load env.environ ≡ ok cfg)
            × (end : Ended) × (code ≡ exit_code end)
            × Ends cfg end)
  unfolding with_config run
  config-Ends (err e) s code q h = inl (cc h)
  config-Ends (ok cfg) s code q h =
      let init : Call S (Result (tracing.Shutdown S)) =
        tracing.init S Exporter Resource env.environ env.otel "devflow-aggregator" "dev" in
      let (end, ran, same) =
        >>=-returned (run fl S Exporter Resource AwsConfig env cfg) (λ end. return (exit_code end))
          s code h in
      let (t, inited, ended) =
        >>=-returned init (with_tracing fl S Exporter Resource AwsConfig env cfg) s end ran in
      inr (
        cfg,
        q,
        end,
        cc same,
        with_tracing-WasServed fl S Exporter Resource AwsConfig env cfg t (init s).1 end ended,
      )

  -- A main that returns a code: it is 1, or `run` has ended with it.
  pub main-Ends :
      (s : S) (code : ℕ)
      → (main fl S Exporter Resource AwsConfig env s).0 ≡ returned code
      → (code ≡ 1)
        ⊎ ((cfg : Config) × (load env.environ ≡ ok cfg)
            × (end : Ended) × (code ≡ exit_code end)
            × Ends cfg end)
  unfolding main
  main-Ends s code h = config-Ends (load env.environ) s code refl h

  ends-WasStopped :
      (cfg : Config) (end : Ended)
      → load env.environ ≡ ok cfg
      → 0 ≡ exit_code end
      → Ends cfg end
      → WasStopped
  unfolding exit_code
  ends-WasStopped cfg end loaded code (inl (e, same)) = absurd (ground (arith, code, same))
  ends-WasStopped cfg end loaded code (inr w) =
      let usable : IsUsable cfg = load-IsUsable env.environ cfg loaded in
      record {
        cfg = cfg;
        loaded = loaded;
        usable = usable;
        end = end;
        service = w;
        in_time = in_time end w.stopped.drain (sym code) w.stopped.ends;
        workers = w.workers usable.workers;
      }

  -- When the aggregator exits with code 0, `Load` has accepted a usable configuration; a pool that runs
  -- Execute over its tables, with its number of workers and its wait time, and the router over the same
  -- tables, at its address, were served until a signal or the close of the server; and after the
  -- shutdown of the server all workers were done within the grace period.
  pub main-WasStopped :
      (s : S) → (main fl S Exporter Resource AwsConfig env s).0 ≡ returned 0 → WasStopped
  main-WasStopped s h = elim (main-Ends s 0 h) [
    | inl other ↦ absurd (omega (arith, other))
    | inr (cfg, loaded, end, code, ends) ↦ ends-WasStopped cfg end loaded code ends
  ]
