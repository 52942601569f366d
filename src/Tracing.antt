-- ===== src/Tracing.antt =====
-- services/processor/internal/infra/tracing/tracing.go and its copy in services/aggregator.
-- `Exporter` and `Resource` are types of the OpenTelemetry SDK; `environ` is `os.Getenv`.
use devflow_pipeline.Prelude.{String, Bool, Option, none, str_eq, if◌then◌else◌}
use devflow_pipeline.Go.Error.{GoError, wrap}
use devflow_pipeline.Go.Call.{Call, Result, ok, err, return, ◌>>=◌}

-- `Shutdown`
abbrev pub Shutdown : Type 0 → Type 0
Shutdown S = Call S (Option GoError)

module _ (S Exporter Resource : Type 0) where
  -- The calls of the SDK: `otlptracehttp.New`, `resource.New`, the new provider with its installation
  -- by `otel.SetTracerProvider`, which leaves its `Shutdown`, and `otel.SetTextMapPropagator`.
  pub record Sdk : Type 0 where
    pub new_exporter : (endpoint_url : String) (insecure : Bool) → Call S (Result Exporter)
    pub new_resource : (service_name service_version : String) → Call S (Result Resource)
    pub install_provider : Exporter → Resource → Call S (Shutdown S)
    pub set_propagator : Call S (Unit {0})

  -- `Init`
  unfoldable pub init : (String → String) → Sdk → String → String → Call S (Result (Shutdown S))
  init environ sdk service_name service_version =
      if str_eq (environ "OTEL_EXPORTER_OTLP_ENDPOINT") ""
      then (do _ ← sdk.set_propagator; return (ok (return none)))
      else do
        exporter ←
            sdk.new_exporter (environ "OTEL_EXPORTER_OTLP_ENDPOINT")
              (str_eq (environ "OTEL_EXPORTER_OTLP_INSECURE") "true")
        elim exporter [
          | err e ↦ return (err (wrap "otlp trace exporter" e))
          | ok x ↦ do
            resource ← sdk.new_resource service_name service_version
            elim resource [
              | err e ↦ return (err (wrap "otel resource" e))
              | ok res ↦ do
                shutdown ← sdk.install_provider x res
                _ ← sdk.set_propagator
                return (ok shutdown)
            ]
        ]
