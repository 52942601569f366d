-- ===== src/Aggregator/Tracing.antt =====
-- services/aggregator/internal/infra/tracing/tracing.go, whose text is that of services/processor.
use devflow_pipeline.Prelude.{String}
use devflow_pipeline.Go.Call.{Call, Result}
use devflow_pipeline.Tracing as tracing
use devflow_pipeline.Tracing.{Sdk, Shutdown}

module _ (S Exporter Resource : Type 0) where
  -- `Init`
  abbrev pub init :
      (String → String) → Sdk S Exporter Resource → String → String → Call S (Result (Shutdown S))
  init = tracing.init S Exporter Resource
