-- ===== src/Tests/Config.antt =====
-- Environments that the two Loads read.
use devflow_pipeline.Prelude.{◌+◌, ◌*◌, ◌^◌, String, ◌≡◌, refl, pos, arith, str_eq, if◌then◌else◌}
use devflow_pipeline.Go.Call.{ok}
use devflow_pipeline.Go.Decimal.{itoa}
use devflow_pipeline.Processor.Config.{load, read_config, load_settings}
use devflow_pipeline.Aggregator.Config.{
  load as aggregator_load, read_config as read_aggregator, load_wraps,
}

-- A wait of 2 ^ 32 + 10 seconds.
abbrev environ : String → String
environ key =
    if str_eq key "PROCESSOR_WORKERS"
    then itoa (pos 8)
    else if str_eq key "AGGREGATOR_WORKERS"
    then itoa (pos 3)
    else if str_eq key "SQS_WAIT_TIME_SECONDS"
    then itoa (pos (10 + 1 * 2 ^ 32))
    else ""

loaded :
    load environ "host"
    ≡ ok (record (read_config environ "host") { workers = pos 8; wait_time_seconds = pos 10 })
loaded =
    load_settings environ "host" 8 10 1 refl refl (omega arith) (omega arith) (omega arith)
      (omega arith)

load_wraps_example :
    aggregator_load environ
    ≡ ok (record (read_aggregator environ) { workers = pos 3; wait_time_seconds = pos 10 })
load_wraps_example =
    load_wraps environ 3 10 1 refl refl (omega arith) (omega arith) (omega arith) (omega arith)
