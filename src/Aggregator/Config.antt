-- ===== src/Aggregator/Config.antt =====
-- services/aggregator/internal/infra/config/config.go. `environ` is `os.Getenv`.
use devflow_pipeline.Prelude.{
  ℕ, ◌+◌, ◌*◌, ◌^◌, ◌≤◌, ◌<◌, ◌||◌, String, ◌≡◌, ℤ, pos, ltb_ℤ, ◌≤ℤ◌, arith, if◌then◌else◌,
}
use devflow_pipeline.Go.Error.{errors_new}
use devflow_pipeline.Go.Call.{Result, ok, err}
use devflow_pipeline.Go.Decimal.{itoa}
use devflow_pipeline.Env.{getenv, env_int, to_int32, env_int-itoa, to_int32_wraps}

pub record Config : Type 0 where
  pub aws_region : String
  pub aws_endpoint_url : String
  pub in_queue_name : String
  pub events_table : String
  pub summary_table : String
  pub workers : ℤ
  pub wait_time_seconds : ℤ
  pub http_addr : String
  pub log_level : String

-- The `Config` that Load builds before it checks it.
unfoldable pub read_config : (String → String) → Config
read_config environ = record {
  aws_region = getenv environ "AWS_REGION" "us-east-1";
  aws_endpoint_url = environ "AWS_ENDPOINT_URL";
  in_queue_name = getenv environ "PROCESSED_EVENTS_QUEUE" "processed-events";
  events_table = getenv environ "EVENTS_TABLE" "events";
  summary_table = getenv environ "SUMMARY_TABLE" "developer_summary";
  workers = env_int environ "AGGREGATOR_WORKERS" (pos 5);
  wait_time_seconds = to_int32 (env_int environ "SQS_WAIT_TIME_SECONDS" (pos 10));
  http_addr = getenv environ "HTTP_ADDR" ":8080";
  log_level = getenv environ "LOG_LEVEL" "info";
}

-- `Load`
unfoldable pub load : (String → String) → Result Config
load environ =
    let cfg = read_config environ in
    if ltb_ℤ cfg.workers (pos 1)
    then err (errors_new "AGGREGATOR_WORKERS must be >= 1")
    else if ltb_ℤ cfg.wait_time_seconds (pos 0) || ltb_ℤ (pos 20) cfg.wait_time_seconds
    then err (errors_new "SQS_WAIT_TIME_SECONDS must be between 0 and 20")
    else ok cfg

pub record IsUsable (cfg : Config) : Type 0 where
  pub workers : pos 1 ≤ℤ cfg.workers
  pub wait_low : pos 0 ≤ℤ cfg.wait_time_seconds
  pub wait_high : cfg.wait_time_seconds ≤ℤ pos 20

-- What Load accepts has at least one worker, and a wait time that SQS allows.
pub load-IsUsable :
    (environ : String → String) (cfg : Config) → load environ ≡ ok cfg → IsUsable cfg
unfolding load read_config
load-IsUsable environ cfg h = record {
  workers = ground (arith, h);
  wait_low = ground (arith, h);
  wait_high = ground (arith, h);
}

-- For a number of workers from 1 and a wait of w seconds, w at most 20, or of any multiple of 2 ^ 32
-- seconds more, both written in decimal and within `int`: Load returns that number and w.
pub load_wraps :
    (environ : String → String) (n w k : ℕ)
    → environ "AGGREGATOR_WORKERS" ≡ itoa (pos n)
    → environ "SQS_WAIT_TIME_SECONDS" ≡ itoa (pos (w + k * 2 ^ 32))
    → 1 ≤ n
    → n < 2 ^ 63
    → w ≤ 20
    → w + k * 2 ^ 32 < 2 ^ 63
    → load environ
      ≡ ok (record (read_config environ) { workers = pos n; wait_time_seconds = pos w })
unfolding load read_config
load_wraps environ n w k en ew n1 n63 w20 w63 = ground (
  arith,
  env_int-itoa environ "AGGREGATOR_WORKERS" (pos 5) n en n63,
  env_int-itoa environ "SQS_WAIT_TIME_SECONDS" (pos 10) (w + k * 2 ^ 32) ew w63,
  to_int32_wraps w k (omega arith),
)
