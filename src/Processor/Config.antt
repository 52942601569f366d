-- ===== src/Processor/Config.antt =====
-- services/processor/internal/infra/config/config.go. `environ` is `os.Getenv`, and `hostname` the name
-- that `os.Hostname` returns.
use devflow_pipeline.Prelude.{
  ℕ, ◌+◌, ◌*◌, ◌^◌, ◌≤◌, ◌<◌, ◌||◌, String, ◌≡◌, ◌≢◌, ℤ, pos, ltb_ℤ, ◌≤ℤ◌, arith, str_eq, eq_iff,
  if◌then◌else◌,
}
use devflow_pipeline.Go.Error.{errors_new}
use devflow_pipeline.Go.Call.{Result, ok, err}
use devflow_pipeline.Go.Decimal.{itoa}
use devflow_pipeline.Env.{getenv, env_int, to_int32, env_int-itoa, to_int32_wraps}

pub record Config : Type 0 where
  pub aws_region : String
  pub aws_endpoint_url : String
  pub raw_queue_name : String
  pub out_queue_name : String
  pub workers : ℤ
  pub processor_id : String
  pub wait_time_seconds : ℤ
  pub log_level : String

-- The `Config` that Load builds before it checks it.
unfoldable pub read_config : (String → String) → String → Config
read_config environ hostname = record {
  aws_region = getenv environ "AWS_REGION" "us-east-1";
  aws_endpoint_url = environ "AWS_ENDPOINT_URL";
  raw_queue_name = getenv environ "RAW_EVENTS_QUEUE" "raw-events";
  out_queue_name = getenv environ "PROCESSED_EVENTS_QUEUE" "processed-events";
  workers = env_int environ "PROCESSOR_WORKERS" (pos 5);
  processor_id =
      getenv environ "PROCESSOR_ID" (if str_eq hostname "" then "processor" else hostname);
  wait_time_seconds = to_int32 (env_int environ "SQS_WAIT_TIME_SECONDS" (pos 10));
  log_level = getenv environ "LOG_LEVEL" "info";
}

-- `Load`
unfoldable pub load : (String → String) → String → Result Config
load environ hostname =
    let cfg = read_config environ hostname in
    if ltb_ℤ cfg.workers (pos 1)
    then err (errors_new "PROCESSOR_WORKERS must be >= 1")
    else if ltb_ℤ cfg.wait_time_seconds (pos 0) || ltb_ℤ (pos 20) cfg.wait_time_seconds
    then err (errors_new "SQS_WAIT_TIME_SECONDS must be between 0 and 20")
    else ok cfg

-- What the rest of the service needs of its settings: a worker, a wait that SQS accepts, and a name
-- for each thing that must have one.
pub record IsUsable (cfg : Config) : Type 0 where
  pub workers : pos 1 ≤ℤ cfg.workers
  pub wait_low : pos 0 ≤ℤ cfg.wait_time_seconds
  pub wait_high : cfg.wait_time_seconds ≤ℤ pos 20
  pub region : cfg.aws_region ≢ ""
  pub raw_queue : cfg.raw_queue_name ≢ ""
  pub out_queue : cfg.out_queue_name ≢ ""
  pub id : cfg.processor_id ≢ ""

getenv-nonempty :
    (environ : String → String) (key default : String)
    → default ≢ ""
    → getenv environ key default ≢ ""
unfolding getenv
getenv-nonempty environ key default h e = ground (arith, eq_iff (environ key) "")

load_accepted :
    (environ : String → String) (hostname : String) (cfg : Config)
    → load environ hostname ≡ ok cfg
    → cfg ≡ read_config environ hostname
unfolding load
load_accepted environ hostname cfg h = ground (arith, h)

named : (hostname : String) → (if str_eq hostname "" then "processor" else hostname) ≢ ""
named hostname e = ground (arith, eq_iff hostname "", eq_iff "processor" "")

-- A configuration that Load accepts has at least one worker, a wait from 0 to 20 seconds, and a region,
-- queue names and an id that are not empty, whatever the environment holds.
pub load-IsUsable :
    (environ : String → String) (hostname : String) (cfg : Config)
    → load environ hostname ≡ ok cfg
    → IsUsable cfg
unfolding load read_config
load-IsUsable environ hostname cfg h = record {
  workers = ground (arith, h);
  wait_low = ground (arith, h);
  wait_high = ground (arith, h);
  region = rw (load_accepted environ hostname cfg h) (
      getenv-nonempty environ "AWS_REGION" "us-east-1"
        (λ e. ground (arith, e, eq_iff "us-east-1" "")));
  raw_queue = rw (load_accepted environ hostname cfg h) (
      getenv-nonempty environ "RAW_EVENTS_QUEUE" "raw-events"
        (λ e. ground (arith, e, eq_iff "raw-events" "")));
  out_queue = rw (load_accepted environ hostname cfg h) (
      getenv-nonempty environ "PROCESSED_EVENTS_QUEUE" "processed-events"
        (λ e. ground (arith, e, eq_iff "processed-events" "")));
  id =
      rw (load_accepted environ hostname cfg h)
        (getenv-nonempty environ "PROCESSOR_ID" _ (named hostname));
}

-- For a number of workers from 1 and a wait of w seconds, w at most 20, or of any multiple of 2 ^ 32
-- seconds more, both written in decimal and within `int`: Load returns that number and w.
pub load_settings :
    (environ : String → String) (hostname : String) (n w k : ℕ)
    → environ "PROCESSOR_WORKERS" ≡ itoa (pos n)
    → environ "SQS_WAIT_TIME_SECONDS" ≡ itoa (pos (w + k * 2 ^ 32))
    → 1 ≤ n
    → n < 2 ^ 63
    → w ≤ 20
    → w + k * 2 ^ 32 < 2 ^ 63
    → load environ hostname
      ≡ ok (record (read_config environ hostname) { workers = pos n; wait_time_seconds = pos w })
unfolding load read_config
load_settings environ hostname n w k en ew n1 n63 w20 w63 = ground (
  arith,
  env_int-itoa environ "PROCESSOR_WORKERS" (pos 5) n en n63,
  env_int-itoa environ "SQS_WAIT_TIME_SECONDS" (pos 10) (w + k * 2 ^ 32) ew w63,
  to_int32_wraps w k (omega arith),
)
