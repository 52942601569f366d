-- ===== src/Tests/Main.antt =====
-- The start and the end of both services, in an environment where nothing is set.
use devflow_pipeline.Prelude.{ℕ, String, ◌≡◌, refl, none, some, []}
use devflow_pipeline.Go.Error.{errors_new}
use devflow_pipeline.Go.Call.{ok, err, return, returned}
use devflow_pipeline.Go.Process.{Drain, drained, grace_exceeded}
use devflow_pipeline.Aws.Sqs.{SqsApi}
use devflow_pipeline.Aws.Client.{Sdk}
use devflow_pipeline.Tracing as tracing
use devflow_pipeline.Processor.Main.Defs as processor
use devflow_pipeline.Processor.Main.Exit.{WasDrained, main-WasDrained}
use devflow_pipeline.Aggregator.Main.Defs as aggregator
use devflow_pipeline.Aggregator.Main.Defs.{Woken, signalled, http_done}
use devflow_pipeline.Aggregator.Main.Exit.{WasStopped, main-WasStopped}
use devflow_pipeline.Aggregator.Api.Defs.{open_api_document}
use devflow_pipeline.Processor.Config.{load, read_config}
use devflow_pipeline.Aggregator.Config.{load as aggregator_load, read_config as read_aggregator}
use devflow_pipeline.Env.{env_int, to_int32}
use devflow_pipeline.Go.Process.{deferring}
use devflow_pipeline.Aws.Client.{new_sqs_client, new_dynamodb_client}
use devflow_pipeline.Processor.Queue.Defs.{queue_url}
use devflow_pipeline.Aggregator.Queue.{resolve_queue_url}
use devflow_pipeline.Tests.Fixtures.{integers, any_uuid, at_second}
use devflow_pipeline.Tests.Wire.{plain}
use devflow_pipeline.Tests.Memory.{Tables, marshal_map, repository}
use devflow_pipeline.Tests.Aggregator.{empty}

abbrev unset : String → String
unset key = ""

-- An SQS that accepts everything and has nothing to deliver.
abbrev silent : SqsApi Tables
silent = record {
  receive_message = λ url n wait. return (ok []);
  delete_message = λ url handle. return none;
  send_message = λ url body attributes. return none;
  get_queue_url = λ name. return (ok (some name));
}

abbrev sdk : Sdk Tables ℕ
sdk = record {
  load_default_config = λ region. return (ok 0);
  append_middlewares = λ c. c;
  sqs_from_config = λ c endpoint. silent;
  dynamodb_from_config = λ c endpoint. repository.api;
}

abbrev otel : tracing.Sdk Tables ℕ ℕ
otel = record {
  new_exporter = λ url insecure. return (ok 0);
  new_resource = λ name version. return (ok 0);
  install_provider = λ exporter resource. return (return none);
  set_propagator = return tt;
}

-- The processor, whose wait for the workers ends as said.
abbrev processor_env : Drain → processor.Env integers Tables ℕ ℕ ℕ
processor_env d = record {
  environ = unset;
  hostname = "host";
  otel = otel;
  sdk = sdk;
  quoted = λ name. name;
  inject = λ attributes. attributes;
  uuid_parse = any_uuid;
  scalars = plain;
  now = return (at_second 1000);
  serve = λ consumer pool. return d;
}

drained_exit : (processor.main integers Tables ℕ ℕ ℕ (processor_env drained) empty).0 ≡ returned 0
unfolding processor.main load read_config env_int to_int32 tracing.init deferring new_sqs_client
    queue_url
drained_exit = refl

exceeded_exit :
    (processor.main integers Tables ℕ ℕ ℕ (processor_env grace_exceeded) empty).0 ≡ returned 2
unfolding processor.main load read_config env_int to_int32 tracing.init deferring new_sqs_client
    queue_url
exceeded_exit = refl

main-WasDrained_example : WasDrained integers Tables ℕ ℕ ℕ (processor_env drained)
main-WasDrained_example =
    main-WasDrained integers Tables ℕ ℕ ℕ (processor_env drained) empty drained_exit

-- The aggregator, which is woken as said.
abbrev aggregator_env : Woken → aggregator.Env integers Tables ℕ ℕ ℕ
aggregator_env woken = record {
  environ = unset;
  otel = otel;
  sdk = sdk;
  quoted = λ name. name;
  marshal_map = marshal_map;
  unmarshal_event = λ item. err (errors_new "no event");
  unmarshal_summary = λ item. err (errors_new "no summary");
  error_text = λ e. "error";
  instrument = λ handler. handler;
  not_found = λ request. return (record {
    status = 404;
    content_type = "text/plain";
    cache_control = none;
    body = open_api_document;
  });
  now = return (at_second 1000);
  serve = λ consumer pool addr router. return woken;
  shutdown = return none;
  wait = return drained;
}

signalled_exit :
    (aggregator.main integers Tables ℕ ℕ ℕ (aggregator_env signalled) empty).0 ≡ returned 0
unfolding aggregator.main aggregator_load read_aggregator env_int to_int32 tracing.init deferring
    new_sqs_client new_dynamodb_client resolve_queue_url
signalled_exit = refl

-- The address is taken.
http_exit :
    (aggregator.main integers Tables ℕ ℕ ℕ
      (aggregator_env (http_done (some (errors_new "address in use"))))
      empty).0
    ≡ returned 1
unfolding aggregator.main aggregator_load read_aggregator env_int to_int32 tracing.init deferring
    new_sqs_client new_dynamodb_client resolve_queue_url
http_exit = refl

main-WasStopped_example : WasStopped integers Tables ℕ ℕ ℕ (aggregator_env signalled)
main-WasStopped_example =
    main-WasStopped integers Tables ℕ ℕ ℕ (aggregator_env signalled) empty signalled_exit
