-- ===== src/Aws/Client.antt =====
-- `NewClient` of the packages queue and repository. `AwsConfig` is the configuration type of the SDK.
use devflow_pipeline.Prelude.{String, Option, none, some, str_eq, if◌then◌else◌}
use devflow_pipeline.Go.Error.{wrap}
use devflow_pipeline.Go.Call.{Call, Result, ok, err, return, ◌>>=◌}
use devflow_pipeline.Aws.Sqs.{SqsApi}
use devflow_pipeline.Aws.Dynamo.{DynamoApi}

module _ (S AwsConfig : Type 0) where
  -- `LoadDefaultConfig` with a region, `otelaws.AppendMiddlewares`, and the two `NewFromConfig` with
  -- the `BaseEndpoint` of their options.
  pub record Sdk : Type 0 where
    pub load_default_config : (region : String) → Call S (Result AwsConfig)
    pub append_middlewares : AwsConfig → AwsConfig
    pub sqs_from_config : AwsConfig → (base_endpoint : Option String) → SqsApi S
    pub dynamodb_from_config : AwsConfig → (base_endpoint : Option String) → DynamoApi S

  base_endpoint : String → Option String
  base_endpoint endpoint_url = if str_eq endpoint_url "" then none else some endpoint_url

  -- `queue.NewClient` of both services
  unfoldable pub new_sqs_client : Sdk → String → String → Call S (Result (SqsApi S))
  unfolding base_endpoint
  new_sqs_client sdk region endpoint_url = do
    cfg ← sdk.load_default_config region
    elim cfg [
      | err e ↦ return (err (wrap "load aws config" e))
      | ok c ↦
          return (ok (sdk.sqs_from_config (sdk.append_middlewares c) (base_endpoint endpoint_url)))
    ]

  -- `repository.NewClient`
  unfoldable pub new_dynamodb_client : Sdk → String → String → Call S (Result (DynamoApi S))
  unfolding base_endpoint
  new_dynamodb_client sdk region endpoint_url = do
    cfg ← sdk.load_default_config region
    elim cfg [
      | err e ↦ return (err (wrap "load aws config" e))
      | ok c ↦
          return
            (ok (sdk.dynamodb_from_config (sdk.append_middlewares c) (base_endpoint endpoint_url)))
    ]
