-- ===== src/Aws.antt =====
-- What the services call of the AWS SDK for Go, as parameters over a state that they share.
pub mod Dynamo
pub mod Sqs
pub mod Client
