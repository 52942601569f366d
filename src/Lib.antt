-- ===== src/Lib.antt =====
-- devflow-pipeline: two Go services and two queues between a producer of developer metrics and an
-- HTTP API.
--
-- The processor takes raw events from the queue raw-events, validates them, adds a schema version, the
-- instant and its own name, and publishes them to the queue processed-events. The aggregator takes
-- these, writes one row for each event id to the table of events, adds the event to the counters of its
-- developer in the table developer_summary, and serves both tables over HTTP. In both services a
-- dispatcher polls SQS and feeds a channel, from which a pool of workers takes messages; a worker deletes
-- a message from its queue when the use case has returned no error, and otherwise leaves it for SQS to
-- deliver again.
--
-- How code is modelled. A Go function that touches the world is a function from a state to an outcome
-- and a state (Go/Call): an outcome is a value or a panic. Errors are values of one data type
-- (Go/Error) with the dynamic types that the code tells apart, and `errors.As` walks the chain of
-- `fmt.Errorf("...: %w", err)`. Ports and clients are records of such functions over a state type that is
-- a parameter. A time is an instant in nanoseconds from the zero time with a zone offset (Go/Time);
-- its text in RFC 3339 is in Go/Time/Format and Go/Time/Json. `float64` is an abstract type with the
-- operations that the code uses (Go/Float); strings are sequences of characters, whose lengths in bytes
-- are those of UTF-8 (Go/Text).
--
-- The parts.
--   Propagation             services/processor/internal/infra/queue/propagation.go and its copy in
--                           services/aggregator: sqsAttrCarrier.Get, Set, Keys.
--   Report                  what spans and log lines show of one message.
--   Aws/Sqs, Aws/Dynamo     the AWS clients as records of operations, and what DynamoDB documents of
--                           conditional puts and of ADD and SET in updates (IsDocumented).
--   Pool                    dispatch, jitter and Run of services/*/internal/infra/worker/pool.go:
--                           dispatch over the rounds of its loop, Run as a step relation (Drain), in time
--                           from the cancellation on (Grace), and against the timer of main
--                           (Select). A list of rounds is a run up to some turn; the theorems
--                           hold for all lists, and so need no fuel.
--   Processor/Domain        services/processor/internal/domain: RawEvent.Validate and its error.
--   Processor/UseCase       services/processor/internal/usecase/process_event.go: Execute.
--   Processor/Queue         services/processor/internal/infra/queue/sqs.go: QueueURL, NewConsumer, Receive,
--                           Delete, Publish.
--   Processor/Worker        services/processor/internal/infra/worker/pool.go: New, handle, runOne,
--                           workerLoop.
--   Aggregator/Domain       services/aggregator/internal/domain: ToRecord, IncrementsFor,
--                           AvgReviewTimeMinutes and the tests of errors.
--   Aggregator/UseCase      services/aggregator/internal/usecase/aggregate_event.go: Execute.
--   Aggregator/Worker       services/aggregator/internal/infra/worker/pool.go: New, handle, runOne, the
--                           loop of a worker, and dispatch over its messages (Intake).
--   Aggregator/Repository   services/aggregator/internal/infra/repository/dynamodb.go: New, SaveEvent,
--                           UpdateSummary, ListByDeveloper, GetSummary, HealthEvents.
--   Env, Processor/Config, Aggregator/Config
--                           services/*/internal/infra/config/config.go: Load, getenv, envInt; `int` has 64
--                           bits and int32 wraps around.
--   Aggregator/Queue        services/aggregator/internal/infra/queue/sqs.go: NewConsumer,
--                           ResolveQueueURL, Receive, Delete, Health.
--   Aggregator/Concurrent   Execute and handle of services/aggregator as steps of several workers that
--                           interleave, one call of a port at a time.
--   Aggregator/Api          services/aggregator/internal/infra/api: the handlers, the routes, the
--                           middlewares, the text of the bodies (Encode) and what is promised of each
--                           resource (Promise).
--   Go/Json                 encoding/json of Go 1.22 on flat objects: the members in order, with the match
--                           of keys, null, duplicates and unknown fields (Json); the escapes of a string
--                           (Quote, Unquote); the scanner of strings, numbers and what is skipped (Lex,
--                           Nested); the text of an object both ways (Print, Parse), and of an array of
--                           objects (Array). The loops over members and over objects have fuel for each
--                           character of the text, which is more than there are members.
--   Processor/Codec, Aggregator/Codec
--                           the JSON tags of services/*/internal/domain/event.go, with the strict decoders
--                           of infra/queue/sqs.go.
--   Wire                    events from Publish of the processor to UpdateSummary of the aggregator: one
--                           event, a batch, what the dispatcher polls (Intake), and all that a worker of
--                           the processor takes (Pipeline).
--   Go/Process              the end of a process: os.Exit, deferred calls, exit codes.
--   Tracing, Aggregator/Tracing
--                           services/*/internal/infra/tracing/tracing.go: Init.
--   Aws/Client              NewClient of the packages queue and repository.
--   Processor/Main          services/processor/cmd/processor/main.go: main and run, with their exit
--                           codes (Exit).
--   Aggregator/Main         services/aggregator/cmd/aggregator/main.go: main, run and pinger, with the
--                           same children, and what has been served at the end (Served).
--   Tests                   runs on concrete data, over a DynamoDB in memory that meets what is assumed.
--
-- Loops over messages are structural recursion on the list of messages that a worker takes from the
-- channel, so they need no fuel either.
--
-- Parameters. uuid.Parse, the text of a float64, what a text is read as as a float64 and as a time,
-- attributevalue.MarshalMap, the AWS and OpenTelemetry SDKs, the random source, the clock and the
-- arithmetic of float64 are arguments, and what is relied on is named where it is used.
--
-- Not modelled. Spans and log lines beyond Report, and the trace context that Receive takes from the
-- attributes of a message; the timeout of a handler but in Pool/Grace, and those of the start and of the
-- flush; in Aggregator/Concurrent the channel, so that a worker takes any message at any time; in the two
-- Main modules the start of the pool's Run and of the server, the wait for a signal and the last `select` are
-- calls of the environment, whose outcomes are arguments, and no definition builds these calls from the steps
-- of Pool; scripts and containers. DynamoDB's limit of 38 digits to a number is not modelled, nor is the TTL
-- that infra/localstack/init-aws.sh sets on the events table: rows do not expire. GetItem reads with eventual
-- consistency, so that a theorem about a summary names the read that returns the row. What http.ServeMux
-- answers where no route matches, or the path is not clean, is an argument.
pub mod Prelude
pub mod Go
pub mod Propagation
pub mod Report
pub mod Env
pub mod Tracing
pub mod Aws
pub mod Pool
pub mod Processor
pub mod Aggregator
pub mod Wire
pub mod Tests
