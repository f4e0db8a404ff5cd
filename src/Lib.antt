-- ===== src/Lib.antt =====
-- Verification library of file.cheap, a service that stores, transforms and shares files.
--
-- The repository is one Go program with an API server (cmd/api), a background worker (cmd/worker) and
-- a command-line client (cmd/fc). The parts modelled are the ones that keep state or decide.
--
-- Webhooks.
--   Webhook/CircuitBreaker.antt is internal/webhook/circuit_breaker.go: the map of endpoints is an
--   association list in a record, each method a function that returns the new breaker, `time.Now` an
--   argument. Webhook/CircuitBreaker/History.antt relates it to the history of calls, and
--   Webhook/CircuitBreaker/Recovery.antt to the clock.
--   Webhook/Backoff.antt is calculateBackoff of internal/worker/webhook.go, on int64 durations with
--   their wrap-around. Webhook/Delivery.antt is WebhookDeliveryHandler of the same file together with
--   the rows that its queries read and write (sql/queries/webhooks.sql, sql/queries/webhook_dlq.sql);
--   Webhook/Delivery/Outcomes.antt is about one run and Webhook/Delivery/Lifecycle.antt about many.
--
-- API.
--   Auth/ApiToken.antt is the creation of API tokens (internal/auth/auth.go, internal/auth/password.go,
--   sql/queries/api_tokens.sql) and their check by DualAuthMiddleware and handleAPIKeyAuth of
--   internal/api/middleware.go; Auth/ApiToken/Accepted.antt relates the two.
--   Api/DeviceAuth.antt is internal/api/device_auth.go, whose approval adds a row to the same table;
--   Api/DeviceAuth/Flow.antt is about the flow and Api/DeviceAuth/Keys.antt about its keys.
--   Encoding.antt holds hex and base64 of Go's standard library, which the tokens use.
--   Api/RateLimit.antt is the token bucket RateLimiter of internal/api/middleware.go, with
--   Api/RateLimit/Bounds.antt, Api/RateLimit/Starvation.antt and Api/RateLimit/Cleanup.antt.
--
-- Accounts.
--   Auth/Password.antt is ValidatePassword of internal/auth/password.go. Auth/Accounts.antt holds the rows
--   of users, of tokens for new passwords and of tokens for addresses, and Auth/Accounts/Service.antt the
--   operations of internal/auth/auth.go on them, as actions (Prelude/Action.antt); bcrypt is an argument.
--   Auth/Accounts/Reset.antt and Auth/Accounts/Login.antt are about them. Auth/Session.antt is
--   internal/auth/session.go.
--   Billing/Limits.antt is internal/billing/limits.go, on int64 numbers with their wrap-around;
--   Billing/Limits/Tiers.antt, Billing/Limits/Usage.antt and Billing/Limits/Units.antt are about it.
--   Billing/Subscriptions.antt has the columns of users and the queries (sql/queries/users.sql) of
--   internal/billing/service.go, Billing/Subscriptions/Service.antt its operations with their handlers
--   (internal/web/billing_handlers.go, internal/web/enterprise_handlers.go), and
--   Billing/Subscriptions/Events.antt the events of Stripe (internal/billing/webhook.go). What Stripe
--   answers is an argument. Billing/Subscriptions/Life.antt says what may become of an account, and
--   Turns.antt, Requests.antt, Notices.antt and Fair.antt beside it that nothing else does.
--
-- Uploads.
--   Storage.antt is the interface of internal/storage/storage.go with the laws that its users rely on,
--   and Storage/Memory.antt the storage in memory (internal/storage/mock.go), which keeps them.
--   Api/Transforms.antt is the parser of the transforms in an image's URL, internal/api/transforms.go
--   (ParseTransforms, ValidateTransforms, RequiresProcessing, ProcessorName, ToProcessorOptions and
--   CacheKey), Api/Transforms/Text.antt what it uses of strings and strconv, and
--   Api/Transforms/Bounds.antt is about the options that it gives. The messages
--   of its errors are left out.
--   Api/Cdn.antt has the rows of internal/api/cdn.go and its queries (sql/queries/file_shares.sql),
--   Api/Cdn/Handler.antt CDNHandler, Api/Cdn/Shares.antt the making and deleting of shares, and
--   Api/Cdn/Tasks.antt the goroutines, which run in any order with the requests: a request is one step,
--   at the time at which it looks at the limit of downloads. Api/Cdn/Downloads.antt (with Adds.antt and Counts.antt) is about that limit,
--   Api/Cdn/Shown.antt (with Access.antt) about what is served, and Api/Cdn/Uncached.antt about the cache
--   (Same.antt: what the steps leave). Processors, presigned URLs, SHA-256 and bcrypt are arguments.
--   Api/Folders.antt has the rows of internal/api/folders.go, its queries and the cascades of the schema,
--   and Api/Folders/Handlers.antt the handlers that write. Api/Folders/Isolation.antt is about whose rows
--   they change, by way of Cascade.antt and Owned.antt (what a deletion leaves), Steps.antt, Writes.antt, Moves.antt and
--   Deletes.antt, and Api/Folders/Ends.antt about the end of the recursive deletion.
--   Api/ChunkedUpload.antt, Api/ChunkedUpload/Init.antt and Api/ChunkedUpload/Chunks.antt are
--   internal/api/chunked_upload.go, over any storage: the map of sessions, the storage, the rows of
--   files and the jobs are one record.
--   The other files beside them lead from the start of an upload to its completion, by way of the
--   chunks sent so far (Joined.antt, Progress.antt, Sent.antt, Completed.antt, Started.antt).
--   Processor/Video.antt is IsVideoType of internal/processor/video/processor.go.
--   Worker/Enqueue.antt is EnqueueWithTracking of internal/worker/enqueue.go, which the upload calls.
--
-- Jobs on files.
--   Worker/FileJob.antt is what the handlers of internal/worker/handlers.go work with: the rows of files,
--   jobs and variants, a storage and the events for webhooks. Worker/FileJob/Action.antt has their actions
--   that may stop, Worker/FileJob/Steps.antt the steps (Dependencies.markJobFailed and the others, the
--   queries, the processors of internal/processor/registry.go), Worker/FileJob/Payloads.antt the
--   payloads, Worker/FileJob/Handlers.antt and Worker/FileJob/Transcode.antt the handlers themselves, and Worker/FileJob/Registry.antt
--   their registration in cmd/worker (main.go, video.go). Worker/FileJob/Builder.antt is the one flow of
--   internal/worker/middleware.go, Worker/FileJob/Configs.antt its configurations in
--   internal/worker/handlers_v2.go. Worker/FileJob/Equivalence.antt compares the two,
--   Worker/FileJob/Stored.antt (with Keeps.antt and Originals.antt) is about the variants and their objects,
--   Worker/FileJob/Outcome.antt (with Leaves.antt) about the row of the job,
--   Worker/FileJob/Success.antt about a run without a failure, and Worker/FileJob/UnknownType.antt about
--   the list of types of variants in sql/schema.sql.
--
-- Clean-up.
--   Worker/Cleanup.antt is internal/worker/cleanup.go with its queries, and Worker/Cleanup/Ends.antt (with
--   Rows.antt) is about its end.
--
-- Common choices. Times and durations are numbers of nanoseconds. Mutexes order the calls, so a method
-- is one step. Logs, metrics and tracing are left out. Ints that only count (failures, attempts,
-- tokens) are natural numbers: they stay far below 2^63. What a handler meets outside the modelled
-- state (queries that fail, answers of an endpoint, the clock, random bytes) is an argument.
-- Prelude.antt and the files under Prelude/ hold the shared names, maps and integers. The files under
-- Tests/ run the definitions and apply the theorems at concrete inputs.
--
-- Fuel. The loop of FormatBytes takes 6 steps of fuel, which is enough for an int64, as its theorem says;
-- the digits of a number n take n + 1. The
-- recursive query for the folders below a folder takes fuel: two levels more than there are are enough,
-- where no folder lies below itself, and none is enough otherwise (Api/Folders/Ends.antt). A
-- loop of the clean-up takes more fuel than there are files due, as its theorem says, and no fuel is
-- enough where a whole batch cannot be deleted. The other loops are over lists or count to a bound.
--
-- Not modelled: the HTTP routing and the middleware but for the rate limiter and the check of tokens;
-- HTML templates and pages; the generated query code of internal/db, whose queries are modelled where a
-- component needs them; image, PDF and video processing, which call external libraries and programs;
-- the limiter that runs a script in Redis; the signature and the dispatch of webhooks; the handlers of
-- internal/api/routes.go and of tags, users, jobs and statistics, mostly one query each; e-mail, OAuth,
-- metrics, tracing, analytics and the command-line client, which are input and output.
mod Prelude
pub mod Encoding
pub mod Auth
pub mod Billing
pub mod Storage
pub mod Processor
pub mod Webhook
pub mod Worker
pub mod Api
mod Tests
