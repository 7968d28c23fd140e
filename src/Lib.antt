-- ===== src/Lib.antt =====
-- PerfectGift's backend: gift ideas are generated for a holiday, and anonymous polls ask the
-- person who will be given the gift. This library models the Surprise, Poll, Notification,
-- Identity and Catalog services, the log shipping kit that all services carry, and two parts of
-- the gateway: its rate limiter and its check of access tokens.
--
-- Surprise (services/backend/surprise). A request comes in through `Surprise.Server`
-- (services/backend/surprise/internal/app/surprise_server.go), which stores it, claims its
-- idempotency key and enqueues a job. The worker's `Surprise.Pipeline`
-- (services/backend/surprise/internal/pipeline/pipeline.go) takes the job, asks the model for
-- candidates, moderates and ranks them, stores them and announces them; `Surprise.Inputs` holds
-- its pure helpers. Both stand over the interfaces of `Surprise.Types`
-- (services/backend/surprise/internal/domain/types.go), which `Surprise.Memory`
-- (services/backend/surprise/internal/domain/memory/memory.go) and `Surprise.Bus`
-- (services/backend/surprise/internal/events/events.go) implement. `Surprise.Llm`
-- (services/backend/surprise/internal/llm/llm.go) is the boundary to the model and guards it
-- with the breaker and the retry loop of `Surprise.Resilience`
-- (services/backend/surprise/internal/resilience/resilience.go). `Surprise.Anthropic`
-- (services/backend/surprise/internal/llm/anthropic.go) is the client behind that boundary, and
-- `Surprise.EmitIdeas` its decoding of ideas, on the three layers that the code allows.
-- `Surprise.Serving` joins the two ends: what an owner reads once a job is over.
-- `Surprise.Messages` has the messages of
-- services/backend/surprise/api/surprise/v1/surprise.proto.
--
-- Poll (services/backend/poll). `Poll.Server`
-- (services/backend/poll/internal/app/poll_server.go) creates polls, serves them behind an
-- opaque token and takes one submission. `Poll.Model`
-- (services/backend/poll/internal/domain/model) has the data and the validators, `Poll.Messages`
-- (services/backend/poll/internal/app/mapping.go) the mappings, `Poll.Ports`
-- (services/backend/poll/internal/ports/ports.go) the interfaces, and `Poll.Store`
-- (services/backend/poll/internal/domain/postgres/postgres.go) the transactions on the three
-- tables. `Poll.Server.World` puts the server over the tables, beside what a rate limiter
-- counts.
--
-- Notification (services/backend/notification). The events of the other two become outbox rows
-- in `Notification.Consumer` (services/backend/notification/internal/notify/consumer.go), and
-- `Notification.Dispatcher` (services/backend/notification/internal/notify/dispatcher.go) pushes
-- the rows that are due to the devices that `Notification.Devices`
-- (services/backend/notification/internal/app/notification_server.go) registers. The data and
-- the interfaces are `Notification.Types` and `Notification.Ports` (types.go, store.go and
-- push.go in services/backend/notification/internal/notify), and `Notification.Tables`
-- (services/backend/notification/internal/domain/postgres/postgres.go) implements the stores. In
-- `Notification.Dispatcher.Delivery.Ending` one row is dispatched on fuel, again and again while
-- it is pending: what MaxAttempts leaves of attempts is enough.
--
-- Identity (services/backend/identity). `Identity.Server`
-- (services/backend/identity/internal/app/identity_server.go) signs users in, rotates refresh
-- tokens (their text is `Identity.RefreshText`) and answers for access tokens. It stands over
-- the accounts of `Identity.Accounts`
-- (services/backend/identity/internal/domain/postgres/postgres.go), the sessions of
-- `Identity.Sessions` (services/backend/identity/internal/domain/valkey/valkey.go) and the
-- signing keys of `Identity.Tokens` (services/backend/identity/internal/token/token.go), by the
-- interfaces of `Identity.Types`. `Identity.Provider`
-- (services/backend/identity/internal/oauth/provider.go) verifies the ID tokens of Google and
-- Apple, and `Identity.Password` (services/backend/identity/internal/password/password.go)
-- hashes passwords.
--
-- The gateway (services/backend/api-gateway) stands in front of all of them. `Gateway.RateLimit`
-- is its limiter (services/backend/api-gateway/internal/ratelimit/limiter.go). `Gateway.Auth` is
-- its verifier (services/backend/api-gateway/internal/auth/verifier.go): `Gateway.Auth.Keys`
-- caches the keys that Identity publishes, and `Gateway.Auth.Checks` takes a token apart and
-- checks its signature and claims. `Gateway.Auth.Issued` follows a token from Identity to the
-- gateway.
--
-- Catalog (services/backend/catalog). `Catalog.Server`
-- (services/backend/catalog/internal/app/catalog_server.go, messages in `Catalog.Messages`)
-- reads holidays and categories cache-first and searches and writes the corpus of inspirations,
-- by the interfaces of `Catalog.Types`
-- (services/backend/catalog/internal/domain/model/model.go). `Catalog.Tables`
-- (services/backend/catalog/internal/domain/postgres/postgres.go) has the tables,
-- `Catalog.Valkey` (services/backend/catalog/internal/domain/valkey/valkey.go) the cache and
-- `Catalog.Embedding` (services/backend/catalog/internal/embedding) the embedder;
-- `Catalog.Serving` puts them together and lets calls follow each other. Invalidate scans as
-- many pages as its fuel gives, which is enough where the iteration of SCAN has no more pages
-- (`Catalog.Scanning`); the theorems on reads hold for any fuel.
--
-- The log shipping kit (pkg/logkit, of which services/backend/*/internal/logkit are copies).
-- `Logkit.Handler` (pkg/logkit/handler.go) turns what a service logs into the records of
-- `Logkit.Record` (pkg/logkit/record.go), and `Logkit.Shipper` (pkg/logkit/shipper.go, settings
-- in `Logkit.Options`) queues, batches and posts them, over the posting of `Logkit.Posting` and
-- the spool file of `Logkit.Spool`. A run of its loop is a list of events: what callers log,
-- what the loop selects, and changes outside. The chunks of a list are posted on fuel, one unit
-- for each record, which is enough as a chunk has at least one. What a write leaves in the spool
-- file is up to the disk, as the code ignores its errors. `Logkit.Transport` says what the
-- shipper relies on: JSON brings the texts of a record back, though not the numbers in its
-- fields, and a log server that answers 2xx has stored the records.
--
-- `Grpc` has the status codes and the metadata that the services use, `Prelude` the shared
-- lists, texts and results, and `Tests` runs of the services at concrete inputs.
--
-- An operation takes a state and returns its result beside the state it leaves; the names are
-- the Go names in snake case. What the code takes from outside is an argument: the clock, new
-- ids, SHA-256, lower-casing, base64url, JSON, signatures, %q and RFC 3339. Times are
-- nanoseconds since year 1, in the verifier since 1970, as natural numbers; the wrap of int64 is
-- written out where a request's number reaches it (`add_seconds`, `backoff`). A loop is a
-- recursion on its list; the retry loop recurses on the attempts that are left, which are all
-- that it can use, and a decimal number has fuel for 20 digits, enough below 2 ^ 64. A mutex
-- makes a method one step; the breaker releases its lock during the call, so that it takes two.
--
-- Not modelled: HTTP and gRPC transport, connections, migrations, telemetry, configuration and
-- logging calls, since they are input and output; the Postgres, Valkey and NATS adapters of
-- Surprise and the Valkey and NATS adapters of Poll and Notification; the push providers;
-- Argon2id and the JWT library, which stand as parameters; the verifier of the Poll service,
-- which is a copy of the gateway's; the fake embedder of Catalog, which is pseudo-random
-- numbers, and Embed of the Anthropic client, which is floating-point sums; the maps and the
-- LogValuers that a service may log as a value; the shape that this client logs after a failed
-- decode; and the log server. Minting tokens, keys and secrets is an argument that may be
-- missing.
mod Prelude
pub mod Grpc
pub mod Surprise
pub mod Poll
pub mod Gateway
pub mod Notification
pub mod Identity
pub mod Logkit
pub mod Catalog
pub mod Tests
