-- ===== src/Lib.antt =====
-- The core of an XMTP node: topics, the dispatch of live messages, rate limits, the Subscribe stream
-- with its catch-up, the handlers and tables of MLS messages and identities, and the older message
-- API with its store.
--
-- A message enters by the API, where the interceptor (pkg/api/interceptor.go) asks the allow list
-- (pkg/authz) for the caller's permission and the limiter (pkg/ratelimiter) for tokens. A worker reads
-- the stored messages and gives each to the subscription dispatcher (pkg/subscriptions), which puts it
-- on the channels of the subscriptions that list its topic. A Subscribe stream
-- (pkg/mls/api/v1/subscribe.go) owns one such subscription: each Mutate of the client starts a wave,
-- whose scans replay the history up to a ceiling (pkg/mls/store/readStore.go), while live messages of
-- its topics wait in a buffer; at its end the wave is answered by a CatchupComplete. Messages and
-- identity updates enter by the handlers of pkg/mls/api/v1/service.go and pkg/identity, which ask the
-- validation service and insert into the tables of pkg/mls/store.
--
-- - Base: Boolean tests, lists over native numbers, maps, results and signed integers. A Go map is a function to
--   options, or a list of its entries where the code ranges over it or takes its length.
-- - Topic: pkg/topic/topic.go and mls.go, with splitTopic and buildMLSTopic of subscribe.go.
-- - Subscriptions: pkg/subscriptions/dispatcher.go and subscription.go. Subscriptions lie on a heap,
--   a pointer is a number, and a panic (a send on a closed channel, a second close, a nil
--   dereference) is `none`. The loop of log2 runs on fuel 64, the width of a uint.
-- - Authz: loadPermissions, GetPermission, permissionFromString and the refresh of pkg/authz.
-- - Gating: the gate on client versions of pkg/api/gating.go, with the version header of
--   pkg/api/message/v1/context/context.go.
-- - RateLimiter: pkg/ratelimiter/rate_limiter.go and buckets.go, with Entries and Budget on one
--   entry, Refinement and Sweep on the two maps, and Interceptor for applyLimits. Entries lie on a
--   heap; times are arguments; a uint16 wraps at 65536. The janitor sees the entries of its scan, and
--   those of each check under the lock, which calls may have changed in between.
-- - Subscribe: the stream. Frames models buildGroupFrames and buildWelcomeFrames, Writer the
--   writer's state with send, dropTopic and completeWave, Writer/Mutate the Mutate case, Writer/Events
--   the other cases of the select and the loop over a list of events. Writer/Waves, Writer/Answers and
--   their kin follow the count of answers through every operation. What send meets, and how an
--   envelope is unmarshalled, are parameters (`Settings`).
-- - CatchUp: catchUpGroups and catchUpWelcomes with their rotating batches, and the wave-scan queries
--   with the SQL text as a definition on a table of rows. The loop runs on fuel, `none` is out of
--   fuel, and a unit for each topic and each row due is enough. Query is about one turn's query, Skip
--   and Due about one topic, Turn about one turn, Scan about the loop and Wave about the whole.
-- - ReadStore: the paged queries of pkg/mls/store/readStore.go, and fetchHistorical of
--   pkg/mls/api/v1/service.go, on fuel of a unit for each page.
-- - Store: the inserts of messages of pkg/mls/store/store.go under their unique index, and
--   pkg/types/wrapperAlgorithm.go.
-- - MlsService: SendGroupMessages, SendWelcomeMessages, UploadKeyPackage, RegisterInstallation,
--   FetchKeyPackages, BatchPublishCommitLog, BatchQueryCommitLog and GetNewestGroupMessage of
--   pkg/mls/api/v1/service.go.
-- - Streams: the high-water marks of the older subscriptions, SubscribeGroupMessages and
--   SubscribeWelcomeMessages of pkg/mls/api/v1/service.go: Marks follows one key through them, Whole
--   puts the replay and the live messages together. Handlers is the handlers whole, over the events
--   that they take and with their ends, where a Send may fail, and reading a group message without a
--   version is a panic.
-- - Identity: PublishIdentityUpdate of pkg/mls/store/store.go with its transaction and retries, and
--   GetInboxIds and GetInboxLogs of pkg/mls/store/readStore.go. The database reads inbox ids from hex
--   and writes them in hex: a row has what it writes, and the reading is a parameter.
-- - Archive: CreateOrUpdateInstallation of pkg/mls/store/store.go with the table of key packages, and
--   the cycles of pkg/mls/store/backfiller_installations.go; MlsService has the table of installations
--   alone, as the handlers see it.
-- - Backfill: classifyMessages and the cycles of pkg/mls/store/backfiller_group_messages.go, on fuel
--   of a unit for each cycle; a unit for each hundred rows is enough.
-- - Validation: how pkg/mlsvalidate/service.go reads the answers of the validation service.
-- - Prune, on Batches: the run and the four pruners of pkg/prune. Its loop counts the cycles that may
--   follow the first, as the source bounds them.
-- - MessageStore, on Sorting: Query, InsertMessage and the cleaner of pkg/store. Order, Pages and
--   Paging are about one query; Following is about a client that follows the cursors, on fuel of a
--   unit for each row and one more.
-- - MessageApi: the queries and subscriptions of pkg/api/message/v1/service.go.
-- - Worker: the polling loops of pkg/mls/api/v1/worker.go, tick by tick, into the dispatcher.
--
-- A table of the database is the list of its rows; what a query selects is a definition on it. Failures
-- of the database itself are left out. Hashes, encodings and the validation service are parameters.
--
-- Not modelled: the gRPC and HTTP servers, the database, the generated code, metrics, logs and
-- tracing, which are input and output; and the byte budget and the scan slots of the catch-up lane,
-- which block goroutines and change no frame; flush and the sender goroutine of a Subscribe stream,
-- whose outcome is a parameter of send; the migrations; and the clients of pkg/crypto and of the
-- message API, which only call other libraries.
pub mod Base
pub mod Topic
pub mod Sorting
pub mod Subscriptions
pub mod Authz
pub mod Gating
pub mod RateLimiter
pub mod Subscribe
pub mod CatchUp
pub mod ReadStore
pub mod Worker
pub mod Store
pub mod MlsService
pub mod Identity
pub mod Streams
pub mod MessageStore
pub mod Batches
pub mod Prune
pub mod MessageApi
pub mod Validation
pub mod Backfill
pub mod Archive
