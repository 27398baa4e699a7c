-- ===== src/Lib.antt =====
-- Equilibra is a payment service over a double-entry ledger in PostgreSQL. Every movement of money
-- is one transaction with two ledger entries of opposite amounts, one outbox event for each entry,
-- and an idempotency key. The API (cmd/api) serves HTTP with the handlers of internal/handler,
-- which call internal/service, which runs its queries, internal/storage, in one database
-- transaction for each call. The relay (cmd/relay, internal/relay) reads the outbox and publishes
-- to Kafka; the notification service (cmd/notification, internal/notification) consumes from there.
--
-- The files, and the code that each is about:
--   Common, Common/Int: lists, tests, and Go's int64 with its wrap-around.
--   Errors: the error values of internal/service, internal/storage and internal/relay.
--   Events: internal/events/events.go; Events/Document has JSON documents as values.
--   Storage/Schema: the rows and structs of internal/storage/storage.go.
--   Storage/Session: a database transaction as explicit state. `Exec A` is a method of `Querier`:
--     from a session to an outcome and a session. The session has the tables that the transaction
--     sees, the sequences, the rows it has locked, and what its surroundings decide: which
--     statements the driver fails, now(), gen_random_uuid(), and the advisory lock.
--   Storage/Querier: the methods of internal/storage/querier.go, each by what its SQL text means on
--     the tables, with the CHECK, UNIQUE and REFERENCES constraints and the unique partial index of
--     migrations/000001_init_schema.up.sql. Querier/History and Querier/Outbox have the history
--     page and the relay's queries.
--   Storage/WithTx: `Storage.WithTx` with a commit that is acknowledged, refused, or applied
--     without an answer.
--   Service/Types, Service/Core, Service/Operations, Service/History: internal/service/service.go.
--     Core has the unexported method `transfer`: `lock_for_transfer` is the locking of one account,
--     `transfer_locked` what follows the locks, `post` what follows the insertion, `replay` the
--     branch of a key that is taken. Operations has Transfer, Deposit, Withdraw, Reverse and
--     AccountBalance; History has AccountTransactionsHistory.
--   Service/Requests: the operations as requests that are served one after another (`handle`,
--     `serve`), each under conditions of its own, and an induction principle on them.
--   Service/DoubleEntry, Overdraft, Movement, Mirror, Atomicity, Idempotency, Reversal,
--     Service/Core/Locks and Service/History/Page: what is proved of them, one
--     module for one subject. Service/Tests runs them on a small ledger.
--   Relay: internal/relay/relay.go, `publishBatch` and the loop of `Run`, over a publisher that is a
--     parameter; Relay/Delivery, Rows, Batches, Backlog, Order, Oldest and Draining have what is
--     proved of it,
--     Relay/Tests examples. Relay/Gauge: the gauge of cmd/relay/main.go.
--   Handler/Validator, Requests, Responses, Body, Handlers: internal/handler/validator.go,
--     requests.go, errors.go, helpers.go and handler.go. The handlers are functions over a record
--     of the operations of the interface `Service`; Handler/Posts gives it the service above.
--   Handler/Posts, Handler/Validation: what is proved of them; Handler/Tests has examples.
--   Publisher: internal/publisher/publisher.go; Publisher/EventId follows an event's id to the
--     consumer.
--   Notification/Hub: internal/notification/hub.go on a heap of client objects. Hub/Table has the
--     maps, the others what is proved: Registered and Invariant of the sets, Sending, Disconnecting,
--     Connections.
--   Notification/Message, Notification/Redis: what is published, and what Redis answers.
--   Notification/Dedup: internal/notification/dedup.go.
--   Notification/Processor: `Processor.Handle` of internal/notification/processor.go as a machine
--     (`advance`) that sends one command to Redis in a step. Processor/System interleaves any number
--     of its calls, which may die anywhere; Told, Lease, Alone and Subject have what is proved.
--   Notification/Consumer: internal/notification/consumer.go over any handler, with what each
--     poll fetches, whether each commit succeeds, and when the context is cancelled;
--     Consumer/Notifying gives it the processor.
--   Notification/Subscriber: `Subscriber.Run` of internal/notification/pubsub.go over any sender;
--     Subscriber/Delivery joins it to the hub.
--   Notification/Socket: `WSHandler.ServeHTTP` of internal/notification/ws.go over the hub, its
--     `select` and blocking calls as signals, with the steps of others between them.
--
-- The files named Inversion, Induction, Posting, Replay, Calm, Locks and Rule hold the lemmas by
-- which these proofs go (Backlog, Commands, Exclusive, Batches, Subject, Turns, Moves and Registration those of
-- the relay and the notification service): what a run that succeeds has done, which lists it changes, what it does
-- while nothing fails, and which rows it locks.
--
-- Numbers: an int64 is an integer, and `sub64` and `neg64` wrap at 2 ^ 64. Sums that PostgreSQL
-- computes are exact; a SUM that leaves the range of int64 fails its statement. The decimal digits
-- of an id are computed on fuel, one round more than the number itself, which has fewer digits than
-- that. A time is a number of the clock; in the notification service it is in seconds. A call of the
-- processor that waits for a reservation runs on fuel, three steps for each second of the wait and
-- three more, which is proved to be enough. The attempts of the consumer at one record are as many as
-- the failures after which its context is cancelled; the other loops are as long as the list of
-- what they meet.
--
-- Not modelled: transactions that run at the same time (requests are served one after another, and
-- row locks are recorded but never waited for); the connection pool and contexts, whose failures
-- are the failing statements; a result that WithTx returns beside an error, which its callers drop;
-- encoding of responses, logging, metrics (but for the relay's gauge), routing, and configuration; and the wiring of the
-- processes in cmd. A batch of the relay meets no other transaction while it runs.
-- strconv.ParseInt and the reports of the JSON decoder are parameters of the handlers; the Kafka
-- client, Redis, and the WebSocket library are parameters or signals of what uses them. Redis is
-- known by its documented answers only (Notification/Redis): a command that fails may have been
-- applied, one may be sent again by the client and so be applied twice, and all parties read the same
-- clock. A command that is sent again is one step, at one time.
pub mod Common
pub mod Errors
pub mod Events
pub mod Storage
pub mod Service
pub mod Relay
pub mod Publisher
pub mod Handler
pub mod Notification
