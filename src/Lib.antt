-- ===== src/Lib.antt =====
-- The services of the event-driven shop, as pure functions over the world around a process.
--
-- The shop is a set of Go services that share no memory. The order service writes an order and an
-- order.created event in one transaction and later sends the event to Kafka; the inventory service
-- reserves stock for it and answers with inventory.reserved or inventory.reservation_failed; the
-- payment service creates a payment for a reserved order; an order that is cancelled makes the
-- inventory service give its stock back.
--
-- Base: what every service stands on. Base/Surroundings models PostgreSQL, Redis, Kafka and the
-- clock: a `World` holds the tables of a service, its processed keys, the messages sent and
-- committed, and a `fault` that decides for each call, by its number, whether it fails. A theorem
-- about every world is about every choice of the calls that fail. A call that fails has no effect:
-- a commit or a write that went through while its answer was lost is not modelled. Transactions
-- run one at a time, and the expiry of a Redis key is left out. Base/Actions is the state and
-- error monad the handlers are written in; Base/Triples, Base/Settling, Base/Ending, Base/Keeping,
-- Base/Leaving and Base/Silent are the rules for it. Base/Text writes out strings.TrimSpace,
-- Base/Int the integers, with int64 wrapping written where the code multiplies and adds.
-- Events: internal/shared/events/types.go. encoding/json and time formatting are the parameter
-- `Codec`.
--
-- Inventory: internal/inventory. Inventory/Domain, Inventory/Queries, Inventory/Repository,
-- Inventory/Service, Inventory/Consumers and Inventory/Handler follow domain/model.go,
-- repository/sqlc (with the constraints of db/schema/inventory.sql), repository/postgres.go,
-- service/service.go, the consumers, publisher and deduplicator of events/, and handler/grpc.go. A
-- quantity in a table is a natural number up to the bound of BIGINT, since the schema checks it to
-- be 0 or more; a quantity in a request is an integer. Every loop is structural recursion over the
-- rows or items, so no fuel is used. The proofs are in Inventory/Quantities to Inventory/Promises.
--
-- Order: internal/order. Order/Domain, Order/Queries, Order/Rows, Order/Repository, Order/Service,
-- Order/OutboxMessage and Order/Consumers follow domain/order.go, repository/sqlc (with the
-- constraints of db/schema/order.sql), repository/postgres.go, service/service.go,
-- events/outbox_message.go and consumers/. Order/Enums has the status of an order. An operation
-- runs to its end before the next starts. Order/Listing is ListOrdersByCustomer, down to its
-- statements; Order/Dispatcher follows events/outbox_dispatcher.go and events/kafka_publisher.go,
-- with the statements on the outbox: a run is its first round and one round for each tick.
-- Order/Handler follows handler/grpc.go. The proofs are in Order/Outbox to Order/Promises.
--
-- Payment: internal/payment. Payment/Domain, Payment/Queries, Payment/Rows, Payment/Repository,
-- Payment/Service, Payment/Publisher, Payment/Consumer and Payment/Handler follow
-- domain/payment.go, repository/sqlc (with the constraints of db/schema/payment.sql),
-- repository/postgres.go, service/service.go, events/ and handler/grpc.go. Payment/Requests puts
-- the methods of the handler and the runs of the consumer one after the other, and
-- Payment/Accounts is the specification: a ledger of accounts with the steps it may take. An
-- account has the order, the customer, the status, the currency and the amount of a row; it leaves
-- out the method and its details, the idempotency key, the reason of a cancellation and the times.
-- The proofs are in Payment/Statements to Payment/RoundTrips.
--
-- Protobuf: the enums that gen/order/v1 and gen/payment/v1 declare alike. Every enum has a case
-- for the numbers that it does not know. Grpc: the statuses, and the page that a list answers
-- with. Base/Paging: the limit and offset that both lists compute, clamped to int32. Where a
-- message quotes a value with %q, the model puts the quotes alone.
--
-- Not modelled: the set up of connections, shutdown, logging, metrics and HTTP; the catalog and
-- gateway services; generated code; the interleaving of several requests, but for one test of
-- Order/Tests, which starts the second transaction of a transition on tables that another request
-- has changed in between.
pub mod Base
pub mod Events
pub mod Grpc
pub mod Protobuf
pub mod Inventory
pub mod Order
pub mod Payment
