-- ===== src/Lib.antt =====
-- A model of the supply chain saga service, and the theorems that make it correct.
--
-- The program is a Node service. Orders are created over HTTP and handled by a saga that reserves
-- stock, charges the customer, books a courier and confirms, and that undoes all of it when a step
-- fails. Stock counts live in Redis, where two scripts reserve and release; events go through a bus
-- with a log for each topic and a cursor for each consumer group; warehouse nodes follow a stock log.
--
-- Which file models which part (paths from the repository's root):
--   Types        src/types.ts: orders, lines, statuses, history events, reservation results
--   Metrics      src/metrics/metrics.ts: counters, latency percentiles, the JSON snapshot and the
--                Prometheus text
--   Redis        src/inventory/inMemoryRedis.ts: the commands, expiry, evalReserve and evalRelease
--   Keys         the Redis keys of src/inventory/inventoryService.ts
--   Inventory    src/inventory/inventoryService.ts: the stock and its reservations;
--                Inventory.Listing is listAll
--   Payments     src/payments/paymentGateway.ts: charge, refund
--   Shipping     src/shipping/shippingProvider.ts: schedule, cancel
--   Orders       src/orders/orderStore.ts: the in-memory store and its business scopes
--   EventBus     src/lib/eventBus.ts: InMemoryEventBus with publish, subscribe, the drain and close
--   Saga         src/orders/sagaOrchestrator.ts: createOrder, run and the compensation
--   Recovery     recoverStuck of the same file, and src/orders/recoverStuckOrders.ts
--   Text         split, decimal texts and Number, as the code uses them
--   Auth         src/auth/session.ts and src/auth/passwords.ts
--   Business     src/business/businessStore.ts and the account routes of src/api/routes/business.ts
--   Api          src/api/routes/orders.ts, the stock write of src/api/routes/inventory.ts, and
--                src/auth/currentBusiness.ts
--   Runner       src/orders/asyncSagaRunner.ts: which runs the events on the bus start
--   Warehouse    src/warehouse/warehouseSync.ts: nodes on the bus, lost and regained connections
--   Resp         src/lib/redisClient.ts: encodeCommand and tryParseReply; Resp.Client is RawRespClient
--   PgOrders     src/orders/pgOrderStore.ts: its SQL statements over the tables of docs/schema.sql
--   PgBusiness   src/business/pgBusinessStore.ts, in the same way
--   Cookies      src/auth/cookies.ts, on the code points of a text; Uri has ECMAScript's
--                encodeURIComponent and decodeURIComponent, over UTF-8
--   Sse          src/api/sseHub.ts: the dashboard clients and what they are sent
--   Lua          src/inventory/reserve.lua and release.lua, over the commands of a Redis server
--   Server       src/api/server.ts: what main builds and sweeps, the probes, the error handler; with
--                src/inventory/connectRedis.ts and src/lib/pgClient.ts
--   Crash        scripts/chaos/crash-mid-saga.ts
-- Bytes has the texts of the socket as bytes, Postgres what the two stores on Postgres share.
-- Common, Dict and Exec hold what these share: tests, integers and lists over the native numbers,
-- JavaScript maps in insertion order, and methods that change state and may throw. World is the
-- state of one process, the objects that src/api/server.ts wires together. Sample and the modules
-- named Tests hold concrete states and the theorems applied to them.
--
-- How the code is read. A class is a record and a method a function from the record, with an error
-- as a value beside the state that the throw leaves behind. An `await` is a call: one action runs to
-- its end before the next, as the saga awaits each step. Redis runs a script whole, so concurrent
-- callers are sequences of script runs. Names are the code's, in snake case. The saga's steps use the
-- bus through the log of the topic "orders", to which `publish` appends; what a publication delivers
-- is the subject of EventBus.
--
-- Numbers. Quantities and amounts are integers without bound, times are whole milliseconds, and a
-- quantile is in hundredths with an exact product; JavaScript's doubles agree on integers below 2^53.
-- The clock and the random ids are two sequences that a process is given (Env); where a theorem needs
-- it, all readings of the clock are within 900 seconds, the life of a reservation, and no id is drawn
-- twice. Whether a payment or a courier fails is a function of the order's id, as in the code.
--
-- Fuel. The drain of the bus runs on fuel, one unit for a round; two rounds are enough for a
-- publication on a drained bus with handlers that do not publish. The parser of replies, the loop of
-- onData and decodeURIComponent run on the length of their input: each level of nesting and each
-- round consumes a character. All other loops run along a list.
--
-- The stored objects of the in-memory order store are shared with its callers, those of the store in
-- Postgres are copies. The saga reads only the fields that nothing changes after creation, save in the
-- recovery, which reads the status again: there `aliased` says which store it is.
--
-- Redis. The commands that the Lua scripts call are a parameter (Lua.Commands), with their documented
-- effects on later reads as the hypothesis Documented. Whether a key is gone at the very millisecond of
-- its deadline is left open, and SET may refuse a time to live.
--
-- Outside code. The functions of node:crypto and its hexadecimal texts are parameters (Crypto, Kdf),
-- with what the code relies on as named hypotheses (IsDigest, IsKeyText), which Sample.Toys shows to
-- hold of concrete functions. A request is its parsed payload, since the schemas are zod's, and the
-- token of its session cookie; it reads the clock once where the code reads it within one call.
--
-- Postgres. A statement is a function of the rows that its SQL text names, with the constraints of
-- docs/schema.sql as the reasons for which it fails; a transaction keeps all of its statements or
-- none, and transactions run one after another. The order in which the server returns rows that no
-- ORDER BY orders is a parameter (Scans); that a scan returns each row once is the hypothesis Complete.
-- A uuid is its text in standard form, in which randomUUID draws the ids that the program writes;
-- how Postgres reads any other text as a uuid is a parameter too (uuid_of).
--
-- Not modelled: the routing of express and the schemas of zod, the connection of sockets and pools,
-- the Kafka bus, which only calls kafkajs, and the scripts that only drive the components.
pub mod Common
pub mod Dict
pub mod Types
pub mod Text
pub mod Bytes
pub mod Resp
pub mod Postgres
pub mod Exec
pub mod Redis
pub mod Lua
pub mod Metrics
pub mod Keys
pub mod Payments
pub mod Shipping
pub mod Orders
pub mod PgOrders
pub mod EventBus
pub mod Auth
pub mod Business
pub mod PgBusiness
pub mod World
pub mod Warehouse
pub mod Inventory
pub mod Saga
pub mod Recovery
pub mod Runner
pub mod Server
pub mod Crash
pub mod Api
pub mod Sample
pub mod Cookies
pub mod Sse
pub mod Uri
