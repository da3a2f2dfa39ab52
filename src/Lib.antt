-- ===== src/Lib.antt =====
-- Hyperliquid live executor: the service that admits trade intents of strategies, has them
-- confirmed by an operator, and executes them once on an exchange.
--
-- The program's parts. A strategy submits an intent to the engine (src/engine.rs), which validates
-- it (src/domain/trade_intent.rs), sizes it by the risk policy (src/risk.rs) and stores it with its
-- decision and a confirmation request in the execution store (src/store.rs). An operator confirms
-- it; the store then holds a pending execution beside the intent. The worker
-- (src/live_execution.rs) claims one pending execution at a time, has the gateway send the entry
-- order, and then protects the position or closes it again; the gateway (src/live_gateway.rs) polls
-- the exchange for what its answers leave open. Beside them, the read service
-- (src/mainnet_read.rs) fetches the account's snapshot and history and listens to its events; it
-- records them in the store, whose reconciliation then decides whether entries are admitted. The API
-- (src/api.rs) passes requests to the engine and the store and reports their state. The process
-- (src/main.rs) unlocks the key of the API wallet (src/key_vault.rs) and starts the worker only where
-- its conditions hold. Each method of
-- the store is one transaction of SQLite under one lock.
--
-- Files.
--   Base: the libraries' names passed on, Boolean tests, tables of rows (Base/Table), integers
--     (Base/Int), ordered maps (Base/Map), results with a panic (Base/Result), instants
--     (Base/Time), Rust's strings (Base/Text) and runs of a transition table (Base/Steps).
--   Decimal: the operations of rust_decimal as a record that every definition takes. An operation
--     that panics has no value. Decimal/Order states that the order is total; Decimal/Fixed is an
--     instance that has these laws.
--   Domain: src/domain. Order, Position and Status are the transition tables, Intent the contract
--     and its equality, Validation the checks of TradeIntent::validate, Confirmation the request
--     that an operator confirms.
--   Risk: src/risk.rs. Policy is the policy and its validation, Decision the decision, Admission
--     RiskEngine::evaluate_admission, PreTrade RiskEngine::evaluate_pre_trade.
--   Live: the types of src/live_execution.rs (Execution) and the client order ids (Cloid).
--   Store: src/store.rs. State is the tables, Tx the transactions, Intents the submission, the
--     rejection, the events and the kill switch, Confirm both confirmations, Executions the claim,
--     Transitions the transitions of an execution with its intent, Orders the rows of live_orders,
--     Reconciliation the mode of an account, Imports and Snapshots the import of a snapshot of the
--     account (its types and the coverage of its positions by stop orders, of
--     src/mainnet_read.rs, stand in Mainnet). Consistency is the invariant between intents and
--     executions and Reach the stores that the methods lead to.
--     History is the import of fills, funding and order updates, and Events the cursors of the log.
--     Migrations is the migration of older databases, on the tables that it changes.
--   Worker: LiveExecutionWorker of src/live_execution.rs. Engine: ShadowExecutionEngine of
--     src/engine.rs.
--   Gateway: src/live_gateway.rs. Sdk is what it uses of the exchange's SDK, Answers the reading of
--     an answer, Rounding the precision of sizes and prices, Fills and Stops the two polling loops,
--     Requests the three requests of LiveExecutionGateway.
--   Mainnet: src/mainnet_read.rs. Sdk is what it uses of the SDK, Parse the records made of the
--     answers, Fetch the snapshot, Coverage the stops of each position, Status what the tasks write
--     in the status, Service the sections of both tasks, Service/Tasks their steps in any order.
--   Api: src/api.rs. Errors is ApiError and its responses, Requests the handlers that write, Reads
--     those that read.
--   KeyVault: src/key_vault.rs. Files is a file system of which every call may fail, Format the
--     encrypted key file, Keys the writing and the unlocking of the key.
--   Start: src/main.rs, the conditions under which the process starts and starts a live worker.
--   Program: the turns of the API, the worker and the read service on one store, in any order.
--   Tests: runs on concrete values.
--
-- How the state corresponds. A table is the list of its rows, oldest first; an UPDATE with a WHERE
-- is Table.update with the number of rows changed. A method is a function from the store to a
-- result and the store that is left: a body that fails or panics is rolled back. A column that
-- holds the text of a status, a time, a decimal or a JSON value holds the value itself, but for the
-- projected size of a position, which the program compares as a text. A UUID is
-- its 128-bit number, an instant the nanoseconds since the first instant of chrono. The clock is
-- an argument. What the exchange answers is a function of the request and, where a request is
-- repeated, of the number of the try. The three polling loops of the gateway make five tries, as in
-- the source, by recursion on the tries that are left; every other loop is over a list, or is the
-- endless loop of a task, which is a step relation. There is no other fuel.
--
-- Not modelled. The SQL of the schema, but for the tables that a migration changes; JSON; the
-- random event_id of an event; failures of SQLite other than a refused key; the poisoning of the
-- mutex. SHA-256, the decimals, their texts and their rounding, the floats, the digest of a
-- confirmation, the reading of the JSON of a stored snapshot, the texts of errors and the
-- answers of the SDK are parameters. Between two calls of one pass of the worker no other call is
-- interleaved. A pause between two tries is not modelled, nor is the connection of the websocket
-- with its proxy, its pings and its closing, the routing and extraction of the API, or the
-- construction of the SDK's clients. A number of the exchange that is stored is taken to be below
-- 2⁶³, as SQLite needs it, and the clock to stand after 1970. Of src/key_vault.rs, the clearing
-- of memory and the owner's bits of the umask are left out, and Argon2, AES-GCM, Base64 and the
-- test of a key are parameters; of src/main.rs, the command line, the tracing, the server and its
-- shutdown.
pub mod Base
pub mod Decimal
pub mod Domain
pub mod Risk
pub mod Live
pub mod Mainnet
pub mod Store
pub mod Gateway
pub mod Worker
pub mod Engine
pub mod Api
pub mod KeyVault
pub mod Start
pub mod Program
mod Tests
