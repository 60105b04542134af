-- ===== src/Lib.antt =====
-- pgTest hands PostgreSQL databases to test processes: a consumer asks for a lease, gets a database made
-- from a template, shares it with the other consumers of the lease, and the database is dropped when the
-- lease is over. The program's parts are:
--
-- - the worker engine (crates/pgtest-core/src/worker_engine), an actor that owns all the state: the
--   leases, the queue of leases that wait, the records of the leases that were ever admitted, and the
--   inventory of databases. It handles one message at a time. Everything else talks to it by messages.
-- - the worker manager (crates/pgtest-core/src/worker_manager.rs and worker_manager), the tasks around
--   the engine: its inbox, the creation and cleanup workers, the replies.
-- - the database operations (crates/pgtest-database-operations), which create and drop databases by SQL.
-- - the wire (crates/pgtest-wire), the listeners and the control panel in PostgreSQL's protocol.
-- - the command line and the server (apps).
--
-- Files, and the source that they model:
--
-- - Base and its children: Boolean tests, results, lists over the native numbers, association lists and
--   sets as lists, and their lemmas.
-- - ReadString: crates/pgtest-utils/src/read_string.rs. A string is the list of its UTF-8 bytes.
-- - LeaseId: worker_engine/lease_id.rs. LeaseId/Validity says which strings are accepted.
-- - Inventory: worker_engine/database_inventory.rs and database_jobs.rs. The functions have the names of
--   the methods and return the inventory that the method leaves. Inventory/Holdings counts the places
--   where an identity is held; Inventory/Moves and Inventory/Completion say how each method moves it.
-- - Engine/State, Engine/Leases, Engine/Growth, Engine/Dispatch, Engine/Handlers and Engine/Startup:
--   worker_engine/core.rs, messages.rs, errors.rs and traits.rs. `WorkerEngine` has the fields of the
--   struct, and the effects that the engine had on its surroundings, the newest first. `handle_message`
--   is the arm of the loop for each message, `process_messages` the loop, `try_init` the start.
--   Engine/Invariant states what holds between messages. Engine/Grow, Engine/Custody, Engine/Order and
--   Engine/Steps have the lemmas on the parts of the state; Engine/Retire, Engine/Serve, Engine/Loop,
--   Engine/Attach, Engine/Fresh and Engine/Close go through the calls, and Engine/Soundness through the
--   messages. Engine/Isolation, Engine/Records, Engine/Release, Engine/Stale, Engine/Supply,
--   Engine/Settle and Engine/Started draw the consequences.
-- - DatabaseName: crates/pgtest-database-operations/src/manager/database_name.rs.
-- - ControlPanel/Statement: crates/pgtest-wire/src/control_panel/statement.rs and grammar.pest. Each rule
--   of the grammar is a function from the input to what it matched and what is left.
-- - ControlPanel/Protocol: control_panel/protocol.rs, response.rs and the release of control_panel.rs.
--   A handler returns the leases whose release it asked the manager for, and its response or its error,
--   whose text is left out. The manager's answer and the reading of a bound parameter are parameters.
-- - Connection: crates/pgtest-wire/src/connection.rs, with the client, the manager and the upstream as
--   `Surroundings`.
-- - Manager: crates/pgtest-core/src/worker_manager.rs (attach and release) and worker_manager/worker_io.rs
--   (the sessions and the replies). Manager/Sessions composes them with the engine's count of consumers.
-- - Postgres: crates/pgtest-database-operations/src/manager.rs, manager/config.rs and manager/errors.rs
--   (starting the manager), with Postgres/Pipeline (manager/creation.rs and the loop of
--   `drop_ddl_databases`), Postgres/Ddl (creating and dropping), Postgres/Cleanup (the cleanup at the
--   start) and Postgres/Client (crates/pgtest-core/src/postgres_manager.rs). Postgres/Batches,
--   Postgres/Creations and Postgres/Reports say what the batches report and compose them with the start
--   of the engine; Postgres/Statements reads the statements back; Postgres/Leftovers and
--   Postgres/Missed have PostgreSQL's LIKE and what the cleanup finds by it.
-- - Upstream: crates/pgtest-wire/src/postgres_upstream.rs. Upstream/Frames and Upstream/Fragments follow
--   a loop over bytes that arrive in pieces, Upstream/Bursts and Upstream/Parameters what is sent on, and
--   Upstream/Codes which messages are decoded.
-- - Workers: crates/pgtest-core/src/worker_manager/database_creation_worker.rs and
--   database_cleanup_worker.rs, two instances of one loop whose tasks interleave. Workers/Delivery has
--   the invariant of every instance, Workers/Quiet what it says of the two.
-- - Manager/Startup: worker_manager/startup.rs and the start of worker_manager.rs; Manager/Ready goes
--   through it.
-- - Engine/Ledger: an abstract ledger of the records of the leases, which the messages alone determine;
--   Engine/Admission and Engine/Refinement: the engine against it.
-- - CommandLine: apps/cli/src/args.rs, with CommandLine/Accepted on what the guards promise, and
--   CommandLine/Server: apps/cli/src/server.rs, with CommandLine/Stops on what is stopped.
--
-- How the state and its surroundings are modelled:
--
-- - A computation that can panic returns an Option, and none is the panic: an expect, an unwrap, a
--   debug_assert and an overflow of checked arithmetic are all panics.
-- - A hash map is an association list and a hash set a list; nothing depends on their order, except
--   that the code's own order of a queue is kept.
-- - What the engine cannot know is an `Environment` for each message: whether a reply is delivered,
--   whether the creation worker takes a request, and how long ago an instant was. The theorems hold for
--   every environment. A refused cleanup or a refused timer is only logged, and needs no answer.
-- - A consumer, an instant and a cancellation token are numbers. A token is named by the generation of
--   its lease, and the root token is 0.
-- - The metrics of the engine are `u64` and wrap. The arithmetic of `grow` on `usize` is on lengths of
--   lists in memory and on `u16` fields and is not bounded.
-- - A history has fewer than 2^31 messages. With that the generations and the database identities stay
--   below 2^64: t messages reserve at most (t + 1) * (t + 131072) identities.
-- - The loops are structural: over the messages, over the queue of waiters, over the replies of a group
--   and over the indices of a batch. Three functions take fuel: `chunks` and `drain` one unit for each
--   element, of which each unit handles one at least, and `wait_from` one more than the bytes that are
--   there or will arrive, of which each round consumes five at least.
-- - PostgreSQL is a parameter: the pools, the answer to each statement and the names that a pattern
--   lists, and which operation in flight completes next. The workers are a step relation, in which the
--   queue, the tasks and a shutdown take their steps in any order.
-- - The database client of `try_init` calls back with the index of a creation and its outcome; the
--   calls are a list, in any order. The random numbers of DatabaseName are a function.
--
-- Not modelled: the timers of the worker manager and its shutdown, the sockets and the accept loops of
-- the listeners, the relay of a session, the message framing and the stored statements of the wire, the
-- parsing of the arguments, and the server that is configured by environment variables. They are input
-- and output around the state above. The test containers, the examples and the test suites are not part
-- of the program. Logging has no effect on the state.
pub mod Base
pub mod ReadString
pub mod LeaseId
pub mod Inventory
pub mod Engine
pub mod DatabaseName
pub mod ControlPanel
pub mod Connection
pub mod Manager
pub mod Upstream
pub mod Postgres
pub mod Workers
pub mod CommandLine
