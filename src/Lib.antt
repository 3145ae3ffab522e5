-- ===== src/Lib.antt =====
-- The Rust client of Valkey GLIDE: a thin layer over `glide_core` and a fork of the `redis` crate,
-- which are git dependencies and not part of the repository.
--
-- The parts, the files of the repository, and the modules here:
--   Base       lists, bytes, integers, `Result`, and calls that may fail and change the world.
--   Redis      what is taken from the fork and the core: `Value`, `RedisError`, built commands, and
--              the conversions as a record of functions `Redis`, with the documented laws `IsExact`.
--   Error      src/error.rs: `GlideError` and the conversions into it.
--   Values     src/value.rs: replies into typed values.
--   Routes     src/routes.rs: `Route::to_routing_info`.
--   Executor   src/executor.rs: the trait through which the extension traits send commands.
--   Scan       src/commands/scan.rs and the scan methods of src/commands/core.rs; Blocking is
--              the blocking iterator, Pages the proofs against the pages that a server sends.
--   Script     src/script.rs; Script/Wire reads the commands as a server does, Script/Server states
--              the contract against a server with a script cache.
--   Streams    src/commands/stream.rs: the parsers of stream replies; Options has the option
--              structs, Commands and Info the commands, Reading, Adding and
--              Claiming what a server reads of `XREAD`, `XADD`, `XTRIM` and `XCLAIM`.
--   Commands   the other extension traits of src/commands, a module per file: Options, SortedSet, Geo,
--              Hash, Generic, Bitmap, Sets (set.rs), Strings (string.rs), PubSub, Scripting,
--              Connection (connection_management.rs), Server (server_management.rs), Json and
--              Search (ft.rs). Replies has what their parsers share, Answers what the servers of the
--              proofs share. Pairs and the children named Laws, Ranges, Combining, Expiry, Setting,
--              Fields, Reading, Searching, Scanning and Sorting hold the proofs.
--   Config     src/config: the settings (Types), the subscriptions, the shared builder and
--              lowering (Common), the two configurations (Standalone, Cluster); Redaction is
--              the `Debug` instances; Lowering, Connection and Urls hold the proofs.
--   Pipeline   src/pipeline_options.rs and src/client/connection.rs.
--   Client     src/client/mod.rs: PubSub (the push channel), Connect (the clients), ClusterScan;
--              Adapter is src/client/connection.rs and the accessors.
--   Sync       src/sync/mod.rs; Calls has the blocking calls of src/script.rs and
--              src/commands/core.rs.
--   Telemetry  src/telemetry.rs.
--   Tests      the theorems at concrete inputs.
--
-- How the parts interact: a configuration is built (Config), lowered into a request, and `connect`
-- (Client/Connect) hands it to the core together with a push channel (Client/PubSub). Commands are
-- argument lists that go to the core through one call, and replies come back through Values and the
-- parsers; errors of the core become `GlideError` by Error. Pipelines go through Pipeline, scans
-- through Scan and Client/ClusterScan.
--
-- Conventions: a method of the source keeps its name; where a field or another function has that
-- name, a setter is called `set_…`. An awaited call is a function from the state of the world to a
-- result and a new state; the core, the connection and the server are arguments. The two
-- configurations share the record `CommonConfig` for the fields that both declare. A hash map from
-- the three channel modes is a function of the mode. Strings are their UTF-8 bytes, floats are an
-- abstract type, 32-bit values are numbers whose bound is written out where the source saturates.
--
-- Fuel: `Scan.next_item` loops while a server sends empty pages, which it may do for ever; its fuel
-- bounds the pages that one call fetches, so that more fuel than the pages to come is enough.
-- The fuel of the decimal printer in Base/Int is one more than the number, which bounds its digits.
--
-- Not modelled: the table of names from which src/commands/core.rs generates its typed commands (they
-- are constructors of the fork; what a generated method does is in Sync/Calls), the runtime behind
-- the blocking clients, and the re-exports of src/lib.rs.
pub mod Base
pub mod Redis
pub mod Error
pub mod Values
pub mod Routes
pub mod Executor
pub mod Scan
pub mod Script
pub mod Client
pub mod Commands
pub mod Config
pub mod Pipeline
pub mod Streams
pub mod Sync
pub mod Telemetry
mod Tests
