-- ===== src/Lib.antt =====
-- Argus finds the storage conflicts between the transactions of an Ethereum block. It fetches the
-- block, fetches state ahead, simulates every transaction under an inspector that records its
-- storage accesses, builds a graph of the conflicts between the transactions, and reports it.
--
-- The parts, in the order in which the program runs them, and the files that model them:
--   Types      crates/core/src/types.rs and error.rs: the domain types, their order, and the
--              conflict graph with its adjacency map (Types/ConflictGraph). ConflictGraph/View is
--              its specification: a bag of undirected edges, a quotient of the lists of edges, with
--              the questions that a graph answers.
--   Provider   crates/provider/src: the trait DataProvider (lib.rs), its implementation Rpc
--              (rpc.rs), Labels (labels.rs), Slots (slots.rs), and the prefetcher (prefetcher.rs):
--              Prefetcher/Retry is fetch_account_with_retry and fetch_storage_with_retry,
--              with Limited on its test for 429, Prefetcher/Tasks the tasks that `prefetch` spawns,
--              with Ends on the set of addresses, Prefetcher/Fetches what one of them does, for both kinds in Fetches/Settled, Prefetcher/Semaphore how they run side
--              by side under the permits of the semaphore, Prefetcher/Drain the loop that takes
--              their results into the cache, with Contents, Results, Warm and Complete on what the
--              cache then holds, and Semaphore/Cached on what it holds behind a schedule.
--   Simulator  crates/analyzer/src/simulator.rs: Inspector is AccessListInspector with its
--              callbacks, Frames an execution as nested frames against it, with Creation on
--              constructors here and in Batch, Dedup the sort and the
--              deduplication of the recorded entries, with NormalForm on when two recordings end in
--              the same list, Batch simulate_one_tx and both batches, with
--              Ends on how a batch ends.
--   Graph      crates/analyzer/src/graph.rs: build_conflict_graph. Hazards is its specification:
--              every access of the batch against every later one; Queries is what has_conflict
--              answers about the graph, with Collisions, Invariance and Irreflexive; Views
--              relates the built graph to the bag of its edges.
--   Reporter   crates/analyzer/src/reporter.rs: Report::build (Build) and Report::render (Render);
--              Totals, Groups and Bounds are on the groups, Render/Listing is the text as its pieces.
--   Sink       crates/analyzer/src/sink: Rows, Contention and Clock are mod.rs, JsonStream is
--              json_stream.rs, StarRocks is starrocks.rs, with Responses on one request and Loads
--              on the loads of rows. Contention/Agreement relates rows, events and report.
--   Cli        crates/cli/src/main.rs: `analyze` runs the parts one after the other up to the graph,
--              `destination` says where the report goes, Output has the branch that writes NDJSON
--              (Prefix here and in Sink/JsonStream is on what it wrote before an error),
--              and `main` in Main is the whole of it, with all that is written and how it ends.
--              Pipeline/Readiness is on the state simulated against, Pipeline/Causes and Main/Runs
--              on how a run fails and ends, Main/Delivery on what it leaves in a sink.
--   HashMap and Slices are the hash maps and the sorts of the standard library as the program uses
--   them, Base the names and lemmas that all files share, Tests the tests, Tests/Repository
--   those that stand in the source files.
--
-- How the code is read. A method that changes its object takes and returns the record. A loop is
-- recursion on the list, or a fold; the four attempts of a fetch are the list of their numbers, so
-- no fuel is used. `?` is the bind of the result type. A hash map is an association list, and a
-- loop over one runs in the order that an `Iteration` chooses, which may be any; results hold for
-- all of them. Sorting is insertion sort. Where `sort_unstable_by` may order equal elements in
-- another way, those agree in all that is compared, which is all that an entry holds. Addresses
-- and 32-byte words are the numbers that they spell; `as u32` and the `u32` counter of a bucket
-- wrap at 2 ^ 32, as they do in a release build.
--
-- Parameters stand for what is not in the repository: revm (the environments that it refuses, and
-- the callbacks of an execution), the answers of the node, revm's cache database, `f64` with its
-- operations, JSON serialization, writers, the HTTP client, the clock, and `Display` of numbers
-- and addresses. What the results need of them is in records of laws: `NanLaws` and `DivLaws` of
-- IEEE 754 division, `OrderLaws` of its comparison, `WriterLaws`, `JsonLaws` and `NeverFails` of a
-- writer and of serialized rows, `PrefixLaws` and `PrefixJson` of those that fail half-way,
-- `CacheLaws` of the cache database, `Answers` of a node that has the state of the block; `Lawful`
-- puts those on writers that do not fail together.
--
-- Concurrency. The fetches are the steps of a relation on the pool of tasks: any waiting task may
-- take a free permit, any running one may end. The drain loop takes the results in any order, which
-- is a parameter of `prefetch`. The parallel simulation shares nothing but a state that is only read,
-- and its results are collected in the order of the transactions.
--
-- Not modelled: logging, on which nothing depends; command-line parsing, reading the clock and
-- measuring times in crates/cli/src/main.rs, whose values are parameters; a panic of the standard
-- output; how much of the buffer of a file reaches the disk when an error leaves it; ERC20_SLOTS of
-- crates/provider/src/slots.rs, which nothing uses; benchmarks and test crates. What is left of the
-- crates beside this are module declarations, derived traits, two compile-time assertions on the
-- layout of StorageLocation in memory, and conversions and accessors that
-- apply one constructor or return one field.
pub mod Base
pub mod HashMap
pub mod Slices
pub mod Types
pub mod Graph
pub mod Simulator
pub mod Provider
pub mod Reporter
pub mod Sink
pub mod Cli
mod Tests
