-- ===== src/Cli.antt =====
-- The pipeline of `main` in crates/cli/src/main.rs, without argument parsing and logging: fetch the
-- block, fetch state ahead, simulate, and build the graph; and what becomes of the report.
pub mod Pipeline
pub mod Output
pub mod Main
use Prim.Native.String.{String, ◌++◌, slice, len}
use text.Mathlib.Text.{starts_with, ◌==◌ as text_eq}
use argus_core.Base.{ℕ, List, Bool, Option, none, some, if◌then◌else◌}
use argus_core.HashMap.{Iteration}
use argus_core.Types.{
  Address, U256, StorageLocation, Transaction, AccessList, ArgusResult, ok, err, ◌>>=◌,
}
use argus_core.Types.ConflictGraph.{ConflictGraph}
use argus_core.Graph.{Accessor, build_conflict_graph}
use argus_core.Simulator.Batch.{Evm, simulate_batch, simulate_batch_with_state}
use argus_core.Provider.Rpc.{Reply, RpcTransaction, connect, data_provider, into_provider}
use argus_core.Provider.Prefetcher.Fetches.{Node, run_task}
use argus_core.Provider.Prefetcher.Drain.{CacheDb, Joined, prefetch}
use argus_core.Reporter.Build.{Display}

-- `Commands::Analyze`
pub record Options : Type 0 where
  pub rpc_url : String
  pub block : ℕ
  pub json : Bool
  pub dry_run : Bool
  pub sink : Option String

-- The node, the EVM, the cache database and the runtime.
pub record Environment (P Db : Type 0) : Type 0 where
  pub display : Display
  pub dial : String → Reply P
  pub block_at : P → ℕ → Reply (Option (List RpcTransaction))
  pub node_at : P → ℕ → Node
  pub evm : Evm Db
  pub cache : CacheDb Db
  -- the text of a panic of the blocking task
  pub batch_panic : Option String
  pub addresses : Iteration Address
  pub completion : Iteration Joined
  pub index : Iteration (StorageLocation × List Accessor)

pub record Analysis : Type 0 where
  pub transactions : List Transaction
  pub access_lists : List AccessList
  pub graph : ConflictGraph

module _ {P Db : Type 0} (env : Environment P Db) where
  open env.display use {show_number}

  -- The state that the transactions are simulated against.
  unfoldable pub state_for : Options → P → List Transaction → Db
  state_for o p txs =
      if o.dry_run
      then env.cache.empty
      else (prefetch env.cache env.addresses env.completion (run_task (env.node_at p o.block))
          txs).warm_db

  unfoldable pub simulate : Options → P → List Transaction → ArgusResult (List AccessList)
  unfolding state_for
  simulate o p txs =
      if o.dry_run
      then simulate_batch env.evm env.cache.empty env.batch_panic txs
      else simulate_batch_with_state env.evm (state_for o p txs) txs

  unfoldable pub analyze : Options → ArgusResult Analysis
  analyze o = do
    provider ← connect env.dial o.rpc_url
    txs ← (data_provider show_number env.block_at provider).get_block_transactions o.block
    lists ← simulate o (into_provider provider) txs
    ok (record {
      transactions = txs;
      access_lists = lists;
      graph = build_conflict_graph env.index lists;
    })

-- Where the report goes.
pub data Destination : Type 0 where
  rows_to_stdout : Destination
  rows_to_file : (path : String) → Destination
  unknown_sink : (spec : String) → Destination
  graph_as_json report_as_text : Destination

-- `str::strip_prefix`
abbrev pub strip_prefix : String → String → Option String
strip_prefix s prefix = if starts_with s prefix then some (slice s (len prefix) (len s)) else none

unfoldable pub destination : Options → Destination
destination o = elim o.sink [
  | none ↦ if o.json then graph_as_json else report_as_text
  | some spec ↦
      if text_eq spec "ndjson" then rows_to_stdout else elim (strip_prefix spec "ndjson:") [
        | some path ↦ rows_to_file path
        | none ↦ unknown_sink spec
      ]
]
