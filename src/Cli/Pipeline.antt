-- ===== src/Cli/Pipeline.antt =====
-- What the pipeline returns.
pub mod Causes
pub mod Collisions
pub mod Readiness
use Prim.Native.String.{String}
use mathlib.Core.List.{Perm}
use argus_core.Base.{List, map, none, some, Bool-cases, inl, inr, ◌≡◌, ◌≢◌, refl, arith, All}
use argus_core.Types.{Transaction, AccessList, ok}
use argus_core.Types.ConflictGraph.Adjacency.{IsConsistent}
use argus_core.Graph.{build_conflict_graph}
use argus_core.Graph.Hazards.{accesses, hazards}
use argus_core.Graph.Build.{build-perm-hazards, build-IsConsistent}
use argus_core.Simulator.Batch.{tx_env, recorded, simulate_batch, simulate_batch_sync}
use argus_core.Simulator.Batch.Outcome.{
  AllDescribe, simulate_batch_sync-Accepted, simulate_batch_with_state-eq-sync,
}
use argus_core.Provider.Rpc.{
  Reply, reply, RpcTransaction, connect, to_transaction, get_block_transactions,
}
use argus_core.Cli.{Options, Environment, Analysis, state_for, simulate, analyze}

pub connect-reply :
    {P : Type 0} (dial : String → Reply P) (url : String) (p : P)
    → url ≢ ""
    → dial url ≡ reply p
    → connect dial url ≡ ok (record { provider = p; rpc_url = url })
unfolding connect
connect-reply dial String.[] p h e = absurd (h refl)
connect-reply dial (String.◌∷◌ c s) p h e = rw e

module _ {P Db : Type 0} (env : Environment P Db) (o : Options) (p : P) where
  simulate-sync :
      (txs : List Transaction)
      → env.batch_panic ≡ none
      → simulate env o p txs ≡ simulate_batch_sync env.evm (state_for env o p txs) txs
  unfolding simulate simulate_batch
  simulate-sync txs h = elim (Bool-cases o.dry_run) [
    | inl e ↦ ground arith
    | inr e ↦ ground (arith, simulate_batch_with_state-eq-sync env.evm (state_for env o p txs) txs)
  ]

  abbrev pub analysis_of : List Transaction → List AccessList → Analysis
  analysis_of txs lists = record {
    transactions = txs;
    access_lists = lists;
    graph = build_conflict_graph env.index lists;
  }

  module _ (block : List RpcTransaction) (url : o.rpc_url ≢ "")
      (dialled : env.dial o.rpc_url ≡ reply p) (found : env.block_at p o.block ≡ reply (some block))
      (quiet : env.batch_panic ≡ none)
      (accepted : All (λ tx. env.evm.refuse (tx_env tx) ≡ none) (map to_transaction block)) where
    -- The analysis succeeds with access lists that describe the transactions, and their graph.
    pub analyze-AllDescribe :
        (lists : List AccessList) × (analyze env o
          ≡ ok (analysis_of (map to_transaction block) lists))
        × AllDescribe
            (recorded env.evm (state_for env o p (map to_transaction block)))
            (map to_transaction block)
            lists
    unfolding analyze get_block_transactions
    analyze-AllDescribe =
        let txs = map to_transaction block in
        let (lists, e, described) =
          simulate_batch_sync-Accepted env.evm (state_for env o p txs) txs accepted in
        (
          lists,
          rw (connect-reply env.dial o.rpc_url p url dialled, found, simulate-sync txs quiet, e)
              refl,
          described,
        )

    -- Where the node is reached and has the block, no task panics and revm accepts the environment
    -- of every transaction of the block, the analysis succeeds: it has one access list for each
    -- transaction, in their order, that describes what the inspector recorded; the edges of its
    -- graph are up to order the conflicts between every two accesses of these lists, and its
    -- adjacency map answers as a search of the edges would.
    pub analyze-perm-hazards :
        (a : Analysis) × (analyze env o ≡ ok a)
        × AllDescribe
            (recorded env.evm (state_for env o p (map to_transaction block)))
            (map to_transaction block)
            a.access_lists
        × Perm a.graph.conflicts (hazards (accesses a.access_lists))
        × IsConsistent a.graph
    analyze-perm-hazards =
        let (lists, e, described) = analyze-AllDescribe in
        (
          analysis_of (map to_transaction block) lists,
          e,
          described,
          build-perm-hazards env.index lists,
          build-IsConsistent env.index lists,
        )
