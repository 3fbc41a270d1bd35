-- ===== src/Cli/Pipeline/Readiness.antt =====
-- The state that an analysis simulates against.
use argus_core.Base.{List, map, none, some, false, All, ◌≡◌, ◌≢◌, refl}
use argus_core.Types.{Address, U256, Transaction, ok}
use argus_core.Simulator.Batch.{tx_env, recorded}
use argus_core.Simulator.Batch.Outcome.{AllDescribe}
use argus_core.Provider.Rpc.{reply, RpcTransaction, to_transaction}
use argus_core.Provider.Prefetcher.Retry.{AccountState}
use argus_core.Provider.Prefetcher.Drain.Contents.{CacheLaws}
use argus_core.Provider.Prefetcher.Drain.Complete.{Answers, IsReady, prefetch-IsReady}
use argus_core.Cli.{Options, Environment, Analysis, state_for, analyze}
use argus_core.Cli.Pipeline.{analysis_of, analyze-AllDescribe}

module _ {P Db : Type 0} (env : Environment P Db) (o : Options) (p : P) (laws : CacheLaws env.cache)
    (state : Address → AccountState) (word : Address → U256 → U256) (fetches : o.dry_run ≡ false)
    (answers : Answers (env.node_at p o.block) state word) where
  state_for-IsReady :
      (txs : List Transaction) → All (IsReady env.cache laws state word (state_for env o p txs)) txs
  unfolding state_for
  state_for-IsReady txs = rw fetches (
      prefetch-IsReady env.cache laws state word (env.node_at p o.block) env.addresses txs answers
        env.completion)

  -- Without a dry run, where the node is reached and has the block, answers each fetch from one state
  -- within four attempts, no task panics and revm accepts the environment of every transaction: the
  -- analysis succeeds, and has one access list for each transaction of the block, in their order, that
  -- describes what the inspector recorded on a state which has the accounts of the sender and of the
  -- recipient of every transaction, and the known slots of both, as the node has them.
  pub analyze-IsReady :
      (block : List RpcTransaction)
      → o.rpc_url ≢ ""
      → env.dial o.rpc_url ≡ reply p
      → env.block_at p o.block ≡ reply (some block)
      → env.batch_panic ≡ none
      → All (λ tx. env.evm.refuse (tx_env tx) ≡ none) (map to_transaction block)
      → (a : Analysis) × (db : Db) × (analyze env o ≡ ok a)
        × (a.transactions ≡ map to_transaction block)
        × All (IsReady env.cache laws state word db) a.transactions
        × AllDescribe (recorded env.evm db) a.transactions a.access_lists
  analyze-IsReady block url dialled found quiet accepted =
      let txs = map to_transaction block in
      let (lists, e, described) =
        analyze-AllDescribe env o p block url dialled found quiet accepted in
      (
        analysis_of env o p txs lists,
        state_for env o p txs,
        e,
        refl,
        state_for-IsReady txs,
        described,
      )
