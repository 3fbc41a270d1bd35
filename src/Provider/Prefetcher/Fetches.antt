-- ===== src/Provider/Prefetcher/Fetches.antt =====
-- The bodies of the tasks that `Prefetcher::prefetch` spawns, over the node's answers at a block.
pub mod Settled
use Prim.Native.String.{String, ◌++◌}
use argus_core.Base.{ℕ, Option, none, some}
use argus_core.Types.{Address, U256}
use argus_core.Provider.Rpc.{Reply}
use argus_core.Provider.Prefetcher.Retry.{
  AccountReplies, fetch_account_with_retry, fetch_storage_with_retry,
}
use argus_core.Provider.Prefetcher.Tasks.{FetchTask, account, storage}
use argus_core.Provider.Prefetcher.Drain.{Joined, finished, panicked}

-- The node's answers to each attempt, `Display`, and the panics of the runtime.
pub record Node : Type 0 where
  pub account_at : Address → ℕ → AccountReplies
  pub storage_at : Address → U256 → ℕ → Reply U256
  pub task_panic : FetchTask → Option String
  pub show_address : Address → String
  pub show_slot : U256 → String

module _ (node : Node) where
  open node use {account_at, storage_at, task_panic, show_address, show_slot}

  -- What a task does that does not panic.
  unfoldable pub fetch : FetchTask → Joined
  fetch (account addr) =
      finished
        (fetch_account_with_retry addr ("max retries exceeded for " ++ show_address addr)
          (account_at addr)).0
  fetch (storage addr slot) =
      finished
        (fetch_storage_with_retry addr slot
          ("max retries exceeded for " ++ (show_address addr ++ (" slot " ++ show_slot slot)))
          (storage_at addr slot)).0

  unfoldable pub run_task : FetchTask → Joined
  unfolding fetch
  run_task task = elim (task_panic task) [ some e ↦ panicked e | none ↦ fetch task ]
