-- ===== src/Provider.antt =====
-- crates/provider: where the transactions and the chain state come from. The trait is that of
-- lib.rs.
pub mod Labels
pub mod Slots
pub mod Rpc
pub mod Prefetcher
use argus_core.Base.{ℕ, List}
use argus_core.Types.{Transaction, ArgusResult}

-- `trait DataProvider`
pub record DataProvider : Type 0 where
  pub get_block_transactions : ℕ → ArgusResult (List Transaction)
  pub get_pending_transactions : ArgusResult (List Transaction)
