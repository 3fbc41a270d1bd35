-- ===== src/Provider/Prefetcher.antt =====
-- crates/provider/src/prefetcher.rs: the state of the touched accounts is fetched before the
-- simulation. The node's answers, the scheduler and revm's `CacheDB` are parameters.
pub mod Retry
pub mod Tasks
pub mod Drain
pub mod Fetches
pub mod Semaphore
