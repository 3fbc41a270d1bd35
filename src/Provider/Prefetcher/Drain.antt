-- ===== src/Provider/Prefetcher/Drain.antt =====
-- `Prefetcher::prefetch`: the loop that drains the `JoinSet` into the cache.
pub mod Accounting
pub mod Contents
pub mod Results
pub mod Warm
pub mod Complete
use Prim.Native.String.{String}
use argus_core.Base.{ℕ, ◌+◌, List, map, foldl}
use argus_core.HashMap.{Iteration}
use argus_core.Types.{Address, U256, Transaction, ArgusResult, ok}
use argus_core.Provider.Rpc.{Reply, reply, failure}
use argus_core.Provider.Prefetcher.Retry.{AccountState, FetchResult, account, storage}
use argus_core.Provider.Prefetcher.Tasks.{FetchTask, spawn_tasks}

-- revm's `CacheDB`. The error of `insert_account_storage` is discarded by the source (`.ok()`), so
-- only the effect on the cache is here.
pub record CacheDb (Db : Type 0) : Type 0 where
  pub empty : Db
  pub insert_account_info : Address → AccountState → Db → Db
  pub insert_account_storage : Address → U256 → U256 → Db → Db

-- What `join_next` yields: a task's result, or the text of its panic.
pub data Joined : Type 0 where
  finished : Reply FetchResult → Joined
  panicked : String → Joined

pub record Progress (Db : Type 0) : Type 0 where
  pub warm_db : Db
  pub fetched : ℕ
  pub failed : ℕ

module _ {Db : Type 0} (cache : CacheDb Db) where
  -- The body of `while let Some(result) = tasks.join_next().await`.
  unfoldable pub drain_one : Progress Db → Joined → Progress Db
  drain_one p (finished (reply (account addr info))) = record {
    warm_db = cache.insert_account_info addr info p.warm_db;
    fetched = p.fetched + 1;
    failed = p.failed;
  }
  drain_one p (finished (reply (storage addr slot value))) = record {
    warm_db = cache.insert_account_storage addr slot value p.warm_db;
    fetched = p.fetched + 1;
    failed = p.failed;
  }
  drain_one p (finished (failure e)) = record p { failed = p.failed + 1 }
  drain_one p (panicked e) = record p { failed = p.failed + 1 }

  unfoldable pub drain : List Joined → Progress Db
  unfolding drain_one
  drain = foldl drain_one (record { warm_db = cache.empty; fetched = 0; failed = 0 })

  -- `prefetch`: `run` is how each task ends, `completion` the order in which they do.
  unfoldable pub prefetch :
      Iteration Address → Iteration Joined → (FetchTask → Joined) → List Transaction → Progress Db
  unfolding spawn_tasks drain
  prefetch it completion run txs = drain (completion.arrange (map run (spawn_tasks it txs)))
