-- ===== src/Provider/Prefetcher/Semaphore/Cached.antt =====
-- The cache behind a schedule of the fetches.
use mathlib.Core.List.{Mem}
use argus_core.Base.{ℕ, ◌*◌, ◌<◌, List, ◌≡◌, arith, length, inl, inr, ◌⊎◌, All}
use argus_core.HashMap.{Iteration}
use argus_core.Types.{Address, U256, Transaction}
use argus_core.Provider.Rpc.{reply}
use argus_core.Provider.Prefetcher.Retry.{FetchResult, AccountState}
use argus_core.Provider.Prefetcher.Tasks.{FetchTask, spawn_tasks}
use argus_core.Provider.Prefetcher.Fetches.{Node, run_task}
use argus_core.Provider.Prefetcher.Drain.{CacheDb, finished, drain}
use argus_core.Provider.Prefetcher.Drain.Contents.{CacheLaws}
use argus_core.Provider.Prefetcher.Drain.Complete.{Answers, IsReady, HasAll-IsReady}
use argus_core.Provider.Prefetcher.Drain.Warm.{Has, drain-Has}
use argus_core.Provider.Prefetcher.Semaphore.{Pool, spawned, Step, After}
use argus_core.Provider.Prefetcher.Semaphore.Finish.{After-Drained}

-- Under the laws of the cache and with at least one permit: after two steps for each fetch, in
-- whatever schedule, the results drained into the cache leave there what every fetch of the
-- transactions returned.
pub After-Has :
    {Db : Type 0} (cache : CacheDb Db) (laws : CacheLaws cache) (node : Node)
    (it : Iteration Address) (txs : List Transaction) (max_concurrent : ℕ) {t : Pool}
    (task : FetchTask) (result : FetchResult)
    → 0 < max_concurrent
    → After
        (run_task node)
        (spawned max_concurrent (spawn_tasks it txs))
        (2 * length (spawn_tasks it txs))
        t
    → Mem task (spawn_tasks it txs)
    → run_task node task ≡ finished (reply result)
    → Has cache laws (drain cache t.ended).warm_db result
After-Has cache laws node it txs max_concurrent {t} task result pos a m h =
    elim (After-Drained (run_task node) max_concurrent (spawn_tasks it txs) pos a) [
      | inl (_, drained) ↦
          drain-Has cache laws node (spawn_tasks it txs) t.ended task result drained.all_ended m h
      | inr (less, _) ↦ absurd (omega (arith, less))
    ]

-- Under the laws of the cache, with at least one permit, a node that answers each fetch from one
-- state within four attempts, and no panic: every schedule of the fetches can go on until there were
-- two steps for each, and then the results drained into the cache leave there for every transaction
-- the accounts of its sender and of its recipient, and the known slots of both, as they are in that
-- state.
pub After-IsReady :
    {Db : Type 0} (cache : CacheDb Db) (laws : CacheLaws cache) (state : Address → AccountState)
    (word : Address → U256 → U256) (node : Node) (it : Iteration Address) (txs : List Transaction)
    (max_concurrent : ℕ) {n : ℕ} {t : Pool}
    → Answers node state word
    → 0 < max_concurrent
    → After (run_task node) (spawned max_concurrent (spawn_tasks it txs)) n t
    → ((n ≡ 2 * length (spawn_tasks it txs))
        × All (IsReady cache laws state word (drain cache t.ended).warm_db) txs)
      ⊎ ((n < 2 * length (spawn_tasks it txs)) × ((u : Pool) × Step (run_task node) t u))
After-IsReady cache laws state word node it txs max_concurrent {n} {t} answers pos a =
    elim (After-Drained (run_task node) max_concurrent (spawn_tasks it txs) pos a) [
      | inl (e, drained) ↦ inl (
        e,
        HasAll-IsReady cache laws state word node it txs answers (drain cache t.ended).warm_db
            (λ task result.
              drain-Has cache laws node (spawn_tasks it txs) t.ended task result drained.all_ended),
      )
      | inr more ↦ inr more
    ]
