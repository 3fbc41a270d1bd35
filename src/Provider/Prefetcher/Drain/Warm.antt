-- ===== src/Provider/Prefetcher/Drain/Warm.antt =====
-- What the cache has of the keys that were fetched.
use mathlib.Core.List.{Mem, Perm}
use argus_core.Base.{List, map, some, ◌≡◌, refl, ◌∙◌, arith, ℕ_discrete, inl, inr, if_pos}
use argus_core.HashMap.{Iteration}
use argus_core.Types.{Address, U256, Transaction}
use argus_core.Provider.Rpc.{reply, failure}
use argus_core.Provider.Prefetcher.Retry.{AccountState, FetchResult, account, storage}
use argus_core.Provider.Prefetcher.Tasks.{FetchTask, spawn_tasks}
use argus_core.Provider.Prefetcher.Fetches.{Node, run_task}
use argus_core.Provider.Prefetcher.Drain.{
  CacheDb, Joined, finished, panicked, Progress, drain_one, drain, prefetch,
}
use argus_core.Provider.Prefetcher.Drain.Contents.{
  CacheLaws, info_in, value_in, later_or, observe-drain,
}
use argus_core.Provider.Prefetcher.Drain.Results.{
  run_task-account, run_task-storage, Fits-info, Fits-value,
}

account_set : IsSet AccountState
account_set = hlevel

word_set : IsSet U256
word_set = hlevel

module _ {Db : Type 0} (cache : CacheDb Db) (laws : CacheLaws cache) where
  open laws use {info_of, value_of}

  step-info :
      (a : Address) (p : Progress Db) (j : Joined)
      → info_of a (drain_one cache p j).warm_db ≡ later_or (info_in a j) (info_of a p.warm_db)
  unfolding drain_one
  step-info a p (finished (reply (account b info))) =
      laws.info_of-insert_info a b info p.warm_db ∙ ground arith
  step-info a p (finished (reply (storage b slot value))) =
      laws.info_of-insert_storage a b slot value p.warm_db
  step-info a p (finished (failure e)) = refl
  step-info a p (panicked e) = refl

  step-value :
      (a : Address) (s : U256) (p : Progress Db) (j : Joined)
      → value_of a s (drain_one cache p j).warm_db
        ≡ later_or (value_in a s j) (value_of a s p.warm_db)
  unfolding drain_one
  step-value a s p (finished (reply (account b info))) =
      laws.value_of-insert_info a b s info p.warm_db
  step-value a s p (finished (reply (storage b slot value))) =
      laws.value_of-insert_storage a b s slot value p.warm_db ∙ ground arith
  step-value a s p (finished (failure e)) = refl
  step-value a s p (panicked e) = refl

  -- The cache has the result of a fetch.
  abbrev pub Has : Db → FetchResult → Type 0
  Has db (account a info) = info_of a db ≡ some info
  Has db (storage a slot value) = value_of a slot db ≡ some value

  -- What a fetch returned is in the cache when all results are drained, in whatever order.
  pub drain-Has :
      (node : Node) (tasks : List FetchTask) (js : List Joined) (task : FetchTask)
      (result : FetchResult)
      → Perm js (map (run_task node) tasks)
      → Mem task tasks
      → run_task node task ≡ finished (reply result)
      → Has (drain cache js).warm_db result
  drain-Has node tasks js (FetchTask.account a) result p m h = elim (run_task-account node a) [
    | inl (e, q) ↦ absurd (ground (arith, h, q))
    | inr (inl (e, q)) ↦ absurd (ground (arith, h, q))
    | inr (inr (info, q)) ↦
        let same : account a info ≡ result = ground (arith, h, q) in
        rw (← same) (
          observe-drain cache account_set (info_of a) (info_in a) (step-info a) info (run_task node)
            tasks js (FetchTask.account a) (Fits-info node a info q)
            (rw (q, if_pos (ℕ_discrete a a) refl) refl) p m)
  ]
  drain-Has node tasks js (FetchTask.storage a s) result p m h = elim (run_task-storage node a s) [
    | inl (e, q) ↦ absurd (ground (arith, h, q))
    | inr (inl (e, q)) ↦ absurd (ground (arith, h, q))
    | inr (inr (value, q)) ↦
        let same : storage a s value ≡ result = ground (arith, h, q) in
        rw (← same) (
          observe-drain cache word_set (value_of a s) (value_in a s) (step-value a s) value
            (run_task node) tasks js (FetchTask.storage a s) (Fits-value node a s value q)
            (rw (q, if_pos (ℕ_discrete a a) refl, if_pos (ℕ_discrete s s) refl) refl) p m)
  ]

  -- Under the laws of the cache, and in whatever order the fetches end: what a spawned fetch
  -- returned, the account of an address or the value of a slot, the warm cache has at the end.
  pub prefetch-Has :
      (node : Node) (it : Iteration Address) (completion : Iteration Joined)
      (txs : List Transaction) (task : FetchTask) (result : FetchResult)
      → Mem task (spawn_tasks it txs)
      → run_task node task ≡ finished (reply result)
      → Has (prefetch cache it completion (run_task node) txs).warm_db result
  unfolding prefetch
  prefetch-Has node it completion txs task result m h =
      drain-Has node (spawn_tasks it txs)
        (completion.arrange (map (run_task node) (spawn_tasks it txs))) task result
        (completion.arrange-perm (map (run_task node) (spawn_tasks it txs))) m h
