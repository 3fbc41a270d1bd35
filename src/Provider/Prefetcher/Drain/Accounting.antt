-- ===== src/Provider/Prefetcher/Drain/Accounting.antt =====
-- How many fetches the drain loop counts.
use mathlib.Core.Option
use argus_core.Base.{
  ℕ, ◌+◌, List, [], ◌∷◌, map, flat_map, foldl, Option-cases, inl, inr, ◌≡◌, refl, arith, length,
  length-map, length-append, sum_by, sum_by-perm, length-perm,
}
use argus_core.HashMap.{Iteration}
use argus_core.Types.{Address, Transaction}
use argus_core.Provider.Slots.{known_slots}
use argus_core.Provider.Rpc.{reply, failure}
use argus_core.Provider.Prefetcher.Retry.{account, storage}
use argus_core.Provider.Prefetcher.Tasks.{FetchTask, collect_addresses, slot_tasks, spawn_tasks}
use argus_core.HashMap.Once.{EachOnce}
use argus_core.Provider.Prefetcher.Tasks.Ends.{all_ends, collect_addresses-EachOnce}
use argus_core.Provider.Prefetcher.Drain.{
  CacheDb, Joined, finished, panicked, Progress, drain_one, drain, prefetch,
}

module _ {Db : Type 0} (cache : CacheDb Db) where
  drain_one-counts :
      (p : Progress Db) (j : Joined)
      → (drain_one cache p j).fetched + (drain_one cache p j).failed ≡ p.fetched + p.failed + 1
  unfolding drain_one
  drain_one-counts p (finished (reply (account addr info))) = omega arith
  drain_one-counts p (finished (reply (storage addr slot value))) = omega arith
  drain_one-counts p (finished (failure e)) = omega arith
  drain_one-counts p (panicked e) = omega arith

  drain-counts_from :
      (js : List Joined) (p : Progress Db)
      → (foldl (drain_one cache) p js).fetched + (foldl (drain_one cache) p js).failed
        ≡ p.fetched + p.failed + length js
  drain-counts_from [] p = omega arith
  drain-counts_from (j ∷ js) p =
      omega (arith, drain_one-counts p j, drain-counts_from js (drain_one cache p j))

  drain-counts : (js : List Joined) → (drain cache js).fetched + (drain cache js).failed ≡ length js
  unfolding drain
  drain-counts js =
      omega
        (arith, drain-counts_from js (record { warm_db = cache.empty; fetched = 0; failed = 0 }))

-- How many slots of a contract are fetched ahead.
abbrev pub slot_count : Address → ℕ
slot_count addr = length (Option.get_or (known_slots addr) [])

length-slot_tasks : (addr : Address) → length (slot_tasks addr) ≡ slot_count addr
unfolding slot_tasks
length-slot_tasks addr = elim (Option-cases (known_slots addr)) [
  | inl e ↦ rw (e, slot_tasks)
  | inr (slots, e) ↦ rw (e, slot_tasks) (length-map (FetchTask.storage addr) slots)
]

length-flat_map {ℓ κ} :
    {A : Type ℓ} {B : Type κ} (f : A → List B) (xs : List A)
    → length (flat_map f xs) ≡ sum_by (λ x. length (f x)) xs
length-flat_map f [] = refl
length-flat_map f (x ∷ xs) =
    omega (arith, length-append (f x) (flat_map f xs), length-flat_map f xs)

sum_by-slot_tasks :
    (addrs : List Address) → sum_by (λ a. length (slot_tasks a)) addrs ≡ sum_by slot_count addrs
sum_by-slot_tasks [] = refl
sum_by-slot_tasks (a ∷ addrs) = omega (arith, length-slot_tasks a, sum_by-slot_tasks addrs)

length-spawn_tasks :
    (it : Iteration Address) (txs : List Transaction)
    → length (spawn_tasks it txs)
      ≡ length (collect_addresses txs) + sum_by slot_count (collect_addresses txs)
unfolding spawn_tasks
length-spawn_tasks it txs =
    let addrs = it.arrange (collect_addresses txs) in
    omega (
      arith,
      length-append (map FetchTask.account addrs) (flat_map slot_tasks addrs),
      length-map FetchTask.account addrs,
      length-flat_map slot_tasks addrs,
      sum_by-slot_tasks addrs,
      length-perm (it.arrange-perm (collect_addresses txs)),
      sum_by-perm slot_count (it.arrange-perm (collect_addresses txs)),
    )

module _ {Db : Type 0} (cache : CacheDb Db) (it : Iteration Address) (completion : Iteration Joined)
    (run : FetchTask → Joined) (txs : List Transaction) where
  abbrev progress : Progress Db
  progress = prefetch cache it completion run txs

  prefetch-counts_collected :
      progress.fetched + progress.failed
      ≡ length (collect_addresses txs) + sum_by slot_count (collect_addresses txs)
  unfolding prefetch
  prefetch-counts_collected =
      let joined = map run (spawn_tasks it txs) in
      omega (
        arith,
        drain-counts cache (completion.arrange joined),
        length-perm (completion.arrange-perm joined),
        length-map run (spawn_tasks it txs),
        length-spawn_tasks it txs,
      )

  -- However the fetches end and in whatever order: as many are reported, as fetched or as failed, as
  -- there are addresses and known slots of them, where the addresses are the senders and the
  -- recipients of the transactions, each once.
  pub prefetch-counts :
      (addresses : List Address) × EachOnce (all_ends txs) addresses
      × (progress.fetched + progress.failed ≡ length addresses + sum_by slot_count addresses)
  prefetch-counts =
      (collect_addresses txs, collect_addresses-EachOnce txs, prefetch-counts_collected)
