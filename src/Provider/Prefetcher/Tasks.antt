-- ===== src/Provider/Prefetcher/Tasks.antt =====
-- `Prefetcher::prefetch`: which addresses are collected and which fetches are started.
pub mod Coverage
pub mod Ends
use argus_core.Base.{ℕ, List, [], ◌∷◌, ◌++◌, map, flat_map, foldl, Option, none, some, ℕ_discrete}
use argus_core.HashMap.{Iteration, set_insert}
use argus_core.Types.{Address, U256, Transaction}
use argus_core.Provider.Slots.{known_slots}

pub record Prefetcher (P : Type 0) : Type 0 where
  pub provider : P
  pub max_concurrent : ℕ

abbrev pub default_concurrency : ℕ
default_concurrency = 1

unfoldable pub new : {P : Type 0} → P → Prefetcher P
new provider = record { provider = provider; max_concurrent = default_concurrency }

unfoldable pub with_concurrency : {P : Type 0} → Prefetcher P → ℕ → Prefetcher P
with_concurrency self n = record self { max_concurrent = n }

-- The body of the loop over the transactions.
unfoldable pub add_addresses : List Address → Transaction → List Address
add_addresses addresses tx =
    let with_from = set_insert ℕ_discrete tx.from addresses in
    elim tx.to [ none ↦ with_from | some to ↦ set_insert ℕ_discrete to with_from ]

unfoldable pub collect_addresses : List Transaction → List Address
unfolding add_addresses
collect_addresses = foldl add_addresses []

-- A task of the `JoinSet`.
pub data FetchTask : Type 0 where
  account : Address → FetchTask
  storage : Address → U256 → FetchTask

unfoldable pub slot_tasks : Address → List FetchTask
slot_tasks addr = elim (known_slots addr) [ none ↦ [] | some slots ↦ map (storage addr) slots ]

-- The two loops that spawn, over the set of addresses in its order of iteration.
unfoldable pub spawn_tasks : Iteration Address → List Transaction → List FetchTask
unfolding collect_addresses slot_tasks
spawn_tasks it txs =
    let addresses = it.arrange (collect_addresses txs) in
    map account addresses ++ flat_map slot_tasks addresses
