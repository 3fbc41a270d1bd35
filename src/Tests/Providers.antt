-- ===== src/Tests/Providers.antt =====
-- Tests of the provider.
use argus_core.Base.{
  List, ℕ, zero, suc, ◌+◌, [], ◌∷◌, none, some, ◌≡◌, refl, length, sum_by, ℕ_discrete,
}
use argus_core.HashMap.{set_insert}
use argus_core.Types.{Address}
use argus_core.Provider.Labels.{lookup}
use argus_core.Provider.Rpc.{Reply, reply, failure}
use argus_core.Provider.Prefetcher.Retry.{
  account, storage, AccountReplies, mentions_429, fetch_storage_with_retry,
}
use argus_core.Provider.Prefetcher.Fetches.{Node, fetch}
use argus_core.Provider.Prefetcher.Fetches.Settled.{
  Limits, answer, attempted, Decides, fetch-Decides,
}
use argus_core.Provider.Prefetcher.Tasks.{FetchTask, collect_addresses}
use argus_core.HashMap.Once.{EachOnce}
use argus_core.Provider.Prefetcher.Tasks.Ends.{all_ends}
use argus_core.Provider.Prefetcher.Drain.{CacheDb, Joined, finished, panicked, prefetch}
use argus_core.Provider.Prefetcher.Drain.Accounting.{slot_count, prefetch-counts}
use argus_core.Tests.Data.{in_order, payment, creation}

abbrev steth : Address
steth = 0xae7ab96520de3a18e5e111b5eaab095312d7fe84

abbrev usdc_weth : Address
usdc_weth = 0xb4e16d0168e52d35cacd2c6185b44281ec28c9dc

-- The label inserted later replaces the earlier one.
relabelled : lookup steth ≡ some (record { protocol = "Lido"; name = "stETH" })
unfolding lookup ℕ_discrete
relabelled = refl

-- A node that limits the first two requests.
abbrev busy : {A : Type 0} → A → ℕ → Reply A
busy a zero = failure "HTTP 429"
busy a (suc zero) = failure "HTTP 429"
busy a _ = reply a

abbrev busy_account : ℕ → AccountReplies
busy_account j = record { balance = busy 5 j; nonce = reply 1; code = reply [] }

abbrev busy_slot : ℕ → Reply ℕ
busy_slot = busy 77

retried :
    fetch_storage_with_retry 20 4 "exceeded" busy_slot ≡ (reply (storage 20 4 77), 200 ∷ 400 ∷ [])
unfolding fetch_storage_with_retry mentions_429
retried = refl

abbrev busy_node : Node
busy_node = record {
  account_at = λ _. busy_account;
  storage_at = λ _ _. busy_slot;
  task_panic = λ _. none;
  show_address = λ _. "address";
  show_slot = λ _. "slot";
}

fetch-Decides_example :
    Decides
      (Limits busy_node (FetchTask.account 20))
      (answer busy_node (FetchTask.account 20))
      (attempted busy_node (FetchTask.account 20))
    × (fetch busy_node (FetchTask.account 20)
        ≡ finished (attempted busy_node (FetchTask.account 20)).0)
fetch-Decides_example = fetch-Decides busy_node (FetchTask.account 20)

gathered : collect_addresses (payment ∷ creation ∷ []) ≡ 10 ∷ 20 ∷ []
unfolding collect_addresses set_insert ℕ_discrete
gathered = refl

-- A cache that counts its entries, and a run in which every slot fails.
abbrev counter : CacheDb ℕ
counter = record {
  empty = 0;
  insert_account_info = λ _ _ n. n + 1;
  insert_account_storage = λ _ _ _ n. n + 1;
}

abbrev ends : FetchTask → Joined
ends (FetchTask.account a) =
    finished (reply (account a (record { balance = 0; nonce = 0; code = [] })))
ends (FetchTask.storage a slot) = panicked "task"

prefetch-counts_example :
    (addresses : List Address) × EachOnce (all_ends (payment ∷ [])) addresses
    × ((prefetch counter in_order in_order ends (payment ∷ [])).fetched
          + (prefetch counter in_order in_order ends (payment ∷ [])).failed
        ≡ length addresses + sum_by slot_count addresses)
prefetch-counts_example = prefetch-counts counter in_order in_order ends (payment ∷ [])
