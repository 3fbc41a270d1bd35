-- ===== src/Tests/Fetching.antt =====
-- Tests of the fetches as they run, with association lists for the cache.
use mathlib.Core.List.{Mem, mem-cons_self}
use argus_core.Base.{◌≤◌, List, [], ◌∷◌, Option, none, some, ite, ◌≡◌, refl, length, ℕ_discrete}
use argus_core.HashMap.{set_insert}
use argus_core.Types.{Address, U256}
use argus_core.Provider.Rpc.{reply, failure}
use argus_core.Provider.Prefetcher.Retry.{
  AccountState, FetchResult, account, is_rate_limited, account_result, mentions_429,
  fetch_account_with_retry,
}
use argus_core.Provider.Prefetcher.Tasks.{FetchTask, spawn_tasks}
use argus_core.Provider.Prefetcher.Fetches.{Node, run_task}
use argus_core.Provider.Prefetcher.Drain.{CacheDb, Joined, finished, panicked}
use argus_core.Provider.Prefetcher.Drain.Contents.{CacheLaws}
use argus_core.Provider.Prefetcher.Semaphore.{
  here, there, Pool, spawned, acquire, release, After, start, later,
}
use argus_core.Provider.Prefetcher.Semaphore.Limit.{running-le-max_concurrent}
use argus_core.Provider.Prefetcher.Semaphore.Finish.{Progress, After-Progress}
use argus_core.Tests.Data.{in_order, payment}

-- Two fetches, of which the second panics.
abbrev first_task : FetchTask
first_task = FetchTask.account 10

abbrev second_task : FetchTask
second_task = FetchTask.storage 20 4

abbrev two_tasks : List FetchTask
two_tasks = first_task ∷ second_task ∷ []

abbrev ends : FetchTask → Joined
ends (FetchTask.account a) =
    finished (reply (account a (record { balance = 0; nonce = 0; code = [] })))
ends (FetchTask.storage a slot) = panicked "task"

-- With one permit the second task runs first, and then there is a permit for the other.
abbrev half : Pool
half = record { permits = 1; waiting = first_task ∷ []; running = []; ended = panicked "task" ∷ [] }

half_way : After ends (spawned 1 two_tasks) 2 half
unfolding spawned
half_way = later (later start (acquire {n = 0} (there here) refl refl)) (release here refl)

running-le-max_concurrent_example : length half.running ≤ 1
running-le-max_concurrent_example = running-le-max_concurrent ends 1 two_tasks half_way

After-Progress_example : Progress ends 1 two_tasks 2 half
After-Progress_example = After-Progress ends 1 two_tasks half_way

-- The schedule that no task is part of.
idle : Progress ends 0 two_tasks 0 (spawned 0 two_tasks)
idle = After-Progress ends 0 two_tasks start

-- The accounts and the slots of a cache, the latest first.
abbrev pub Entries : Type 0
Entries = List (Address × AccountState) × List (Address × U256 × U256)

abbrev pub entries : CacheDb Entries
entries = record {
  empty = ([], []);
  insert_account_info = λ a info db. ((a, info) ∷ db.0, db.1);
  insert_account_storage = λ a slot value db. (db.0, (a, slot, value) ∷ db.1);
}

info_at : Address → List (Address × AccountState) → Option AccountState
info_at a [] = none
info_at a ((b, info) ∷ l) = ite (ℕ_discrete b a) (some info) (info_at a l)

value_at : Address → U256 → List (Address × U256 × U256) → Option U256
value_at a s [] = none
value_at a s ((b, slot, value) ∷ l) =
    ite (ℕ_discrete b a) (ite (ℕ_discrete slot s) (some value) (value_at a s l)) (value_at a s l)

pub entries-CacheLaws : CacheLaws entries
unfolding info_at value_at
entries-CacheLaws = record {
  info_of = λ a db. info_at a db.0;
  value_of = λ a s db. value_at a s db.1;
  info_of-insert_info = λ a b info db. refl;
  info_of-insert_storage = λ a b slot value db. refl;
  value_of-insert_info = λ a b slot info db. refl;
  value_of-insert_storage = λ a b s slot value db. refl;
}

-- A node that limits the first request for a balance.
abbrev limited : Node
limited = record {
  account_at = λ _ j. record {
    balance = elim (ℕ_discrete j 0) [ yes _ ↦ failure "HTTP 429" | no _ ↦ reply 5 ];
    nonce = reply 1;
    code = reply [];
  };
  storage_at = λ _ slot _. reply slot;
  task_panic = λ _. none;
  show_address = λ _. "address";
  show_slot = λ _. "slot";
}

abbrev funded : FetchResult
funded = account 10 (record { balance = 5; nonce = 1; code = [] })

ran : run_task limited first_task ≡ finished (reply funded)
unfolding run_task fetch_account_with_retry is_rate_limited account_result mentions_429 ℕ_discrete
ran = refl

sent : Mem first_task (spawn_tasks in_order (payment ∷ []))
unfolding spawn_tasks set_insert ℕ_discrete
sent = mem-cons_self
