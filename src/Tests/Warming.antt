-- ===== src/Tests/Warming.antt =====
-- Tests of what the prefetch achieves, with a node that limits the first request for an account.
use argus_core.HashMap.{set_insert}
use argus_core.Provider.Slots.{known_slots}
use argus_core.Provider.Prefetcher.Tasks.{FetchTask, spawn_tasks}
use argus_core.Provider.Prefetcher.Semaphore.{
  here, there, Pool, spawned, Step, acquire, release, After, start, later,
}
use argus_core.Provider.Prefetcher.Semaphore.Cached.{After-IsReady}
use argus_core.Base.{
  List, length, ◌*◌, ◌<◌, ◌⊎◌, ℕ_discrete, ℕ, zero, suc, [], ◌∷◌, none, some, map, All, true, false,
  ◌≡◌, refl, arith,
}
use argus_core.Types.{Address, ok}
use argus_core.Provider.Rpc.{reply, failure}
use argus_core.Provider.Prefetcher.Retry.{
  AccountState, AccountReplies, is_rate_limited, account_result, mentions_429, account,
}
use argus_core.Provider.Prefetcher.Fetches.{Node, run_task}
use argus_core.Provider.Prefetcher.Drain.{drain}
use argus_core.Provider.Prefetcher.Drain.Complete.{Answers, IsReady}
use argus_core.Tests.Data.{in_order, plain, payment}
use argus_core.Simulator.Inspector.{step, opcode_sload, opcode_sstore}
use argus_core.Simulator.Batch.{recorded}
use argus_core.Simulator.Batch.Outcome.{AllDescribe}
use argus_core.Provider.Rpc.{to_transaction}
use argus_core.Cli.{Environment, Analysis, analyze}
use argus_core.Cli.Pipeline.Readiness.{analyze-IsReady}
use argus_core.Tests.Pipelines.{to_file, two_transactions, nonempty}
use argus_core.Tests.Fetching.{Entries, entries, entries-CacheLaws}

-- Everybody owns five.
abbrev owns : Address → AccountState
owns _ = record { balance = 5; nonce = 1; code = [] }

abbrev replies : ℕ → AccountReplies
replies zero = record { balance = failure "HTTP 429"; nonce = reply 1; code = reply [] }
replies (suc _) = record { balance = reply 5; nonce = reply 1; code = reply [] }

abbrev second_thoughts : Node
second_thoughts = record {
  account_at = λ _. replies;
  storage_at = λ _ slot _. reply slot;
  task_panic = λ _. none;
  show_address = λ _. "address";
  show_slot = λ _. "slot";
}

first_is_limited : is_rate_limited (replies 0) ≡ true
unfolding is_rate_limited mentions_429
first_is_limited = refl

replies-account :
    (a : Address) (n : ℕ)
    → is_rate_limited (replies n) ≡ false
    → account_result a (replies n) ≡ reply (account a (owns a))
unfolding account_result
replies-account a zero h = absurd (ground (arith, first_is_limited, h))
replies-account a (suc n) h = refl

second_thoughts-Answers : Answers second_thoughts owns (λ _ slot. slot)
unfolding is_rate_limited
second_thoughts-Answers = record {
  calm = λ t. refl;
  accounts = replies-account;
  account_attempt = λ a. (1, omega arith, refl);
  words = λ a slot n h. refl;
  word_attempt = λ a slot. (0, omega arith, refl);
}

-- The transactions of a block on that node, which read a slot and write it again.
abbrev patient : Environment ℕ Entries
patient = record {
  display = plain;
  dial = λ _. reply 0;
  block_at = λ _ _. reply (some two_transactions);
  node_at = λ _ _. second_thoughts;
  evm = record {
    refuse = λ _. none;
    execute = λ _ _. step opcode_sload (4 ∷ []) ∷ step opcode_sstore (1 ∷ 4 ∷ []) ∷ [];
  };
  cache = entries;
  batch_panic = none;
  addresses = in_order;
  completion = in_order;
  index = in_order;
}

analyze-IsReady_example :
    (a : Analysis) × (db : Entries) × (analyze patient to_file ≡ ok a)
    × (a.transactions ≡ map to_transaction two_transactions)
    × All (IsReady entries entries-CacheLaws owns (λ _ slot. slot) db) a.transactions
    × AllDescribe (recorded patient.evm db) a.transactions a.access_lists
analyze-IsReady_example =
    analyze-IsReady patient to_file 0 entries-CacheLaws owns (λ _ slot. slot) refl
      second_thoughts-Answers two_transactions nonempty refl refl refl (refl, (refl, tt))

-- One permit for the two fetches of a payment, which run one after the other.
abbrev both : List FetchTask
both = FetchTask.account 10 ∷ FetchTask.account 20 ∷ []

abbrev over : Pool
over = record {
  permits = 1;
  waiting = [];
  running = [];
  ended =
      run_task second_thoughts (FetchTask.account 20)
      ∷ run_task second_thoughts (FetchTask.account 10)
      ∷ [];
}

schedule : After (run_task second_thoughts) (spawned 1 both) 4 over
unfolding spawned
schedule =
    later
      (later (later (later start (acquire {n = 0} (there here) refl refl)) (release here refl))
        (acquire {n = 0} here refl refl))
      (release here refl)

scheduled :
    After (run_task second_thoughts) (spawned 1 (spawn_tasks in_order (payment ∷ []))) 4 over
unfolding spawn_tasks set_insert ℕ_discrete known_slots
scheduled = schedule

After-IsReady_example :
    ((4 ≡ 2 * length (spawn_tasks in_order (payment ∷ [])))
      × All
          (IsReady entries entries-CacheLaws owns
            (λ _ slot. slot)
            (drain entries over.ended).warm_db)
          (payment ∷ []))
    ⊎ ((4 < 2 * length (spawn_tasks in_order (payment ∷ [])))
        × ((u : Pool) × Step (run_task second_thoughts) over u))
After-IsReady_example =
    After-IsReady entries entries-CacheLaws owns (λ _ slot. slot) second_thoughts in_order
      (payment ∷ []) 1 second_thoughts-Answers (omega arith) scheduled
