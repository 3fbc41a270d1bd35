-- ===== src/Provider/Prefetcher/Drain/Complete.antt =====
-- What the prefetch achieves with a node that answers within the attempts that are made.
use mathlib.Core.List.{Mem}
use argus_core.Base.{
  ℕ, zero, suc, ◌≤◌, List, Bool, false, none, some, ◌⊎◌, inl, inr, ◌≡◌, ap, ◌∙◌, arith, All,
  All-mono,
}
use argus_core.HashMap.{Iteration}
use argus_core.Types.{Address, U256, Transaction}
use argus_core.Provider.Rpc.{Reply, reply}
use argus_core.Provider.Slots.{known_slots}
use argus_core.Provider.Prefetcher.Retry.{
  AccountState, FetchResult, account, storage, account_result, is_rate_limited, is_limited,
}
use argus_core.Provider.Prefetcher.Retry.Attempts.{
  AllBefore, Settles, fetch_account-Settles, fetch_storage-Settles, storage_result,
}
use argus_core.Provider.Prefetcher.Tasks.{FetchTask, collect_addresses, spawn_tasks}
use argus_core.Provider.Prefetcher.Tasks.Coverage.{
  account-started, slot-started, collect_addresses-Touched,
}
use argus_core.Provider.Prefetcher.Fetches.{Node, run_task}
use argus_core.Provider.Prefetcher.Drain.{CacheDb, Joined, finished, prefetch}
use argus_core.Provider.Prefetcher.Drain.Contents.{CacheLaws}
use argus_core.Provider.Prefetcher.Drain.Warm.{Has, prefetch-Has}

-- If one of the four attempts is not rate-limited, neither is the one that decides.
Settles-answered :
    (limited : ℕ → Bool) (result : ℕ → Reply FetchResult) {out : Reply FetchResult × List ℕ}
    (s : Settles limited result out) (n : ℕ)
    → n ≤ 3
    → limited n ≡ false
    → limited s.last ≡ false
Settles-answered limited result s n w h = from s.last s.retried s.stops
  where
    from :
        (last : ℕ)
        → AllBefore limited last
        → (limited last ≡ false) ⊎ (last ≡ 3)
        → limited last ≡ false
    from last r (inl e) = e
    from last r (inr e) = third n w h (rw e at r)
      where
        third : (n : ℕ) → n ≤ 3 → limited n ≡ false → AllBefore limited 3 → limited last ≡ false
        third zero w h r = absurd (ground (arith, h, r.0.0.1))
        third (suc zero) w h r = absurd (ground (arith, h, r.0.1))
        third (suc (suc zero)) w h r = absurd (ground (arith, h, r.1))
        third (suc (suc (suc zero))) w h r = rw e h
        third (suc (suc (suc (suc n)))) w h r = absurd (omega (arith, w))

-- The node has the state of the block: an attempt is rate-limited or answers with that state, one of
-- the first four of each fetch is not rate-limited, and no task panics.
pub record Answers (node : Node) (state : Address → AccountState) (word : Address → U256 → U256)
    : Type 0 where
  pub calm : (t : FetchTask) → node.task_panic t ≡ none
  pub accounts :
      (a : Address) (n : ℕ)
      → is_rate_limited (node.account_at a n) ≡ false
      → account_result a (node.account_at a n) ≡ reply (account a (state a))
  pub account_attempt :
      (a : Address) → (n : ℕ) × (n ≤ 3) × (is_rate_limited (node.account_at a n) ≡ false)
  pub words :
      (a : Address) (slot : U256) (n : ℕ)
      → is_limited (node.storage_at a slot n) ≡ false
      → node.storage_at a slot n ≡ reply (word a slot)
  pub word_attempt :
      (a : Address) (slot : U256)
      → (n : ℕ) × (n ≤ 3) × (is_limited (node.storage_at a slot n) ≡ false)

module _ (node : Node) (state : Address → AccountState) (word : Address → U256 → U256)
    (answers : Answers node state word) where
  run_account :
      (a : Address) → run_task node (FetchTask.account a) ≡ finished (reply (account a (state a)))
  unfolding run_task
  run_account a =
      let s = fetch_account-Settles a _ (node.account_at a) in
      let (n, w, h) = answers.account_attempt a in
      let stops =
        Settles-answered (λ j. is_rate_limited (node.account_at a j))
          (λ j. account_result a (node.account_at a j)) s n w h in
      rw (answers.calm (FetchTask.account a), run_task)
        (ap finished (s.outcome ∙ answers.accounts a s.last stops))

  run_storage :
      (a : Address) (slot : U256)
      → run_task node (FetchTask.storage a slot) ≡ finished (reply (storage a slot (word a slot)))
  unfolding run_task
  run_storage a slot =
      let s = fetch_storage-Settles a slot _ (node.storage_at a slot) in
      let (n, w, h) = answers.word_attempt a slot in
      let stops =
        Settles-answered (λ j. is_limited (node.storage_at a slot j))
          (λ j. storage_result a slot (node.storage_at a slot j)) s n w h in
      rw (answers.calm (FetchTask.storage a slot), run_task)
        (ap finished (s.outcome ∙ ap (storage_result a slot) (answers.words a slot s.last stops)))

module _ {Db : Type 0} (cache : CacheDb Db) (laws : CacheLaws cache)
    (state : Address → AccountState) (word : Address → U256 → U256) where
  open laws use {info_of, value_of}

  -- The cache has the account of an address and its known slots, as they are.
  pub record IsWarm (db : Db) (a : Address) : Type 0 where
    pub info : info_of a db ≡ some (state a)
    pub values :
        (slots : List U256) (slot : U256)
        → known_slots a ≡ some slots
        → Mem slot slots
        → value_of a slot db ≡ some (word a slot)

  -- Both ends of the transaction are.
  pub record IsReady (db : Db) (tx : Transaction) : Type 0 where
    pub sender : IsWarm db tx.from
    pub recipient : (to : Address) → tx.to ≡ some to → IsWarm db to

  -- A cache that has what every fetch returned.
  abbrev pub HasAll : Node → List FetchTask → Db → Type 0
  HasAll node tasks db =
      (task : FetchTask) (result : FetchResult)
      → Mem task tasks
      → run_task node task ≡ finished (reply result)
      → Has cache laws db result

  module _ (node : Node) (it : Iteration Address) (txs : List Transaction)
      (answers : Answers node state word) where
    collected-IsWarm :
        (db : Db) (a : Address)
        → HasAll node (spawn_tasks it txs) db
        → Mem a (collect_addresses txs)
        → IsWarm db a
    collected-IsWarm db a has m = record {
      info =
          has (FetchTask.account a) (account a (state a)) (account-started it txs a m)
            (run_account node state word answers a);
      values = λ slots slot e k.
          has (FetchTask.storage a slot) (storage a slot (word a slot))
            (slot-started it txs a slots slot m e k) (run_storage node state word answers a slot);
    }

    pub HasAll-IsReady : (db : Db) → HasAll node (spawn_tasks it txs) db → All (IsReady db) txs
    HasAll-IsReady db has =
        All-mono txs
          (λ tx h. record {
            sender = collected-IsWarm db tx.from has h.sender;
            recipient = λ to e. collected-IsWarm db to has (h.recipient to e);
          })
          (collect_addresses-Touched txs)

    -- Under the laws of the cache, with a node that answers each fetch from one state within four
    -- attempts, and no panic: after the prefetch, in whatever order the addresses are visited and the
    -- fetches end, the cache has for every transaction the accounts of its sender and of its
    -- recipient, and the known slots of both, as they are in that state.
    pub prefetch-IsReady :
        (completion : Iteration Joined)
        → All (IsReady (prefetch cache it completion (run_task node) txs).warm_db) txs
    prefetch-IsReady completion =
        HasAll-IsReady (prefetch cache it completion (run_task node) txs).warm_db
          (prefetch-Has cache laws node it completion txs)
