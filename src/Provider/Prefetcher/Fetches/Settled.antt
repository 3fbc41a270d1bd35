-- ===== src/Provider/Prefetcher/Fetches/Settled.antt =====
-- The attempts behind either kind of fetch.
use Prim.Native.String.{◌++◌}
use argus_core.Base.{
  ℕ, zero, suc, ◌≤◌, List, Bool, true, false, ◌⊎◌, inl, inr, ◌≡◌, refl, ◌↔◌, ◌∙◌, arith,
}
use argus_core.Types.{Address, U256}
use argus_core.Provider.Rpc.{Reply, reply, failure}
use argus_core.Provider.Prefetcher.Retry.{
  AccountReplies, FetchResult, is_limited, is_rate_limited, account_result,
  fetch_account_with_retry, fetch_storage_with_retry,
}
use argus_core.Provider.Prefetcher.Retry.Attempts.{
  AllBefore, sleeps_before, Settles, fetch_account-Settles, fetch_storage-Settles, storage_result,
}
use argus_core.Provider.Prefetcher.Retry.Limited.{
  IsLimited, IsRateLimited, is_limited_iff, is_rate_limited_iff,
}
use argus_core.Provider.Prefetcher.Tasks.{FetchTask, account, storage}
use argus_core.Provider.Prefetcher.Fetches.{Node, fetch}
use argus_core.Provider.Prefetcher.Drain.{finished}

-- The node limits an attempt at a fetch: an answer to it is an error that mentions 429.
abbrev pub Limits : Node → FetchTask → ℕ → Type 0
Limits node (account a) n = IsRateLimited (node.account_at a n)
Limits node (storage a slot) n = IsLimited (node.storage_at a slot n)

-- The account with what was answered, or the first error of balance, nonce and code.
abbrev pub account_answer : Address → Reply U256 → Reply ℕ → Reply (List ℕ) → Reply FetchResult
account_answer a (failure e) _ _ = failure e
account_answer a (reply _) (failure e) _ = failure e
account_answer a (reply _) (reply _) (failure e) = failure e
account_answer a (reply balance) (reply nonce) (reply code) =
    reply (FetchResult.account a (record { balance = balance; nonce = nonce; code = code }))

account_result-account_answer :
    (a : Address) (r : AccountReplies)
    → account_result a r ≡ account_answer a r.balance r.nonce r.code
unfolding account_result
account_result-account_answer a r = ground arith

-- What the answers to an attempt amount to.
abbrev pub answer : Node → FetchTask → ℕ → Reply FetchResult
answer node (account a) n = let r = node.account_at a n in account_answer a r.balance r.nonce r.code
answer node (storage a slot) n = storage_result a slot (node.storage_at a slot n)

-- The loop of the fetch: its result, and the sleeps.
abbrev pub attempted : Node → FetchTask → Reply FetchResult × List ℕ
attempted node (account a) =
    fetch_account_with_retry a ("max retries exceeded for " ++ node.show_address a)
      (node.account_at a)
attempted node (storage a slot) =
    fetch_storage_with_retry a slot
      ("max retries exceeded for " ++ (node.show_address a ++ (" slot " ++ node.show_slot slot)))
      (node.storage_at a slot)

-- Every attempt before the one of a number was limited.
abbrev pub EachBefore : (ℕ → Type 0) → ℕ → Type 0
EachBefore limited zero = Unit
EachBefore limited (suc n) = EachBefore limited n × limited n

-- One attempt among the numbers 0 to 3 decides: the node limited all before it, it did not limit
-- this one or this one was the last, and its answer is the result.
pub record Decides (limited : ℕ → Type 0) (result : ℕ → Reply FetchResult)
    (out : Reply FetchResult × List ℕ) : Type 0 where
  pub last : ℕ
  pub within : last ≤ 3
  pub retried : EachBefore limited last
  pub stops : (¬ limited last) ⊎ (last ≡ 3)
  pub outcome : out.0 ≡ result last
  pub slept : out.1 ≡ sleeps_before last

module _ (test : ℕ → Bool) (limited : ℕ → Type 0)
    (agree : (n : ℕ) → test n ≡ true ↔ limited n) where
  EachBefore-of : (n : ℕ) → AllBefore test n → EachBefore limited n
  EachBefore-of zero h = tt
  EachBefore-of (suc n) h = (EachBefore-of n h.0, (agree n).0 h.1)

  stop-of : (n : ℕ) → (test n ≡ false) ⊎ (n ≡ 3) → (¬ limited n) ⊎ (n ≡ 3)
  stop-of n (inr e) = inr e
  stop-of n (inl e) = inl (λ l. let e' = (agree n).1 l in ground (arith, e, e'))

  Decides-of_Settles :
      (result amounts : ℕ → Reply FetchResult) (out : Reply FetchResult × List ℕ)
      → ((n : ℕ) → result n ≡ amounts n)
      → Settles test result out
      → Decides limited amounts out
  Decides-of_Settles result amounts out same s = record {
    last = s.last;
    within = s.within;
    retried = EachBefore-of s.last s.retried;
    stops = stop-of s.last s.stops;
    outcome = s.outcome ∙ same s.last;
    slept = s.slept;
  }

-- A task that fetches, an account or a slot, makes at most four attempts, with sleeps of 200, 400
-- and 800 ms between them, and ends with the answer of the first that is not rate-limited, or of the
-- fourth; the error behind the loop is never returned in place of it. An attempt is rate-limited if
-- an answer to it, for an account the balance, the nonce or the code, is an error whose text has 429
-- in it.
pub fetch-Decides :
    (node : Node) (task : FetchTask)
    → Decides (Limits node task) (answer node task) (attempted node task)
      × (fetch node task ≡ finished (attempted node task).0)
unfolding fetch
fetch-Decides node (account a) = (
  Decides-of_Settles (λ n. is_rate_limited (node.account_at a n)) (Limits node (account a))
      (λ n. is_rate_limited_iff (node.account_at a n)) (λ n. account_result a (node.account_at a n))
      (answer node (account a)) _ (λ n. account_result-account_answer a (node.account_at a n))
      (fetch_account-Settles a _ (node.account_at a)),
  refl,
)
fetch-Decides node (storage a slot) = (
  Decides-of_Settles (λ n. is_limited (node.storage_at a slot n)) (Limits node (storage a slot))
      (λ n. is_limited_iff (node.storage_at a slot n)) (answer node (storage a slot))
      (answer node (storage a slot)) _ (λ n. refl)
      (fetch_storage-Settles a slot _ (node.storage_at a slot)),
  refl,
)
