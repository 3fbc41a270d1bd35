-- ===== src/Provider/Prefetcher/Retry.antt =====
-- `fetch_account_with_retry` and `fetch_storage_with_retry`. A sleep is recorded in milliseconds.
pub mod Attempts
pub mod Limited
use Prim.Native.String.{String}
use text.Mathlib.Text.{find?}
use argus_core.Base.{
  ℕ, ◌-◌, ◌*◌, ◌^◌, List, [], ◌∷◌, ◌++◌, Bool, true, false, ◌&&◌, ◌||◌, none, some, ltb,
  if◌then◌else◌,
}
use argus_core.Types.{Address, U256}
use argus_core.Provider.Rpc.{Reply, reply, failure}

abbrev pub max_retries : ℕ
max_retries = 3

-- `for attempt in 0..=MAX_RETRIES`
abbrev pub attempts : List ℕ
attempts = 0 ∷ 1 ∷ 2 ∷ 3 ∷ []

-- `format!("{e}").contains("429")`
unfoldable pub mentions_429 : String → Bool
mentions_429 e = elim (find? e "429") [ none ↦ false | some _ ↦ true ]

-- `r.as_ref().err().map_or(false, |e| ..)`
abbrev pub is_limited {ℓ} : {A : Type ℓ} → Reply A → Bool
is_limited (reply _) = false
is_limited (failure e) = mentions_429 e

-- The sleeps so far, with the backoff before a repeated attempt.
abbrev pub back_off : ℕ → List ℕ → List ℕ
back_off attempt slept = if ltb 0 attempt then slept ++ 200 * 2 ^ (attempt - 1) ∷ [] else slept

-- What `AccountInfo::new` is given: balance, nonce and code.
pub record AccountState : Type 0 where
  pub balance : U256
  pub nonce : ℕ
  pub code : List ℕ

pub data FetchResult : Type 0 where
  account : Address → AccountState → FetchResult
  storage : Address → (slot value : U256) → FetchResult

-- The three answers of one attempt.
pub record AccountReplies : Type 0 where
  pub balance : Reply U256
  pub nonce : Reply ℕ
  pub code : Reply (List ℕ)

-- `.map_err(..)?` on one answer after the other.
abbrev pub ◌>>=◌ {ℓ κ} : {A : Type ℓ} {B : Type κ} → Reply A → (A → Reply B) → Reply B
reply a >>= f = f a
failure e >>= f = failure e

infixl 5 ◌>>=◌
unfoldable pub account_result : Address → AccountReplies → Reply FetchResult
account_result addr r = do
  balance ← r.balance
  nonce ← r.nonce
  code ← r.code
  reply (account addr (record { balance = balance; nonce = nonce; code = code }))

unfoldable pub is_rate_limited : AccountReplies → Bool
is_rate_limited r = is_limited r.balance || is_limited r.nonce || is_limited r.code

-- The loop: the result, and the sleeps. `exceeded` is the error behind the loop.
unfoldable pub account_loop :
    Address → String → (ℕ → AccountReplies) → List ℕ → List ℕ → Reply FetchResult × List ℕ
account_loop addr exceeded node [] slept = (failure exceeded, slept)
account_loop addr exceeded node (attempt ∷ rest) slept =
    let again = account_loop addr exceeded node rest (back_off attempt slept) in
    if is_rate_limited (node attempt) && ltb attempt max_retries
    then again
    else (account_result addr (node attempt), back_off attempt slept)

unfoldable pub fetch_account_with_retry :
    Address → String → (ℕ → AccountReplies) → Reply FetchResult × List ℕ
unfolding account_loop
fetch_account_with_retry addr exceeded node = account_loop addr exceeded node attempts []

unfoldable pub storage_loop :
    Address → U256 → String → (ℕ → Reply U256) → List ℕ → List ℕ → Reply FetchResult × List ℕ
storage_loop addr slot exceeded node [] slept = (failure exceeded, slept)
storage_loop addr slot exceeded node (attempt ∷ rest) slept =
    let again = storage_loop addr slot exceeded node rest (back_off attempt slept) in
    elim (node attempt) [
      | reply val ↦ (reply (storage addr slot val), back_off attempt slept)
      | failure e ↦
          if mentions_429 e && ltb attempt max_retries
          then again
          else (failure e, back_off attempt slept)
    ]

unfoldable pub fetch_storage_with_retry :
    Address → U256 → String → (ℕ → Reply U256) → Reply FetchResult × List ℕ
unfolding storage_loop
fetch_storage_with_retry addr slot exceeded node = storage_loop addr slot exceeded node attempts []
