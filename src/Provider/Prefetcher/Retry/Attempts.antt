-- ===== src/Provider/Prefetcher/Retry/Attempts.antt =====
-- Which attempt decides the result of a fetch, and how long it slept.
use Prim.Native.String.{String}
use argus_core.Base.{
  ℕ, zero, suc, ◌≤◌, List, [], ◌∷◌, Bool, true, false, Bool-cases, inl, inr, ◌⊎◌, ◌≡◌, refl, arith,
  if◌then◌else◌,
}
use argus_core.Types.{Address, U256}
use argus_core.Provider.Rpc.{Reply, reply, failure}
use argus_core.Provider.Prefetcher.Retry.{
  is_limited, FetchResult, storage, AccountReplies, account_result, is_rate_limited,
  fetch_account_with_retry, fetch_storage_with_retry,
}

-- Every attempt before the one of a number was rate-limited.
abbrev pub AllBefore : (ℕ → Bool) → ℕ → Type 0
AllBefore limited zero = Unit
AllBefore limited (suc n) = AllBefore limited n × (limited n ≡ true)

-- The sleeps before the attempt of a number.
abbrev pub sleeps_before : ℕ → List ℕ
sleeps_before zero = []
sleeps_before (suc zero) = 200 ∷ []
sleeps_before (suc (suc zero)) = 200 ∷ 400 ∷ []
sleeps_before _ = 200 ∷ 400 ∷ 800 ∷ []

module _ (limited : ℕ → Bool) (result : ℕ → Reply FetchResult) where
  -- One attempt among the numbers 0 to 3 decides: all before it were rate-limited, it was not or
  -- was the last, and its answer is the result.
  pub record Settles (out : Reply FetchResult × List ℕ) : Type 0 where
    pub last : ℕ
    pub within : last ≤ 3
    pub retried : AllBefore limited last
    pub stops : (limited last ≡ false) ⊎ (last ≡ 3)
    pub outcome : out.0 ≡ result last
    pub slept : out.1 ≡ sleeps_before last

  abbrev attempt : ℕ → Reply FetchResult × List ℕ
  attempt n = (result n, sleeps_before n)

  abbrev schedule : Reply FetchResult × List ℕ
  schedule =
      if limited 0
      then (if limited 1 then (if limited 2 then attempt 3 else attempt 2) else attempt 1)
      else attempt 0

  settled :
      (n : ℕ) → n ≤ 3 → AllBefore limited n → (limited n ≡ false) ⊎ (n ≡ 3) → Settles (attempt n)
  settled n w h s = record {
    last = n;
    within = w;
    retried = h;
    stops = s;
    outcome = refl;
    slept = refl;
  }

  schedule-Settles : Settles schedule
  schedule-Settles = elim (Bool-cases (limited 0)) [
    | inr stop ↦ rw stop (settled 0 (omega arith) tt (inl stop))
    | inl more ↦ rw more (elim (Bool-cases (limited 1)) [
      | inr stop ↦ rw stop (settled 1 (omega arith) (tt, more) (inl stop))
      | inl more' ↦ rw more' (elim (Bool-cases (limited 2)) [
        | inr stop ↦ rw stop (settled 2 (omega arith) ((tt, more), more') (inl stop))
        | inl more'' ↦ rw more'' (settled 3 (omega arith) (((tt, more), more'), more'') (inr refl))
      ])
    ])
  ]

abbrev pub storage_result : Address → U256 → Reply U256 → Reply FetchResult
storage_result addr slot (reply val) = reply (storage addr slot val)
storage_result addr slot (failure e) = failure e

account_schedule :
    (addr : Address) (exceeded : String) (node : ℕ → AccountReplies)
    → fetch_account_with_retry addr exceeded node
      ≡ schedule (λ j. is_rate_limited (node j)) (λ j. account_result addr (node j))
unfolding fetch_account_with_retry
account_schedule addr exceeded node = ground arith

-- Fetching an account makes at most four attempts, with sleeps of 200, 400 and 800 ms between
-- them, and returns the answer of the first that is not rate-limited, or of the fourth; the error
-- behind the loop is never returned in place of it.
pub fetch_account-Settles :
    (addr : Address) (exceeded : String) (node : ℕ → AccountReplies)
    → Settles
        (λ j. is_rate_limited (node j))
        (λ j. account_result addr (node j))
        (fetch_account_with_retry addr exceeded node)
fetch_account-Settles addr exceeded node =
    rw (account_schedule addr exceeded node)
      (schedule-Settles (λ j. is_rate_limited (node j)) (λ j. account_result addr (node j)))

storage_schedule :
    (addr : Address) (slot : U256) (exceeded : String) (node : ℕ → Reply U256)
    → fetch_storage_with_retry addr slot exceeded node
      ≡ schedule (λ j. is_limited (node j)) (λ j. storage_result addr slot (node j))
unfolding fetch_storage_with_retry
storage_schedule addr slot exceeded node = ground arith

-- Fetching a storage slot makes at most four attempts, with sleeps of 200, 400 and 800 ms between
-- them, and returns the answer of the first that is not rate-limited, or of the fourth.
pub fetch_storage-Settles :
    (addr : Address) (slot : U256) (exceeded : String) (node : ℕ → Reply U256)
    → Settles
        (λ j. is_limited (node j))
        (λ j. storage_result addr slot (node j))
        (fetch_storage_with_retry addr slot exceeded node)
fetch_storage-Settles addr slot exceeded node =
    rw (storage_schedule addr slot exceeded node)
      (schedule-Settles (λ j. is_limited (node j)) (λ j. storage_result addr slot (node j)))
