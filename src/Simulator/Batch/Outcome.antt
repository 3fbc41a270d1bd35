-- ===== src/Simulator/Batch/Outcome.antt =====
-- What the simulation of a batch returns.
use mathlib.Core.List.{append_assoc, append-nil}
use Prim.Native.String.{◌++◌ as text_append}
use argus_core.Base.{
  String, List, [], ◌∷◌, ◌++◌, map, none, some, ◌≡◌, refl, sym, ap, ◌∙◌, All, arith,
}
use argus_core.Types.{
  StorageLocation, Transaction, AccessEntry, AccessList, simulation, ok, err, ◌>>=◌,
}
use argus_core.Simulator.Dedup.{canonical}
use argus_core.Simulator.Dedup.Ascending.{IsAscending, canonical-IsAscending}
use argus_core.Simulator.Dedup.WorstCase.{mode_at, worst, mode_at-canonical}
use argus_core.Simulator.Batch.{
  Evm, recorded, tx_env, simulate_one_tx, simulate_from, simulate_batch_sync, collect_results,
  simulate_batch_with_state,
}

-- An access list is that of a transaction: its hash, each location once and in order, and for each
-- location the worst mode recorded there.
pub record Describes (tx : Transaction) (raw : List AccessEntry) (al : AccessList) : Type 0 where
  pub hash : al.tx_hash ≡ tx.hash
  pub ascending : IsAscending al.entries
  pub mode : (location : StorageLocation) → mode_at location al.entries ≡ worst location raw

-- The lists describe the transactions, one by one and in their order.
abbrev pub AllDescribe :
    (Transaction → List AccessEntry) → List Transaction → List AccessList → Type 0
AllDescribe raw [] [] = Unit
AllDescribe raw (tx ∷ txs) (al ∷ lists) = Describes tx (raw tx) al × AllDescribe raw txs lists
AllDescribe raw _ _ = ⊥

module _ {Db : Type 0} (evm : Evm Db) (db : Db) where
  abbrev pub Accepted : Transaction → Type 0
  Accepted tx = evm.refuse (tx_env tx) ≡ none

  abbrev access_list_of : Transaction → AccessList
  access_list_of tx = record { tx_hash = tx.hash; entries = canonical (recorded evm db tx) }

  access_list_of-Describes :
      (tx : Transaction) → Describes tx (recorded evm db tx) (access_list_of tx)
  access_list_of-Describes tx = record {
    hash = refl;
    ascending = canonical-IsAscending (recorded evm db tx);
    mode = λ location. mode_at-canonical location (recorded evm db tx);
  }

  access_lists-Describe :
      (txs : List Transaction) → AllDescribe (recorded evm db) txs (map access_list_of txs)
  access_lists-Describe [] = tt
  access_lists-Describe (tx ∷ txs) = (access_list_of-Describes tx, access_lists-Describe txs)

  simulate_one_tx-Accepted :
      (tx : Transaction) → Accepted tx → simulate_one_tx evm tx db ≡ ok (access_list_of tx)
  unfolding simulate_one_tx
  simulate_one_tx-Accepted tx h = ground arith

  simulate_from-Accepted :
      (lists : List AccessList) (pre post : List Transaction)
      → All Accepted pre
      → simulate_from evm db lists (pre ++ post)
        ≡ simulate_from evm db (lists ++ map access_list_of pre) post
  unfolding simulate_from
  simulate_from-Accepted lists [] post h = rw (append-nil lists)
  simulate_from-Accepted lists (tx ∷ pre) post h = rw (simulate_one_tx-Accepted tx h.0) (
      simulate_from-Accepted (lists ++ access_list_of tx ∷ []) pre post h.1
      ∙ ap (λ l. simulate_from evm db l post)
          (append_assoc lists (access_list_of tx ∷ []) (map access_list_of pre)))

  -- Where revm accepts every environment, the batch succeeds, with one access list for each
  -- transaction, in their order, that describes it.
  pub simulate_batch_sync-Accepted :
      (txs : List Transaction)
      → All Accepted txs
      → (lists : List AccessList) × (simulate_batch_sync evm db txs ≡ ok lists)
        × AllDescribe (recorded evm db) txs lists
  unfolding simulate_batch_sync
  simulate_batch_sync-Accepted txs h = (
    map access_list_of txs,
    ap (simulate_from evm db []) (sym (append-nil txs)) ∙ simulate_from-Accepted [] txs [] h,
    access_lists-Describe txs,
  )

  -- If revm refuses the environment of a transaction and accepts those before it, the batch ends
  -- with the error of that refusal.
  pub simulate_batch_sync-refused :
      (pre post : List Transaction) (tx : Transaction) (e : String)
      → All Accepted pre
      → evm.refuse (tx_env tx) ≡ some e
      → simulate_batch_sync evm db (pre ++ tx ∷ post)
        ≡ err (simulation (text_append "Failed to build TxEnv: " e))
  unfolding simulate_batch_sync simulate_one_tx
  simulate_batch_sync-refused pre post tx e h refused =
      simulate_from-Accepted [] pre (tx ∷ post) h ∙ ground arith

  collect_results-simulate_from :
      (lists : List AccessList) (txs : List Transaction)
      → collect_results lists (map (λ tx. simulate_one_tx evm tx db) txs)
        ≡ simulate_from evm db lists txs
  unfolding collect_results simulate_from
  collect_results-simulate_from lists [] = refl
  collect_results-simulate_from lists (tx ∷ txs) =
      elim (simulate_one_tx evm tx db)
        as (λ r.
          (r >>= λ al.
          collect_results (lists ++ al ∷ []) (map (λ tx. simulate_one_tx evm tx db) txs))
          ≡ (r >>= λ al. simulate_from evm db (lists ++ al ∷ []) txs)) [
            | ok al ↦ collect_results-simulate_from (lists ++ al ∷ []) txs
            | err e ↦ refl
          ]

  -- To simulate all transactions on a state in parallel and then look for an error returns what
  -- the loop returns on that state, which stops at the first error.
  pub simulate_batch_with_state-eq-sync :
      (txs : List Transaction)
      → simulate_batch_with_state evm db txs ≡ simulate_batch_sync evm db txs
  unfolding simulate_batch_with_state simulate_batch_sync
  simulate_batch_with_state-eq-sync txs = collect_results-simulate_from [] txs
