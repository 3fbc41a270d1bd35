-- ===== src/Simulator/Batch.antt =====
-- The simulation of a transaction and of a batch in crates/analyzer/src/simulator.rs. revm is a
-- parameter: it accepts or refuses an environment, and its execution is the sequence of callbacks
-- that reach the inspector (the result of the execution itself is only logged).
pub mod Outcome
pub mod Ends
pub mod Ownership
pub mod Creation
use Prim.Native.String.{◌++◌ as text_append}
use argus_core.Base.{ℕ, String, List, [], ◌∷◌, ◌++◌, map, Option, none, some}
use argus_core.Types.{
  Address, U256, Transaction, AccessEntry, AccessList, simulation, internal, ArgusResult, ok, err,
  ◌>>=◌,
}
use argus_core.Simulator.Inspector.{Hook, new, run_hooks, into_entries}
use argus_core.Simulator.Dedup.{canonical}

pub data TxKind : Type 0 where
  call : Address → TxKind
  create : TxKind

pub record TxEnv : Type 0 where
  pub caller : Address
  pub kind : TxKind
  pub input : List ℕ
  pub value : U256
  pub gas_limit : ℕ

pub record Evm (Db : Type 0) : Type 0 where
  -- `TxEnvBuilder::build`: nothing, or the text of its error
  pub refuse : TxEnv → Option String
  pub execute : Db → TxEnv → List Hook

unfoldable pub tx_kind : Option Address → TxKind
tx_kind (some addr) = call addr
tx_kind none = create

unfoldable pub tx_env : Transaction → TxEnv
unfolding tx_kind
tx_env tx = record {
  caller = tx.from;
  kind = tx_kind tx.to;
  input = tx.input;
  value = tx.value;
  gas_limit = tx.gas;
}

module _ {Db : Type 0} (evm : Evm Db) where
  -- The entries that the inspector holds when the execution is over.
  abbrev pub recorded : Db → Transaction → List AccessEntry
  recorded db tx = into_entries (run_hooks (new tx.to) (evm.execute db (tx_env tx)))

  unfoldable pub simulate_one_tx : Transaction → Db → ArgusResult AccessList
  simulate_one_tx tx db = elim (evm.refuse (tx_env tx)) [
    | some e ↦ err (simulation (text_append "Failed to build TxEnv: " e))
    | none ↦ ok (record { tx_hash = tx.hash; entries = canonical (recorded db tx) })
  ]

  -- The loop of `simulate_batch_sync`; `lists` is the vector filled so far.
  unfoldable pub simulate_from :
      Db → List AccessList → List Transaction → ArgusResult (List AccessList)
  simulate_from db lists [] = ok lists
  simulate_from db lists (tx ∷ txs) = do
    al ← simulate_one_tx tx db
    simulate_from db (lists ++ al ∷ []) txs

  unfoldable pub simulate_batch_sync : Db → List Transaction → ArgusResult (List AccessList)
  unfolding simulate_from
  simulate_batch_sync empty_db txs = simulate_from empty_db [] txs

  -- `spawn_blocking`: `panicked` is the error of the join, if the task panicked.
  unfoldable pub simulate_batch :
      Db → Option String → List Transaction → ArgusResult (List AccessList)
  unfolding simulate_batch_sync
  simulate_batch empty_db panicked txs = elim panicked [
    | some e ↦ err (internal (text_append "spawn_blocking panicked: " e))
    | none ↦ simulate_batch_sync empty_db txs
  ]

-- The loop over the results: `access_lists.push(r?)`.
unfoldable pub collect_results :
    List AccessList → List (ArgusResult AccessList) → ArgusResult (List AccessList)
collect_results lists [] = ok lists
collect_results lists (r ∷ rs) = do al ← r; collect_results (lists ++ al ∷ []) rs

-- `par_iter().map(..).collect()` keeps the order of the transactions.
unfoldable pub simulate_batch_with_state :
    {Db : Type 0} → Evm Db → Db → List Transaction → ArgusResult (List AccessList)
unfolding collect_results
simulate_batch_with_state evm warm_db txs =
    collect_results [] (map (λ tx. simulate_one_tx evm tx warm_db) txs)
