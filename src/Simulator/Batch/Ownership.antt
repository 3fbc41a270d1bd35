-- ===== src/Simulator/Batch/Ownership.antt =====
-- An access list against the execution of its transaction.
use argus_core.Base.{none, some, ◌≡◌, ap, ◌∙◌, arith}
use argus_core.Types.{Address, StorageLocation, Transaction, AccessList, ok}
use argus_core.Simulator.Inspector.{into_entries}
use argus_core.Simulator.Frames.{Run, hooks, owned, CreatesNothing, inspect-owned}
use argus_core.Simulator.Dedup.{canonical}
use argus_core.Simulator.Dedup.WorstCase.{mode_at, worst, mode_at-canonical}
use argus_core.Simulator.Batch.{Evm, recorded, tx_env, simulate_one_tx}

module _ {Db : Type 0} (evm : Evm Db) (db : Db) (tx : Transaction) (to : Address) (run : Run) where
  recorded-owned :
      tx.to ≡ some to
      → evm.execute db (tx_env tx) ≡ hooks run
      → CreatesNothing run
      → recorded evm db tx ≡ owned (some to) run
  unfolding into_entries
  recorded-owned called executed quiet = rw (executed, called) (inspect-owned to run quiet)

  -- The simulation of an accepted transaction with a recipient, whose execution runs in nested
  -- frames and creates no contract, returns an access list that has for every location the worst
  -- mode with which a frame of the contract that owns the location accessed it.
  pub simulate_one_tx-worst :
      (location : StorageLocation)
      → evm.refuse (tx_env tx) ≡ none
      → tx.to ≡ some to
      → evm.execute db (tx_env tx) ≡ hooks run
      → CreatesNothing run
      → (al : AccessList) × (simulate_one_tx evm tx db ≡ ok al)
        × (mode_at location al.entries ≡ worst location (owned (some to) run))
  unfolding simulate_one_tx
  simulate_one_tx-worst location accepted called executed quiet = (
    record { tx_hash = tx.hash; entries = canonical (recorded evm db tx) },
    ground arith,
    mode_at-canonical location (recorded evm db tx)
        ∙ ap (worst location) (recorded-owned called executed quiet),
  )
