-- ===== src/Simulator/Batch/Creation.antt =====
-- The access lists of transactions that create contracts.
use mathlib.Core.List.{append-nil}
use argus_core.Base.{none, some, ◌≡◌, ◌≢◌, ap, ◌∙◌, arith}
use argus_core.Types.{Address, U256, StorageLocation, Transaction, AccessList, ok}
use argus_core.Simulator.Inspector.{into_entries}
use argus_core.Simulator.Frames.{Run, done, create_frame, hooks, owned}
use argus_core.Simulator.Frames.Creation.{
  inlined, CallsNot, in_calls, inspect-inlined, inspect-in_calls, inlined-Elsewhere,
  in_calls-Elsewhere,
}
use argus_core.Simulator.Dedup.{canonical}
use argus_core.Simulator.Dedup.WorstCase.{mode_at, worst, mode_at-canonical}
use argus_core.Simulator.Batch.{Evm, recorded, tx_env, simulate_one_tx}

module _ {Db : Type 0} (evm : Evm Db) (db : Db) (tx : Transaction) (created : Address) where
  -- The simulation of an accepted transaction with a recipient, whose execution runs in nested
  -- frames, returns an access list that has for every location the worst mode of the accesses by the
  -- frames of its owner, where a constructor counts as a part of the frame that creates: so it has no
  -- entry for a contract, other than the recipient, that no call goes to, though its constructor may
  -- access its storage.
  pub simulate_one_tx-inlined :
      (to : Address) (run : Run)
      → evm.refuse (tx_env tx) ≡ none
      → tx.to ≡ some to
      → evm.execute db (tx_env tx) ≡ hooks run
      → to ≢ created
      → CallsNot created run
      → (al : AccessList) × (simulate_one_tx evm tx db ≡ ok al)
        × ((location : StorageLocation)
            → mode_at location al.entries ≡ worst location (owned (some to) (inlined run)))
        × ((slot : U256) → mode_at (record { address = created; slot = slot }) al.entries ≡ none)
  unfolding simulate_one_tx into_entries
  simulate_one_tx-inlined to run accepted called executed other calls_not = (
    record { tx_hash = tx.hash; entries = canonical (recorded evm db tx) },
    ground arith,
    modes,
    λ slot. modes _ ∙ inlined-Elsewhere created to run slot other calls_not,
  )
    where
      is_owned : recorded evm db tx ≡ owned (some to) (inlined run)
      is_owned = rw (executed, called) (inspect-inlined to run)

      modes :
          (location : StorageLocation)
          → mode_at location (canonical (recorded evm db tx))
            ≡ worst location (owned (some to) (inlined run))
      modes location =
          mode_at-canonical location (recorded evm db tx) ∙ ap (worst location) is_owned

  -- The simulation of an accepted transaction without a recipient, whose execution is the frame of a
  -- constructor that no call goes back to, returns an access list that has for every location the
  -- worst mode of the accesses within the calls of the constructor alone, and no entry for the
  -- contract that is created, though its constructor may access its storage.
  pub simulate_one_tx-in_calls :
      (body : Run)
      → evm.refuse (tx_env tx) ≡ none
      → tx.to ≡ none
      → evm.execute db (tx_env tx) ≡ hooks (create_frame created body done)
      → CallsNot created body
      → (al : AccessList) × (simulate_one_tx evm tx db ≡ ok al)
        × ((location : StorageLocation)
            → mode_at location al.entries ≡ worst location (in_calls body))
        × ((slot : U256) → mode_at (record { address = created; slot = slot }) al.entries ≡ none)
  unfolding simulate_one_tx into_entries
  simulate_one_tx-in_calls body accepted uncalled executed calls_not = (
    record { tx_hash = tx.hash; entries = canonical (recorded evm db tx) },
    ground arith,
    modes,
    λ slot. modes _ ∙ in_calls-Elsewhere created body slot calls_not,
  )
    where
      within : recorded evm db tx ≡ in_calls body
      within =
          rw (executed, uncalled)
            (inspect-in_calls (create_frame created body done) ∙ append-nil (in_calls body))

      modes :
          (location : StorageLocation)
          → mode_at location (canonical (recorded evm db tx)) ≡ worst location (in_calls body)
      modes location = mode_at-canonical location (recorded evm db tx) ∙ ap (worst location) within
