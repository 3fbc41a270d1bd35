-- ===== src/Tests/Simulations.antt =====
-- Tests of the simulator.
use argus_core.Base.{ℕ, List, [], ◌∷◌, ◌++◌, none, some, ◌≡◌, ◌↔◌, refl, arith, ℕ_discrete}
use mathlib.Core.List.{head?}
use argus_core.Types.{AccessList, AccessEntry, StorageLocation, ok, StorageLocation_discrete}
use argus_core.Simulator.Inspector.{
  step, on_hook, into_entries, new, run_hooks, opcode_sload, opcode_sstore,
}
use argus_core.Simulator.Frames.{
  Run, done, op, call_frame, hooks, owned, attributed, run_hooks-attributed,
}
use argus_core.Simulator.Dedup.{cmp_entry, dedup, canonical}
use argus_core.Simulator.Dedup.NormalForm.{dedup-canonical, canonical_iff}
use argus_core.Simulator.Dedup.WorstCase.{mode_at, worst, mode_at-canonical}
use argus_core.Simulator.Batch.{
  Evm, tx_env, simulate_one_tx, simulate_batch_sync, simulate_batch_with_state,
}
use argus_core.Simulator.Batch.Outcome.{simulate_batch_with_state-eq-sync}
use argus_core.Simulator.Batch.Ends.{Simulates, simulate_batch_sync-Simulates}
use argus_core.Slices.Sorted.{IsSorted}
use argus_core.Types.Order.{cmp_location, cmp_mode}
use mathlib.Core.List.Perm
use argus_core.Simulator.Batch.Ownership.{simulate_one_tx-worst}
use argus_core.Tests.Data.{slot_at, reads_slot, writes_slot, payment, creation}

-- A read, a call that writes, and a write behind it.
abbrev nested : Run
nested =
    op opcode_sload (0 ∷ 4 ∷ [])
      (call_frame 30 (op opcode_sstore (9 ∷ 5 ∷ []) done) (op opcode_sstore (6 ∷ []) done))

inspected : run_hooks (new (some 20)) (hooks nested) ≡ record {
  entries =
      reads_slot (slot_at 20 4) ∷ writes_slot (slot_at 30 5) ∷ writes_slot (slot_at 20 6) ∷ [];
  address_stack = 20 ∷ [];
}
unfolding new on_hook
inspected = refl

run_hooks-attributed_example : run_hooks (new (some 20)) (hooks nested) ≡ record (new (some 20)) {
  entries = (new (some 20)).entries ++ attributed (head? (new (some 20)).address_stack) nested;
}
run_hooks-attributed_example = run_hooks-attributed nested (new (some 20))

abbrev repeated : List AccessEntry
repeated = reads_slot (slot_at 20 4) ∷ writes_slot (slot_at 7 9) ∷ writes_slot (slot_at 20 4) ∷ []

deduplicated : canonical repeated ≡ writes_slot (slot_at 7 9) ∷ writes_slot (slot_at 20 4) ∷ []
unfolding canonical StorageLocation_discrete ℕ_discrete
deduplicated = refl

-- Recorded in another order, and the write twice.
abbrev recorded_again : List AccessEntry
recorded_again =
    writes_slot (slot_at 20 4) ∷ writes_slot (slot_at 20 4) ∷ writes_slot (slot_at 7 9) ∷ []

-- The recorded entries in the order in which they are deduplicated.
abbrev in_turn : List AccessEntry
in_turn = writes_slot (slot_at 7 9) ∷ writes_slot (slot_at 20 4) ∷ reads_slot (slot_at 20 4) ∷ []

in_turn-IsSorted : IsSorted cmp_entry in_turn
unfolding cmp_entry cmp_location cmp_mode
in_turn-IsSorted = ground arith

dedup-canonical_example : dedup in_turn ≡ canonical repeated
dedup-canonical_example =
    dedup-canonical repeated in_turn (Perm.trans (Perm.cons _ (Perm.swap _ _ [])) (Perm.swap _ _ _))
      in_turn-IsSorted

canonical_iff_example :
    (canonical repeated ≡ canonical recorded_again)
    ↔ ((l : StorageLocation) → worst l repeated ≡ worst l recorded_again)
canonical_iff_example = canonical_iff repeated recorded_again

mode_at-canonical_example :
    mode_at (slot_at 20 4) (canonical repeated) ≡ worst (slot_at 20 4) repeated
mode_at-canonical_example = mode_at-canonical (slot_at 20 4) repeated

-- An execution that reads a slot and writes it again; creations are refused.
abbrev increments : Evm ℕ
increments = record {
  refuse = λ env. elim env.input [ [] ↦ none | _ ↦ some "no code" ];
  execute = λ db env. step opcode_sload (db ∷ []) ∷ step opcode_sstore (1 ∷ db ∷ []) ∷ [];
}

one_write :
    simulate_batch_sync increments 3 (payment ∷ [])
    ≡ ok (record { tx_hash = 1; entries = writes_slot (slot_at 20 3) ∷ [] } ∷ [])
unfolding simulate_batch_sync simulate_one_tx tx_env canonical new on_hook into_entries
    StorageLocation_discrete ℕ_discrete
one_write = refl

simulate_batch_sync-Simulates_example :
    Simulates increments 3
      (payment ∷ creation ∷ payment ∷ [])
      (simulate_batch_sync increments 3 (payment ∷ creation ∷ payment ∷ []))
simulate_batch_sync-Simulates_example =
    simulate_batch_sync-Simulates increments 3 (payment ∷ creation ∷ payment ∷ [])

simulate_batch_with_state-eq-sync_example :
    simulate_batch_with_state increments 3 (payment ∷ creation ∷ [])
    ≡ simulate_batch_sync increments 3 (payment ∷ creation ∷ [])
simulate_batch_with_state-eq-sync_example =
    simulate_batch_with_state-eq-sync increments 3 (payment ∷ creation ∷ [])

-- The same execution, whatever the environment.
abbrev nests : Evm ℕ
nests = record { refuse = λ _. none; execute = λ _ _. hooks nested }

simulate_one_tx-worst_example :
    (al : AccessList) × (simulate_one_tx nests payment 0 ≡ ok al)
    × (mode_at (slot_at 30 5) al.entries ≡ worst (slot_at 30 5) (owned (some 20) nested))
simulate_one_tx-worst_example =
    simulate_one_tx-worst nests 0 payment 20 nested (slot_at 30 5) refl refl refl (tt, tt)
