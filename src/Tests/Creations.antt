-- ===== src/Tests/Creations.antt =====
-- Tests of transactions that create contracts.
use argus_core.Base.{ℕ, [], ◌∷◌, none, some, ◌≡◌, refl, arith, ℕ_discrete}
use argus_core.Types.{AccessList, read, write, StorageLocation, StorageLocation_discrete, U256, ok}
use argus_core.Simulator.Inspector.{opcode_sload, opcode_sstore}
use argus_core.Simulator.Frames.{Run, done, op, call_frame, create_frame, hooks, owned}
use argus_core.Simulator.Frames.Creation.{inlined, in_calls}
use argus_core.Simulator.Dedup.WorstCase.{mode_at, worst}
use argus_core.Simulator.Batch.{Evm, simulate_one_tx}
use argus_core.Simulator.Batch.Creation.{simulate_one_tx-inlined, simulate_one_tx-in_calls}
use argus_core.Tests.Data.{slot_at, payment, creation}

-- A constructor that writes a slot, and then calls a contract that reads one.
abbrev constructor : Run
constructor = op 0x60 [] (
    op opcode_sstore (7 ∷ 5 ∷ [])
      (call_frame 30 (op opcode_sload (6 ∷ []) done) (op opcode_sload (8 ∷ []) done)))

-- A call of a factory, which reads a slot and creates a contract.
abbrev factory : Run
factory =
    call_frame 20
      (op opcode_sload (0 ∷ 4 ∷ []) (create_frame 40 constructor (op opcode_sstore (9 ∷ []) done)))
      done

abbrev creates : Evm ℕ
creates = record { refuse = λ _. none; execute = λ _ _. hooks factory }

-- The contract that is created owns the slot that its constructor writes.
constructor_owns : worst (slot_at 40 5) (owned (some 20) factory) ≡ some write
unfolding StorageLocation_discrete ℕ_discrete
constructor_owns = refl

-- It is recorded under the factory.
recorded_under_factory : worst (slot_at 20 5) (owned (some 20) (inlined factory)) ≡ some write
unfolding StorageLocation_discrete ℕ_discrete
recorded_under_factory = refl

simulate_one_tx-inlined_example :
    (al : AccessList) × (simulate_one_tx creates payment 0 ≡ ok al)
    × ((location : StorageLocation)
        → mode_at location al.entries ≡ worst location (owned (some 20) (inlined factory)))
    × ((slot : U256) → mode_at (record { address = 40; slot = slot }) al.entries ≡ none)
simulate_one_tx-inlined_example =
    simulate_one_tx-inlined creates 0 payment 40 20 factory refl refl refl (λ e. omega arith)
      ((λ e. omega arith), (((λ e. omega arith), tt, tt), tt), tt)

-- The execution of a transaction that creates a contract.
abbrev deploys : Evm ℕ
deploys = record { refuse = λ _. none; execute = λ _ _. hooks (create_frame 40 constructor done) }

kept : worst (slot_at 30 6) (in_calls constructor) ≡ some read
unfolding StorageLocation_discrete ℕ_discrete
kept = refl

simulate_one_tx-in_calls_example :
    (al : AccessList) × (simulate_one_tx deploys creation 0 ≡ ok al)
    × ((location : StorageLocation)
        → mode_at location al.entries ≡ worst location (in_calls constructor))
    × ((slot : U256) → mode_at (record { address = 40; slot = slot }) al.entries ≡ none)
simulate_one_tx-in_calls_example =
    simulate_one_tx-in_calls deploys 0 creation 40 constructor refl refl refl
      ((λ e. omega arith), tt, tt)
