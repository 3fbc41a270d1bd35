-- ===== src/Tests/Data.antt =====
-- The data that the tests share.
use mathlib.Core.List.Perm
use argus_core.Base.{ℕ, List, [], ◌∷◌, none, some}
use argus_core.HashMap.{Iteration}
use argus_core.Types.{
  Address, StorageLocation, read, write, AccessEntry, AccessList, Transaction, Conflict,
  write_write, read_write,
}
use argus_core.Types.ConflictGraph.{ConflictGraph}
use argus_core.Reporter.Build.{Display}

-- A map that is iterated in the order of its insertions.
abbrev pub in_order : {A : Type 0} → Iteration A
in_order = record { arrange = λ l. l; arrange-perm = λ l. Perm.rfl }

abbrev pub slot_at : Address → ℕ → StorageLocation
slot_at address slot = record { address = address; slot = slot }

abbrev pub reads_slot : StorageLocation → AccessEntry
reads_slot location = record { location = location; mode = read }

abbrev pub writes_slot : StorageLocation → AccessEntry
writes_slot location = record { location = location; mode = write }

-- Transaction 1 writes a slot that 2 reads and 3 writes; 2 and 3 also read one together.
abbrev pub three_lists : List AccessList
three_lists =
    record { tx_hash = 1; entries = writes_slot (slot_at 7 0) ∷ [] }
    ∷ record { tx_hash = 2; entries = reads_slot (slot_at 7 0) ∷ reads_slot (slot_at 8 5) ∷ [] }
    ∷ record { tx_hash = 3; entries = writes_slot (slot_at 7 0) ∷ reads_slot (slot_at 8 5) ∷ [] }
    ∷ []

abbrev pub three_conflicts : List Conflict
three_conflicts =
    record { tx_a = 1; tx_b = 2; location = slot_at 7 0; kind = read_write }
    ∷ record { tx_a = 1; tx_b = 3; location = slot_at 7 0; kind = write_write }
    ∷ record { tx_a = 2; tx_b = 3; location = slot_at 7 0; kind = read_write }
    ∷ []

abbrev pub three_graph : ConflictGraph
three_graph = record {
  conflicts = three_conflicts;
  adjacency = (1, 2 ∷ 3 ∷ []) ∷ (2, 1 ∷ 3 ∷ []) ∷ (3, 1 ∷ 2 ∷ []) ∷ [];
}

abbrev pub payment : Transaction
payment = record { hash = 1; from = 10; to = some 20; input = []; value = 5; gas = 21_000 }

abbrev pub creation : Transaction
creation = record { hash = 2; from = 10; to = none; input = 1 ∷ []; value = 0; gas = 90_000 }

abbrev pub plain : Display
plain = record { show_number = λ _. "n"; show_address = λ _. "address"; show_word = λ _. "word" }
