-- ===== src/Tests/Graphs.antt =====
-- Tests of the conflict graph and of its construction.
use mathlib.Core.List.{Perm}
use argus_core.Base.{◌≤◌, ◌+◌, ◌*◌, List, [], ◌∷◌, true, ◌≡◌, refl, length, ℕ_discrete}
use argus_core.HashMap.{get, update}
use argus_core.Types.{AccessList, read_write, Conflict, StorageLocation_discrete}
use argus_core.Types.ConflictGraph.{new, add_conflict, contains, has_conflict, len}
use argus_core.Graph.{build_conflict_graph}
use argus_core.Graph.Hazards.{accesses, meet, hazards}
use argus_core.Graph.Build.{build-perm-hazards}
use argus_core.Graph.Counting.{build-length-le}
use argus_core.Tests.Data.{in_order, slot_at, reads_slot, writes_slot, three_lists, three_graph}

built : build_conflict_graph in_order three_lists ≡ three_graph
unfolding build_conflict_graph new update StorageLocation_discrete ℕ_discrete add_conflict
built = refl

asked : has_conflict three_graph 3 2 ≡ true
unfolding has_conflict get contains ℕ_discrete
asked = refl

build-perm-hazards_example :
    Perm (build_conflict_graph in_order three_lists).conflicts (hazards (accesses three_lists))
build-perm-hazards_example = build-perm-hazards in_order three_lists

abbrev edge : Conflict
edge = record { tx_a = 1; tx_b = 2; location = slot_at 7 0; kind = read_write }

-- One write and two reads of a slot.
abbrev hot_slot : List AccessList
hot_slot =
    record { tx_hash = 1; entries = writes_slot (slot_at 7 0) ∷ [] }
    ∷ record { tx_hash = 2; entries = reads_slot (slot_at 7 0) ∷ [] }
    ∷ record { tx_hash = 3; entries = reads_slot (slot_at 7 0) ∷ [] }
    ∷ []

hot : length (hazards (accesses hot_slot)) ≡ 2
unfolding meet StorageLocation_discrete ℕ_discrete
hot = refl

build-length-le_example :
    2 * len (build_conflict_graph in_order three_lists) + length (accesses three_lists)
    ≤ length (accesses three_lists) * length (accesses three_lists)
build-length-le_example = build-length-le in_order three_lists
