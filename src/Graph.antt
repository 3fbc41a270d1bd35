-- ===== src/Graph.antt =====
-- crates/analyzer/src/graph.rs: the conflict graph of a batch from its access lists.
pub mod Hazards
mod Edges
pub mod Build
pub mod Counting
pub mod Queries
pub mod Views
use argus_core.Base.{ℕ, List, [], ◌∷◌, ◌++◌, Option, none, some, foldl, ltb, length, if◌then◌else◌}
use argus_core.HashMap.{Iteration, update}
use argus_core.Types.{
  B256, StorageLocation, StorageLocation_discrete, AccessMode, read, write, AccessEntry, AccessList,
  ConflictKind, write_write, read_write,
}
use argus_core.Types.ConflictGraph.{ConflictGraph, new, add_conflict}

abbrev pub Accessor : Type 0
Accessor = B256 × AccessMode

abbrev pub LocationIndex : Type 0
LocationIndex = List (StorageLocation × List Accessor)

-- `location_index.entry(&entry.location).or_default().push((al.tx_hash, entry.mode))`
abbrev pub index_entry : B256 → LocationIndex → AccessEntry → LocationIndex
index_entry tx index entry =
    update StorageLocation_discrete entry.location [] (λ l. l ++ (tx, entry.mode) ∷ []) index

-- The first loop: the reverse index.
unfoldable pub location_index : LocationIndex → List AccessList → LocationIndex
location_index index [] = index
location_index index (al ∷ lists) =
    location_index (foldl (index_entry al.tx_hash) index al.entries) lists

-- The `match` on the two modes; `none` is the `continue`.
unfoldable pub conflict_kind : AccessMode → AccessMode → Option ConflictKind
conflict_kind write write = some write_write
conflict_kind write read = some read_write
conflict_kind read write = some read_write
conflict_kind read read = none

-- The body of the loop over `j`.
unfoldable pub detect_pair : StorageLocation → Accessor → ConflictGraph → Accessor → ConflictGraph
unfolding conflict_kind
detect_pair location (tx_a, mode_a) graph (tx_b, mode_b) = elim (conflict_kind mode_a mode_b) [
  | none ↦ graph
  | some kind ↦
      add_conflict graph (record { tx_a = tx_a; tx_b = tx_b; location = location; kind = kind })
]

-- The loops over `i` and `j`: `j` runs over the accessors behind `i`.
unfoldable pub detect_all : StorageLocation → List Accessor → ConflictGraph → ConflictGraph
unfolding detect_pair
detect_all location [] graph = graph
detect_all location (a ∷ later) graph =
    detect_all location later (foldl (detect_pair location a) graph later)

-- The body of the loop over the index.
unfoldable pub detect : ConflictGraph → StorageLocation × List Accessor → ConflictGraph
unfolding detect_all
detect graph (location, accessors) =
    if ltb (length accessors) 2 then graph else detect_all location accessors graph

unfoldable pub build_conflict_graph :
    Iteration (StorageLocation × List Accessor) → List AccessList → ConflictGraph
unfolding location_index detect
build_conflict_graph it access_lists =
    foldl detect new (it.arrange (location_index [] access_lists))
