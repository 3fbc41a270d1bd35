-- ===== src/Simulator/Dedup.antt =====
-- The end of `simulate_one_tx` in crates/analyzer/src/simulator.rs: the recorded entries are sorted
-- by `(location asc, mode desc)` and deduplicated by location.
pub mod Comparison
pub mod WorstCase
pub mod Ascending
pub mod NormalForm
use Prim.Native.Nat.{Ordering}
use argus_core.Base.{List, [], ◌∷◌}
use argus_core.Slices.{sort_by}
use argus_core.Types.{AccessEntry, StorageLocation_discrete}
use argus_core.Types.Order.{cmp_location, cmp_mode, then_cmp, reverse_cmp}

-- The comparison that `sort_unstable_by` is given.
unfoldable pub cmp_entry : AccessEntry → AccessEntry → Ordering
unfolding cmp_location cmp_mode
cmp_entry a b = then_cmp (cmp_location a.location b.location) (reverse_cmp (cmp_mode a.mode b.mode))

-- `dedup_by(|a, b| a.location == b.location)`, behind the element that was kept last.
unfoldable pub dedup_after : AccessEntry → List AccessEntry → List AccessEntry
dedup_after last [] = []
dedup_after last (a ∷ rest) = elim (StorageLocation_discrete a.location last.location) [
  | yes _ ↦ dedup_after last rest
  | no _ ↦ a ∷ dedup_after a rest
]

unfoldable pub dedup : List AccessEntry → List AccessEntry
unfolding dedup_after
dedup [] = []
dedup (a ∷ rest) = a ∷ dedup_after a rest

-- What becomes of the entries that the inspector recorded.
unfoldable pub canonical : List AccessEntry → List AccessEntry
unfolding sort_by cmp_entry dedup
canonical entries = dedup (sort_by cmp_entry entries)
