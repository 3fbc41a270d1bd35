-- ===== src/Tests/Queries.antt =====
-- Tests of what the graph answers.
use mathlib.Core.List.{Mem, eq-or-mem_of_mem-cons}
use mathlib.Core.HLevel.{⊥_prop}
use mathlib.Core.Logic.Or
use argus_core.Base.{ℕ, sym, List, [], ◌∷◌, true, ◌≡◌, ◌≢◌, refl, arith, ℕ_discrete}
use argus_core.Types.{AccessList, StorageLocation_discrete}
use argus_core.Types.ConflictGraph.{has_conflict}
use argus_core.Graph.{build_conflict_graph}
use argus_core.Graph.Hazards.{accesses}
use argus_core.Graph.Queries.{clashes, interferes, has_conflict-interferes}
use argus_core.Tests.Data.{in_order, three_lists}

clashing : interferes 1 3 (accesses three_lists) ≡ true
unfolding clashes StorageLocation_discrete ℕ_discrete
clashing = refl

has_conflict-interferes_example :
    has_conflict (build_conflict_graph in_order three_lists) 1 3
    ≡ interferes 1 3 (accesses three_lists)
has_conflict-interferes_example =
    has_conflict-interferes 1 3 in_order three_lists (λ e. omega (arith, e))

abbrev pub two_lists : List AccessList
two_lists = elim three_lists [ [] ↦ [] | x ∷ l ↦ elim l [ [] ↦ [] | y ∷ _ ↦ x ∷ y ∷ [] ] ]

abbrev pub swapped_lists : List AccessList
swapped_lists = elim three_lists [ [] ↦ [] | x ∷ l ↦ elim l [ [] ↦ [] | y ∷ _ ↦ y ∷ x ∷ [] ] ]

pub other : {l : List ℕ} (a : ℕ) {y : ℕ} → y ≢ a → ¬ Mem a l → ¬ Mem a (y ∷ l)
other a h k m = Or.elim ⊥_prop (eq-or-mem_of_mem-cons m) (λ e. h (sym e)) k
