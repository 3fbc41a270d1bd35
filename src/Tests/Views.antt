-- ===== src/Tests/Views.antt =====
-- Tests of the graph as its users see it.
use mathlib.Core.List.Perm
use argus_core.Base.{[], ◌≡◌}
use argus_core.Types.{Conflict, write_write}
use argus_core.Types.ConflictGraph.{add_conflict}
use argus_core.Types.ConflictGraph.View.{
  of_edges, view, insert, Implements, add_conflict-Implements,
}
use argus_core.Graph.{build_conflict_graph}
use argus_core.Graph.Hazards.{accesses, hazards}
use argus_core.Graph.Views.{build-Implements, view-build}
use argus_core.Tests.Data.{in_order, slot_at, three_lists}
use argus_core.Tests.Queries.{two_lists, swapped_lists}

abbrev edge : Conflict
edge = record { tx_a = 4; tx_b = 2; location = slot_at 7 0; kind = write_write }

build-Implements_example :
    Implements
      (build_conflict_graph in_order three_lists)
      (of_edges (hazards (accesses three_lists)))
build-Implements_example = build-Implements in_order three_lists

add_conflict-Implements_example :
    Implements
      (add_conflict (build_conflict_graph in_order three_lists) edge)
      (insert edge (of_edges (hazards (accesses three_lists))))
add_conflict-Implements_example =
    add_conflict-Implements (build_conflict_graph in_order three_lists) edge
      (of_edges (hazards (accesses three_lists))) (build-Implements in_order three_lists)

view-build_example :
    view (build_conflict_graph in_order two_lists)
    ≡ view (build_conflict_graph in_order swapped_lists)
view-build_example = view-build in_order in_order two_lists swapped_lists (Perm.swap _ _ [])
