-- ===== src/Sink/Rows/Edges.antt =====
-- The rows of a graph against its edges and its report.
use Prim.Native.String.{String}
use argus_core.Base.{
  ℕ, ◌^◌, ◌<◌, List, ◌≡◌, arith, length, length-map, length-perm, [], refl, ap, ◌∙◌, ℕ_discrete,
  String_discrete,
}
use argus_core.HashMap.{Iteration}
use argus_core.HashMap.Sets.{length-key_set}
use argus_core.HashMap.Grouping.{key_set}
use argus_core.HashMap.Renamed.{key_set-map}
use argus_core.Types.{Address, AccessList}
use argus_core.Types.ConflictGraph.{ConflictGraph, len}
use argus_core.Reporter.Build.{ContractConflicts, Report, Display, build}
use argus_core.Reporter.Totals.{addresses_of, group_at, build-perm-groups}
use argus_core.Sink.Rows.{
  to_rows_from_graph, summary_row, conflict_row, BlockSummaryRow, ConflictRow,
}

-- How many contracts the rows are about.
abbrev pub contracts : List ConflictRow → ℕ
contracts rows = length (key_set String_discrete (λ r. r.contract_address) [] rows)

module _ {Duration : Type 0} (as_millis : Duration → ℕ) (display : Display) (now : String)
    (it : Iteration (Address × ContractConflicts)) (block_number : ℕ) (lists : List AccessList)
    (graph : ConflictGraph) (fetch_time total_time : Duration) where
  abbrev report : Report Duration
  report = build display it block_number lists graph fetch_time total_time

  abbrev rows_of : BlockSummaryRow × List ConflictRow
  rows_of = to_rows_from_graph as_millis display report graph now

  length-groups : length report.groups ≡ length (addresses_of graph.conflicts)
  length-groups =
      length-perm (build-perm-groups display it block_number lists graph fetch_time total_time)
      ∙ length-map (group_at display it block_number lists graph fetch_time total_time)
          (addresses_of graph.conflicts)

  contracts-addresses :
      ((a b : Address) → display.show_address a ≡ display.show_address b → a ≡ b)
      → contracts rows_of.1 ≡ length (addresses_of graph.conflicts)
  unfolding to_rows_from_graph conflict_row
  contracts-addresses same =
      ap length (
        key_set-map ℕ_discrete String_discrete display.show_address same (λ c. c.location.address)
          (λ r. r.contract_address) (conflict_row as_millis display report now) (λ c. refl) []
          graph.conflicts)
      ∙ length-map display.show_address (addresses_of graph.conflicts)

  -- With fewer than 2 ^ 32 edges and addresses that are told apart by their texts, the summary row of
  -- a graph's report counts the conflict rows, and its hotspots are the contracts that these are
  -- about.
  pub to_rows_from_graph-counts :
      length graph.conflicts < 2 ^ 32
      → ((a b : Address) → display.show_address a ≡ display.show_address b → a ≡ b)
      → (rows_of.0.total_conflicts ≡ length rows_of.1)
        × (rows_of.0.hotspot_count ≡ contracts rows_of.1)
  unfolding to_rows_from_graph summary_row build len
  to_rows_from_graph-counts small same = (
    omega (arith, small, length-map (conflict_row as_millis display report now) graph.conflicts),
    omega (
      arith,
      small,
      length-groups,
      contracts-addresses same,
      length-key_set ℕ_discrete (λ c. c.location.address) [] graph.conflicts,
    ),
  )
