-- ===== src/Reporter/Render.antt =====
-- `Report::render` of crates/analyzer/src/reporter.rs. The formats of durations and of the density are
-- parameters.
pub mod Listing
pub mod Total
use Prim.Native.String.{String, ◌++◌, count}
use text.Mathlib.Text.{get?}
use argus_core.Base.{ℕ, zero, suc, ◌+◌, ◌-◌, List, [], ◌∷◌, Option, none, some}
use argus_core.HashMap.{Iteration}
use argus_core.Types.ConflictGraph.{ConflictGraph}
use argus_core.Reporter.Build.{Report, Display}
use argus_core.Sink.Contention.{Float, ContentionEvent, Key, Bucket, to_contention_events}

-- `{:>35?}` of a duration and `{:.2}` of a density.
pub record Formats (F Duration : Type 0) : Type 0 where
  pub show_duration : Duration → String
  pub show_density : F → String

abbrev pub spaces : ℕ → String
spaces zero = ""
spaces (suc n) = " " ++ spaces n

-- `{:>38}`
abbrev pub right_align : ℕ → String → String
right_align width s = spaces (width - count s) ++ s

-- One line of the box, with its right border.
abbrev pub boxed : String → String → String → String
boxed label text rest = label ++ (text ++ (" ║\n" ++ rest))

abbrev pub rule : String
rule = "╠══════════════════════════════════════════════════════════════╣\n"

abbrev pub footer : String
footer = "╚══════════════════════════════════════════════════════════════╝\n"

abbrev pub no_conflicts_line : String
no_conflicts_line = "║  No conflicts — all txs can run in parallel.               ║\n"

abbrev pub hotspots_title : String
hotspots_title = "║  CONTENTION HOTSPOTS                                       ║\n" ++ rule

module _ {F Duration : Type 0} (formats : Formats F Duration) (display : Display) where
  open formats use {show_duration, show_density}
  open display use {show_number}

  -- What is pushed before the hotspots.
  unfoldable pub header : Report Duration → String
  header r =
      "\n"
      ++ ("╔══════════════════════════════════════════════════════════════╗\n"
          ++ ("║                    ARGUS ANALYSIS REPORT                    ║\n"
              ++ (rule
                  ++ boxed "║  Block:              " (right_align 38 (show_number r.block_number)) (
                      boxed "║  Transactions:       " (right_align 38 (show_number r.total_txs)) (
                        boxed "║  With storage ops:   "
                          (right_align 38 (show_number r.txs_with_storage))
                          (boxed "║  Storage entries:    "
                            (right_align 38 (show_number r.total_entries))
                            (boxed "║  Conflicts:          "
                              (right_align 38 (show_number r.total_conflicts))
                              (boxed "║  Fetch time:         " (show_duration r.fetch_time) (
                                boxed "║  Total time:         " (show_duration r.total_time)
                                  rule)))))))))

  -- The lines of one event, whose slot begins with `slot`.
  unfoldable pub hotspot_lines : ℕ → ContentionEvent F → String → String
  hotspot_lines i ev slot =
      "║                                                              ║\n"
      ++ ("║  "
          ++ (show_number (i + 1)
              ++ (". ["
                  ++ (ev.severity
                      ++ ("] "
                          ++ (ev.contract_protocol
                              ++ (" / "
                                  ++ (ev.contract_name
                                      ++ ("\n║     "
                                          ++ (ev.contract_address
                                              ++ (" | Slot: "
                                                  ++ (slot
                                                      ++ ("…\n║     Hazard: "
                                                          ++ (ev.hazard_type
                                                            ++ ("  |  Txs: "
                                                            ++ (show_number ev.affected_tx_count
                                                            ++ ("  |  Conflicts: "
                                                            ++ (show_number ev.conflict_count
                                                            ++ ("  |  Density: "
                                                            ++ (show_density ev.conflict_density
                                                            ++ "\n"))))))))))))))))))))

  -- `&ev.slot_id[..10]` panics where `get?` is `none`.
  unfoldable pub hotspot : ℕ → ContentionEvent F → Option String
  unfolding hotspot_lines
  hotspot i ev = elim (get? ev.slot_id 0 10) [
    | none ↦ none
    | some slot ↦ some (hotspot_lines i ev slot)
  ]

  -- The loop over `contention.iter().enumerate()`.
  unfoldable pub hotspots : ℕ → List (ContentionEvent F) → Option String
  unfolding hotspot
  hotspots i [] = some ""
  hotspots i (ev ∷ evs) =
      let rest = hotspots (suc i) evs in
      elim (hotspot i ev) [
        | none ↦ none
        | some lines ↦ elim rest [ none ↦ none | some more ↦ some (lines ++ more) ]
      ]

  module _ (float : Float F) (report : Report Duration) (now : String) where
    -- `none` is a panic, of the sort or of the slice.
    unfoldable pub render : Iteration (Key × Bucket) → ConflictGraph → Option String
    unfolding header hotspots
    render it graph = elim (to_contention_events float display report now it graph) [
      | none ↦ none
      | some [] ↦ some (header report ++ (no_conflicts_line ++ footer))
      | some (ev ∷ evs) ↦ elim (hotspots 0 (ev ∷ evs)) [
        | none ↦ none
        | some lines ↦ some (header report ++ (hotspots_title ++ (lines ++ footer)))
      ]
    ]
