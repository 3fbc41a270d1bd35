-- ===== src/Reporter/Render/Listing.antt =====
-- The text of a report, written out as the list of its pieces.
use Prim.Native.String.{String, ◌++◌}
use text.Mathlib.Text.{get?}
use argus_core.Base.{
  All, ◌≢◌, ℕ, suc, ◌+◌, List, [], ◌∷◌, some, none, ◌≡◌, refl, subst, arith, Option-cases, inl, inr,
}
use argus_core.Reporter.Build.{Report, Display}
use argus_core.Reporter.Render.{Formats, right_align, rule, hotspot_lines, hotspot, hotspots}
use argus_core.Sink.Contention.{ContentionEvent}

-- The pieces one behind the other, with a last one.
abbrev pub joined : List String → String → String
joined [] last = last
joined (piece ∷ pieces) last = piece ++ joined pieces last

abbrev pub box_lines : List (String × String) → String → String
box_lines [] last = last
box_lines ((label, value) ∷ rest) last = joined (label ∷ value ∷ " ║\n" ∷ []) (box_lines rest last)

module _ {F Duration : Type 0} (formats : Formats F Duration) (display : Display) where
  open formats use {show_duration, show_density}
  open display use {show_number}

  -- The box with the counts and the times of a report.
  abbrev pub box : Report Duration → String
  box r =
      joined
        ("\n" ∷ "╔══════════════════════════════════════════════════════════════╗\n"
          ∷ "║                    ARGUS ANALYSIS REPORT                    ║\n" ∷ rule ∷ [])
        (box_lines
          (("║  Block:              ", right_align 38 (show_number r.block_number))
            ∷ ("║  Transactions:       ", right_align 38 (show_number r.total_txs))
            ∷ ("║  With storage ops:   ", right_align 38 (show_number r.txs_with_storage))
            ∷ ("║  Storage entries:    ", right_align 38 (show_number r.total_entries))
            ∷ ("║  Conflicts:          ", right_align 38 (show_number r.total_conflicts))
            ∷ ("║  Fetch time:         ", show_duration r.fetch_time)
            ∷ ("║  Total time:         ", show_duration r.total_time)
            ∷ [])
          rule)

  -- The lines on an event, by its number in the list and the beginning of its slot.
  abbrev pub event_lines : ℕ → ContentionEvent F → String → String
  event_lines number ev slot =
      joined
        ("║                                                              ║\n"
          ∷ "║  "
          ∷ show_number number
          ∷ ". ["
          ∷ ev.severity
          ∷ "] "
          ∷ ev.contract_protocol
          ∷ " / "
          ∷ ev.contract_name
          ∷ "\n║     "
          ∷ ev.contract_address
          ∷ " | Slot: "
          ∷ slot
          ∷ "…\n║     Hazard: "
          ∷ ev.hazard_type
          ∷ "  |  Txs: "
          ∷ show_number ev.affected_tx_count
          ∷ "  |  Conflicts: "
          ∷ show_number ev.conflict_count
          ∷ "  |  Density: "
          ∷ show_density ev.conflict_density
          ∷ [])
        "\n"

  -- The text has the lines on the first event, with the first ten bytes of its slot, and behind them
  -- those on the others, whose numbers go on.
  abbrev pub Lists : ℕ → List (ContentionEvent F) → String → Type 0
  Lists number [] text = text ≡ ""
  Lists number (ev ∷ evs) text =
      (slot : String) × (more : String) × (get? ev.slot_id 0 10 ≡ some slot)
      × (text ≡ event_lines number ev slot ++ more)
      × Lists (number + 1) evs more

  hotspot_lines-event_lines :
      (i : ℕ) (ev : ContentionEvent F) (slot : String)
      → hotspot_lines formats display i ev slot ≡ event_lines (i + 1) ev slot
  unfolding hotspot_lines
  hotspot_lines-event_lines i ev slot = refl

  -- Where the slice of every slot is there, the loop returns the list of the events.
  pub hotspots-Lists :
      (i : ℕ) (evs : List (ContentionEvent F))
      → All (λ ev. get? ev.slot_id 0 10 ≢ none) evs
      → (text : String) × (hotspots formats display i evs ≡ some text) × Lists (i + 1) evs text
  unfolding hotspots hotspot
  hotspots-Lists i [] h = ("", refl, refl)
  hotspots-Lists i (ev ∷ evs) h = elim (Option-cases (get? ev.slot_id 0 10)) [
    | inl e ↦ absurd (h.0 e)
    | inr (slot, e) ↦
        let (more, e', listed) = hotspots-Lists (suc i) evs h.1 in
        (
          event_lines (i + 1) ev slot ++ more,
          rw (hotspots, e, e', hotspot_lines-event_lines i ev slot) refl,
          (slot, more, e, refl, subst (λ n. Lists n evs more) next listed),
        )
  ]
    where
      next : suc i + 1 ≡ i + 1 + 1
      next = omega arith
