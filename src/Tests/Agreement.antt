-- ===== src/Tests/Agreement.antt =====
-- Tests of the outputs against each other.
use Prim.Native.String.{String, count}
use text.Mathlib.TextLemmas.{length-cons}
use mathlib.Core.List.{mem-cons_self, Nodup, Nodup-nil, Nodup-cons, not-mem-nil}
use argus_core.Base.{
  ℕ, zero, suc, List, [], ◌∷◌, map, some, All, ◌≡◌, refl, ap, length, ◌∙◌, arith, ℕ_discrete,
  String_discrete,
}
use argus_core.HashMap.{update, set_insert}
use argus_core.Simulator.Dedup.Ascending.{IsAscending}
use argus_core.Graph.{build_conflict_graph}
use argus_core.Reporter.Build.{Display, ConflictGroup, Report, build}
use argus_core.Reporter.Bounds.{IsBounded, build-IsBounded}
use argus_core.Provider.Labels.{lookup}
use argus_core.Sink.Rows.{to_rows_from_graph}
use argus_core.Sink.Rows.Edges.{contracts, to_rows_from_graph-counts}
use argus_core.Sink.Contention.{Key_discrete, hazard_of, ContentionEvent, to_contention_events}
use argus_core.Sink.Contention.Agreement.{counted_at, rows_at, groups-agree}
use argus_core.Tests.Data.{in_order, plain, three_lists, three_graph}
use argus_core.Tests.Queries.{other}
use argus_core.Tests.Rendering.{whole, whole-NanLaws}

-- An address as so many strokes.
abbrev strokes : ℕ → String
strokes zero = ""
strokes (suc n) = String.◌∷◌ "I" (strokes n)

count-strokes : (n : ℕ) → count (strokes n) ≡ n
count-strokes zero = refl
count-strokes (suc n) = length-cons "I" (strokes n) ∙ ap suc (count-strokes n)

strokes_inj : (a b : ℕ) → strokes a ≡ strokes b → a ≡ b
strokes_inj a b h = ground (arith, count-strokes a, count-strokes b, ap count h)

abbrev unary : Display
unary = record { show_number = λ _. "n"; show_address = strokes; show_word = λ _. "word" }

abbrev counted : Report ℕ
counted = build unary in_order 17 three_lists three_graph 3 5

abbrev seventh : ConflictGroup
seventh = record {
  address = 7;
  protocol = "Unknown";
  label = strokes 7;
  slot_count = 1;
  tx_count = 3;
  conflict_count = 3;
  kind_summary = "n W-W, n R-W";
}

grouped : counted.groups ≡ seventh ∷ []
unfolding build update set_insert ℕ_discrete lookup
grouped = refl

-- The event of a hazard at slot 0 of the contract.
abbrev event : String → ℕ → ℕ → ContentionEvent ℕ
event hazard_type txs edges = record {
  block_number = 17;
  contract_address = strokes 7;
  contract_protocol = "Unknown";
  contract_name = strokes 7;
  slot_id = "word";
  hazard_type = hazard_type;
  affected_tx_count = txs;
  conflict_count = edges;
  conflict_density = 0;
  severity = "LOW";
  created_at = "later";
}

abbrev listed : List (ContentionEvent ℕ)
listed = event "RAW" 3 2 ∷ event "WAW" 2 1 ∷ []

returned : to_contention_events whole unary counted "later" in_order three_graph ≡ some listed
unfolding to_contention_events build update set_insert Key_discrete ℕ_discrete String_discrete
    hazard_of lookup
returned = refl

groups-agree_example :
    (rows_at (strokes 7) (to_rows_from_graph (λ d. d) unary counted three_graph "now").1 ≡ 3)
    × (counted_at (strokes 7) listed ≡ 3)
groups-agree_example =
    groups-agree whole whole-NanLaws unary strokes_inj in_order 17 three_lists three_graph 3 5
      (λ d. d) "now" "later" in_order (omega arith) seventh listed (rw grouped mem-cons_self)
      returned

to_rows_from_graph-counts_example :
    let rows = to_rows_from_graph (λ d. d) unary counted three_graph "now" in
    (rows.0.total_conflicts ≡ length rows.1) × (rows.0.hotspot_count ≡ contracts rows.1)
to_rows_from_graph-counts_example =
    to_rows_from_graph-counts (λ d. d) unary "now" in_order 17 three_lists three_graph 3 5
      (omega arith) strokes_inj

distinct : Nodup (map (λ al. al.tx_hash) three_lists)
distinct = Nodup-cons.1 (
  other 1 (λ e. omega (arith, e)) (other 1 (λ e. omega (arith, e)) not-mem-nil),
  Nodup-cons.1 (other 2 (λ e. omega (arith, e)) not-mem-nil, Nodup-cons.1 (not-mem-nil, Nodup-nil)),
)

three_lists-IsAscending : All (λ al. IsAscending al.entries) three_lists
three_lists-IsAscending = ground arith

abbrev bounded : Report ℕ
bounded = build plain in_order 17 three_lists (build_conflict_graph in_order three_lists) 3 5

build-IsBounded_example : All IsBounded bounded.groups
build-IsBounded_example =
    build-IsBounded plain in_order in_order 17 three_lists 3 5 distinct three_lists-IsAscending
