-- ===== src/Tests/Sinks.antt =====
-- Tests of the contention events and of the NDJSON sink, with fractions for the floating-point
-- numbers and a list of bytes for the writer.
use Prim.Native.Nat.{compare}
use argus_core.Base.{
  ℕ, ◌+◌, ◌*◌, ◌/◌, List, [], ◌∷◌, ◌++◌, Bool, true, false, leb, if◌then◌else◌, Option, none, some,
  ◌≡◌, ◌≢◌, refl, arith, All, length, le→leb, lt→leb_false, String, ℕ_discrete, String_discrete,
}
use argus_core.HashMap.{update, set_insert}
use argus_core.Provider.Labels.{lookup}
use argus_core.Reporter.Build.{Report, build}
use argus_core.Sink.Contention.{
  Key_discrete, hazard_of, Float, ContentionEvent, density_of, severity_label, to_contention_events,
}
use argus_core.Sink.Contention.Severity.{DivLaws, band, severity_label-band}
use argus_core.Sink.JsonStream.{Bytes, Writer, JsonStreamSink, write_row, write_rows}
use argus_core.Sink.JsonStream.Output.{WriterLaws, JsonLaws}
use argus_core.Tests.Data.{in_order, plain, three_lists, three_graph}

-- A fraction is its numerator and its denominator, which is 0 for what is not a number.
abbrev Fraction : Type 0
Fraction = ℕ × ℕ

abbrev fractions : Float Fraction
fractions = record {
  of_nat = λ n. (n, 1);
  div = λ x y. (x.0 * y.1, x.1 * y.0);
  mul = λ x y. (x.0 * y.0, x.1 * y.1);
  round = λ x. ((2 * x.0 + x.1) / (2 * x.1), 1);
  ge = λ x y. leb (y.0 * x.1) (x.0 * y.1);
  partial_cmp = λ x y. some (compare (x.0 * y.1) (y.0 * x.1));
}

fractions-DivLaws : DivLaws fractions
fractions-DivLaws = record {
  monotone = λ n d m e hn hm pos hd pos' he h. le→leb _ _ (omega arith);
  separates = λ n d m e pos pos' small near h. lt→leb_false _ _ (omega arith);
  whole = λ k. ground arith;
}

abbrev three_report : Report ℕ
three_report = build plain in_order 17 three_lists three_graph 3 5

abbrev three_events : List (ContentionEvent Fraction)
three_events =
    record {
      block_number = 17;
      contract_address = "address";
      contract_protocol = "Unknown";
      contract_name = "address";
      slot_id = "word";
      hazard_type = "RAW";
      affected_tx_count = 3;
      conflict_count = 2;
      conflict_density = (67, 100);
      severity = "LOW";
      created_at = "now";
    }
    ∷ record {
      block_number = 17;
      contract_address = "address";
      contract_protocol = "Unknown";
      contract_name = "address";
      slot_id = "word";
      hazard_type = "WAW";
      affected_tx_count = 2;
      conflict_count = 1;
      conflict_density = (50, 100);
      severity = "LOW";
      created_at = "now";
    }
    ∷ []

returned :
    to_contention_events fractions plain three_report "now" in_order three_graph ≡ some three_events
unfolding to_contention_events build update set_insert Key_discrete ℕ_discrete String_discrete
    hazard_of lookup
returned = refl

severity_label-band_example : severity_label fractions (density_of fractions 10 2) ≡ band 10 2
severity_label-band_example =
    severity_label-band fractions fractions-DivLaws 10 2 (omega arith) (omega arith) (omega arith)

-- At exactly five conflicts for each transaction the severity is the highest.
five : severity_label fractions (density_of fractions 10 2) ≡ "CRITICAL"
unfolding severity_label
five = refl

-- A writer with room for a number of bytes: a write that does not fit fails and leaves nothing.
abbrev pub Buffer : Type 0
Buffer = ℕ × Bytes

abbrev pub put : Buffer → Bytes → Buffer × Option String
put (room, held) bytes =
    if leb (length bytes + length held) room
    then ((room, held ++ bytes), none)
    else ((room, held), some "full")

abbrev pub buffered : Writer Buffer String
buffered = record { write_all = put; flush = λ b. (b, none) }

abbrev put_row : Buffer → Bool → Buffer × Option String
put_row b true = put b (49 ∷ [])
put_row b false = put b (48 ∷ 48 ∷ [])

abbrev row_text : Bool → Bytes
row_text true = 49 ∷ []
row_text false = 48 ∷ 48 ∷ []

pub put_appends : (s : Buffer) (b : Bytes) → (put s b).1 ≡ none → (put s b).0.1 ≡ s.1 ++ b
put_appends s b h = ground arith

put_row_appends :
    (s : Buffer) (row : Bool) → (put_row s row).1 ≡ none → (put_row s row).0.1 ≡ s.1 ++ row_text row
put_row_appends s row h = ground arith

abbrev pub buffered-WriterLaws : WriterLaws buffered
buffered-WriterLaws = record { written = λ b. b.1; write_all-written = put_appends }

row_line : (row : Bool) → All (λ c. c ≢ 10) (row_text row)
row_line true = (λ e. omega arith, tt)
row_line false = (λ e. omega arith, (λ e. omega arith, tt))

abbrev put_row-JsonLaws : JsonLaws (λ (b : Buffer). b.1) put_row
put_row-JsonLaws = record {
  json = row_text;
  one_line = row_line;
  to_writer-written = put_row_appends;
}

abbrev two_rows : List Bool
two_rows = true ∷ false ∷ []

abbrev sink_with : ℕ → JsonStreamSink Buffer
sink_with room = record { writer = (room, []); rows_written = 0 }

full : (write_rows buffered put_row (sink_with 3) two_rows).1 ≡ some "full"
unfolding write_rows write_row
full = refl
