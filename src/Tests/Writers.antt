-- ===== src/Tests/Writers.antt =====
-- Tests of the NDJSON branch on a buffer.
use Prim.Native.String.{String}
use mathlib.Core.List.{append-nil}
use argus_core.Base.{
  ℕ, ◌+◌, [], ◌∷◌, ◌++◌, map, flat_map, Option, some, ◌≡◌, refl, sym, arith, length, leb,
  Bool-cases, inl, inr,
}
use argus_core.Sink.Rows.{BlockSummaryRow, ConflictRow, to_rows_from_graph}
use argus_core.Sink.Contention.{ContentionEvent}
use argus_core.Sink.JsonStream.{Bytes, JsonStreamSink, wrote, failed}
use argus_core.Sink.JsonStream.Prefix.{Takes, PrefixLaws, PrefixJson}
use argus_core.Sink.JsonStream.Output.{JsonLaws, split_from}
use argus_core.Cli.Output.{write_ndjson}
use argus_core.Cli.Output.Prefix.{write_ndjson-Takes}
use argus_core.Cli.Output.Roundtrip.{write_ndjson-roundtrip}
use argus_core.Tests.Sinks.{Buffer, put, buffered, put_appends, buffered-WriterLaws}
use argus_core.Tests.Pipelines.{rows}

-- Every row is one digit.
abbrev pub put_digit : {Row : Type 0} → ℕ → Buffer → Row → Buffer × Option String
put_digit digit b row = put b (digit ∷ [])

abbrev summary_json : JsonLaws {Row = BlockSummaryRow} buffered-WriterLaws.written (put_digit 48)
summary_json = record {
  json = λ _. 48 ∷ [];
  one_line = λ _. (λ e. omega (arith, e), tt);
  to_writer-written = λ s row h. put_appends s (48 ∷ []) h;
}

abbrev conflict_json : JsonLaws {Row = ConflictRow} buffered-WriterLaws.written (put_digit 49)
conflict_json = record {
  json = λ _. 49 ∷ [];
  one_line = λ _. (λ e. omega (arith, e), tt);
  to_writer-written = λ s row h. put_appends s (49 ∷ []) h;
}

abbrev event_json : JsonLaws {Row = ContentionEvent ℕ} buffered-WriterLaws.written (put_digit 50)
event_json = record {
  json = λ _. 50 ∷ [];
  one_line = λ _. (λ e. omega (arith, e), tt);
  to_writer-written = λ s row h. put_appends s (50 ∷ []) h;
}

abbrev roomy : JsonStreamSink Buffer
roomy = record { writer = (100, []); rows_written = 0 }

ended :
    (write_ndjson {F = ℕ} buffered
      (put_digit 48)
      (put_digit 49)
      (put_digit 50)
      roomy
      rows.0
      rows.1
      []).1
    ≡ wrote 4
unfolding write_ndjson to_rows_from_graph
ended = refl

write_ndjson-roundtrip_example :
    (split_from []
        (write_ndjson {F = ℕ} buffered
          (put_digit 48)
          (put_digit 49)
          (put_digit 50)
          roomy
          rows.0
          rows.1
          []).0.1
      ≡ (48 ∷ []) ∷ map conflict_json.json rows.1 ++ [])
    × (4 ≡ 0 + (1 + length rows.1 + 0))
write_ndjson-roundtrip_example =
    write_ndjson-roundtrip buffered (put_digit 48) (put_digit 49) (put_digit 50) buffered-WriterLaws
      (λ s h. refl) summary_json conflict_json event_json roomy rows.0 rows.1 [] 4 refl ended

put-Takes : (s : Buffer) (b : Bytes) → Takes (λ (x : Buffer). x.1) s b (put s b).0 (put s b).1
put-Takes s b = elim (Bool-cases (leb (length b + length s.1) s.0)) [
  | inl e ↦
      rw e
        record { taken = b; rest = []; split = sym (append-nil b); grown = refl; whole = λ h. refl }
  | inr e ↦ rw e record {
    taken = [];
    rest = b;
    split = refl;
    grown = sym (append-nil s.1);
    whole = λ h. absurd (ground (arith, h));
  }
]

abbrev buffered-PrefixLaws : PrefixLaws buffered
buffered-PrefixLaws = record { written = λ b. b.1; write_all = put-Takes; flush = λ b. refl }

abbrev digit-PrefixJson :
    {Row : Type 0} → (digit : ℕ) → PrefixJson {Row = Row} (λ (x : Buffer). x.1) (put_digit digit)
digit-PrefixJson digit = record {
  json = λ _. digit ∷ [];
  to_writer-Takes = λ a row. put-Takes a (digit ∷ []);
}

-- Room for the line of the summary and for a conflict row without the end of its line.
abbrev narrow : JsonStreamSink Buffer
narrow = record { writer = (3, []); rows_written = 0 }

stopped :
    write_ndjson {F = ℕ} buffered
      (put_digit 48)
      (put_digit 49)
      (put_digit 50)
      narrow
      rows.0
      rows.1
      []
    ≡ ((3, 48 ∷ 10 ∷ 49 ∷ []), failed "full")
unfolding write_ndjson to_rows_from_graph
stopped = refl

write_ndjson-Takes_example :
    Takes {IoError = String}
      (λ (x : Buffer). x.1)
      (3, [])
      (48 ∷ 10 ∷ flat_map (λ row. 49 ∷ 10 ∷ []) rows.1 ++ [])
      (3, 48 ∷ 10 ∷ 49 ∷ [])
      (some "full")
write_ndjson-Takes_example = rw stopped at (
    write_ndjson-Takes {F = ℕ} buffered (put_digit 48) (put_digit 49) (put_digit 50)
      buffered-PrefixLaws (digit-PrefixJson 48) (digit-PrefixJson 49) (digit-PrefixJson 50) narrow
      rows.0 rows.1 [])
