-- ===== src/Cli/Main/Delivery.antt =====
-- What a run with an NDJSON sink leaves in the sink, where nothing outside fails.
use Prim.Native.String.{String}
use text.Mathlib.Text.{get?}
use argus_core.Base.{
  ℕ, ◌*◌, ◌^◌, ◌<◌, List, [], ◌∷◌, ◌++◌, map, some, none, inl, inr, ◌≡◌, ◌≢◌, subst, ap, arith,
  length,
}
use argus_core.Types.{B256, ok}
use argus_core.Reporter.Build.{Display}
use argus_core.Sink.Clock.{chrono_now}
use argus_core.Sink.Rows.{BlockSummaryRow, ConflictRow, to_rows_from_graph}
use argus_core.Sink.Contention.{ContentionEvent}
use argus_core.Sink.Contention.Events.{NanLaws}
use argus_core.Sink.JsonStream.{Bytes, JsonStreamSink, Finished, wrote, failed}
use argus_core.Sink.JsonStream as JsonStream
use argus_core.Sink.JsonStream.Output.{WriterLaws, JsonLaws, split_from}
use argus_core.Cli.{
  Options, Environment, Analysis, rows_to_stdout, rows_to_file, destination, analyze,
}
use argus_core.Cli.Output.Roundtrip.{NeverFails, write_ndjson-roundtrip, write_ndjson-total}
use argus_core.Cli.Main.{
  Outside, finished, got, Conclusion, report_of, events_of, rendered, write_all_rows, conclude,
  main,
}
use argus_core.Cli.Main.Endings.{Sunk, Concludes, conclude-Concludes}
use argus_core.Cli.Main.Runs.{main-ok}

-- Writers and serialization that keep to their laws and never fail.
pub record Lawful {F Duration W IoError : Type 0} (outside : Outside F Duration W IoError)
    : Type 0 where
  pub writer : WriterLaws outside.writer
  pub flush :
      (w : W)
      → (outside.writer.flush w).1 ≡ none
      → writer.written (outside.writer.flush w).0 ≡ writer.written w
  pub summary_json : JsonLaws writer.written outside.put_summary
  pub conflict_json : JsonLaws writer.written outside.put_conflict
  pub event_json : JsonLaws writer.written outside.put_event
  pub never_fails :
      NeverFails outside.writer outside.put_summary outside.put_conflict outside.put_event

module _ {F Duration W IoError : Type 0} (outside : Outside F Duration W IoError)
    (display : Display) (lawful : Lawful outside) (o : Options) (a : Analysis) where
  abbrev written : W → Bytes
  written = lawful.writer.written

  -- The rows of the analysis.
  abbrev pub rows_of : BlockSummaryRow × List ConflictRow
  rows_of =
      to_rows_from_graph outside.as_millis display (report_of outside display o a) a.graph
        (chrono_now display.show_number outside.rows_secs)

  -- The sink holds one line of JSON for the summary, for each edge and for each event, in this
  -- order, and the report is on stderr.
  pub record Delivered (events : List (ContentionEvent F)) (text : String)
      (c : Conclusion outside display) : Type 0 where
    pub writer : W
    pub rows : c.0.rows ≡ some writer
    pub lines :
        split_from [] (written writer)
        ≡ lawful.summary_json.json rows_of.0 ∷ map lawful.conflict_json.json rows_of.1
          ++ map lawful.event_json.json events
    pub stdout : c.0.stdout ≡ ""
    pub stderr : c.0.stderr ≡ text
    pub ending : c.1 ≡ finished

  module _ (events : List (ContentionEvent F)) (s : JsonStreamSink W) where
    total : (n : ℕ) × ((write_all_rows outside display o a events s).1 ≡ wrote n)
    unfolding write_all_rows
    total = (
      _,
      write_ndjson-total outside.writer outside.put_summary outside.put_conflict outside.put_event
          lawful.never_fails s rows_of.0 rows_of.1 events,
    )

    lines-written :
        (n : ℕ)
        → written s.writer ≡ []
        → (write_all_rows outside display o a events s).1 ≡ wrote n
        → split_from [] (written (write_all_rows outside display o a events s).0)
          ≡ lawful.summary_json.json rows_of.0 ∷ map lawful.conflict_json.json rows_of.1
            ++ map lawful.event_json.json events
    unfolding write_all_rows
    lines-written n empty h =
        (write_ndjson-roundtrip outside.writer outside.put_summary outside.put_conflict
          outside.put_event lawful.writer lawful.flush lawful.summary_json lawful.conflict_json
          lawful.event_json s rows_of.0 rows_of.1 events n empty h).0

    Sunk-Delivered :
        (text : String) (c : Conclusion outside display)
        → written s.writer ≡ []
        → Sunk outside display o a events text s c
        → Delivered events text c
    Sunk-Delivered text c empty sunk = elim sunk.ending [
      | inl (n, e, count, shown, ended) ↦ record {
        writer = sunk.writer;
        rows = sunk.rows;
        lines = rw e at (lines-written n empty (ap (λ r. r.1) e));
        stdout = sunk.stdout;
        stderr = shown;
        ending = ended;
      }
      | inr (e, h, ended) ↦ absurd (ground (arith, total.1, ap (λ r. r.1) h))
    ]

  -- The options name a sink that starts empty: the standard output, or a file that can be created.
  pub data Target : Type 0 where
    to_stdout : destination o ≡ rows_to_stdout → written outside.stdout ≡ [] → Target
    to_file :
        (path : String) (file : W)
        → destination o ≡ rows_to_file path
        → outside.create path ≡ got file
        → written file ≡ []
        → Target

  file-Sunk :
      (events : List (ContentionEvent F)) (text path : String) (file : W)
      (c : Conclusion outside display)
      → outside.create path ≡ got file
      → Concludes outside display o a events text (rows_to_file path) c
      → Sunk outside display o a events text (JsonStream.new file) c
  file-Sunk events text path file c h (inl (other, e, sunk)) =
      let same : other ≡ file = ground (arith, h, e) in
      subst (λ (f : W). Sunk outside display o a events text (JsonStream.new f) c) same sunk
  file-Sunk events text path file c h (inr (e, q, _)) = absurd (ground (arith, h, q))

  conclude-Delivered :
      (events : List (ContentionEvent F)) (text : String) (c : Conclusion outside display)
      → Target
      → Concludes outside display o a events text (destination o) c
      → Delivered events text c
  unfolding JsonStream.new JsonStream.stdout
  conclude-Delivered events text c (to_stdout e empty) h =
      Sunk-Delivered events (JsonStream.stdout outside.stdout) text c empty
        (subst (λ d. Concludes outside display o a events text d c) e h)
  conclude-Delivered events text c (to_file path file e q empty) h =
      Sunk-Delivered events (JsonStream.new file) text c empty (
        file-Sunk events text path file c q
          (subst (λ d. Concludes outside display o a events text d c) e h))

module _ {F Duration W IoError P Db : Type 0} (outside : Outside F Duration W IoError)
    (env : Environment P Db) (lawful : Lawful outside) (o : Options) (a : Analysis) where
  -- Where an analysis returns a graph of fewer than 2 ^ 31 edges and nothing outside fails or breaks
  -- its laws, a run whose options name an empty NDJSON sink finishes. It leaves in the sink a line of
  -- JSON for the summary, one for each edge and one for each contention event, in this order, and the
  -- rendered report on stderr.
  pub main-Delivered :
      (laws : NanLaws outside.float)
      → analyze env o ≡ ok a
      → 2 * length a.graph.conflicts < 2 ^ 32
      → ((w : B256) → get? (env.display.show_word w) 0 10 ≢ none)
      → Target outside env.display lawful o a
      → (events : List (ContentionEvent F)) × (events_of outside env.display o a ≡ some events)
        × (text : String) × (rendered outside env.display o a ≡ some text)
        × Delivered outside env.display lawful o a events text (main outside env o)
  main-Delivered laws q small wide target =
      let (events, listed, text, shown, concluded) =
        conclude-Concludes outside env.display laws o a small wide in
      (
        events,
        listed,
        text,
        shown,
        rw (main-ok outside env o a q) (
            conclude-Delivered outside env.display lawful o a events text
              (conclude outside env.display o a) target concluded),
      )
