-- ===== src/Cli/Main/Endings.antt =====
-- How a run ends, and where its report is.
use Prim.Native.String.{String, ◌++◌}
use text.Mathlib.Text.{get?}
use text.Mathlib.TextLemmas.{nil-append}
use argus_core.Base.{
  ℕ, ap, arith, ◌*◌, ◌^◌, ◌<◌, List, none, some, ◌≡◌, ◌≢◌, refl, length, length-map, ◌+◌, ◌⊎◌, inl,
  inr,
}
use argus_core.Types.{B256}
use argus_core.Reporter.Build.{Display}
use argus_core.Reporter.Render.Total.{render-Shows}
use argus_core.Sink.Clock.{chrono_now}
use argus_core.Sink.Contention.{ContentionEvent}
use argus_core.Sink.Contention.Events.{NanLaws, to_contention_events-perm}
use argus_core.Sink.JsonStream.{JsonStreamSink, Finished, wrote, failed}
use argus_core.Cli.{
  Options, Analysis, Destination, rows_to_stdout, rows_to_file, unknown_sink, graph_as_json,
  report_as_text, destination,
}
use argus_core.Sink.JsonStream as JsonStream
use argus_core.Sink.Rows.{to_rows_from_graph, conflict_row}
use argus_core.Cli.Output.{write_ndjson-wrote}
use argus_core.Cli.Main.{
  Outside, finished, stopped, io, json, Tried, got, refused, Conclusion, report_of, events_of,
  rendered, render_to_stderr, after_rows, write_all_rows, write_rows_then_report, write_file,
  print_json, conclude, unknown_sink_note,
}

module _ {F Duration W IoError : Type 0} (outside : Outside F Duration W IoError)
    (display : Display) where
  -- The rows went to the sink `s`, all of them with the report on stderr behind, or the run
  -- stopped with the error of the writing.
  pub record Sunk (o : Options) (a : Analysis) (events : List (ContentionEvent F)) (text : String)
      (s : JsonStreamSink W) (c : Conclusion outside display) : Type 0 where
    pub writer : W
    pub rows : c.0.rows ≡ some writer
    pub stdout : c.0.stdout ≡ ""
    pub ending :
        ((n : ℕ) × (write_all_rows outside display o a events s ≡ (writer, wrote n))
          × (n ≡ 1 + length a.graph.conflicts + length events)
          × (c.0.stderr ≡ text)
          × (c.1 ≡ finished))
        ⊎ ((e : IoError) × (write_all_rows outside display o a events s ≡ (writer, failed e))
            × (c.1 ≡ stopped (io e)))

  -- What a destination promises: `events` are the contention events, `text` is the rendered report.
  abbrev pub Concludes :
      Options
      → Analysis
      → List (ContentionEvent F)
      → String
      → Destination
      → Conclusion outside display
      → Type 0
  Concludes o a events text report_as_text c =
      (c.0.stdout ≡ text) × (c.0.stderr ≡ "") × (c.1 ≡ finished)
  Concludes o a events text graph_as_json c =
      ((t : String) × (outside.to_string_pretty a.graph ≡ got t)
        × (c.0.stdout ≡ t ++ "\n")
        × (c.0.stderr ≡ "")
        × (c.1 ≡ finished))
      ⊎ ((e : String) × (outside.to_string_pretty a.graph ≡ refused e) × (c.1 ≡ stopped (json e)))
  Concludes o a events text (unknown_sink spec) c =
      (c.0.stderr ≡ unknown_sink_note outside display spec ++ text)
      × (c.0.stdout ≡ "")
      × (c.1 ≡ finished)
  Concludes o a events text rows_to_stdout c =
      Sunk o a events text (JsonStream.stdout outside.stdout) c
  Concludes o a events text (rows_to_file path) c =
      ((file : W) × (outside.create path ≡ got file) × Sunk o a events text (JsonStream.new file) c)
      ⊎ ((e : IoError) × (outside.create path ≡ refused e) × (c.1 ≡ stopped (io e)))

  module _ (o : Options) (a : Analysis) (events : List (ContentionEvent F)) (text : String)
      (shown : rendered outside display o a ≡ some text) where
    rows-length :
        (now : String)
        → length
            (to_rows_from_graph outside.as_millis display
              (report_of outside display o a)
              a.graph
              now).1
          ≡ length a.graph.conflicts
    unfolding to_rows_from_graph
    rows-length now =
        length-map (conflict_row outside.as_millis display (report_of outside display o a) now)
          a.graph.conflicts

    write_all_rows-wrote :
        (s : JsonStreamSink W) (n : ℕ)
        → s.rows_written ≡ 0
        → (write_all_rows outside display o a events s).1 ≡ wrote n
        → n ≡ 1 + length a.graph.conflicts + length events
    unfolding write_all_rows
    write_all_rows-wrote s n fresh h =
        let now = chrono_now display.show_number outside.rows_secs in
        let rows =
          to_rows_from_graph outside.as_millis display (report_of outside display o a) a.graph
            now in
        omega (
          arith,
          write_ndjson-wrote outside.writer outside.put_summary outside.put_conflict
              outside.put_event s rows.0 rows.1 events n h,
          fresh,
          rows-length now,
        )

    after_rows-Sunk :
        (s : JsonStreamSink W) (r : W × Finished IoError)
        → s.rows_written ≡ 0
        → write_all_rows outside display o a events s ≡ r
        → Sunk o a events text s (after_rows outside display o a r)
    unfolding after_rows render_to_stderr
    after_rows-Sunk s (writer, failed e) fresh h = record {
      writer = writer;
      rows = refl;
      stdout = refl;
      ending = inr (e, h, refl);
    }
    after_rows-Sunk s (writer, wrote n) fresh h = record {
      writer = writer;
      rows = rw (render_to_stderr, shown) refl;
      stdout = rw (render_to_stderr, shown) refl;
      ending = inl (
        n,
        h,
        write_all_rows-wrote s n fresh (ap (λ r. r.1) h),
        rw (render_to_stderr, shown) (nil-append text),
        rw (render_to_stderr, shown) refl,
      );
    }

    rows-Sunk :
        (s : JsonStreamSink W)
        → s.rows_written ≡ 0
        → Sunk o a events text s (write_rows_then_report outside display o a events s)
    unfolding write_rows_then_report
    rows-Sunk s fresh = after_rows-Sunk s _ fresh refl

    file-Concludes :
        (path : String) (file : Tried W IoError)
        → outside.create path ≡ file
        → Concludes o a events text (rows_to_file path) (write_file outside display o a events file)
    unfolding write_file JsonStream.new
    file-Concludes path (got file) h = inl (file, h, rows-Sunk (JsonStream.new file) refl)
    file-Concludes path (refused e) h = inr (e, h, refl)

    json-Concludes :
        (tried : Tried String String)
        → outside.to_string_pretty a.graph ≡ tried
        → Concludes o a events text graph_as_json (print_json outside display tried)
    unfolding print_json
    json-Concludes (got t) h = inl (t, h, refl, refl, refl)
    json-Concludes (refused e) h = inr (e, h, refl)

    conclude-Concludes_at :
        events_of outside display o a ≡ some events
        → (d : Destination) → destination o ≡ d
        → Concludes o a events text d (conclude outside display o a)
    unfolding conclude render_to_stderr JsonStream.stdout
    conclude-Concludes_at e report_as_text h = rw (conclude, h, shown) (refl, refl, refl)
    conclude-Concludes_at e graph_as_json h =
        rw (conclude, h) (json-Concludes (outside.to_string_pretty a.graph) refl)
    conclude-Concludes_at e (unknown_sink spec) h =
        rw (conclude, h, e, render_to_stderr, shown) (refl, refl, refl)
    conclude-Concludes_at e rows_to_stdout h =
        rw (conclude, h, e) (rows-Sunk (JsonStream.stdout outside.stdout) refl)
    conclude-Concludes_at e (rows_to_file path) h =
        rw (conclude, h, e) (file-Concludes path (outside.create path) refl)

  -- Under the laws of NaN, with fewer than 2 ^ 31 edges and texts of slots that can be cut at ten
  -- bytes, what follows an analysis does not panic, whatever the destination. With no sink the
  -- report is on stdout, or with `json` the graph, or the run stops with the error of its
  -- serialization. With a sink that is known, one row more than there are edges and contention events
  -- is written and the report is on stderr, or the run stops with the error of the file or of the
  -- writing; with any other sink the report is on stderr behind a note.
  pub conclude-Concludes :
      (laws : NanLaws outside.float) (o : Options) (a : Analysis)
      → 2 * length a.graph.conflicts < 2 ^ 32
      → ((w : B256) → get? (display.show_word w) 0 10 ≢ none)
      → (events : List (ContentionEvent F)) × (events_of outside display o a ≡ some events)
        × (text : String) × (rendered outside display o a ≡ some text)
        × Concludes o a events text (destination o) (conclude outside display o a)
  conclude-Concludes laws o a small wide =
      let (_, _, text, shown, _) =
        render-Shows outside.formats display outside.float laws (report_of outside display o a)
          (chrono_now display.show_number outside.render_secs) outside.render_order a.graph small
          wide in
      let (events, e, _) =
        to_contention_events-perm outside.float laws display (report_of outside display o a)
          (chrono_now display.show_number outside.events_secs) outside.events_order a.graph small in
      (events, e, text, shown, conclude-Concludes_at o a events text shown e (destination o) refl)
