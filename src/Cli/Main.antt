-- ===== src/Cli/Main.antt =====
-- `main` of crates/cli/src/main.rs as a whole: the analysis, and what is written of it.
pub mod Endings
pub mod Runs
pub mod Delivery
use Prim.Native.String.{String, ◌++◌}
use argus_core.Base.{ℕ, List, Option, none, some}
use argus_core.HashMap.{Iteration}
use argus_core.Types.{Address, ArgusError, ok, err}
use argus_core.Types.ConflictGraph.{ConflictGraph}
use argus_core.Reporter.Build.{ContractConflicts, Report, Display, build}
use argus_core.Reporter.Render.{Formats, render}
use argus_core.Sink.Clock.{chrono_now}
use argus_core.Sink.Rows.{BlockSummaryRow, ConflictRow, to_rows_from_graph}
use argus_core.Sink.Contention.{Float, ContentionEvent, Key, Bucket, to_contention_events}
use argus_core.Sink.JsonStream.{Writer, JsonStreamSink, Finished, wrote, failed}
use argus_core.Sink.JsonStream as JsonStream
use argus_core.Cli.{
  Options, Environment, Analysis, analyze, rows_to_stdout, rows_to_file, unknown_sink,
  graph_as_json, report_as_text, destination,
}
use argus_core.Cli.Output.{write_ndjson}

-- `Box<dyn Error>`
pub data MainError (IoError : Type 0) : Type 0 where
  argus : ArgusError → MainError IoError
  io : IoError → MainError IoError
  json : String → MainError IoError

pub data Ending (IoError : Type 0) : Type 0 where
  finished : Ending IoError
  stopped : MainError IoError → Ending IoError
  panicked : Ending IoError

-- What was printed, and the writer of the rows if there is one.
pub record Written (W : Type 0) : Type 0 where
  pub stdout : String
  pub stderr : String
  pub rows : Option W

-- A result with its error.
pub data Tried (A E : Type 0) : Type 0 where
  got : A → Tried A E
  refused : E → Tried A E

-- Serialization, files, clock, formats, and the orders of iteration over the hash maps.
pub record Outside (F Duration W IoError : Type 0) : Type 0 where
  pub float : Float F
  pub formats : Formats F Duration
  pub as_millis : Duration → ℕ
  pub writer : Writer W IoError
  pub put_summary : W → BlockSummaryRow → W × Option IoError
  pub put_conflict : W → ConflictRow → W × Option IoError
  pub put_event : W → ContentionEvent F → W × Option IoError
  pub stdout : W
  pub create : String → Tried W IoError
  pub to_string_pretty : ConflictGraph → Tried String String
  pub fetch_time : Duration
  pub total_time : Duration
  -- the clock when rows, events and the rendered report are made
  pub rows_secs : ℕ
  pub events_secs : ℕ
  pub render_secs : ℕ
  pub groups_order : Iteration (Address × ContractConflicts)
  pub events_order : Iteration (Key × Bucket)
  pub render_order : Iteration (Key × Bucket)

module _ {F Duration W IoError : Type 0} (outside : Outside F Duration W IoError)
    (display : Display) where
  open outside use {float, formats, as_millis, writer, put_summary, put_conflict, put_event}
  open display use {show_number}

  abbrev pub Conclusion : Type 0
  Conclusion = Written W × Ending IoError

  -- The report of an analysis.
  abbrev pub report_of : Options → Analysis → Report Duration
  report_of o a =
      build display outside.groups_order o.block a.access_lists a.graph outside.fetch_time
        outside.total_time

  abbrev pub events_of : Options → Analysis → Option (List (ContentionEvent F))
  events_of o a =
      to_contention_events float display (report_of o a)
        (chrono_now show_number outside.events_secs) outside.events_order a.graph

  abbrev pub rendered : Options → Analysis → Option String
  rendered o a =
      render formats display float (report_of o a) (chrono_now show_number outside.render_secs)
        outside.render_order a.graph

  -- `eprint!("{}", report.render(&graph))`, behind what was already written.
  unfoldable pub render_to_stderr : Options → Analysis → String → Option W → Conclusion
  render_to_stderr o a noted rows = elim (rendered o a) [
    | none ↦ (record { stdout = ""; stderr = noted; rows = rows }, panicked)
    | some text ↦ (record { stdout = ""; stderr = noted ++ text; rows = rows }, finished)
  ]

  -- What follows the writing of the rows.
  unfoldable pub after_rows : Options → Analysis → W × Finished IoError → Conclusion
  unfolding render_to_stderr
  after_rows o a (w, failed e) =
      (record { stdout = ""; stderr = ""; rows = some w }, stopped (io e))
  after_rows o a (w, wrote n) = render_to_stderr o a "" (some w)

  -- The rows on a sink: the writer behind them, and how the writing ended.
  unfoldable pub write_all_rows :
      Options → Analysis → List (ContentionEvent F) → JsonStreamSink W → W × Finished IoError
  unfolding write_ndjson
  write_all_rows o a contention s =
      let (summary, conflicts) =
        to_rows_from_graph as_millis display (report_of o a) a.graph
          (chrono_now show_number outside.rows_secs) in
      write_ndjson writer put_summary put_conflict put_event s summary conflicts contention

  -- The rows, and then the report to stderr.
  unfoldable pub write_rows_then_report :
      Options → Analysis → List (ContentionEvent F) → JsonStreamSink W → Conclusion
  unfolding after_rows write_all_rows
  write_rows_then_report o a contention s = after_rows o a (write_all_rows o a contention s)

  -- The sink on a file, if it can be created.
  unfoldable pub write_file :
      Options → Analysis → List (ContentionEvent F) → Tried W IoError → Conclusion
  unfolding write_rows_then_report JsonStream.new
  write_file o a contention (got file) = write_rows_then_report o a contention (JsonStream.new file)
  write_file o a contention (refused e) =
      (record { stdout = ""; stderr = ""; rows = none }, stopped (io e))

  -- The graph as JSON on stdout, if it can be serialized.
  unfoldable pub print_json : Tried String String → Conclusion
  print_json (got text) = (record { stdout = text ++ "\n"; stderr = ""; rows = none }, finished)
  print_json (refused e) = (record { stdout = ""; stderr = ""; rows = none }, stopped (json e))

  abbrev pub unknown_sink_note : String → String
  unknown_sink_note spec = "Unknown sink: " ++ (spec ++ ". Use 'ndjson' or 'ndjson:/path'\n")

  -- What follows the building of the report.
  unfoldable pub conclude : Options → Analysis → Conclusion
  unfolding write_file print_json render_to_stderr JsonStream.stdout
  conclude o a =
      let nothing : Written W = record { stdout = ""; stderr = ""; rows = none } in
      let with_events : (List (ContentionEvent F) → Conclusion) → Conclusion =
        λ k. elim (events_of o a) [ none ↦ (nothing, panicked) | some contention ↦ k contention ] in
      elim (destination o) [
        | rows_to_stdout ↦
            with_events (λ contention.
              write_rows_then_report o a contention (JsonStream.stdout outside.stdout))
        | rows_to_file path ↦
            with_events (λ contention. write_file o a contention (outside.create path))
        | unknown_sink spec ↦ with_events (λ _. render_to_stderr o a (unknown_sink_note spec) none)
        | graph_as_json ↦ print_json (outside.to_string_pretty a.graph)
        | report_as_text ↦ elim (rendered o a) [
          | none ↦ (nothing, panicked)
          | some text ↦ (record { stdout = text; stderr = ""; rows = none }, finished)
        ]
      ]

module _ {F Duration W IoError P Db : Type 0} (outside : Outside F Duration W IoError) where
  -- `main`
  unfoldable pub main : Environment P Db → Options → Written W × Ending IoError
  unfolding conclude
  main env o = elim (analyze env o) [
    | err e ↦ (record { stdout = ""; stderr = ""; rows = none }, stopped (argus e))
    | ok a ↦ conclude outside env.display o a
  ]
