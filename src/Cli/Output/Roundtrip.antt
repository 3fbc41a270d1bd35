-- ===== src/Cli/Output/Roundtrip.antt =====
-- What the NDJSON branch has written when it is over.
use mathlib.Core.List.{append_assoc}
use argus_core.Base.{
  ℕ, ◌+◌, List, [], ◌∷◌, ◌++◌, map, flat_map, Option, none, ◌≡◌, refl, ap, ◌∙◌, arith, length,
}
use argus_core.Sink.Rows.{BlockSummaryRow, ConflictRow}
use argus_core.Sink.Contention.{ContentionEvent}
use argus_core.Sink.JsonStream.{
  Bytes, newline, Writer, JsonStreamSink, Finished, wrote, write_row, write_rows, finish,
}
use argus_core.Sink.JsonStream.Output.{
  WriterLaws, JsonLaws, split_from, split_line, line_of, write_row-output, write_rows-output,
  split-lines,
}
use argus_core.Cli.Output.{write_ndjson, write_ndjson-wrote}

-- The lines that two lists of rows leave, one behind the other.
split-lines_append :
    {W IoError Row : Type 0} (w : Writer W IoError) (put : W → Row → W × Option IoError)
    (wl : WriterLaws w) (jl : JsonLaws wl.written put) (rows : List Row) (rest : Bytes)
    → split_from [] (flat_map (line_of w put wl jl) rows ++ rest)
      ≡ map jl.json rows ++ split_from [] rest
split-lines_append w put wl jl [] rest = refl
split-lines_append w put wl jl (row ∷ rows) rest =
    ap (split_from [])
      (append_assoc (line_of w put wl jl row) (flat_map (line_of w put wl jl) rows) rest)
    ∙ split_line [] (jl.json row) (flat_map (line_of w put wl jl) rows ++ rest) (jl.one_line row)
    ∙ ap (◌∷◌ (jl.json row)) (split-lines_append w put wl jl rows rest)

module _ {W IoError F : Type 0} (w : Writer W IoError)
    (put_summary : W → BlockSummaryRow → W × Option IoError)
    (put_conflict : W → ConflictRow → W × Option IoError)
    (put_event : W → ContentionEvent F → W × Option IoError) (wl : WriterLaws w)
    (flush-written : (s : W) → (w.flush s).1 ≡ none → wl.written (w.flush s).0 ≡ wl.written s)
    (summary_json : JsonLaws wl.written put_summary)
    (conflict_json : JsonLaws wl.written put_conflict)
    (event_json : JsonLaws wl.written put_event) where
  finish-output :
      (s : JsonStreamSink W) (n : ℕ)
      → (finish w s).1 ≡ wrote n
      → wl.written (finish w s).0 ≡ wl.written s.writer
  unfolding finish
  finish-output s n h = ground (arith, flush-written s.writer)

  module _ (s : JsonStreamSink W) (summary : BlockSummaryRow) (conflicts : List ConflictRow)
      (contention : List (ContentionEvent F)) where
    abbrev run : W × Finished IoError
    run = write_ndjson w put_summary put_conflict put_event s summary conflicts contention

    write_ndjson-output :
        (n : ℕ)
        → run.1 ≡ wrote n
        → wl.written run.0
          ≡ wl.written s.writer
            ++ (line_of w put_summary wl summary_json summary
                ++ (flat_map (line_of w put_conflict wl conflict_json) conflicts
                    ++ flat_map (line_of w put_event wl event_json) contention))
    unfolding write_ndjson
    write_ndjson-output n h =
        let s1 = (write_row w put_summary s summary).0 in
        let s2 = (write_rows w put_conflict s1 conflicts).0 in
        let s3 = (write_rows w put_event s2 contention).0 in
        ground (
          arith,
          (write_row-output w put_summary wl summary_json s summary),
          (write_rows-output w put_conflict wl conflict_json conflicts s1),
          (write_rows-output w put_event wl event_json contention s2),
          finish-output s3 n,
          append_assoc (wl.written s.writer) (line_of w put_summary wl summary_json summary)
              (flat_map (line_of w put_conflict wl conflict_json) conflicts),
          append_assoc (wl.written s.writer ++ line_of w put_summary wl summary_json summary)
              (flat_map (line_of w put_conflict wl conflict_json) conflicts)
              (flat_map (line_of w put_event wl event_json) contention),
          append_assoc (wl.written s.writer) (line_of w put_summary wl summary_json summary) (
              flat_map (line_of w put_conflict wl conflict_json) conflicts
              ++ flat_map (line_of w put_event wl event_json) contention),
        )

    -- If the NDJSON branch ends without an error on a lawful writer that was empty, its output is
    -- read back, line by line, as the JSON texts of the summary, of the conflict rows and of the
    -- contention events, in this order; and the number that it reports is that of the lines, on top
    -- of what the sink had counted.
    pub write_ndjson-roundtrip :
        (n : ℕ)
        → wl.written s.writer ≡ []
        → run.1 ≡ wrote n
        → (split_from [] (wl.written run.0)
            ≡ summary_json.json summary ∷ map conflict_json.json conflicts
              ++ map event_json.json contention)
          × (n ≡ s.rows_written + (1 + length conflicts + length contention))
    write_ndjson-roundtrip n empty h = (
      ap (split_from []) (
            write_ndjson-output n h
            ∙ ap
                (λ b.
                  b
                  ++ (line_of w put_summary wl summary_json summary
                      ++ (flat_map (line_of w put_conflict wl conflict_json) conflicts
                          ++ flat_map (line_of w put_event wl event_json) contention)))
                empty)
          ∙ split_line [] (summary_json.json summary)
              (flat_map (line_of w put_conflict wl conflict_json) conflicts
                ++ flat_map (line_of w put_event wl event_json) contention)
              (summary_json.one_line summary)
          ∙ ap (◌∷◌ (summary_json.json summary)) (
              split-lines_append w put_conflict wl conflict_json conflicts
                (flat_map (line_of w put_event wl event_json) contention)
              ∙ ap (◌++◌ (map conflict_json.json conflicts))
                  (split-lines w put_event wl event_json contention)),
      omega (
        arith,
        write_ndjson-wrote w put_summary put_conflict put_event s summary conflicts contention n h,
      ),
    )

-- No write and no flush fails.
pub record NeverFails {W IoError F : Type 0} (w : Writer W IoError)
    (put_summary : W → BlockSummaryRow → W × Option IoError)
    (put_conflict : W → ConflictRow → W × Option IoError)
    (put_event : W → ContentionEvent F → W × Option IoError) : Type 0 where
  pub writes : (s : W) (b : Bytes) → (w.write_all s b).1 ≡ none
  pub flushes : (s : W) → (w.flush s).1 ≡ none
  pub summaries : (s : W) (row : BlockSummaryRow) → (put_summary s row).1 ≡ none
  pub rows : (s : W) (row : ConflictRow) → (put_conflict s row).1 ≡ none
  pub events : (s : W) (row : ContentionEvent F) → (put_event s row).1 ≡ none

module _ {W IoError Row : Type 0} (w : Writer W IoError) (put : W → Row → W × Option IoError)
    (writes : (s : W) (b : Bytes) → (w.write_all s b).1 ≡ none)
    (puts : (s : W) (row : Row) → (put s row).1 ≡ none) where
  write_row-none : (s : JsonStreamSink W) (row : Row) → (write_row w put s row).1 ≡ none
  unfolding write_row
  write_row-none s row = ground (arith, puts s.writer row, writes (put s.writer row).0 newline)

  write_rows-none : (rows : List Row) (s : JsonStreamSink W) → (write_rows w put s rows).1 ≡ none
  unfolding write_rows
  write_rows-none [] s = refl
  write_rows-none (row ∷ rows) s =
      ground (arith, write_row-none s row, write_rows-none rows (write_row w put s row).0)

-- Where no write and no flush fails, the NDJSON branch ends without an error, and reports one row
-- more than there are conflict rows and contention events, on top of what the sink had counted.
pub write_ndjson-total :
    {W IoError F : Type 0} (w : Writer W IoError)
    (put_summary : W → BlockSummaryRow → W × Option IoError)
    (put_conflict : W → ConflictRow → W × Option IoError)
    (put_event : W → ContentionEvent F → W × Option IoError)
    → NeverFails w put_summary put_conflict put_event
    → (s : JsonStreamSink W) (summary : BlockSummaryRow) (conflicts : List ConflictRow)
      (contention : List (ContentionEvent F))
    → (write_ndjson w put_summary put_conflict put_event s summary conflicts contention).1
      ≡ wrote (s.rows_written + (1 + length conflicts + length contention))
unfolding write_ndjson finish
write_ndjson-total w put_summary put_conflict put_event ok s summary conflicts contention =
    let s1 = (write_row w put_summary s summary).0 in
    let s2 = (write_rows w put_conflict s1 conflicts).0 in
    let s3 = (write_rows w put_event s2 contention).0 in
    let ended : (write_ndjson w put_summary put_conflict put_event s summary conflicts contention).1
        ≡ wrote s3.rows_written =
      ground (
        arith,
        write_row-none w put_summary ok.writes ok.summaries s summary,
        write_rows-none w put_conflict ok.writes ok.rows conflicts s1,
        write_rows-none w put_event ok.writes ok.events contention s2,
        ok.flushes s3.writer,
      ) in
    ended
    ∙ ap wrote (
        omega (
          arith,
          write_ndjson-wrote w put_summary put_conflict put_event s summary conflicts contention
              s3.rows_written ended,
        ))
