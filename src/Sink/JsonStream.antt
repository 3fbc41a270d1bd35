-- ===== src/Sink/JsonStream.antt =====
-- `JsonStreamSink` of crates/analyzer/src/sink/json_stream.rs over a buffered writer. `serde_json`
-- and the writer are parameters.
pub mod Output
pub mod Prefix
use argus_core.Base.{ℕ, ◌+◌, List, [], ◌∷◌, Option, none, some}

-- Bytes of text.
abbrev pub Bytes : Type 0
Bytes = List ℕ

-- `BufWriter<W>`: `write_all` and `flush` change the writer and may fail with an error.
pub record Writer (W IoError : Type 0) : Type 0 where
  pub write_all : W → Bytes → W × Option IoError
  pub flush : W → W × Option IoError

pub record JsonStreamSink (W : Type 0) : Type 0 where
  pub writer : W
  pub rows_written : ℕ

-- The result of `finish`.
pub data Finished (IoError : Type 0) : Type 0 where
  wrote : ℕ → Finished IoError
  failed : IoError → Finished IoError

unfoldable pub new : {W : Type 0} → W → JsonStreamSink W
new writer = record { writer = writer; rows_written = 0 }

-- The constructor of a sink on the standard output, of which `out` is the writer.
unfoldable pub stdout : {W : Type 0} → W → JsonStreamSink W
stdout out = record { writer = out; rows_written = 0 }

abbrev pub newline : Bytes
newline = 10 ∷ []

module _ {W IoError : Type 0} (w : Writer W IoError) where
  open w use {write_all, flush}

  -- `io::Result<()>`, with the state of the sink at the return
  abbrev pub Outcome : Type 0
  Outcome = JsonStreamSink W × Option IoError

  -- `write_all(b"\n")?` and the counter
  unfoldable pub end_row : JsonStreamSink W → Outcome
  end_row s =
      let (after, e) = write_all s.writer newline in
      elim e [
        | some e ↦ (record s { writer = after }, some e)
        | none ↦ (record { writer = after; rows_written = s.rows_written + 1 }, none)
      ]

  module _ {Row : Type 0} (to_writer : W → Row → W × Option IoError) where
    -- One row: `serde_json::to_writer(&mut self.writer, row)?` and the end of the line. This is
    -- `write_summary`, and the body of the loops of the other two methods.
    unfoldable pub write_row : JsonStreamSink W → Row → Outcome
    unfolding end_row
    write_row s row =
        let (after, e) = to_writer s.writer row in
        elim e [
          | some e ↦ (record s { writer = after }, some e)
          | none ↦ end_row (record s { writer = after })
        ]

    -- The loop of `write_conflicts` and of `write_contention_events`; `?` leaves it.
    unfoldable pub write_rows : JsonStreamSink W → List Row → Outcome
    write_rows s [] = (s, none)
    write_rows s (row ∷ rows) =
        let (s', e) = write_row s row in
        let rest = write_rows s' rows in elim e [ some e ↦ (s', some e) | none ↦ rest ]

  -- `finish`: the number of rows, or the error of the flush
  unfoldable pub finish : JsonStreamSink W → W × Finished IoError
  finish s =
      let (after, e) = flush s.writer in
      elim e [ some e ↦ (after, failed e) | none ↦ (after, wrote s.rows_written) ]
