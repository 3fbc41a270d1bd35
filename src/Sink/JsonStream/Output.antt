-- ===== src/Sink/JsonStream/Output.antt =====
-- What the NDJSON sink has written.
use mathlib.Core.List.{append_assoc, append-nil}
use argus_core.Base.{
  ◌+◌, ◌<◌, ◌≤◌, ◌==◌, true, false, List, [], ◌∷◌, ◌++◌, map, flat_map, Option, none, ◌≡◌, ◌≢◌,
  refl, sym, ap, ◌∙◌, arith, length, All,
}
use argus_core.Sink.JsonStream.{Bytes, newline, Writer, JsonStreamSink, write_row, write_rows}

-- A writer that takes bytes takes all of them, behind those that it has.
pub record WriterLaws {W IoError : Type 0} (w : Writer W IoError) : Type 0 where
  pub written : W → Bytes
  pub write_all-written :
      (s : W) (b : Bytes)
      → (w.write_all s b).1 ≡ none
      → written (w.write_all s b).0 ≡ written s ++ b

-- A row that is serialized is written as its JSON text, which has no newline.
pub record JsonLaws {W IoError Row : Type 0} (written : W → Bytes)
    (to_writer : W → Row → W × Option IoError) : Type 0 where
  pub json : Row → Bytes
  pub one_line : (row : Row) → All (λ c. c ≢ 10) (json row)
  pub to_writer-written :
      (s : W) (row : Row)
      → (to_writer s row).1 ≡ none
      → written (to_writer s row).0 ≡ written s ++ json row

-- The lines of a text, each ended by a newline.
abbrev pub split_from : Bytes → Bytes → List Bytes
split_from line [] = []
split_from line (c ∷ cs) = elim (c == 10) [
  | true ↦ line ∷ split_from [] cs
  | false ↦ split_from (line ++ c ∷ []) cs
]

pub split_line :
    (line bs rest : Bytes)
    → All (λ c. c ≢ 10) bs
    → split_from line (bs ++ newline ++ rest) ≡ (line ++ bs) ∷ split_from [] rest
split_line line [] rest h = ap (λ l. l ∷ split_from [] rest) (sym (append-nil line))
split_line line (b ∷ bs) rest h =
    ground (arith, split_line (line ++ b ∷ []) bs rest h.1, append_assoc line (b ∷ []) bs, h.0)

module _ {W IoError Row : Type 0} (w : Writer W IoError) (to_writer : W → Row → W × Option IoError)
    (wl : WriterLaws w) (jl : JsonLaws wl.written to_writer) where
  abbrev pub line_of : Row → Bytes
  line_of row = jl.json row ++ newline

  abbrev pub output : JsonStreamSink W → Bytes
  output s = wl.written s.writer

  pub write_row-output :
      (s : JsonStreamSink W) (row : Row)
      → (write_row w to_writer s row).1 ≡ none
      → (output (write_row w to_writer s row).0 ≡ output s ++ line_of row)
        × ((write_row w to_writer s row).0.rows_written ≡ s.rows_written + 1)
  unfolding write_row
  write_row-output s row h = ground (
    arith,
    jl.to_writer-written s.writer row,
    wl.write_all-written (to_writer s.writer row).0 newline,
    append_assoc (output s) (jl.json row) newline,
  )

  write_row-failed :
      (s : JsonStreamSink W) (row : Row)
      → (write_row w to_writer s row).1 ≢ none
      → (write_row w to_writer s row).0.rows_written ≡ s.rows_written
  unfolding write_row
  write_row-failed s row h = ground arith

  abbrev lines_of : List Row → Bytes
  lines_of = flat_map line_of

  -- If no error is returned, the output of a lawful writer has grown by one line for each row, in
  -- their order, and the counter by their number.
  pub write_rows-output :
      (rows : List Row) (s : JsonStreamSink W)
      → (write_rows w to_writer s rows).1 ≡ none
      → (output (write_rows w to_writer s rows).0 ≡ output s ++ flat_map line_of rows)
        × ((write_rows w to_writer s rows).0.rows_written ≡ s.rows_written + length rows)
  unfolding write_rows
  write_rows-output [] s h = ground (arith, append-nil (output s))
  write_rows-output (row ∷ rows) s h = ground (
    arith,
    write_row-output s row,
    write_rows-output rows (write_row w to_writer s row).0,
    append_assoc (output s) (line_of row) (flat_map line_of rows),
  )

  -- If an error is returned, the counter has not shrunk and has grown by fewer than there are
  -- rows.
  write_rows-failed :
      (rows : List Row) (s : JsonStreamSink W)
      → (write_rows w to_writer s rows).1 ≢ none
      → (s.rows_written ≤ (write_rows w to_writer s rows).0.rows_written)
        × ((write_rows w to_writer s rows).0.rows_written < s.rows_written + length rows)
  unfolding write_rows
  write_rows-failed [] s h = absurd (h refl)
  write_rows-failed (row ∷ rows) s h = ground (
    arith,
    write_row-output s row,
    write_row-failed s row,
    write_rows-failed rows (write_row w to_writer s row).0,
  )

  pub split-lines : (rows : List Row) → split_from [] (flat_map line_of rows) ≡ map jl.json rows
  split-lines [] = refl
  split-lines (row ∷ rows) =
      split_line [] (jl.json row) (flat_map line_of rows) (jl.one_line row)
      ∙ ap (◌∷◌ (jl.json row)) (split-lines rows)

  -- Rows written without an error to a lawful writer that was empty are read back, line by line,
  -- as the JSON texts of the rows, in their order.
  write_rows-roundtrip :
      (rows : List Row) (s : JsonStreamSink W)
      → output s ≡ []
      → (write_rows w to_writer s rows).1 ≡ none
      → split_from [] (output (write_rows w to_writer s rows).0) ≡ map jl.json rows
  write_rows-roundtrip rows s empty h =
      ap (split_from [])
        ((write_rows-output rows s h).0 ∙ ap (λ b. b ++ flat_map line_of rows) empty)
      ∙ split-lines rows
