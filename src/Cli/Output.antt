-- ===== src/Cli/Output.antt =====
-- Where the report goes: the branch of `main` that writes NDJSON, and the choice of the destination.
pub mod Roundtrip
pub mod Prefix
use Prim.Native.String.{String, ◌++◌, len}
use text.Mathlib.Text.{◌==◌ as text_eq}
use text.Mathlib.TextEquality.{eq_iff}
use text.Mathlib.TextPositions.{starts_with-append, slice-append_right, len-append}
use argus_core.Base.{
  ℕ, ◌+◌, List, [], ◌∷◌, Option, none, some, false, ◌≡◌, refl, ap, arith, length, Bool-cases, inl,
  inr,
}
use argus_core.Sink.Rows.{BlockSummaryRow, ConflictRow}
use argus_core.Sink.Contention.{ContentionEvent}
use argus_core.Sink.JsonStream.{
  Writer, JsonStreamSink, Finished, wrote, failed, write_row, write_rows, finish,
}
use argus_core.Cli.{Options, destination, rows_to_file}

module _ {W IoError F : Type 0} (w : Writer W IoError)
    (put_summary : W → BlockSummaryRow → W × Option IoError)
    (put_conflict : W → ConflictRow → W × Option IoError)
    (put_event : W → ContentionEvent F → W × Option IoError) where
  -- The four calls on the sink, with the `?` behind each.
  unfoldable pub write_ndjson :
      JsonStreamSink W
      → BlockSummaryRow
      → List ConflictRow
      → List (ContentionEvent F)
      → W × Finished IoError
  unfolding write_row write_rows finish
  write_ndjson s summary conflicts contention =
      let (s1, e1) = write_row w put_summary s summary in
      let (s2, e2) = write_rows w put_conflict s1 conflicts in
      let (s3, e3) = write_rows w put_event s2 contention in
      elim e1 [
        | some e ↦ (s1.writer, failed e)
        | none ↦ elim e2 [
          | some e ↦ (s2.writer, failed e)
          | none ↦ elim e3 [ some e ↦ (s3.writer, failed e) | none ↦ finish w s3 ]
        ]
      ]

write_row-rows_written :
    {W IoError Row : Type 0} (w : Writer W IoError) (put : W → Row → W × Option IoError)
    (s : JsonStreamSink W) (row : Row)
    → (write_row w put s row).1 ≡ none
    → (write_row w put s row).0.rows_written ≡ s.rows_written + 1
unfolding write_row
write_row-rows_written w put s row h = ground arith

write_rows-rows_written :
    {W IoError Row : Type 0} (w : Writer W IoError) (put : W → Row → W × Option IoError)
    (rows : List Row) (s : JsonStreamSink W)
    → (write_rows w put s rows).1 ≡ none
    → (write_rows w put s rows).0.rows_written ≡ s.rows_written + length rows
unfolding write_rows
write_rows-rows_written w put [] s h = ground arith
write_rows-rows_written w put (row ∷ rows) s h = ground (
  arith,
  write_row-rows_written w put s row,
  write_rows-rows_written w put rows (write_row w put s row).0,
)

-- If the NDJSON branch ends without an error, the number that it reports is one more than there are
-- conflict rows and contention events together, on top of the rows that the sink had written.
pub write_ndjson-wrote :
    {W IoError F : Type 0} (w : Writer W IoError)
    (put_summary : W → BlockSummaryRow → W × Option IoError)
    (put_conflict : W → ConflictRow → W × Option IoError)
    (put_event : W → ContentionEvent F → W × Option IoError) (s : JsonStreamSink W)
    (summary : BlockSummaryRow) (conflicts : List ConflictRow)
    (contention : List (ContentionEvent F)) (n : ℕ)
    → (write_ndjson w put_summary put_conflict put_event s summary conflicts contention).1 ≡ wrote n
    → n ≡ s.rows_written + 1 + length conflicts + length contention
unfolding write_ndjson
write_ndjson-wrote w put_summary put_conflict put_event s summary conflicts contention n h =
    let s1 = (write_row w put_summary s summary).0 in
    let s2 = (write_rows w put_conflict s1 conflicts).0 in
    ground (
      arith,
      write_row-rows_written w put_summary s summary,
      write_rows-rows_written w put_conflict conflicts s1,
      write_rows-rows_written w put_event contention s2,
    )

longer-ne : (path : String) → text_eq ("ndjson:" ++ path) "ndjson" ≡ false
longer-ne path = elim (Bool-cases (text_eq ("ndjson:" ++ path) "ndjson")) [
  | inl e ↦
      let same = ap len ((eq_iff ("ndjson:" ++ path) "ndjson").0 e) in
      absurd (omega (arith, len-append "ndjson:" path, same))
  | inr e ↦ e
]

-- The sink `ndjson:` with a path behind it is the file at that path.
destination-file :
    (o : Options) (path : String)
    → o.sink ≡ some ("ndjson:" ++ path)
    → destination o ≡ rows_to_file path
unfolding destination
destination-file o path h =
    rw
      (
        h,
        longer-ne path,
        starts_with-append "ndjson:" path,
        len-append "ndjson:" path,
        slice-append_right "ndjson:" path,
      )
      refl
