-- ===== src/Cli/Output/Prefix.antt =====
-- What the NDJSON branch has written however it ends.
use mathlib.Core.List.{append-nil}
use argus_core.Base.{
  List, [], ◌++◌, flat_map, Option, none, some, Option-cases, inl, inr, ◌≡◌, refl, sym, ◌∙◌,
}
use argus_core.Sink.Rows.{BlockSummaryRow, ConflictRow}
use argus_core.Sink.Contention.{ContentionEvent}
use argus_core.Sink.JsonStream.{
  Bytes, Writer, JsonStreamSink, Finished, wrote, failed, write_row, write_rows, finish,
}
use argus_core.Sink.JsonStream.Prefix.{
  Takes, Takes-then, Takes-stopped, PrefixLaws, PrefixJson, json_line, write_row-Takes,
  write_rows-Takes,
}
use argus_core.Cli.Output.{write_ndjson}

abbrev pub error_of : {IoError : Type 0} → Finished IoError → Option IoError
error_of (wrote n) = none
error_of (failed e) = some e

-- `?` behind a call on the sink in the branch.
Takes-try :
    {W IoError : Type 0} (written : W → Bytes) (a b : W) (xs ys : Bytes) (e : Option IoError)
    (k : W × Finished IoError)
    → Takes written a xs b e
    → Takes written b ys k.0 (error_of k.1)
    → let r : W × Finished IoError = elim e [ some e ↦ (b, failed e) | none ↦ k ] in
      Takes written a (xs ++ ys) r.0 (error_of r.1)
Takes-try written a b xs ys none k t u = Takes-then written a b k.0 xs ys (error_of k.1) t u
Takes-try written a b xs ys (some e) k t u = Takes-stopped written a b xs ys e t

module _ {W IoError F : Type 0} (w : Writer W IoError)
    (put_summary : W → BlockSummaryRow → W × Option IoError)
    (put_conflict : W → ConflictRow → W × Option IoError)
    (put_event : W → ContentionEvent F → W × Option IoError) (pl : PrefixLaws w)
    (summary_json : PrefixJson pl.written put_summary)
    (conflict_json : PrefixJson pl.written put_conflict)
    (event_json : PrefixJson pl.written put_event) where
  finish-Takes :
      (s : JsonStreamSink W) → Takes pl.written s.writer [] (finish w s).0 (error_of (finish w s).1)
  unfolding finish
  finish-Takes s = record {
    taken = [];
    rest = [];
    split = refl;
    grown = flushed ∙ pl.flush s.writer ∙ sym (append-nil (pl.written s.writer));
    whole = λ h. refl;
  }
    where
      flushed : pl.written (finish w s).0 ≡ pl.written (w.flush s.writer).0
      flushed = elim (Option-cases (w.flush s.writer).1) [
        | inl e ↦ rw (e, finish) refl
        | inr (x, e) ↦ rw (e, finish) refl
      ]

  -- However the NDJSON branch ends, what it has written behind what was there is a first part of the
  -- lines of the summary, of the conflict rows and of the contention events, in this order; and it is
  -- all of them if no error is returned.
  pub write_ndjson-Takes :
      (s : JsonStreamSink W) (summary : BlockSummaryRow) (conflicts : List ConflictRow)
      (contention : List (ContentionEvent F))
      → let run =
          write_ndjson w put_summary put_conflict put_event s summary conflicts contention in
        Takes pl.written s.writer
          (json_line w put_summary pl summary_json summary
            ++ (flat_map (json_line w put_conflict pl conflict_json) conflicts
                ++ flat_map (json_line w put_event pl event_json) contention))
          run.0
          (error_of run.1)
  unfolding write_ndjson
  write_ndjson-Takes s summary conflicts contention =
      let s1 = (write_row w put_summary s summary).0 in
      let s2 = (write_rows w put_conflict s1 conflicts).0 in
      let s3 = (write_rows w put_event s2 contention).0 in
      let events = flat_map (json_line w put_event pl event_json) contention in
      let rows = flat_map (json_line w put_conflict pl conflict_json) conflicts in
      let third =
        Takes-try pl.written s2.writer s3.writer events [] (write_rows w put_event s2 contention).1
          (finish w s3) (write_rows-Takes w put_event pl event_json contention s2)
          (finish-Takes s3) in
      let second =
        Takes-try pl.written s1.writer s2.writer rows events
          (write_rows w put_conflict s1 conflicts).1
          (elim (write_rows w put_event s2 contention).1 [
            | some e ↦ (s3.writer, failed e)
            | none ↦ finish w s3
          ])
          (write_rows-Takes w put_conflict pl conflict_json conflicts s1)
          (rw (append-nil events) at third) in
      Takes-try pl.written s.writer s1.writer (json_line w put_summary pl summary_json summary)
        (rows ++ events) (write_row w put_summary s summary).1
        (elim (write_rows w put_conflict s1 conflicts).1 [
          | some e ↦ (s2.writer, failed e)
          | none ↦ elim (write_rows w put_event s2 contention).1 [
            | some e ↦ (s3.writer, failed e)
            | none ↦ finish w s3
          ]
        ])
        (write_row-Takes w put_summary pl summary_json s summary) second
