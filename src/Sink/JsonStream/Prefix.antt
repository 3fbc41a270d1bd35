-- ===== src/Sink/JsonStream/Prefix.antt =====
-- What the NDJSON sink has written when a write fails.
use mathlib.Core.List.{append_assoc, append-nil}
use argus_core.Base.{
  List, [], ◌∷◌, ◌++◌, flat_map, Option, none, some, Option-cases, inl, inr, ◌≡◌, refl, sym, ap,
  ◌∙◌, arith,
}
use argus_core.Sink.JsonStream.{
  Bytes, newline, Writer, JsonStreamSink, write_row, write_rows, end_row,
}

module _ {W IoError : Type 0} (written : W → Bytes) where
  -- A first part of the bytes was taken, and all of them if there is no error.
  pub record Takes (before : W) (bytes : Bytes) (after : W) (error : Option IoError) : Type 0 where
    pub taken : Bytes
    pub rest : Bytes
    pub split : bytes ≡ taken ++ rest
    pub grown : written after ≡ written before ++ taken
    pub whole : error ≡ none → rest ≡ []

  -- Behind bytes that were all taken, more were tried.
  pub Takes-then :
      (a b c : W) (xs ys : Bytes) (e : Option IoError)
      → Takes a xs b none
      → Takes b ys c e
      → Takes a (xs ++ ys) c e
  Takes-then a b c xs ys e t u = record {
    taken = xs ++ u.taken;
    rest = u.rest;
    split = ap (λ l. xs ++ l) u.split ∙ sym (append_assoc xs u.taken u.rest);
    grown =
        u.grown
        ∙ ap (λ l. l ++ u.taken) (t.grown ∙ ap (λ l. written a ++ l) (sym all))
        ∙ append_assoc (written a) xs u.taken;
    whole = u.whole;
  }
    where
      all : xs ≡ t.taken
      all = t.split ∙ ap (λ l. t.taken ++ l) (t.whole refl) ∙ append-nil t.taken

  -- Nothing was tried behind an error.
  pub Takes-stopped :
      (a b : W) (xs ys : Bytes) (e : IoError)
      → Takes a xs b (some e)
      → Takes a (xs ++ ys) b (some e)
  Takes-stopped a b xs ys e t = record {
    taken = t.taken;
    rest = t.rest ++ ys;
    split = ap (λ l. l ++ ys) t.split ∙ append_assoc t.taken t.rest ys;
    grown = t.grown;
    whole = λ h. absurd (ground (arith, h));
  }

  pub Takes-nothing : (a : W) → Takes a [] a none
  Takes-nothing a = record {
    taken = [];
    rest = [];
    split = refl;
    grown = sym (append-nil (written a));
    whole = λ h. refl;
  }

  -- `?` behind a write: `k` goes on from the state `b`.
  pub Takes-next :
      (a : W) (b : JsonStreamSink W) (xs ys : Bytes) (e : Option IoError)
      (k : JsonStreamSink W × Option IoError)
      → Takes a xs b.writer e
      → Takes b.writer ys k.0.writer k.1
      → let r : JsonStreamSink W × Option IoError = elim e [ some e ↦ (b, some e) | none ↦ k ] in
        Takes a (xs ++ ys) r.0.writer r.1
  Takes-next a b xs ys none k t u = Takes-then a b.writer k.0.writer xs ys k.1 t u
  Takes-next a b xs ys (some e) k t u = Takes-stopped a b.writer xs ys e t

-- A writer that takes a first part of the bytes, and all unless it returns an error.
pub record PrefixLaws {W IoError : Type 0} (w : Writer W IoError) : Type 0 where
  pub written : W → Bytes
  pub write_all : (a : W) (b : Bytes) → Takes written a b (w.write_all a b).0 (w.write_all a b).1
  pub flush : (a : W) → written (w.flush a).0 ≡ written a

-- Serialization writes a first part of the row's JSON text, and all unless it returns an error.
pub record PrefixJson {W IoError Row : Type 0} (written : W → Bytes)
    (to_writer : W → Row → W × Option IoError) : Type 0 where
  pub json : Row → Bytes
  pub to_writer-Takes :
      (a : W) (row : Row) → Takes written a (json row) (to_writer a row).0 (to_writer a row).1

module _ {W IoError Row : Type 0} (w : Writer W IoError) (to_writer : W → Row → W × Option IoError)
    (pl : PrefixLaws w) (pj : PrefixJson pl.written to_writer) where
  abbrev pub json_line : Row → Bytes
  json_line row = pj.json row ++ newline

  end_row-Takes :
      (s : JsonStreamSink W)
      → Takes pl.written s.writer newline (end_row w s).0.writer (end_row w s).1
  unfolding end_row
  end_row-Takes s = elim (Option-cases (w.write_all s.writer newline).1) [
    | inl e ↦ rw (e, end_row) (rw e at (pl.write_all s.writer newline))
    | inr (x, e) ↦ rw (e, end_row) (rw e at (pl.write_all s.writer newline))
  ]

  pub write_row-Takes :
      (s : JsonStreamSink W) (row : Row)
      → Takes pl.written s.writer
          (json_line row)
          (write_row w to_writer s row).0.writer
          (write_row w to_writer s row).1
  unfolding write_row
  write_row-Takes s row =
      let after = (to_writer s.writer row).0 in
      Takes-next pl.written s.writer (record s { writer = after }) (pj.json row) newline
        (to_writer s.writer row).1 (end_row w (record s { writer = after }))
        (pj.to_writer-Takes s.writer row) (end_row-Takes (record s { writer = after }))

  pub write_rows-Takes :
      (rows : List Row) (s : JsonStreamSink W)
      → Takes pl.written s.writer
          (flat_map json_line rows)
          (write_rows w to_writer s rows).0.writer
          (write_rows w to_writer s rows).1
  unfolding write_rows
  write_rows-Takes [] s = Takes-nothing pl.written s.writer
  write_rows-Takes (row ∷ rows) s =
      let s' = (write_row w to_writer s row).0 in
      Takes-next pl.written s.writer s' (json_line row) (flat_map json_line rows)
        (write_row w to_writer s row).1 (write_rows w to_writer s' rows) (write_row-Takes s row)
        (write_rows-Takes rows s')
