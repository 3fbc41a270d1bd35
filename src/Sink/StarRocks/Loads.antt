-- ===== src/Sink/StarRocks/Loads.antt =====
-- How the loads of rows end.
use Prim.Native.String.{String, ◌++◌}
use argus_core.Base.{List, [], ◌∷◌, ◌++◌ as list_append, map, ◌⊎◌, ◌≡◌, ◌≢◌}
use argus_core.Sink.StarRocks.{
  StarRocksSink, StreamLoadResult, StreamLoadError, LoadResult, ok, err, Now, Request, Client,
  request,
}
use argus_core.Sink.StarRocks.Responses.{Sent}

-- Every line with its end.
abbrev pub lines_text : List String → String
lines_text [] = ""
lines_text (line ∷ lines) = line ++ ("\n" ++ lines_text lines)

module _ (client : Client) (sink : StarRocksSink) (now : Now) where
  module _ {Row : Type 0} (to_string : Row → LoadResult String) where
    -- The lines of the rows.
    abbrev pub AreLines : List Row → List String → Type 0
    AreLines rows lines = map to_string rows ≡ map ok lines

    -- The first row without a line, and why it has none.
    pub record Unserializable (rows : List Row) (e : StreamLoadError) : Type 0 where
      pub before : List Row
      pub row : Row
      pub after : List Row
      pub lines : List String
      pub rows_eq : rows ≡ list_append before (row ∷ after)
      pub lines_before : AreLines before lines
      pub fails : to_string row ≡ err e

    abbrev Body : String → List Row → LoadResult String → Type 0
    Body body rows r =
        ((lines : List String) × AreLines rows lines × (r ≡ ok (body ++ lines_text lines)))
        ⊎ ((e : StreamLoadError) × Unserializable rows e × (r ≡ err e))

    -- How a load of conflict rows ends.
    pub data Loads (rows : List Row) (requests : List Request) (r : LoadResult StreamLoadResult)
        : Type 0 where
      nothing :
          rows ≡ []
          → requests ≡ []
          → r ≡ ok (record { status = "Success"; rows_loaded = 0; message = "no rows" })
          → Loads rows requests r
      unserializable :
          {e : StreamLoadError}
          → Unserializable rows e
          → requests ≡ []
          → r ≡ err e
          → Loads rows requests r
      sent :
          (lines : List String)
          → rows ≢ []
          → AreLines rows lines
          → requests ≡ request client sink now "conflicts" (lines_text lines) ∷ []
          → Sent client sink now (request client sink now "conflicts" (lines_text lines)) r
          → Loads rows requests r

    -- How the load of a summary row ends.
    pub data LoadsSummary (row : Row) (requests : List Request) (r : LoadResult StreamLoadResult)
        : Type 0 where
      unserializable :
          {e : StreamLoadError}
          → to_string row ≡ err e
          → requests ≡ []
          → r ≡ err e
          → LoadsSummary row requests r
      sent :
          (line : String)
          → to_string row ≡ ok line
          → requests ≡ request client sink now "block_summary" line ∷ []
          → Sent client sink now (request client sink now "block_summary" line) r
          → LoadsSummary row requests r
