-- ===== src/Tests/Loads.antt =====
-- Tests of the StarRocks sink.
use Prim.Native.String.{String}
use argus_core.Base.{ℕ, [], ◌∷◌, none, some, ◌≡◌, refl}
use argus_core.Sink.StarRocks.{
  StarRocksSink, StreamLoadResult, LoadResult, ok, Now, Client, load_conflicts,
}
use argus_core.Sink.StarRocks.Loads.{Loads}

abbrev here : StarRocksSink
here = record { fe_url = "http://fe"; database = "argus"; username = "root"; password = "" }

abbrev noon : Now
noon = record { millis = 43_200_000; secs = 43_200; subsec_nanos = 7 }

-- A server that takes two rows of everything that it is sent.
abbrev willing : Client
willing = record {
  show_number = λ _. "n";
  send = λ _. ok (record { status = 200; text = ok "{}" });
  show_status = λ _. "200 OK";
  parse = λ _. ok (record { status = some "Success"; loaded = some 2; message = none });
}

abbrev put : ℕ → LoadResult String
put _ = ok "{}"

abbrev taken : StreamLoadResult
taken = record { status = "Success"; rows_loaded = 2; message = "" }

loaded : (load_conflicts willing here noon put (1 ∷ 2 ∷ [])).1 ≡ ok taken
unfolding load_conflicts
loaded = refl
