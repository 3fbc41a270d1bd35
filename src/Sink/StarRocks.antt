-- ===== src/Sink/StarRocks.antt =====
-- `StarRocksSink` of crates/analyzer/src/sink/starrocks.rs. The HTTP client, the JSON library and the
-- clock are parameters; a method returns the requests that it sends beside its result.
pub mod Responses
pub mod Loads
use Prim.Native.Nat.{bit_and, bit_xor}
use Prim.Native.String.{String, ◌++◌}
use argus_core.Base.{
  ℕ, ◌%◌, ◌^◌, List, [], ◌∷◌, Option, none, some, Bool, not, ◌&&◌, leb, ltb, if◌then◌else◌,
}

pub record StarRocksSink : Type 0 where
  pub fe_url : String
  pub database : String
  pub username : String
  pub password : String

unfoldable pub new : String → String → String → String → StarRocksSink
new fe_url database username password = record {
  fe_url = fe_url;
  database = database;
  username = username;
  password = password;
}

pub record StreamLoadResult : Type 0 where
  pub status : String
  pub rows_loaded : ℕ
  pub message : String

pub data StreamLoadError : Type 0 where
  json http reqwest : String → StreamLoadError

pub data LoadResult {ℓ} (A : Type ℓ) : Type ℓ where
  ok : A → LoadResult A
  err : StreamLoadError → LoadResult A

infixl 5 ◌>>=◌
abbrev pub ◌>>=◌ {ℓ κ} :
    {A : Type ℓ} {B : Type κ} → LoadResult A → (A → LoadResult B) → LoadResult B
ok a >>= f = f a
err e >>= f = err e

-- `Display` of the error
unfoldable pub display : StreamLoadError → String
display (json e) = "JSON: " ++ e
display (http s) = "HTTP: " ++ s
display (reqwest e) = "reqwest: " ++ e

-- `rand_u32`, of the nanoseconds and the seconds of the clock
unfoldable pub rand_u32 : ℕ → ℕ → ℕ
rand_u32 subsec_nanos secs = bit_and (bit_xor subsec_nanos (secs % 2 ^ 32)) 0xFFFFFFFF

-- What the clock says when a label is made.
pub record Now : Type 0 where
  pub millis : ℕ
  pub secs : ℕ
  pub subsec_nanos : ℕ

-- The varying parts of a request; the headers `format`, `strip_outer_array` and `Expect` are fixed.
pub record Request : Type 0 where
  pub url : String
  pub username : String
  pub password : String
  pub label : String
  pub body : String

pub record Response : Type 0 where
  pub status : ℕ
  pub text : LoadResult String

-- The fields that are read of a JSON answer, each if it is there with its type.
pub record Answer : Type 0 where
  pub status : Option String
  pub loaded : Option ℕ
  pub message : Option String

pub record Client : Type 0 where
  pub show_number : ℕ → String
  pub send : Request → LoadResult Response
  pub show_status : ℕ → String
  pub parse : String → LoadResult Answer

-- `StatusCode::is_success` and `is_redirection`
abbrev pub is_success : ℕ → Bool
is_success code = leb 200 code && ltb code 300

abbrev pub is_redirection : ℕ → Bool
is_redirection code = leb 300 code && ltb code 400

abbrev pub unwrap_or {ℓ} : {A : Type ℓ} → A → Option A → A
unwrap_or d none = d
unwrap_or d (some a) = a

module _ (client : Client) (sink : StarRocksSink) (now : Now) where
  open client use {show_number, send, show_status, parse}

  unfoldable pub request : String → String → Request
  unfolding rand_u32
  request table body = record {
    url = sink.fe_url ++ ("/api/" ++ (sink.database ++ ("/" ++ (table ++ "/_stream_load"))));
    username = sink.username;
    password = sink.password;
    label =
        "argus_"
        ++ (table
            ++ ("_"
                ++ (show_number now.millis
                    ++ ("_" ++ show_number (rand_u32 now.subsec_nanos now.secs)))));
    body = body;
  }

  -- What is made of the response, once its text is there.
  unfoldable pub read_text : ℕ → String → LoadResult StreamLoadResult
  read_text code text =
      if not (is_success code) && not (is_redirection code)
      then err (http ("HTTP " ++ (show_status code ++ (" — " ++ text))))
      else (parse text >>= λ sr. ok (record {
        status = unwrap_or "Unknown" sr.status;
        rows_loaded = unwrap_or 0 sr.loaded;
        message = unwrap_or "" sr.message;
      }))

  unfoldable pub read_response : Response → LoadResult StreamLoadResult
  unfolding read_text
  read_response resp = resp.text >>= read_text resp.status

  unfoldable pub stream_load : String → String → List Request × LoadResult StreamLoadResult
  unfolding request read_response
  stream_load table body = let req = request table body in (req ∷ [], send req >>= read_response)

  module _ {Row : Type 0} (to_string : Row → LoadResult String) where
    unfoldable pub load_summary : Row → List Request × LoadResult StreamLoadResult
    unfolding stream_load
    load_summary row = elim (to_string row) [
      | err e ↦ ([], err e)
      | ok body ↦ stream_load "block_summary" body
    ]

    -- The NDJSON body; `?` leaves the loop.
    unfoldable pub ndjson : String → List Row → LoadResult String
    ndjson body [] = ok body
    ndjson body (row ∷ rows) = do line ← to_string row; ndjson (body ++ (line ++ "\n")) rows

    unfoldable pub load_conflicts : List Row → List Request × LoadResult StreamLoadResult
    unfolding ndjson stream_load
    load_conflicts [] =
        ([], ok (record { status = "Success"; rows_loaded = 0; message = "no rows" }))
    load_conflicts (row ∷ rows) = elim (ndjson "" (row ∷ rows)) [
      | err e ↦ ([], err e)
      | ok body ↦ stream_load "conflicts" body
    ]
