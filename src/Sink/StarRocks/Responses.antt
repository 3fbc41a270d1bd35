-- ===== src/Sink/StarRocks/Responses.antt =====
-- What comes of one request, and what is made of the answer.
use Prim.Native.String.{String, ◌++◌}
use mathlib.Core.Logic.Dec
use argus_core.Base.{◌≤◌, ◌<◌, dec_le, dec_lt, inl, inr, ◌⊎◌, ◌≡◌, refl, arith}
use argus_core.Sink.StarRocks.{
  StarRocksSink, StreamLoadResult, StreamLoadError, http, LoadResult, ok, err, ◌>>=◌, Now, Request,
  Response, Answer, Client, unwrap_or, request, read_text, read_response, stream_load,
}

pub LoadResult-cases {ℓ} :
    {A : Type ℓ} (r : LoadResult A) → ((a : A) × (r ≡ ok a)) ⊎ ((e : StreamLoadError) × (r ≡ err e))
LoadResult-cases (ok a) = inl (a, refl)
LoadResult-cases (err e) = inr (e, refl)

-- The status of a success or of a redirection.
abbrev pub IsAccepted : Response → Type 0
IsAccepted resp = (200 ≤ resp.status) × (resp.status < 400)

-- The fields of the answer, with what stands for a missing one.
abbrev pub of_answer : Answer → StreamLoadResult
of_answer a = record {
  status = unwrap_or "Unknown" a.status;
  rows_loaded = unwrap_or 0 a.loaded;
  message = unwrap_or "" a.message;
}

module _ (client : Client) (sink : StarRocksSink) (now : Now) where
  open client use {send, show_status, parse}

  -- What came of a request, and the result that says so.
  pub data Sent (req : Request) (r : LoadResult StreamLoadResult) : Type 0 where
    unreachable : {e : StreamLoadError} → send req ≡ err e → r ≡ err e → Sent req r
    unread :
        {resp : Response} {e : StreamLoadError}
        → send req ≡ ok resp
        → resp.text ≡ err e
        → r ≡ err e
        → Sent req r
    refused :
        {resp : Response} {text : String}
        → send req ≡ ok resp
        → resp.text ≡ ok text
        → ¬ IsAccepted resp
        → r ≡ err (http ("HTTP " ++ (show_status resp.status ++ (" — " ++ text))))
        → Sent req r
    not_json :
        {resp : Response} {text : String} {e : StreamLoadError}
        → send req ≡ ok resp
        → resp.text ≡ ok text
        → IsAccepted resp
        → parse text ≡ err e
        → r ≡ err e
        → Sent req r
    answered :
        {resp : Response} {text : String} {a : Answer}
        → send req ≡ ok resp
        → resp.text ≡ ok text
        → IsAccepted resp
        → parse text ≡ ok a
        → r ≡ ok (of_answer a)
        → Sent req r

  read_text-refused :
      (resp : Response) (text : String)
      → ¬ IsAccepted resp
      → read_text client sink now resp.status text
        ≡ err (http ("HTTP " ++ (show_status resp.status ++ (" — " ++ text))))
  unfolding read_text
  read_text-refused resp text h = ground arith

  read_text-accepted :
      (resp : Response) (text : String)
      → IsAccepted resp
      → read_text client sink now resp.status text ≡ (parse text >>= λ a. ok (of_answer a))
  unfolding read_text
  read_text-accepted resp text h = ground arith

  -- Whatever the table and the body, a request ends in one of these ways.
  pub stream_load-Sent :
      (table body : String)
      → Sent (request client sink now table body) (stream_load client sink now table body).1
  unfolding stream_load read_response
  stream_load-Sent table body =
      elim (LoadResult-cases (send (request client sink now table body))) [
        | inr (e, q) ↦ unreachable q (rw q refl)
        | inl (resp, q) ↦ elim (LoadResult-cases resp.text) [
          | inr (e, t) ↦ unread q t (rw (q, t) refl)
          | inl (text, t) ↦ elim (Dec.and (dec_le 200 resp.status) (dec_lt resp.status 400)) [
            | no n ↦ refused q t n (rw (q, t) (read_text-refused resp text n))
            | yes y ↦ elim (LoadResult-cases (parse text)) [
              | inr (e, p) ↦ not_json q t y p (rw (q, t, read_text-accepted resp text y, p) refl)
              | inl (a, p) ↦ answered q t y p (rw (q, t, read_text-accepted resp text y, p) refl)
            ]
          ]
        ]
      ]
