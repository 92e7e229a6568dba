-- ===== src/Backends/Sending.antt =====
-- The steps that the operations of backends/gcs.go and backends/rustfs.go share: a request is made,
-- prepared and sent, and a response is read.
pub mod Sent
pub mod Outage
use ortholog_artifact_store.Base.{
  ℕ, Text, Bytes, text, decimal, Result, ok, err, map_err, Option, none, some, [], ◌∷◌, ◌++◌,
}
use ortholog_artifact_store.Base.Int.{pos}
use ortholog_artifact_store.Base.Dict.{Dict}
use ortholog_artifact_store.Storage.{StoreError, other}
use ortholog_artifact_store.Api.Http.{RequestBody, read_all_limited}
use ortholog_artifact_store.Transport.{HttpRequest, HttpResponse, Client}

-- `fmt.Errorf("<op>: %w", err)`
abbrev pub op_error : Text → Text → StoreError
op_error op e = other (op ++ text ": " ++ e)

-- `HTTP %d`, and `HTTP %d: %s` with the first kilobyte of the body.
unfoldable pub status_error : Text → HttpResponse → StoreError
unfolding decimal
status_error op r = op_error op (text "HTTP " ++ decimal r.status)

unfoldable pub body_error : Text → HttpResponse → StoreError
unfolding decimal read_all_limited
body_error op r =
    op_error op
      (text "HTTP " ++ decimal r.status ++ text ": " ++ (read_all_limited r.body (pos 1024)).0)

-- `io.ReadAll(resp.Body)`
unfoldable pub read_all : RequestBody → Result StoreError Bytes
read_all b = elim b.failure [ none ↦ ok b.bytes | some e ↦ err (other e) ]

abbrev pub bare : Text → Text → HttpRequest Bytes
bare method url = record { method = method; url = url; headers = []; body = none }

abbrev pub with_body : Text → Text → Text → Bytes → HttpRequest Bytes
with_body method url content_type body = record {
  method = method;
  url = url;
  headers = (text "Content-Type", content_type) ∷ [];
  body = some body;
}

-- `prepare` gives the headers with which a request is sent, or fails.
module _ (C : Client Bytes)
    (prepare : Text → HttpRequest Bytes → C.State → Result StoreError (Dict Text) × C.State) where
  unfoldable pub send_prepared :
      Text → HttpRequest Bytes → C.State → Result StoreError HttpResponse × C.State
  send_prepared op r s =
      let (prepared, s') = prepare op r s in
      elim prepared [
        | err e ↦ (err e, s')
        | ok headers ↦
            let (answer, s'') = C.send (record r { headers = headers }) s' in
            (map_err (op_error op) answer, s'')
      ]

  -- From the request to the response.
  unfoldable pub send_request :
      Text → HttpRequest Bytes → C.State → Result StoreError HttpResponse × C.State
  unfolding send_prepared
  send_request op r s = elim (C.new_request r.method r.url) [
    | some e ↦ (err (op_error op e), s)
    | none ↦ send_prepared op r s
  ]
