-- ===== src/Api/Http.antt =====
-- What the handlers read of an `http.Request`, what they write to an `http.ResponseWriter` and to
-- the audit log, and the helpers of api/helpers.go and api/wire.go.
pub mod Wire
use ortholog_artifact_store.Base.{
  ℕ, suc, Text, Bytes, text, is_empty, Result, ok, err, Option, none, some, List, [], ◌∷◌, take,
  length, leb, if◌then◌else◌,
}
use ortholog_artifact_store.Base.Int.{ℤ, pos, negsuc}
use ortholog_artifact_store.Storage.{Storage, RetrievalCredential}

-- A request body delivers its bytes and then ends, or fails with an error.
pub record RequestBody : Type 0 where
  pub bytes : Bytes
  pub failure : Option Text

pub data Method : Type 0 where
  get head post delete other_method : Method

-- `path` is the path between its slashes; a header or parameter that is absent is the empty text.
pub record Request : Type 0 where
  pub method : Method
  pub path : List Text
  pub artifact_cid : Text
  pub upload_token : Text
  pub expiry : Text
  pub remote_addr : Text
  pub body : RequestBody

-- `io.ReadAll(io.LimitReader(body, limit))`: the bytes read, and the error if the limit was not
-- reached before the body failed. A limit that is not positive reads nothing.
unfoldable pub read_all_limited : RequestBody → ℤ → Bytes × Option Text
read_all_limited b (negsuc n) = ([], none)
read_all_limited b (pos n) =
    if leb n (length b.bytes) then (take n b.bytes, none) else (b.bytes, b.failure)

-- `resolveResponseV1`; an omitted expiry is the empty text
pub record ResolveResponse : Type 0 where
  pub method : Text
  pub url : Text
  pub expiry : Text

-- The bodies of the responses, before `encoding/json` prints them.
pub data Body : Type 0 where
  empty : Body
  error_json : Text → Body
  pushed_json : Text → ℕ → Body
  raw : Bytes → Body
  credential_json : ResolveResponse → Body
  healthy_json : Body
  unhealthy_json : Text → Body

pub record Response : Type 0 where
  pub status : ℕ
  pub headers : List (Text × Text)
  pub body : Body

abbrev pub json_header : List (Text × Text)
json_header = (text "Content-Type", text "application/json") ∷ []

-- `w.WriteHeader(status)` with nothing else
unfoldable pub write_status : ℕ → Response
write_status status = record { status = status; headers = []; body = empty }

-- `writeError`
unfoldable pub write_error : ℕ → Text → Response
write_error status message = record {
  status = status;
  headers = json_header;
  body = error_json message;
}

-- `parseCIDFromPath`, on the wildcard's value
unfoldable pub parse_cid_from_path : (S : Storage) → Text → Result Text S.Cid
parse_cid_from_path S segment =
    if is_empty segment then err (text "missing CID in path") else S.parse_cid segment

-- `retrievalCredentialToWire`, over the printer of `time.RFC3339`
unfoldable pub credential_to_wire : (ℤ → Text) → RetrievalCredential → ResolveResponse
credential_to_wire format_rfc3339 c = record {
  method = c.method;
  url = c.url;
  expiry = elim c.expiry [ none ↦ [] | some t ↦ format_rfc3339 t ];
}

-- `retrievalCredentialFromWire`, over the parser of `time.RFC3339`
unfoldable pub credential_from_wire : (Text → Option ℤ) → ResolveResponse → RetrievalCredential
credential_from_wire parse_rfc3339 w = record {
  method = w.method;
  url = w.url;
  expiry = if is_empty w.expiry then none else parse_rfc3339 w.expiry;
}

-- The reasons of the audit records, by the texts that api/push.go lists.
pub data Reason : Type 0 where
  missing_cid_header invalid_cid_header read_body_error size_exceeded cid_mismatch : Reason
  token_required_missing token_invalid token_unknown_kid token_cid_mismatch : Reason
  token_size_mismatch token_expired token_malformed backend_error : Reason

-- The attributes that only some of the records carry.
pub data Attribute : Type 0 where
  max_body_size : ℤ → Attribute
  error_attribute : Text → Attribute
  cid_algorithm computed_cid claimed_digest operator_token_kid : Text → Attribute

-- A `slog.Warn` record with the event `artifact.push.rejected`.
pub record Rejection : Type 0 where
  pub reason : Reason
  pub claimed_cid : Text
  pub remote_addr : Text
  pub received_size : ℕ
  pub attributes : List Attribute
