-- ===== src/Api/Push.antt =====
-- `PushHandler` of api/push.go. A handler gets the request, the Unix time and the backend's state,
-- and gives the response that it wrote, the audit records and the state.
pub mod View
pub mod Safety
pub mod Limits
use Prim.Native.Nat.{ℕ}
use ortholog_artifact_store.Base.{
  suc, Text, Bytes, text, text_eq, is_empty, index_byte, take, length, Result, ok, err, Bool, true,
  false, not, ◌||◌, Option, none, some, List, [], ◌∷◌, ◌++◌, ltb, if◌then◌else◌,
}
use ortholog_artifact_store.Base.Int.{ℤ, pos, add64, ltb_ℤ, format_int}
use ortholog_artifact_store.Base.Hex.{hex_encode}
use ortholog_artifact_store.Storage.{Storage, StoreError, error_text}
use ortholog_artifact_store.Backends.Provider.{BackendProvider}
use ortholog_artifact_store.Api.Http.{
  Request, Response, Rejection, Reason, Attribute, write_error, read_all_limited, json_header,
  pushed_json, missing_cid_header, invalid_cid_header, read_body_error, size_exceeded, cid_mismatch,
  token_required_missing, token_invalid, token_unknown_kid, token_cid_mismatch, token_size_mismatch,
  token_expired, token_malformed, backend_error, max_body_size, error_attribute, cid_algorithm,
  computed_cid, claimed_digest, operator_token_kid,
}
use ortholog_artifact_store.Api.Token.{
  Sentinel, TokenError, Codec, UploadTokenVerifier, malformed, bad_signature, expired,
  size_mismatch, payload_invalid, unknown_kid,
}

-- The handler's fields, but for its backend and its logger.
pub record PushHandler : Type 0 where
  pub verify : Bool
  pub max_body : ℤ
  pub token_verifier : Option UploadTokenVerifier
  pub token_policy : Text

-- What a handler has done. With no response written, `net/http` answers 200 with an empty body.
pub record Outcome (State : Type 0) : Type 0 where
  pub response : Option Response
  pub log : List Rejection
  pub state : State

unfoldable pub status_code : Option Response → ℕ
status_code none = 200
status_code (some r) = r.status

-- `classifyTokenError`
unfoldable pub classify_token_error : TokenError → Reason
classify_token_error e = elim e.sentinel [
  | none ↦ token_invalid
  | some s ↦ elim s [
    | unknown_kid ↦ token_unknown_kid
    | bad_signature ↦ token_invalid
    | expired ↦ token_expired
    | Sentinel.cid_mismatch ↦ token_cid_mismatch
    | size_mismatch ↦ token_size_mismatch
    | malformed ↦ token_malformed
    | payload_invalid ↦ token_malformed
  ]
]

-- The sentinel value `tokenRejected`.
abbrev pub rejected_mark : Text
rejected_mark = text "<rejected>"

-- `extractKid`: the first of the two decodings whose bytes are JSON gives the kid.
unfoldable pub unmarshal_part : Codec → Result Text Bytes → Option Text
unmarshal_part X (err e) = none
unmarshal_part X (ok b) = elim (X.unmarshal_kid b) [ ok kid ↦ some kid | err e ↦ none ]

unfoldable pub kid_of : Codec → Text → Text
unfolding unmarshal_part
kid_of X part = elim (unmarshal_part X (X.raw_url_decode part)) [
  | some kid ↦ kid
  | none ↦ elim (unmarshal_part X (X.url_decode part)) [ some kid ↦ kid | none ↦ [] ]
]

unfoldable pub extract_kid : Codec → Text → Text
unfolding kid_of
extract_kid X token = elim (index_byte token b'.') [
  | none ↦ []
  | some dot ↦ if ltb dot 1 then [] else kid_of X (take dot token)
]

unfoldable pub rejection : Reason → Request → Text → ℕ → List Attribute → Rejection
rejection reason r cid_str size attributes = record {
  reason = reason;
  claimed_cid = cid_str;
  remote_addr = r.remote_addr;
  received_size = size;
  attributes = attributes;
}

-- What `checkUploadToken` returns: its text, with the rejection that it has written, if any.
pub record TokenCheck : Type 0 where
  pub kid : Text
  pub written : Option (Response × Rejection)

abbrev pub proceed : Text → TokenCheck
proceed kid = record { kid = kid; written = none }

unfoldable pub reject_token : Reason → Request → Text → ℕ → List Attribute → Text → TokenCheck
unfolding rejection write_error
reject_token reason r cid_str size attributes message = record {
  kid = rejected_mark;
  written = some (write_error 401 message, rejection reason r cid_str size attributes);
}

unfoldable pub present_token : Codec → UploadTokenVerifier → Request → Text → ℕ → ℤ → TokenCheck
unfolding extract_kid classify_token_error reject_token
present_token X verifier r cid_str size now = elim (verifier r.upload_token cid_str size now) [
  | ok _ ↦ proceed (extract_kid X r.upload_token)
  | err e ↦
      reject_token (classify_token_error e) r cid_str size (error_attribute e.message ∷ [])
        e.message
]

-- `checkUploadToken`
unfoldable pub check_upload_token : Codec → PushHandler → Request → Text → ℕ → ℤ → TokenCheck
unfolding present_token reject_token
check_upload_token X h r cid_str size now =
    if text_eq h.token_policy (text "off") then proceed [] else elim h.token_verifier [
      | none ↦ proceed []
      | some verifier ↦
          if is_empty r.upload_token
          then (if text_eq h.token_policy (text "required")
              then reject_token token_required_missing r cid_str size []
                  (text "X-Upload-Token required")
              else proceed [])
          else present_token X verifier r cid_str size now
    ]

-- `algorithmName`
unfoldable pub algorithm_name : (S : Storage) → S.Cid → Text
algorithm_name S c = elim (index_byte (S.string c) b':') [
  | none ↦ []
  | some i ↦ if ltb 0 i then take i (S.string c) else []
]

module _ (S : Storage) (B : BackendProvider S) (X : Codec) where
  -- One audit record and an error response; the backend is not called.
  unfoldable pub reject :
      Reason → Request → Text → ℕ → List Attribute → ℕ → Text → B.State → Outcome B.State
  unfolding rejection write_error
  reject reason r cid_str size attributes status message s = record {
    response = some (write_error status message);
    log = rejection reason r cid_str size attributes ∷ [];
    state = s;
  }

  -- Step 5: the backend's push, and the response.
  unfoldable pub persist : Request → Text → S.Cid → Bytes → B.State → Outcome B.State
  unfolding reject error_text
  persist r cid_str cid body s =
      let (pushed, s') = B.push cid body s in
      elim pushed [
        | ok _ ↦ record {
          response = some (record {
            status = 200;
            headers = json_header;
            body = pushed_json (S.string cid) (length body);
          });
          log = [];
          state = s';
        }
        | err e ↦
            reject backend_error r cid_str (length body) (error_attribute (error_text S e) ∷ []) 500
              (error_text S e) s'
      ]

  unfoldable pub reject_mismatch : Request → Text → S.Cid → Bytes → Text → B.State → Outcome B.State
  unfolding reject algorithm_name hex_encode
  reject_mismatch r cid_str cid body kid s =
      reject cid_mismatch r cid_str (length body)
        (cid_algorithm (algorithm_name S cid)
          ∷ computed_cid (S.string (S.compute_with body (S.algorithm cid)))
          ∷ claimed_digest (hex_encode (S.digest cid))
          ∷ operator_token_kid kid
          ∷ [])
        400 (text "body bytes do not match CID digest (data corruption)") s

  -- Step 4: the digest, if verification is on.
  unfoldable pub verify_digest :
      PushHandler → Request → Text → S.Cid → Bytes → Text → B.State → Outcome B.State
  unfolding persist reject_mismatch
  verify_digest h r cid_str cid body kid s =
      if h.verify
      then (if S.verify cid body
          then persist r cid_str cid body s
          else reject_mismatch r cid_str cid body kid s)
      else persist r cid_str cid body s

  -- Step 3: what the caller of `checkUploadToken` does with its text. A rejection that was written
  -- is the outcome; the sentinel text alone ends the request too.
  unfoldable pub after_token :
      PushHandler → Request → Text → S.Cid → Bytes → TokenCheck → B.State → Outcome B.State
  unfolding verify_digest
  after_token h r cid_str cid body check s =
      if text_eq check.kid rejected_mark
      then elim check.written [
        | none ↦ record { response = none; log = []; state = s }
        | some (response, entry) ↦ record { response = some response; log = entry ∷ []; state = s }
      ]
      else verify_digest h r cid_str cid body check.kid s

  -- Step 2, after the read: the size.
  unfoldable pub check_size :
      PushHandler → Request → Text → S.Cid → Bytes → ℤ → B.State → Outcome B.State
  unfolding after_token check_upload_token reject format_int
  check_size h r cid_str cid body now s =
      if ltb_ℤ h.max_body (pos (length body))
      then reject size_exceeded r cid_str (length body) (max_body_size h.max_body ∷ []) 413
          (text "body size exceeds " ++ format_int h.max_body ++ text " bytes") s
      else after_token h r cid_str cid body (check_upload_token X h r cid_str (length body) now) s

  -- Step 2: the body, read with one byte more than the limit.
  unfoldable pub read_body : PushHandler → Request → Text → S.Cid → ℤ → B.State → Outcome B.State
  unfolding check_size reject read_all_limited add64
  read_body h r cid_str cid now s =
      let (body, failure) = read_all_limited r.body (add64 h.max_body (pos 1)) in
      elim failure [
        | some e ↦ reject read_body_error r cid_str (length body) [] 400 (text "read body: " ++ e) s
        | none ↦ check_size h r cid_str cid body now s
      ]

  -- `PushHandler.ServeHTTP`: step 1, and the rest.
  unfoldable pub push_serve : PushHandler → Request → ℤ → B.State → Outcome B.State
  unfolding read_body reject
  push_serve h r now s =
      if is_empty r.artifact_cid
      then reject missing_cid_header r [] 0 [] 400 (text "missing X-Artifact-CID header") s
      else elim (S.parse_cid r.artifact_cid) [
        | err e ↦ reject invalid_cid_header r r.artifact_cid 0 [] 400 (text "invalid CID: " ++ e) s
        | ok cid ↦ read_body h r r.artifact_cid cid now s
      ]
