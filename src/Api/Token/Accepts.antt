-- ===== src/Api/Token/Accepts.antt =====
-- When the verifier of api/token.go accepts a token.
use ortholog_artifact_store.Base.{
  ℕ, ◌≤◌, Text, Bytes, text, text_eq_iff, index_byte-append, Lacks, length, length-append,
  take-length_append, drop-suc-length_append, ok, some, ◌∷◌, ◌++◌, ◌≡◌, ◌≢◌, ◌↔◌, arith, map_err,
  >>=-eq-ok, >>=_ok, map_err-eq-ok,
}
use ortholog_artifact_store.Base.Int.{ℤ, pos, ◌≤ℤ◌}
use ortholog_artifact_store.Base.Dict.{Dict, lookup}
use ortholog_artifact_store.Api.Token.{
  UploadTokenPayload, Codec, check_claims, split_token, decode_part, find_key, verify, json_error,
  signature_error,
}

-- The claims that a token makes are about this upload, and it has not expired.
abbrev pub Claims : UploadTokenPayload → Text → ℕ → ℤ → Type 0
Claims p cid size now = (p.exp ≢ pos 0) × (now ≤ℤ p.exp) × (p.cid ≡ cid) × (p.size ≡ pos size)

check_claims_iff :
    (p : UploadTokenPayload) (cid : Text) (size : ℕ) (now : ℤ)
    → (check_claims p cid size now ≡ ok tt) ↔ Claims p cid size now
unfolding check_claims
check_claims_iff p cid size now = ground (arith, text_eq_iff p.cid cid)

-- The parts of an accepted token.
pub record Evidence (X : Codec) (keys : Dict Bytes) (token cid : Text) (size : ℕ) (now : ℤ)
    : Type 0 where
  pub payload_part : Text
  pub signature_part : Text
  pub payload_bytes : Bytes
  pub signature : Bytes
  pub payload : UploadTokenPayload
  pub key : Bytes
  pub splits : split_token token ≡ ok (payload_part, signature_part)
  pub payload_decodes : decode_part X (text "payload") payload_part ≡ ok payload_bytes
  pub signature_decodes : decode_part X (text "signature") signature_part ≡ ok signature
  pub unmarshals : X.unmarshal_payload payload_bytes ≡ ok payload
  pub registered : lookup payload.kid keys ≡ some key
  pub signed : X.verify_ed25519 key payload_bytes signature ≡ ok tt
  pub claims : Claims payload cid size now

module _ (X : Codec) (keys : Dict Bytes) (token cid : Text) (size : ℕ) (now : ℤ) where
  find_key_iff :
      (kid : Text) (key : Bytes) → (find_key X keys kid ≡ ok key) ↔ (lookup kid keys ≡ some key)
  unfolding find_key
  find_key_iff kid key = ground arith

  evidence : verify X keys token cid size now ≡ ok tt → Evidence X keys token cid size now
  unfolding verify
  evidence h =
      let ((payload_part, signature_part), splits, h₁) = >>=-eq-ok (split_token token) _ h in
      let (payload_bytes, payload_decodes, h₂) =
        >>=-eq-ok (decode_part X (text "payload") payload_part) _ h₁ in
      let (signature, signature_decodes, h₃) =
        >>=-eq-ok (decode_part X (text "signature") signature_part) _ h₂ in
      let (payload, unmarshals, h₄) =
        >>=-eq-ok (map_err json_error (X.unmarshal_payload payload_bytes)) _ h₃ in
      let (key, found, h₅) = >>=-eq-ok (find_key X keys payload.kid) _ h₄ in
      let (_, signed, h₆) =
        >>=-eq-ok (map_err signature_error (X.verify_ed25519 key payload_bytes signature)) _ h₅ in
      record {
        payload_part = payload_part;
        signature_part = signature_part;
        payload_bytes = payload_bytes;
        signature = signature;
        payload = payload;
        key = key;
        splits = splits;
        payload_decodes = payload_decodes;
        signature_decodes = signature_decodes;
        unmarshals = map_err-eq-ok json_error _ unmarshals;
        registered = (find_key_iff payload.kid key).0 found;
        signed = map_err-eq-ok signature_error _ signed;
        claims = (check_claims_iff payload cid size now).0 h₆;
      }

  -- A token is accepted exactly when it splits and decodes into a payload and a signature, the
  -- payload's kid is registered, the signature over the payload is valid under that kid's key,
  -- and the claims name this CID and this size and have not expired.
  pub verify_iff : (verify X keys token cid size now ≡ ok tt) ↔ Evidence X keys token cid size now
  unfolding verify
  verify_iff = (
    evidence,
    λ e. >>=_ok (split_token token) _ e.splits (
        >>=_ok (decode_part X (text "payload") e.payload_part) _ e.payload_decodes (
          >>=_ok (decode_part X (text "signature") e.signature_part) _ e.signature_decodes (
            >>=_ok (map_err json_error (X.unmarshal_payload e.payload_bytes)) _ {a = e.payload}
              (rw e.unmarshals)
              (>>=_ok (find_key X keys e.payload.kid) _
                ((find_key_iff e.payload.kid e.key).1 e.registered)
                (>>=_ok
                  (map_err signature_error (X.verify_ed25519 e.key e.payload_bytes e.signature)) _
                  (rw e.signed) ((check_claims_iff e.payload cid size now).1 e.claims)))))),
  )

-- How an operator mints a token: the payload's base64url, a dot, and the signature's.
abbrev pub mint : (Bytes → Text) → Bytes → Bytes → Text
mint encode payload_bytes signature = encode payload_bytes ++ (b'.' ∷ encode signature)

-- What the contract of a token relies on: base64url encodes without a dot, never to the empty text
-- but for the empty input, and is decoded.
pub record IsEncoder (X : Codec) (encode : Bytes → Text) : Type 0 where
  pub decodes : (b : Bytes) → X.raw_url_decode (encode b) ≡ ok b
  pub dotless : (b : Bytes) → Lacks b'.' (encode b)
  pub nonempty : (b : Bytes) → 1 ≤ length b → 1 ≤ length (encode b)

split_token-append :
    (s t : Text)
    → Lacks b'.' s
    → 1 ≤ length s
    → 1 ≤ length t
    → split_token (s ++ (b'.' ∷ t)) ≡ ok (s, t)
unfolding split_token
split_token-append s t lacks hs ht =
    rw (index_byte-append b'.' s t lacks, split_token)
      (ground (
        arith,
        length-append s (b'.' ∷ t),
        take-length_append s (b'.' ∷ t),
        drop-suc-length_append s b'.' t,
      ))

decode_part_raw :
    (X : Codec) (what : Text) (s : Text) (b : Bytes)
    → X.raw_url_decode s ≡ ok b
    → decode_part X what s ≡ ok b
unfolding decode_part
decode_part_raw X what s b h = ground arith

-- A token that an operator mints is accepted while its claims hold: for every payload that
-- `encoding/json` reads as `p`, with a signature that is valid under the key registered for the
-- payload's kid.
pub verify-mint :
    (X : Codec) (encode : Bytes → Text) (law : IsEncoder X encode) (keys : Dict Bytes)
    (payload_bytes signature key : Bytes) (p : UploadTokenPayload) (cid : Text) (size : ℕ) (now : ℤ)
    → 1 ≤ length payload_bytes
    → 1 ≤ length signature
    → X.unmarshal_payload payload_bytes ≡ ok p
    → lookup p.kid keys ≡ some key
    → X.verify_ed25519 key payload_bytes signature ≡ ok tt
    → Claims p cid size now
    → verify X keys (mint encode payload_bytes signature) cid size now ≡ ok tt
verify-mint X encode law keys payload_bytes signature key p cid size now hp hs read found signed
      claims =
    (verify_iff X keys (mint encode payload_bytes signature) cid size now).1 (record {
      payload_part = encode payload_bytes;
      signature_part = encode signature;
      payload_bytes = payload_bytes;
      signature = signature;
      payload = p;
      key = key;
      splits =
          split_token-append (encode payload_bytes) (encode signature) (law.dotless payload_bytes)
            (law.nonempty payload_bytes hp) (law.nonempty signature hs);
      payload_decodes = decode_part_raw X (text "payload") _ _ (law.decodes payload_bytes);
      signature_decodes = decode_part_raw X (text "signature") _ _ (law.decodes signature);
      unmarshals = read;
      registered = found;
      signed = signed;
      claims = claims;
    })
