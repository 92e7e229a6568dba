-- ===== src/Api/Token.antt =====
-- api/token.go: the verification of an `X-Upload-Token` against the keys of the operators.
pub mod Accepts
use ortholog_artifact_store.Base.{
  ℕ, suc, ◌+◌, Text, Bytes, text, text_eq, index_byte, quote, take, drop, length, Result, ok, err,
  map_err, ◌>>=◌, Bool, true, false, ◌||◌, Option, none, some, List, [], ◌∷◌, ◌++◌, ◌==◌, ltb,
  if◌then◌else◌,
}
use ortholog_artifact_store.Base.Int.{ℤ, pos, eq_ℤ, ltb_ℤ, format_int}
use ortholog_artifact_store.Base.Dict.{Dict, lookup, insert}

-- The sentinel errors.
pub data Sentinel : Type 0 where
  malformed bad_signature expired cid_mismatch size_mismatch payload_invalid unknown_kid : Sentinel

-- `errors.Is` finds the sentinel. An error of another verifier may have none.
pub record TokenError : Type 0 where
  pub sentinel : Option Sentinel
  pub message : Text

unfoldable pub sentinel_text : Sentinel → Text
sentinel_text malformed = text "upload token: malformed"
sentinel_text bad_signature = text "upload token: bad signature"
sentinel_text expired = text "upload token: expired"
sentinel_text cid_mismatch = text "upload token: cid mismatch"
sentinel_text size_mismatch = text "upload token: size mismatch"
sentinel_text payload_invalid = text "upload token: payload invalid"
sentinel_text unknown_kid = text "upload token: unknown kid"

-- `fmt.Errorf("%w: …", sentinel, …)`
unfoldable pub wrap : Sentinel → Text → TokenError
wrap s detail = record { sentinel = some s; message = sentinel_text s ++ text ": " ++ detail }

abbrev pub json_error : Text → TokenError
json_error e = wrap payload_invalid (text "json: " ++ e)

abbrev pub signature_error : Text → TokenError
signature_error = wrap bad_signature

-- `UploadTokenPayload`
pub record UploadTokenPayload : Type 0 where
  pub cid : Text
  pub size : ℤ
  pub exp : ℤ
  pub iat : ℤ
  pub kid : Text

-- The decoders that the verifier calls, each with the text of its error: `encoding/base64`,
-- `encoding/json` at the two structs, and `signatures.VerifyEd25519` of the SDK (which length-checks
-- its key and its signature).
pub record Codec : Type 0 where
  pub raw_url_decode : Text → Result Text Bytes
  pub url_decode : Text → Result Text Bytes
  pub unmarshal_payload : Bytes → Result Text UploadTokenPayload
  pub unmarshal_kid : Bytes → Result Text Text
  pub verify_ed25519 : Bytes → Bytes → Bytes → Result Text (Unit {0})

-- `UploadTokenVerifier`: the token, the expected CID, the size of the body and the Unix time.
abbrev pub UploadTokenVerifier : Type 0
UploadTokenVerifier = Text → Text → ℕ → ℤ → Result TokenError (Unit {0})

abbrev pub public_key_size : ℕ
public_key_size = 32

unfoldable pub bad_key_text : Text → ℕ → Text
unfolding quote format_int
bad_key_text kid size =
    text "upload token verifier: key "
    ++ quote kid
    ++ text " is "
    ++ format_int (pos size)
    ++ text " bytes, want 32 (ed25519)"

-- The loop of `NewEd25519UploadTokenVerifier` over the keys.
unfoldable pub copy_keys : Dict Bytes → Dict Bytes → Result Text (Dict Bytes)
copy_keys [] out = ok out
copy_keys ((kid, pk) ∷ keys) out =
    let rest = copy_keys keys (insert kid pk out) in
    if length pk == public_key_size then rest else err (bad_key_text kid (length pk))

-- `NewEd25519UploadTokenVerifier`: the keys of the verifier.
unfoldable pub new_ed25519_upload_token_verifier : Dict Bytes → Result Text (Dict Bytes)
unfolding copy_keys
new_ed25519_upload_token_verifier [] = err (text "upload token verifier: keys map is empty")
new_ed25519_upload_token_verifier (k ∷ keys) = copy_keys (k ∷ keys) []

-- The token's text before and after its first dot: neither may be empty.
unfoldable pub split_token : Text → Result TokenError (Text × Text)
unfolding wrap
split_token token = elim (index_byte token b'.') [
  | none ↦ err (wrap malformed (text "expected payload.signature"))
  | some dot ↦
      if ltb dot 1 || dot + 1 == length token
      then err (wrap malformed (text "expected payload.signature"))
      else ok (take dot token, drop (suc dot) token)
]

-- The claims, in the order in which the verifier checks them.
unfoldable pub check_claims : UploadTokenPayload → Text → ℕ → ℤ → Result TokenError (Unit {0})
unfolding wrap format_int
check_claims p expected_cid actual_size now =
    if eq_ℤ p.exp (pos 0) || ltb_ℤ p.exp now
    then err (record { sentinel = some expired; message = sentinel_text expired })
    else if text_eq p.cid expected_cid
    then (if eq_ℤ p.size (pos actual_size)
        then ok tt
        else err (
            wrap size_mismatch (
              text "token size="
              ++ format_int p.size
              ++ text ", body size="
              ++ format_int (pos actual_size))))
    else err
        (wrap cid_mismatch (text "token cid=" ++ p.cid ++ text ", header cid=" ++ expected_cid))

module _ (X : Codec) where
  -- Unpadded base64url first, padded second.
  unfoldable pub decode_part : Text → Text → Result TokenError Bytes
  unfolding wrap
  decode_part what s = elim (X.raw_url_decode s) [
    | ok b ↦ ok b
    | err _ ↦ map_err (λ e. wrap malformed (what ++ text " base64: " ++ e)) (X.url_decode s)
  ]

  unfoldable pub find_key : Dict Bytes → Text → Result TokenError Bytes
  unfolding wrap
  find_key keys kid = elim (lookup kid keys) [
    | none ↦ err (wrap unknown_kid (text "kid=" ++ quote kid))
    | some key ↦ ok key
  ]

  -- `ed25519UploadTokenVerifier.Verify`
  unfoldable pub verify : Dict Bytes → UploadTokenVerifier
  unfolding split_token decode_part find_key check_claims wrap
  verify keys token expected_cid actual_size now = do
    (payload_b64, sig_b64) ← split_token token
    payload_bytes ← decode_part (text "payload") payload_b64
    sig ← decode_part (text "signature") sig_b64
    p ← map_err json_error (X.unmarshal_payload payload_bytes)
    pubkey ← find_key keys p.kid
    _ ← map_err signature_error (X.verify_ed25519 pubkey payload_bytes sig)
    check_claims p expected_cid actual_size now
