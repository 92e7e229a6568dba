-- ===== src/KeyService/GcpKms/Api.antt =====
-- keyservice/gcpkms_api.go: the requests to Cloud KMS and Firestore.
use ortholog_artifact_store.Base.{
  Text, Bytes, text, is_empty, Result, ok, err, map_err, ◌>>=◌, ◌||◌, Option, none, some, ◌++◌,
  ◌==◌, if◌then◌else◌,
}
use ortholog_artifact_store.Storage.{Storage}
use ortholog_artifact_store.Api.Http.{RequestBody}
use ortholog_artifact_store.Transport.{HttpResponse, Client}
use ortholog_artifact_store.KeyService.{KeyError, key_not_found, backend_not_found, other}
use ortholog_artifact_store.KeyService.Requests.{do_request, exchange, fmt_service_err}
use ortholog_artifact_store.KeyService.GcpKms.{
  GcpKmsConfig, GcpBody, plaintext, ciphertext, document, kms_url, create_url, doc_url, gcp_prefix,
  gcp_headers, fmt_gcp_err,
}

-- `encoding/base64` and `encoding/json`, parameters. Of a response only the field that is read is
-- decoded: the ciphertext, the plaintext, and the bytes of the document.
pub record GcpCodec : Type 0 where
  pub base64_encode : Bytes → Text
  pub base64_decode : Text → Result Text Bytes
  pub encrypt_response : RequestBody → Result Text Text
  pub decrypt_response : RequestBody → Result Text Text
  pub document_response : RequestBody → Result Text Text

abbrev pub gcp_decode_error : Text → Text → KeyError
gcp_decode_error what e = other (text "keyservice/gcpkms: decode " ++ (what ++ (text ": " ++ e)))

-- What each request makes of its response.
unfoldable pub create_status : HttpResponse → Result KeyError (Unit {0})
unfolding fmt_service_err
create_status r =
    if (r.status == 200) || (r.status == 201)
    then ok tt
    else if r.status == 409
    then err (fmt_gcp_err r (text "firestore createDocument (duplicate)"))
    else err (fmt_gcp_err r (text "firestore createDocument"))

unfoldable pub delete_status : HttpResponse → Result KeyError (Unit {0})
unfolding fmt_service_err
delete_status r =
    if (r.status == 200) || (r.status == 204)
    then ok tt
    else if r.status == 404
    then err backend_not_found
    else err (fmt_gcp_err r (text "firestore deleteDocument"))

module _ (K : GcpCodec) where
  -- A field in base64 that must not be empty.
  abbrev pub required_field : Text → KeyError → Text → Result KeyError Bytes
  required_field what missing field =
      if is_empty field
      then err missing
      else map_err (gcp_decode_error what) (K.base64_decode field)

  unfoldable pub encrypt_status : HttpResponse → Result KeyError Bytes
  unfolding fmt_service_err
  encrypt_status r =
      if r.status == 200
      then map_err (gcp_decode_error (text "encrypt response")) (K.encrypt_response r.body)
        >>= required_field (text "encrypt ciphertext base64")
            (other (text "keyservice/gcpkms: encrypt returned empty ciphertext"))
      else err (fmt_gcp_err r (text "kms encrypt"))

  abbrev pub decode_field : Text → Text → Result KeyError Bytes
  decode_field what field = map_err (gcp_decode_error what) (K.base64_decode field)

  unfoldable pub decrypt_status : HttpResponse → Result KeyError Bytes
  unfolding fmt_service_err
  decrypt_status r =
      if r.status == 200
      then map_err (gcp_decode_error (text "decrypt response")) (K.decrypt_response r.body)
        >>= decode_field (text "decrypt plaintext base64")
      else err (fmt_gcp_err r (text "kms decrypt"))

  unfoldable pub get_status : HttpResponse → Result KeyError Bytes
  unfolding fmt_service_err
  get_status r =
      if r.status == 404
      then err key_not_found
      else if r.status == 200
      then map_err (gcp_decode_error (text "firestore get")) (K.document_response r.body)
        >>= required_field (text "wrapped bytes") key_not_found
      else err (fmt_gcp_err r (text "firestore getDocument"))

module _ (S : Storage) (C : Client GcpBody) (K : GcpCodec) (g : GcpKmsConfig) where
  -- `do` of gcpkms_api.go, with the reading of the response.
  abbrev pub gcp_exchange :
      {A : Type 0}
      → Text
      → Text
      → Option GcpBody
      → (HttpResponse → Result KeyError A)
      → C.State
      → Result KeyError A × C.State
  gcp_exchange = exchange C gcp_prefix gcp_headers

  unfoldable pub kms_encrypt : Bytes → C.State → Result KeyError Bytes × C.State
  unfolding do_request encrypt_status kms_url
  kms_encrypt bytes =
      gcp_exchange (text "POST") (kms_url S g (text "encrypt"))
        (some (plaintext (K.base64_encode bytes))) (encrypt_status K)

  unfoldable pub kms_decrypt : Bytes → C.State → Result KeyError Bytes × C.State
  unfolding do_request decrypt_status kms_url
  kms_decrypt blob =
      gcp_exchange (text "POST") (kms_url S g (text "decrypt"))
        (some (ciphertext (K.base64_encode blob))) (decrypt_status K)

  unfoldable pub firestore_create_wrapped :
      Text → Bytes → C.State → Result KeyError (Unit {0}) × C.State
  unfolding do_request create_status create_url
  firestore_create_wrapped id w =
      gcp_exchange (text "POST") (create_url S g id) (some (document (K.base64_encode w)))
        create_status

  unfoldable pub firestore_get_wrapped : Text → C.State → Result KeyError Bytes × C.State
  unfolding do_request get_status doc_url
  firestore_get_wrapped id = gcp_exchange (text "GET") (doc_url S g id) none (get_status K)

  unfoldable pub firestore_delete_wrapped : Text → C.State → Result KeyError (Unit {0}) × C.State
  unfolding do_request delete_status doc_url
  firestore_delete_wrapped id = gcp_exchange (text "DELETE") (doc_url S g id) none delete_status
