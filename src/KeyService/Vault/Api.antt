-- ===== src/KeyService/Vault/Api.antt =====
-- keyservice/vault_api.go: the requests to the Transit and kv-v2 engines.
use ortholog_artifact_store.Base.{
  Text, Bytes, text, is_empty, not, Result, ok, err, map_err, ◌>>=◌, ◌||◌, Option, none, some, ◌++◌,
  ◌==◌, if◌then◌else◌,
}
use ortholog_artifact_store.Storage.{Storage}
use ortholog_artifact_store.Api.Http.{RequestBody}
use ortholog_artifact_store.Transport.{HttpResponse, Client}
use ortholog_artifact_store.KeyService.{KeyError, key_not_found, backend_not_found, other}
use ortholog_artifact_store.KeyService.Requests.{do_request, exchange, fmt_service_err}
use ortholog_artifact_store.KeyService.Vault.{
  VaultTransitConfig, VaultBody, new_key, allow_deletion, plaintext, ciphertext, wrapped_data,
  key_url, config_url, encrypt_url, decrypt_url, data_url, metadata_url, fmt_vault_err, close,
  vault_prefix, vault_headers,
}

-- `encoding/base64` and `encoding/json`, parameters. Of a response only the fields that are read
-- are decoded: the ciphertext, the plaintext, and the wrapped key with its time of deletion.
pub record VaultCodec : Type 0 where
  pub base64_encode : Bytes → Text
  pub base64_decode : Text → Result Text Bytes
  pub encrypt_response : RequestBody → Result Text Text
  pub decrypt_response : RequestBody → Result Text Text
  pub kv_response : RequestBody → Result Text (Text × Text)

-- What each request makes of its response.
unfoldable pub create_status : HttpResponse → Result KeyError (Unit {0})
unfolding fmt_service_err
create_status r =
    if (r.status == 200) || (r.status == 204)
    then ok tt
    else err (fmt_vault_err r (text "transit/keys create"))

unfoldable pub put_status : HttpResponse → Result KeyError (Unit {0})
unfolding fmt_service_err
put_status r =
    if (r.status == 200) || (r.status == 201) || (r.status == 204)
    then ok tt
    else err (fmt_vault_err r (text "kv-v2 put"))

unfoldable pub delete_status : Text → HttpResponse → Result KeyError (Unit {0})
unfolding fmt_service_err
delete_status op r =
    if (r.status == 200) || (r.status == 204)
    then ok tt
    else if r.status == 404
    then err backend_not_found
    else err (fmt_vault_err r op)

-- The two steps before a deletion read their errors from a body that is already closed.
unfoldable pub lookup_status : HttpResponse → Result KeyError (Unit {0})
unfolding fmt_service_err
lookup_status r =
    if r.status == 404
    then err backend_not_found
    else if r.status == 200
    then ok tt
    else err (fmt_vault_err (close r) (text "transit/keys exists-check"))

unfoldable pub config_status : HttpResponse → Result KeyError (Unit {0})
unfolding fmt_service_err
config_status r =
    if (r.status == 200) || (r.status == 204)
    then ok tt
    else err (fmt_vault_err (close r) (text "transit/keys config"))

abbrev pub present_ciphertext : Text → Result KeyError Text
present_ciphertext c =
    if is_empty c
    then err (other (text "keyservice/vault: encrypt returned empty ciphertext"))
    else ok c

-- A soft-deleted secret is answered by 200 with its time of deletion and no data.
abbrev pub present_secret : Text × Text → Result KeyError Text
present_secret (w, deleted) =
    if not (is_empty deleted) || is_empty w then err key_not_found else ok w

abbrev pub decode_error : Text → Text → KeyError
decode_error what e = other (text "keyservice/vault: decode " ++ (what ++ (text ": " ++ e)))

module _ (K : VaultCodec) where
  unfoldable pub encrypt_status : HttpResponse → Result KeyError Text
  unfolding fmt_service_err
  encrypt_status r =
      if r.status == 200
      then map_err (decode_error (text "encrypt response")) (K.encrypt_response r.body)
        >>= present_ciphertext
      else err (fmt_vault_err r (text "transit/encrypt"))

  abbrev pub decode_plaintext : Text → Result KeyError Bytes
  decode_plaintext p = map_err (decode_error (text "plaintext")) (K.base64_decode p)

  unfoldable pub decrypt_status : HttpResponse → Result KeyError Bytes
  unfolding fmt_service_err
  decrypt_status r =
      if r.status == 404
      then err key_not_found
      else if r.status == 200
      then map_err (decode_error (text "decrypt response")) (K.decrypt_response r.body)
        >>= decode_plaintext
      else err (fmt_vault_err r (text "transit/decrypt"))

  unfoldable pub get_status : HttpResponse → Result KeyError Text
  unfolding fmt_service_err
  get_status r =
      if r.status == 404
      then err key_not_found
      else if r.status == 200
      then map_err (decode_error (text "kv-v2 get")) (K.kv_response r.body) >>= present_secret
      else err (fmt_vault_err r (text "kv-v2 get"))

module _ (S : Storage) (C : Client VaultBody) (K : VaultCodec) (g : VaultTransitConfig) where
  abbrev pub vault_exchange :
      {A : Type 0}
      → Text
      → Text
      → Option VaultBody
      → (HttpResponse → Result KeyError A)
      → C.State
      → Result KeyError A × C.State
  vault_exchange = exchange C vault_prefix (vault_headers g)

  unfoldable pub transit_create_key : Text → C.State → Result KeyError (Unit {0}) × C.State
  unfolding do_request create_status key_url
  transit_create_key name =
      vault_exchange (text "POST") (key_url S g name) (some new_key) create_status

  unfoldable pub transit_encrypt : Text → Bytes → C.State → Result KeyError Text × C.State
  unfolding do_request encrypt_status encrypt_url
  transit_encrypt name bytes =
      vault_exchange (text "POST") (encrypt_url S g name) (some (plaintext (K.base64_encode bytes)))
        (encrypt_status K)

  unfoldable pub transit_decrypt : Text → Text → C.State → Result KeyError Bytes × C.State
  unfolding do_request decrypt_status decrypt_url
  transit_decrypt name blob =
      vault_exchange (text "POST") (decrypt_url S g name) (some (ciphertext blob))
        (decrypt_status K)

  -- After the existence check and the configuration of the key.
  unfoldable pub delete_key : Text → C.State → Result KeyError (Unit {0}) × C.State
  unfolding do_request delete_status key_url
  delete_key name =
      vault_exchange (text "DELETE") (key_url S g name) none
        (delete_status (text "transit/keys delete"))

  unfoldable pub allow_and_delete : Text → C.State → Result KeyError (Unit {0}) × C.State
  unfolding do_request config_status config_url delete_key
  allow_and_delete name s =
      let (r, s') =
        vault_exchange (text "POST") (config_url S g name) (some allow_deletion) config_status s in
      elim r [ err e ↦ (err e, s') | ok _ ↦ delete_key name s' ]

  unfoldable pub transit_delete_key : Text → C.State → Result KeyError (Unit {0}) × C.State
  unfolding do_request lookup_status key_url allow_and_delete
  transit_delete_key name s =
      let (r, s') = vault_exchange (text "GET") (key_url S g name) none lookup_status s in
      elim r [ err e ↦ (err e, s') | ok _ ↦ allow_and_delete name s' ]

  unfoldable pub kv_put_wrapped : S.Cid → Text → C.State → Result KeyError (Unit {0}) × C.State
  unfolding do_request put_status data_url
  kv_put_wrapped cid w =
      vault_exchange (text "POST") (data_url S g cid) (some (wrapped_data w)) put_status

  unfoldable pub kv_get_wrapped : S.Cid → C.State → Result KeyError Text × C.State
  unfolding do_request get_status data_url
  kv_get_wrapped cid = vault_exchange (text "GET") (data_url S g cid) none (get_status K)

  unfoldable pub kv_delete_metadata : S.Cid → C.State → Result KeyError (Unit {0}) × C.State
  unfolding do_request delete_status metadata_url
  kv_delete_metadata cid =
      vault_exchange (text "DELETE") (metadata_url S g cid) none
        (delete_status (text "kv-v2 metadata delete"))
