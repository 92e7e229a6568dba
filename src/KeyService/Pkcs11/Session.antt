-- ===== src/KeyService/Pkcs11/Session.antt =====
-- keyservice/pkcs11_api.go: the calls of a session.
use ortholog_artifact_store.Base.{
  ℕ, Text, Bytes, text, is_empty, quote, Result, ok, err, true, false, List, [], ◌∷◌, ◌++◌, ◌||◌,
  if◌then◌else◌,
}
use ortholog_artifact_store.KeyService.{KeyError, backend_not_found, other}
use ortholog_artifact_store.KeyService.Calls.{Calls, raise, lift, failing, finally, ◌>>=◌, ◌>>◌}
use ortholog_artifact_store.KeyService.Pkcs11.{
  KeyAttribute, secret_key_class, aes_key_type, value_len, token, private, sensitive, extractable,
  may_encrypt, may_decrypt, label, id, value, CtxError, Pkcs11Ctx, Pkcs11, call_error, ctx_error,
  has_code,
}

-- What `findKeyByLabel` looks for.
abbrev pub key_template : Text → List KeyAttribute
key_template name = secret_key_class ∷ aes_key_type ∷ label name ∷ []

abbrev pub new_key_template : Text → Bytes → List KeyAttribute
new_key_template name nonce =
    secret_key_class
    ∷ aes_key_type
    ∷ value_len 32
    ∷ token true
    ∷ private true
    ∷ sensitive false
    ∷ extractable true
    ∷ may_encrypt true
    ∷ may_decrypt true
    ∷ label name
    ∷ id nonce
    ∷ []

-- The last attribute of its type, and nothing where there is none.
abbrev pub key_value : Bytes → List KeyAttribute → Bytes
key_value key [] = key
key_value key (value v ∷ rest) = key_value v rest
key_value key (_ ∷ rest) = key_value key rest

abbrev pub key_nonce : Bytes → List KeyAttribute → Bytes
key_nonce nonce [] = nonce
key_nonce nonce (id v ∷ rest) = key_nonce v rest
key_nonce nonce (_ ∷ rest) = key_nonce nonce rest

unfoldable pub read_material : List KeyAttribute → Result KeyError (Bytes × Bytes)
read_material got =
    if is_empty (key_value [] got) || is_empty (key_nonce [] got)
    then err (other (text "keyservice/pkcs11: key object missing CKA_VALUE or CKA_ID"))
    else ok (key_value [] got, key_nonce [] got)

module _ (M : Pkcs11Ctx) where
  module _ (p : Pkcs11) where
    -- A login that fails closes the session; if the user is logged in already, another is opened.
    unfoldable pub reopen : CtxError → Calls KeyError M.State ℕ
    reopen e =
        if has_code M M.user_already_logged_in e
        then failing (call_error M (text "re-OpenSession")) (M.open_session p.slot_id)
        else raise (call_error M (text "Login") e)

    unfoldable pub log_in : ℕ → Calls KeyError M.State ℕ
    unfolding reopen
    log_in sh w =
        let (r, w') = M.login sh p.cfg.pin w in
        elim r [ ok _ ↦ (ok sh, w') | err e ↦ reopen e (M.close_session sh w').1 ]

    -- `openSession`
    unfoldable pub open_session : Calls KeyError M.State ℕ
    unfolding log_in
    open_session = do
      sh ← failing (call_error M (text "OpenSession")) (M.open_session p.slot_id)
      log_in sh

  -- `Close` of a session
  abbrev pub close_session : ℕ → Calls CtxError M.State (Unit {0})
  close_session sh w = M.close_session sh (M.logout sh w).1

  abbrev pub first_object : List ℕ → Result KeyError ℕ
  first_object [] = err backend_not_found
  first_object (oh ∷ rest) = ok oh

  unfoldable pub find_key_by_label : ℕ → Text → Calls KeyError M.State ℕ
  unfolding quote
  find_key_by_label sh name = do
    failing (call_error M (text "FindObjectsInit(" ++ (quote name ++ text ")")))
        (M.find_objects_init sh (key_template name))
    objs ←
        failing (call_error M (text "FindObjects(" ++ (quote name ++ text ")")))
          (finally (M.find_objects sh 1) (M.find_objects_final sh))
    lift (first_object objs)

  unfoldable pub generate_aes_key : ℕ → Text → Bytes → Calls KeyError M.State ℕ
  unfolding quote
  generate_aes_key sh name nonce =
      failing (call_error M (text "GenerateKey(" ++ (quote name ++ text ")")))
        (M.generate_key sh (new_key_template name nonce))

  unfoldable pub read_key_material : ℕ → ℕ → Calls KeyError M.State (Bytes × Bytes)
  unfolding read_material
  read_key_material sh oh = do
    got ←
        failing (call_error M (text "GetAttributeValue"))
          (M.get_attribute_value sh oh (value [] ∷ id [] ∷ []))
    lift (read_material got)

  unfoldable pub gcm_encrypt : ℕ → ℕ → Bytes → Bytes → Calls KeyError M.State Bytes
  gcm_encrypt sh oh nonce plaintext = do
    failing (call_error M (text "EncryptInit")) (M.encrypt_init sh nonce oh)
    failing (call_error M (text "Encrypt")) (M.encrypt sh plaintext)

  -- Its error is a text, which `Decrypt` puts into another.
  unfoldable pub gcm_decrypt : ℕ → ℕ → Bytes → Bytes → Calls Text M.State Bytes
  gcm_decrypt sh oh nonce ciphertext = do
    failing (ctx_error M (text "DecryptInit")) (M.decrypt_init sh nonce oh)
    failing (ctx_error M (text "Decrypt")) (M.decrypt sh ciphertext)

  abbrev pub destroy_error : CtxError → KeyError
  destroy_error e =
      if has_code M M.object_handle_invalid e || has_code M M.key_handle_invalid e
      then backend_not_found
      else call_error M (text "DestroyObject") e

  unfoldable pub destroy_key : ℕ → ℕ → Calls KeyError M.State (Unit {0})
  destroy_key sh oh = failing destroy_error (M.destroy_object sh oh)
