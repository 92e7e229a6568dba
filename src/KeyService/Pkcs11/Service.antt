-- ===== src/KeyService/Pkcs11/Service.antt =====
-- keyservice/pkcs11.go: the operations of `PKCS11`. Its lock serializes them.
pub mod Steady
pub mod Sessions
pub mod Orphans
pub mod Absent
use ortholog_artifact_store.Base.{
  ℕ, Text, Bytes, text, is_empty, decimal, length, Result, ok, err, Bool, [], ◌∷◌, ◌++◌, ◌==◌,
  if◌then◌else◌, none, some,
}
use ortholog_artifact_store.Base.Hex.{hex_encode}
use ortholog_artifact_store.Storage.{Storage}
use ortholog_artifact_store.KeyService.{
  KeyError, key_not_found, ciphertext_mismatch, invalid_recipient_key, other, is_not_found,
  unless_missing,
}
use ortholog_artifact_store.KeyService.Rotation.{KeyOperations, Rotated}
use ortholog_artifact_store.KeyService.Rotation
use ortholog_artifact_store.KeyService.Envelope.{Crypto, parse_recipient_pub_key}
use ortholog_artifact_store.KeyService.Calls.{
  Calls, pure, lift, failing, finally, or_undo, ending, ◌>>=◌, ◌>>◌,
}
use ortholog_artifact_store.KeyService.Pkcs11.{
  KeyAttribute, label, id, Pkcs11Ctx, Pkcs11, Pkcs11State, pkcs11_prefix, call_error, key_label,
}
use ortholog_artifact_store.KeyService.Pkcs11.Session.{
  key_nonce, open_session, close_session, find_key_by_label, generate_aes_key, read_key_material,
  gcm_encrypt, gcm_decrypt, destroy_key,
}

module _ (S : Storage) (M : Pkcs11Ctx) (X : Crypto M.State) (p : Pkcs11) where
  -- `openSession`, and the deferred `Close`.
  abbrev pub with_session : {A : Type 0} → (ℕ → Calls KeyError M.State A) → Calls KeyError M.State A
  with_session body = do sh ← open_session M p; finally (body sh) (close_session M sh)

  -- `checkOpen`, before the calls that an operation makes.
  abbrev pub when_open :
      {A : Type 0} → Calls KeyError M.State A → Calls KeyError (Pkcs11State M.State) A
  when_open call v =
      if v.closed
      then (err (other (text "keyservice/pkcs11: service is closed")), v)
      else let (r, w) = call v.world in (r, record v { world = w })

  -- The key is destroyed if the call fails.
  abbrev pub or_destroy : {A : Type 0} → ℕ → ℕ → Calls KeyError M.State A → Calls KeyError M.State A
  or_destroy sh oh call = or_undo call (destroy_key M sh oh)

  unfoldable pub commit_label : ℕ → ℕ → S.Cid → Calls KeyError M.State (Unit {0})
  unfolding key_label
  commit_label sh oh cid =
      failing (call_error M (text "SetAttributeValue(label)"))
        (M.set_attribute_value sh oh (label (key_label S p cid) ∷ []))

  -- The key is made under a label of its own, and gets the CID's once that is known.
  unfoldable pub encrypt_under : Bytes → Bytes → ℕ → Calls KeyError M.State (S.Cid × Bytes)
  unfolding generate_aes_key gcm_encrypt destroy_key commit_label hex_encode
  encrypt_under plaintext nonce sh = do
    oh ← generate_aes_key M sh (p.cfg.key_label_prefix ++ (text "tmp-" ++ hex_encode nonce)) nonce
    ct ← or_destroy sh oh (gcm_encrypt M sh oh nonce plaintext)
    or_destroy sh oh (commit_label sh oh (S.compute ct))
    pure (S.compute ct, ct)

  unfoldable pub encrypt_new : Bytes → Calls KeyError M.State (S.Cid × Bytes)
  unfolding open_session encrypt_under
  encrypt_new plaintext = do
    nonce ← failing (λ e. other (text "keyservice/pkcs11: rand: " ++ e)) (X.random X.nonce_size)
    with_session (encrypt_under plaintext nonce)

  unfoldable pub generate_and_encrypt : Bytes → Calls KeyError (Pkcs11State M.State) (S.Cid × Bytes)
  unfolding encrypt_new
  generate_and_encrypt plaintext = when_open (encrypt_new plaintext)

  abbrev pub missing_key : KeyError → KeyError
  missing_key e = if is_not_found e then key_not_found else e

  unfoldable pub find_artifact_key : S.Cid → ℕ → Calls KeyError M.State ℕ
  unfolding find_key_by_label key_label
  find_artifact_key cid sh = failing missing_key (find_key_by_label M sh (key_label S p cid))

  unfoldable pub wrap_key : X.PublicKey → S.Cid → ℕ → Calls KeyError M.State Bytes
  unfolding find_artifact_key read_key_material
  wrap_key pub_key cid sh = do
    oh ← find_artifact_key cid sh
    (key, nonce) ← read_key_material M sh oh
    failing (λ e. other (text "keyservice/pkcs11: ECIES wrap: " ++ e))
        (X.encrypt_for_node (key ++ nonce) pub_key)

  unfoldable pub wrap_for :
      Result Text X.PublicKey → S.Cid → Calls KeyError (Pkcs11State M.State) Bytes
  unfolding open_session wrap_key
  wrap_for (err e) cid v = (err (invalid_recipient_key (some e)), v)
  wrap_for (ok pub_key) cid v = when_open (with_session (wrap_key pub_key cid)) v

  unfoldable pub wrap_for_recipient : S.Cid → Bytes → Calls KeyError (Pkcs11State M.State) Bytes
  unfolding wrap_for decimal
  wrap_for_recipient cid recipient v =
      if is_empty recipient
      then (err (invalid_recipient_key none), v)
      else wrap_for (parse_recipient_pub_key X recipient) cid v

  unfoldable pub stored_nonce : Bytes → Result KeyError Bytes
  unfolding decimal
  stored_nonce nonce =
      if length nonce == X.nonce_size
      then ok nonce
      else err (
          other (
            text "keyservice/pkcs11: stored nonce length "
            ++ (decimal (length nonce) ++ (text ", want " ++ decimal X.nonce_size))))

  unfoldable pub decrypt_with : S.Cid → Bytes → ℕ → Calls KeyError M.State Bytes
  unfolding find_artifact_key stored_nonce gcm_decrypt
  decrypt_with cid ciphertext sh = do
    oh ← find_artifact_key cid sh
    attrs ← failing (call_error M (text "read CKA_ID")) (M.get_attribute_value sh oh (id [] ∷ []))
    nonce ← lift (stored_nonce (key_nonce [] attrs))
    failing ciphertext_mismatch (gcm_decrypt M sh oh nonce ciphertext)

  unfoldable pub decrypt : S.Cid → Bytes → Calls KeyError (Pkcs11State M.State) Bytes
  unfolding open_session decrypt_with
  decrypt cid ciphertext = when_open (with_session (decrypt_with cid ciphertext))

  -- There is nothing to delete if the key is not found, or not any more.
  unfoldable pub erase_with : S.Cid → ℕ → Calls KeyError M.State (Unit {0})
  unfolding find_key_by_label destroy_key key_label
  erase_with cid sh =
      ending unless_missing do oh ← find_key_by_label M sh (key_label S p cid); destroy_key M sh oh

  unfoldable pub delete : S.Cid → Calls KeyError (Pkcs11State M.State) (Unit {0})
  unfolding open_session erase_with
  delete cid = when_open (with_session (erase_with cid))

  abbrev pub pkcs11_service : KeyOperations S
  pkcs11_service = record {
    State = Pkcs11State M.State;
    generate_and_encrypt = generate_and_encrypt;
    wrap_for_recipient = wrap_for_recipient;
    decrypt = decrypt;
    delete = delete;
  }

  unfoldable pub rotate : S.Cid → Bytes → Pkcs11State M.State → Rotated S × Pkcs11State M.State
  unfolding Rotation.rotate
  rotate = Rotation.rotate S pkcs11_prefix pkcs11_service
