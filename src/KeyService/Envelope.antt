-- ===== src/KeyService/Envelope.antt =====
-- Envelope encryption, which keyservice/vault.go and gcpkms.go write alike: a fresh key encrypts the
-- artifact in process, and a service keeps that key, wrapped. Wiping key bytes has no counterpart.
pub mod Sealing
pub mod Contract
use ortholog_artifact_store.Base.{
  ℕ, ◌+◌, Text, Bytes, text, decimal, is_empty, length, take, drop, Result, ok, err, map_ok,
  map_err, Bool, true, false, Option, none, some, ◌++◌, ◌==◌, if◌then◌else◌,
}
use ortholog_artifact_store.Base.Dict.{Dict, insert, erase}
use ortholog_artifact_store.Storage.{Storage}
use ortholog_artifact_store.KeyService.{
  KeyError, ciphertext_mismatch, invalid_recipient_key, other, Aead, aes_gcm_seal, aes_gcm_open,
}
use ortholog_artifact_store.KeyService.Rotation.{KeyOperations}

-- What else the operations call, as parameters: the random source, which is a part of the world,
-- the SDK's sizes of a key and a nonce, secp256k1 and the SDK's `EncryptForNode`.
pub record Crypto (World : Type 0) : Type 1 where
  pub aead : Aead
  pub key_size : ℕ
  pub nonce_size : ℕ
  pub random : ℕ → World → Result Text Bytes × World
  pub PublicKey : Type 0
  pub parse_pub_key : Bytes → Result Text PublicKey
  pub encrypt_for_node : Bytes → PublicKey → World → Result Text Bytes × World

-- `parseRecipientPubKey`
abbrev pub parse_recipient_pub_key :
    {World : Type 0} (X : Crypto World) → Bytes → Result Text X.PublicKey
parse_recipient_pub_key X sec1 =
    if is_empty sec1
    then err (text "empty public key bytes")
    else map_err
        (λ e.
          text "invalid secp256k1 public key ("
          ++ (decimal (length sec1) ++ (text " bytes): " ++ e)))
        (X.parse_pub_key sec1)

-- What the two services do in their own ways: keep the key and the nonce of a new artifact (which
-- may be undone), fetch them, and erase them. Errors start with the prefix.
pub record Envelope (S : Storage) (World : Type 0) : Type 0 where
  pub prefix : Text
  pub persist : S.Cid → Bytes → World → Result KeyError (Unit {0}) × World
  pub unwrap : S.Cid → World → Result KeyError Bytes × World
  pub erase_kept : S.Cid → World → Result KeyError (Unit {0}) × World

-- The world behind the client, and `pathCache`.
pub record ServiceState (World : Type 0) : Type 0 where
  pub world : World
  pub path_cache : Dict (Unit {0})

module _ (S : Storage) {World : Type 0} (X : Crypto World) (E : Envelope S World) where
  abbrev pub Generated : Type 0
  Generated = Result KeyError (S.Cid × Bytes) × World

  abbrev pub rand_error : Text → KeyError
  rand_error e = other (E.prefix ++ (text ": rand: " ++ e))

  unfoldable pub persist_new : S.Cid → Bytes → Bytes → World → Generated
  persist_new cid ct material s =
      let (r, s') = E.persist cid material s in (map_ok (λ _. (cid, ct)) r, s')

  unfoldable pub seal_and_wrap : Bytes → Bytes → Bytes → World → Generated
  unfolding aes_gcm_seal persist_new
  seal_and_wrap plaintext key nonce s = elim (aes_gcm_seal X.aead key nonce plaintext) [
    | err e ↦ (err (other (E.prefix ++ (text ": AES-GCM seal: " ++ e))), s)
    | ok ct ↦ persist_new (S.compute ct) ct (key ++ nonce) s
  ]

  unfoldable pub draw_nonce : Bytes → Bytes → World → Generated
  unfolding seal_and_wrap
  draw_nonce plaintext key s =
      let (r, s') = X.random X.nonce_size s in
      elim r [ err e ↦ (err (rand_error e), s') | ok nonce ↦ seal_and_wrap plaintext key nonce s' ]

  unfoldable pub encrypt_new : Bytes → World → Generated
  unfolding draw_nonce
  encrypt_new plaintext s =
      let (r, s') = X.random X.key_size s in
      elim r [ err e ↦ (err (rand_error e), s') | ok key ↦ draw_nonce plaintext key s' ]

  abbrev pub remember : Result KeyError (S.Cid × Bytes) → Dict (Unit {0}) → Dict (Unit {0})
  remember (ok (cid, ct)) cache = insert (S.string cid) tt cache
  remember (err e) cache = cache

  unfoldable pub generate_and_encrypt :
      Bytes → ServiceState World → Result KeyError (S.Cid × Bytes) × ServiceState World
  unfolding encrypt_new insert
  generate_and_encrypt plaintext v =
      let (r, s) = encrypt_new plaintext v.world in
      (r, record { world = s; path_cache = remember r v.path_cache })

  unfoldable pub open_with : Bytes → Bytes → Result KeyError Bytes
  unfolding aes_gcm_open decimal
  open_with ciphertext material =
      if length material == X.key_size + X.nonce_size
      then map_err ciphertext_mismatch
          (aes_gcm_open X.aead (take X.key_size material) (drop X.key_size material) ciphertext)
      else err (
          other (
            E.prefix
            ++ (text ": unwrapped material length "
                ++ (decimal (length material)
                    ++ (text ", want " ++ decimal (X.key_size + X.nonce_size))))))

  unfoldable pub decrypt :
      S.Cid → Bytes → ServiceState World → Result KeyError Bytes × ServiceState World
  unfolding open_with
  decrypt cid ciphertext v =
      let (r, s) = E.unwrap cid v.world in
      (
        elim r [ err e ↦ err e | ok material ↦ open_with ciphertext material ],
        record v { world = s },
      )

  unfoldable pub wrap_for : Result Text X.PublicKey → S.Cid → World → Result KeyError Bytes × World
  wrap_for (err e) cid s = (err (invalid_recipient_key (some e)), s)
  wrap_for (ok pub_key) cid s =
      let (r, s') = E.unwrap cid s in
      elim r [
        | err e ↦ (err e, s')
        | ok material ↦
            let (envelope, s'') = X.encrypt_for_node material pub_key s' in
            (map_err (λ e. other (E.prefix ++ (text ": ECIES wrap: " ++ e))) envelope, s'')
      ]

  unfoldable pub wrap_for_recipient :
      S.Cid → Bytes → ServiceState World → Result KeyError Bytes × ServiceState World
  unfolding wrap_for decimal
  wrap_for_recipient cid recipient v =
      if is_empty recipient
      then (err (invalid_recipient_key none), v)
      else let (r, s) = wrap_for (parse_recipient_pub_key X recipient) cid v.world in
        (r, record v { world = s })

  abbrev pub forget : Result KeyError (Unit {0}) → S.Cid → Dict (Unit {0}) → Dict (Unit {0})
  forget (ok _) cid cache = erase (S.string cid) cache
  forget (err e) cid cache = cache

  unfoldable pub delete :
      S.Cid → ServiceState World → Result KeyError (Unit {0}) × ServiceState World
  unfolding erase
  delete cid v =
      let (r, s) = E.erase_kept cid v.world in
      (r, record { world = s; path_cache = forget r cid v.path_cache })

  -- The operations that `Rotate` calls.
  abbrev pub envelope_service : KeyOperations S
  envelope_service = record {
    State = ServiceState World;
    generate_and_encrypt = generate_and_encrypt;
    wrap_for_recipient = wrap_for_recipient;
    decrypt = decrypt;
    delete = delete;
  }
