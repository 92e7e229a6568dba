-- ===== src/KeyService/Vault/Service.antt =====
-- keyservice/vault.go: the operations of `VaultTransit`.
pub mod Serving
pub mod Erasing
pub mod Erasure
pub mod Roundtrip
pub mod Contract
use ortholog_artifact_store.Base.{Text, Bytes, text, Result, ok, err}
use ortholog_artifact_store.Storage.{Storage}
use ortholog_artifact_store.Transport.{Client}
use ortholog_artifact_store.KeyService.{KeyError, unless_missing}
use ortholog_artifact_store.KeyService.Rotation.{KeyOperations, Rotated}
use ortholog_artifact_store.KeyService.Rotation
use ortholog_artifact_store.KeyService.Envelope.{Crypto, Envelope, ServiceState, envelope_service}
use ortholog_artifact_store.KeyService.Envelope
use ortholog_artifact_store.KeyService.Vault.{VaultTransitConfig, VaultBody, transit_key_name}
use ortholog_artifact_store.KeyService.Vault.Api.{
  VaultCodec, transit_create_key, transit_encrypt, transit_decrypt, transit_delete_key,
  kv_put_wrapped, kv_get_wrapped, kv_delete_metadata,
}

module _ (S : Storage) (C : Client VaultBody) (K : VaultCodec) (g : VaultTransitConfig) where
  abbrev pub Step : Type 0
  Step = Result KeyError (Unit {0}) × C.State

  -- The roll-back: the new Transit key is deleted, and what comes of that is not reported.
  unfoldable pub roll_back : Text → KeyError → C.State → Step
  unfolding transit_delete_key
  roll_back name e s = (err e, (transit_delete_key S C K g name s).1)

  unfoldable pub store_wrapped : S.Cid → Text → C.State → Step
  unfolding kv_put_wrapped roll_back transit_key_name
  store_wrapped cid w s =
      let (r, s') = kv_put_wrapped S C K g cid w s in
      elim r [ err e ↦ roll_back (transit_key_name S g cid) e s' | ok _ ↦ (ok tt, s') ]

  unfoldable pub wrap_key : S.Cid → Bytes → C.State → Step
  unfolding transit_encrypt roll_back store_wrapped transit_key_name
  wrap_key cid material s =
      let (r, s') = transit_encrypt S C K g (transit_key_name S g cid) material s in
      elim r [ err e ↦ roll_back (transit_key_name S g cid) e s' | ok w ↦ store_wrapped cid w s' ]

  unfoldable pub create_and_wrap : S.Cid → Bytes → C.State → Step
  unfolding transit_create_key wrap_key transit_key_name
  create_and_wrap cid material s =
      let (r, s') = transit_create_key S C K g (transit_key_name S g cid) s in
      elim r [ err e ↦ (err e, s') | ok _ ↦ wrap_key cid material s' ]

  -- The key and the nonce of an artifact.
  unfoldable pub unwrap : S.Cid → C.State → Result KeyError Bytes × C.State
  unfolding kv_get_wrapped transit_decrypt transit_key_name
  unwrap cid s =
      let (r, s') = kv_get_wrapped S C K g cid s in
      elim r [
        | err e ↦ (err e, s')
        | ok w ↦ transit_decrypt S C K g (transit_key_name S g cid) w s'
      ]

  -- `Delete` before it forgets the path.
  unfoldable pub erase_key : S.Cid → C.State → Result KeyError (Unit {0}) × C.State
  unfolding transit_delete_key transit_key_name
  erase_key cid s =
      let (r, s') = transit_delete_key S C K g (transit_key_name S g cid) s in
      (unless_missing r, s')

  unfoldable pub erase_both : S.Cid → C.State → Result KeyError (Unit {0}) × C.State
  unfolding kv_delete_metadata erase_key
  erase_both cid s =
      let (r, s') = kv_delete_metadata S C K g cid s in
      elim (unless_missing r) [ err e ↦ (err e, s') | ok _ ↦ erase_key cid s' ]

  abbrev pub vault_envelope : Envelope S C.State
  vault_envelope = record {
    prefix = text "keyservice/vault";
    persist = create_and_wrap;
    unwrap = unwrap;
    erase_kept = erase_both;
  }

  module _ (X : Crypto C.State) where
    abbrev pub vault_service : KeyOperations S
    vault_service = envelope_service S X vault_envelope

    unfoldable pub generate_and_encrypt :
        Bytes → ServiceState C.State → Result KeyError (S.Cid × Bytes) × ServiceState C.State
    unfolding create_and_wrap Envelope.generate_and_encrypt
    generate_and_encrypt = Envelope.generate_and_encrypt S X vault_envelope

    unfoldable pub decrypt :
        S.Cid → Bytes → ServiceState C.State → Result KeyError Bytes × ServiceState C.State
    unfolding unwrap Envelope.decrypt
    decrypt = Envelope.decrypt S X vault_envelope

    unfoldable pub wrap_for_recipient :
        S.Cid → Bytes → ServiceState C.State → Result KeyError Bytes × ServiceState C.State
    unfolding unwrap Envelope.wrap_for_recipient
    wrap_for_recipient = Envelope.wrap_for_recipient S X vault_envelope

    unfoldable pub delete :
        S.Cid → ServiceState C.State → Result KeyError (Unit {0}) × ServiceState C.State
    unfolding erase_both Envelope.delete
    delete = Envelope.delete S X vault_envelope

    unfoldable pub rotate : S.Cid → Bytes → ServiceState C.State → Rotated S × ServiceState C.State
    unfolding Envelope.decrypt Rotation.rotate
    rotate = Rotation.rotate S (text "keyservice/vault") vault_service
