-- ===== src/KeyService/GcpKms/Service.antt =====
-- keyservice/gcpkms.go: the operations of `GCPKMS`.
pub mod Serving
pub mod Contract
use ortholog_artifact_store.Base.{Text, Bytes, text, Result, ok, err}
use ortholog_artifact_store.Storage.{Storage}
use ortholog_artifact_store.Transport.{Client}
use ortholog_artifact_store.KeyService.{KeyError, unless_missing}
use ortholog_artifact_store.KeyService.Rotation.{KeyOperations, Rotated}
use ortholog_artifact_store.KeyService.Rotation
use ortholog_artifact_store.KeyService.Envelope.{Crypto, Envelope, ServiceState, envelope_service}
use ortholog_artifact_store.KeyService.Envelope
use ortholog_artifact_store.KeyService.GcpKms.{GcpKmsConfig, GcpBody, doc_id, gcp_prefix}
use ortholog_artifact_store.KeyService.GcpKms.Api.{
  GcpCodec, kms_encrypt, kms_decrypt, firestore_create_wrapped, firestore_get_wrapped,
  firestore_delete_wrapped,
}

module _ (S : Storage) (C : Client GcpBody) (K : GcpCodec) (g : GcpKmsConfig) where
  -- Nothing is undone when the document cannot be created: Cloud KMS has no key for the artifact.
  unfoldable pub wrap_and_create : S.Cid → Bytes → C.State → Result KeyError (Unit {0}) × C.State
  unfolding kms_encrypt firestore_create_wrapped doc_id
  wrap_and_create cid material s =
      let (r, s') = kms_encrypt S C K g material s in
      elim r [ err e ↦ (err e, s') | ok w ↦ firestore_create_wrapped S C K g (doc_id S g cid) w s' ]

  -- The key and the nonce of an artifact.
  unfoldable pub unwrap : S.Cid → C.State → Result KeyError Bytes × C.State
  unfolding firestore_get_wrapped kms_decrypt doc_id
  unwrap cid s =
      let (r, s') = firestore_get_wrapped S C K g (doc_id S g cid) s in
      elim r [ err e ↦ (err e, s') | ok w ↦ kms_decrypt S C K g w s' ]

  -- `Delete` before it forgets the path.
  unfoldable pub erase_document : S.Cid → C.State → Result KeyError (Unit {0}) × C.State
  unfolding firestore_delete_wrapped doc_id
  erase_document cid s =
      let (r, s') = firestore_delete_wrapped S C K g (doc_id S g cid) s in (unless_missing r, s')

  abbrev pub gcpkms_envelope : Envelope S C.State
  gcpkms_envelope = record {
    prefix = gcp_prefix;
    persist = wrap_and_create;
    unwrap = unwrap;
    erase_kept = erase_document;
  }

  module _ (X : Crypto C.State) where
    abbrev pub gcpkms_service : KeyOperations S
    gcpkms_service = envelope_service S X gcpkms_envelope

    unfoldable pub generate_and_encrypt :
        Bytes → ServiceState C.State → Result KeyError (S.Cid × Bytes) × ServiceState C.State
    unfolding wrap_and_create Envelope.generate_and_encrypt
    generate_and_encrypt = Envelope.generate_and_encrypt S X gcpkms_envelope

    unfoldable pub decrypt :
        S.Cid → Bytes → ServiceState C.State → Result KeyError Bytes × ServiceState C.State
    unfolding unwrap Envelope.decrypt
    decrypt = Envelope.decrypt S X gcpkms_envelope

    unfoldable pub wrap_for_recipient :
        S.Cid → Bytes → ServiceState C.State → Result KeyError Bytes × ServiceState C.State
    unfolding unwrap Envelope.wrap_for_recipient
    wrap_for_recipient = Envelope.wrap_for_recipient S X gcpkms_envelope

    unfoldable pub delete :
        S.Cid → ServiceState C.State → Result KeyError (Unit {0}) × ServiceState C.State
    unfolding erase_document Envelope.delete
    delete = Envelope.delete S X gcpkms_envelope

    unfoldable pub rotate : S.Cid → Bytes → ServiceState C.State → Rotated S × ServiceState C.State
    unfolding Envelope.decrypt Rotation.rotate
    rotate = Rotation.rotate S gcp_prefix gcpkms_service
