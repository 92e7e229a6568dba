-- ===== src/KeyService/GcpKms/Service/Contract.antt =====
-- `GCPKMS` of keyservice/gcpkms.go is a key service.
use mathlib.Core.Path.{subst}
use ortholog_artifact_store.Base.{
  Text, Bytes, text, ok, err, none, ◌≡◌, ◌≢◌, ◌⊎◌, inl, inr, refl, arith,
}
use ortholog_artifact_store.Storage.{Storage}
use ortholog_artifact_store.Transport.{HttpResponse, Client}
use ortholog_artifact_store.KeyService.{key_not_found, unless_missing}
use ortholog_artifact_store.KeyService.Rotation.{IsKeyService}
use ortholog_artifact_store.KeyService.Requests.{do_request}
use ortholog_artifact_store.KeyService.Requests.Outcomes.{do_request_cases, do_request-Keeps}
use ortholog_artifact_store.KeyService.Envelope.{Crypto}
use ortholog_artifact_store.KeyService.Envelope.Sealing.{IsCrypto}
use ortholog_artifact_store.KeyService.Envelope.Contract.{Forgets, Opens, envelope-IsKeyService}
use ortholog_artifact_store.KeyService.GcpKms.{
  GcpKmsConfig, GcpBody, doc_id, doc_url, gcp_prefix, gcp_headers,
}
use ortholog_artifact_store.KeyService.GcpKms.Api.{
  GcpCodec, delete_status, get_status, firestore_get_wrapped, firestore_delete_wrapped,
}
use ortholog_artifact_store.KeyService.GcpKms.Service.{
  unwrap, erase_document, gcpkms_envelope, gcpkms_service,
}
use ortholog_artifact_store.KeyService.Requests.Outcomes.{fmt_service_err-found}
use ortholog_artifact_store.KeyService.GcpKms.Service.Serving.{Serves, Kept, gcpkms-Keeps}

module _ (S : Storage) (g : GcpKmsConfig) where
  -- Two artifacts have documents of their own.
  abbrev pub Apart : S.Cid → S.Cid → Type 0
  Apart c c' = doc_id S g c ≢ doc_id S g c'

module _ (S : Storage) (C : Client GcpBody) (K : GcpCodec) (g : GcpKmsConfig)
    (Wraps : C.State → Bytes → Bytes → Type 0) (Stored : C.State → Text → Bytes → Type 0)
    (HasDoc : C.State → Text → Type 0) (law : Serves S C K g Wraps Stored HasDoc) where
  deleted :
      (a : HttpResponse)
      → unless_missing (delete_status a) ≡ ok tt
      → (a.status ≡ 200) ⊎ (a.status ≡ 204) ⊎ (a.status ≡ 404)
  unfolding delete_status
  deleted a h = ground (arith, fmt_service_err-found gcp_prefix a (text "firestore deleteDocument"))

  delete-erases :
      (i : Text) (s : C.State)
      → unless_missing (firestore_delete_wrapped S C K g i s).0 ≡ ok tt
      → HasDoc (firestore_delete_wrapped S C K g i s).1 i
      → ⊥
  unfolding firestore_delete_wrapped
  delete-erases i s h held =
      elim (do_request_cases C gcp_prefix gcp_headers (text "DELETE") (doc_url S g i) none s) [
        | inl (a, (sent, got, same)) ↦
            law.doc_deleted i s a sent (deleted a (rw (got, firestore_delete_wrapped) at h))
              (subst (λ t. HasDoc t i) same held)
        | inr (e, failed, found) ↦
            absurd (ground (arith, found, (rw (failed, firestore_delete_wrapped) at h)))
      ]

  get-missing :
      (i : Text) (s : C.State)
      → (HasDoc s i → ⊥)
      → (firestore_get_wrapped S C K g i s).0 ≡ err key_not_found
  unfolding firestore_get_wrapped do_request get_status
  get-missing i s gone =
      let (a, sent, missing) = law.doc_unknown i s gone in
      rw (law.makes (text "GET") (doc_url S g i), sent, missing, firestore_get_wrapped, do_request)
        refl

  unwrap-erased :
      (c : S.Cid) (s : C.State)
      → (erase_document S C K g c s).0 ≡ ok tt
      → (unwrap S C K g c (erase_document S C K g c s).1).0 ≡ err key_not_found
  unfolding unwrap erase_document
  unwrap-erased c s h =
      rw (get-missing (doc_id S g c) _ (delete-erases (doc_id S g c) s h), unwrap) refl

  gcpkms-Forgets : Forgets (gcpkms_envelope S C K g) (Kept S C K g Wraps Stored HasDoc) (Apart S g)
  unfolding erase_document firestore_delete_wrapped
  gcpkms-Forgets = record {
    erase_missing = unwrap-erased;
    erase_keeps = λ c c' m s apart k.
        let (stored, wraps) =
          do_request-Keeps C gcp_prefix gcp_headers (text "DELETE") (doc_url S g (doc_id S g c))
            none s (λ t. Stored t (doc_id S g c') k.w × Wraps t k.w m)
            (λ (held, opens). (
              law.delete_keeps (doc_id S g c) (doc_id S g c') k.w s apart held,
              law.send_keeps _ s k.w m opens,
            ))
            (k.stored, k.wraps) in
        record { w = k.w; given = k.given; stored = stored; wraps = wraps };
  }

  -- While Cloud KMS and Firestore serve as they document, `GCPKMS` keeps the contract of a key
  -- service: what it has encrypted under a new key it decrypts; the deletion of another artifact,
  -- with a document of its own, leaves that so; and after a deletion that succeeded it reports a
  -- missing key for the artifact.
  pub gcpkms-IsKeyService :
      (X : Crypto C.State) (crypto : IsCrypto X)
      → IsKeyService
          (gcpkms_service S C K g X)
          (Opens S X (gcpkms_envelope S C K g) (Kept S C K g Wraps Stored HasDoc))
          (Apart S g)
  gcpkms-IsKeyService X crypto =
      envelope-IsKeyService S X (gcpkms_envelope S C K g) (Kept S C K g Wraps Stored HasDoc) crypto
        (gcpkms-Keeps S C K g Wraps Stored HasDoc law) (Apart S g) gcpkms-Forgets
