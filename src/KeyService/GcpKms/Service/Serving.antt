-- ===== src/KeyService/GcpKms/Service/Serving.antt =====
-- The wrapped keys of keyservice/gcpkms.go, while Cloud KMS and Firestore serve: what is wrapped and
-- written is fetched and unwrapped.
use mathlib.Core.Path.{subst}
use ortholog_artifact_store.Base.{
  Text, Bytes, text, is_empty, Result, Result-cases, Bool-cases, ok, map_err, map_err-eq-ok,
  >>=-eq-ok, false, Option, none, some, [], ◌∷◌, ◌==◌, ◌≡◌, ◌≢◌, ◌⊎◌, inl, inr, refl, sym, arith,
}
use ortholog_artifact_store.Storage.{Storage}
use ortholog_artifact_store.Transport.{HttpRequest, HttpResponse, Client}
use ortholog_artifact_store.KeyService.{other}
use ortholog_artifact_store.KeyService.Requests.{service_request, do_request}
use ortholog_artifact_store.KeyService.Requests.Outcomes.{do_request-Keeps, exchange_ok}
use ortholog_artifact_store.KeyService.Envelope.Contract.{Keeps}
use ortholog_artifact_store.KeyService.GcpKms.{
  GcpKmsConfig, GcpBody, plaintext, ciphertext, document, doc_id, kms_url, create_url, doc_url,
  gcp_prefix, gcp_headers,
}
use ortholog_artifact_store.KeyService.GcpKms.Api.{
  GcpCodec, required_field, gcp_decode_error, create_status, encrypt_status, decrypt_status,
  get_status, kms_encrypt, kms_decrypt, firestore_create_wrapped, firestore_get_wrapped,
}
use ortholog_artifact_store.KeyService.GcpKms.Service.{wrap_and_create, unwrap, gcpkms_envelope}

module _ (S : Storage) (C : Client GcpBody) (g : GcpKmsConfig) where
  abbrev pub Sent : Text → Text → Option GcpBody → C.State → Result Text HttpResponse × C.State
  Sent method url body s = C.send (service_request C gcp_prefix gcp_headers method url body) s

module _ (S : Storage) (C : Client GcpBody) (K : GcpCodec) (g : GcpKmsConfig)
    (Wraps : C.State → Bytes → Bytes → Type 0) (Stored : C.State → Text → Bytes → Type 0)
    (HasDoc : C.State → Text → Type 0) where
  -- What Cloud KMS and Firestore document while they serve, where `Wraps s w d` says that the
  -- key-encryption key opens `w` to `d`, `Stored s i w` that the document `i` holds `w`, and
  -- `HasDoc s i` that it is there; and what base64 does.
  pub record Serves : Type 0 where
    pub makes : (m u : Text) → C.new_request m u ≡ none
    pub encrypt_wraps :
        (d w : Bytes) (c : Text) (s : C.State) (a : HttpResponse)
        → (Sent S C g
            (text "POST")
            (kms_url S g (text "encrypt"))
            (some (plaintext (K.base64_encode d)))
            s).0
          ≡ ok a
        → a.status ≡ 200
        → K.encrypt_response a.body ≡ ok c
        → K.base64_decode c ≡ ok w
        → Wraps
            (Sent S C g
              (text "POST")
              (kms_url S g (text "encrypt"))
              (some (plaintext (K.base64_encode d)))
              s).1
            w
            d
          × (is_empty (K.base64_encode w) ≡ false)
    pub create_stores :
        (i : Text) (w : Bytes) (s : C.State) (a : HttpResponse)
        → (Sent S C g (text "POST") (create_url S g i) (some (document (K.base64_encode w))) s).0
          ≡ ok a
        → (a.status ≡ 200) ⊎ (a.status ≡ 201)
        → Stored
            (Sent S C g (text "POST") (create_url S g i) (some (document (K.base64_encode w))) s).1
            i
            w
    pub send_keeps :
        (r : HttpRequest GcpBody) (s : C.State) (w d : Bytes)
        → Wraps s w d
        → Wraps (C.send r s).1 w d
    pub delete_keeps :
        (i i' : Text) (w : Bytes) (s : C.State)
        → i ≢ i'
        → Stored s i' w
        → Stored (Sent S C g (text "DELETE") (doc_url S g i) none s).1 i' w
    pub get_returns :
        (i : Text) (w : Bytes) (s : C.State)
        → Stored s i w
        → (a : HttpResponse) × ((Sent S C g (text "GET") (doc_url S g i) none s).0 ≡ ok a)
          × (a.status ≡ 200)
          × (K.document_response a.body ≡ ok (K.base64_encode w))
    pub decrypt_returns :
        (w d : Bytes) (s : C.State)
        → Wraps s w d
        → (a : HttpResponse) × ((Sent S C g
              (text "POST")
              (kms_url S g (text "decrypt"))
              (some (ciphertext (K.base64_encode w)))
              s).0
            ≡ ok a)
          × (a.status ≡ 200)
          × (K.decrypt_response a.body ≡ ok (K.base64_encode d))
    pub doc_deleted :
        (i : Text) (s : C.State) (a : HttpResponse)
        → (Sent S C g (text "DELETE") (doc_url S g i) none s).0 ≡ ok a
        → (a.status ≡ 200) ⊎ (a.status ≡ 204) ⊎ (a.status ≡ 404)
        → HasDoc (Sent S C g (text "DELETE") (doc_url S g i) none s).1 i
        → ⊥
    pub doc_unknown :
        (i : Text) (s : C.State)
        → (HasDoc s i → ⊥)
        → (a : HttpResponse) × ((Sent S C g (text "GET") (doc_url S g i) none s).0 ≡ ok a)
          × (a.status ≡ 404)
    pub base64_decodes : (d : Bytes) → K.base64_decode (K.base64_encode d) ≡ ok d

  -- The key and the nonce of the artifact are kept, wrapped.
  pub record Kept (s : C.State) (c : S.Cid) (m : Bytes) : Type 0 where
    pub w : Bytes
    pub given : is_empty (K.base64_encode w) ≡ false
    pub stored : Stored s (doc_id S g c) w
    pub wraps : Wraps s w m

module _ (S : Storage) (C : Client GcpBody) (K : GcpCodec) (g : GcpKmsConfig)
    (Wraps : C.State → Bytes → Bytes → Type 0) (Stored : C.State → Text → Bytes → Type 0)
    (HasDoc : C.State → Text → Type 0) (law : Serves S C K g Wraps Stored HasDoc) where
  get-Stored :
      (i : Text) (w : Bytes) (s : C.State)
      → Stored s i w
      → is_empty (K.base64_encode w) ≡ false
      → (firestore_get_wrapped S C K g i s).0 ≡ ok w
  unfolding firestore_get_wrapped do_request get_status
  get-Stored i w s stored given =
      let (a, sent, fine, read) = law.get_returns i w s stored in
      rw
        (
          law.makes (text "GET") (doc_url S g i),
          sent,
          fine,
          read,
          given,
          law.base64_decodes w,
          firestore_get_wrapped,
          do_request,
        )
        refl

  get-Keeps :
      (i : Text) (w d : Bytes) (s : C.State)
      → Wraps s w d
      → Wraps (firestore_get_wrapped S C K g i s).1 w d
  unfolding firestore_get_wrapped
  get-Keeps i w d s =
      do_request-Keeps C gcp_prefix gcp_headers (text "GET") (doc_url S g i) none s
        (λ t. Wraps t w d) (law.send_keeps _ s w d)

  decrypt-Wraps : (w d : Bytes) (s : C.State) → Wraps s w d → (kms_decrypt S C K g w s).0 ≡ ok d
  unfolding kms_decrypt do_request decrypt_status
  decrypt-Wraps w d s h =
      let (a, sent, fine, read) = law.decrypt_returns w d s h in
      rw
        (
          law.makes (text "POST") (kms_url S g (text "decrypt")),
          sent,
          fine,
          read,
          law.base64_decodes d,
          kms_decrypt,
          do_request,
        )
        refl

  unwrap-Kept :
      (c : S.Cid) (m : Bytes) (s : C.State)
      → Kept S C K g Wraps Stored HasDoc s c m
      → (unwrap S C K g c s).0 ≡ ok m
  unfolding unwrap
  unwrap-Kept c m s k =
      rw (get-Stored (doc_id S g c) k.w s k.stored k.given, unwrap)
        (decrypt-Wraps k.w m _ (get-Keeps (doc_id S g c) k.w m s k.wraps))

  -- A field that is required and was read is not empty.
  required_field_ok :
      (c : Text) (w : Bytes)
      → (required_field K
          (text "encrypt ciphertext base64")
          (other (text "keyservice/gcpkms: encrypt returned empty ciphertext"))
          c)
        ≡ ok w
      → K.base64_decode c ≡ ok w
  required_field_ok [] w h = absurd (ground arith)
  required_field_ok (b ∷ c) w h = map_err-eq-ok _ _ h

  -- What is read of an encryption.
  encrypted :
      (a : HttpResponse) (w : Bytes)
      → encrypt_status K a ≡ ok w
      → (c : Text) × (a.status ≡ 200)
        × (K.encrypt_response a.body ≡ ok c)
        × (K.base64_decode c ≡ ok w)
  unfolding encrypt_status
  encrypted a w h = elim (Bool-cases (a.status == 200)) [
    | inr bad ↦ absurd (ground (arith, (rw (bad, encrypt_status) at h)))
    | inl fine ↦
        let (c, read, given) =
          >>=-eq-ok
            (map_err (gcp_decode_error (text "encrypt response")) (K.encrypt_response a.body)) _
            (rw (fine, encrypt_status) at h) in
        (c, ground (arith, fine), map_err-eq-ok _ _ read, required_field_ok c w given)
  ]

  created : (a : HttpResponse) → create_status a ≡ ok tt → (a.status ≡ 200) ⊎ (a.status ≡ 201)
  unfolding create_status
  created a h = ground arith

  wrap_and_create-Kept :
      (c : S.Cid) (m : Bytes) (s : C.State)
      → (wrap_and_create S C K g c m s).0 ≡ ok tt
      → Kept S C K g Wraps Stored HasDoc (wrap_and_create S C K g c m s).1 c m
  unfolding wrap_and_create kms_encrypt firestore_create_wrapped
  wrap_and_create-Kept c m s h = elim (Result-cases (kms_encrypt S C K g m s).0) [
    | inr (e, failed) ↦ absurd (ground (arith, (rw (failed, wrap_and_create) at h)))
    | inl (w, fine) ↦
        let s' = (kms_encrypt S C K g m s).1 in
        let (a, sent, read, same) =
          exchange_ok C gcp_prefix gcp_headers (text "POST") (kms_url S g (text "encrypt"))
            (some (plaintext (K.base64_encode m))) (encrypt_status K) s w fine in
        let (t, good, decoded, cipher) = encrypted a w read in
        let (wraps, given) = law.encrypt_wraps m w t s a sent good decoded cipher in
        let (a', sent', read', same') =
          exchange_ok C gcp_prefix gcp_headers (text "POST") (create_url S g (doc_id S g c))
            (some (document (K.base64_encode w))) create_status s' tt
            (rw (fine, wrap_and_create) at h) in
        rw (fine, wrap_and_create)
          (record {
            w = w;
            given = given;
            stored =
                subst (λ t. Stored t (doc_id S g c) w) (sym same')
                  (law.create_stores (doc_id S g c) w s' a' sent' (created a' read'));
            wraps =
                subst (λ t. Wraps t w m) (sym same')
                  (law.send_keeps _ s' w m (subst (λ t. Wraps t w m) (sym same) wraps));
          })
  ]

  pub gcpkms-Keeps : Keeps (gcpkms_envelope S C K g) (Kept S C K g Wraps Stored HasDoc)
  gcpkms-Keeps = record { persist_keeps = wrap_and_create-Kept; unwrap_kept = unwrap-Kept }
