-- ===== src/KeyService/Vault/Service/Roundtrip.antt =====
-- The wrapped keys of keyservice/vault.go, while Vault serves: what is wrapped and put is fetched
-- and unwrapped.
use mathlib.Core.Path.{subst}
use ortholog_artifact_store.Base.{
  Text, Bytes, text, text_eq, text_apart, is_empty, Result-cases, Bool-cases, ok, map_err,
  map_err-eq-ok, >>=-eq-ok, ok-injective, false, some, [], ◌∷◌, ◌==◌, ◌≡◌, inl, inr, refl, sym,
  arith,
}
use ortholog_artifact_store.Storage.{Storage}
use ortholog_artifact_store.Transport.{HttpResponse, Client}
use ortholog_artifact_store.KeyService.Vault.{
  VaultTransitConfig, VaultBody, plaintext, wrapped_data, vault_prefix, vault_headers,
  transit_key_name, encrypt_url, decrypt_url, data_url,
}
use ortholog_artifact_store.KeyService.Vault.Api.{
  VaultCodec, transit_create_key, transit_encrypt, transit_decrypt, kv_put_wrapped, kv_get_wrapped,
  present_ciphertext, decode_error, get_status, decrypt_status, encrypt_status, put_status,
}
use ortholog_artifact_store.KeyService.Requests.{do_request}
use ortholog_artifact_store.KeyService.Requests.Outcomes.{exchange_ok}
use ortholog_artifact_store.KeyService.Vault.Service.{
  unwrap, store_wrapped, wrap_key, create_and_wrap, roll_back, vault_envelope, generate_and_encrypt,
  decrypt,
}
use ortholog_artifact_store.KeyService.Envelope.{Crypto, ServiceState}
use ortholog_artifact_store.KeyService.Envelope.Sealing.{IsCrypto}
use ortholog_artifact_store.KeyService.Envelope.Contract.{Keeps, decrypt-generate}
use ortholog_artifact_store.KeyService.Vault.Service.Serving.{Serves, Kept}

module _ (S : Storage) (C : Client VaultBody) (K : VaultCodec) (g : VaultTransitConfig)
    (Wraps : C.State → Text → Text → Bytes → Type 0) (Stored : C.State → S.Cid → Text → Type 0)
    (law : Serves S C K g Wraps Stored) where
  get-Stored :
      (c : S.Cid) (w : Text) (s : C.State)
      → Stored s c w
      → is_empty w ≡ false
      → (kv_get_wrapped S C K g c s).0 ≡ ok w
  unfolding kv_get_wrapped do_request get_status
  get-Stored c w s stored given =
      let (a, sent, fine, read) = law.get_returns c w s stored in
      rw
        (
          law.makes (text "GET") (data_url S g c),
          sent,
          fine,
          read,
          given,
          kv_get_wrapped,
          do_request,
        )
        refl

  get-Keeps :
      (c : S.Cid) (s : C.State) (n w : Text) (d : Bytes)
      → Wraps s n w d
      → Wraps (kv_get_wrapped S C K g c s).1 n w d
  unfolding kv_get_wrapped do_request text_eq
  get-Keeps c s n w d h =
      rw (law.makes (text "GET") (data_url S g c), kv_get_wrapped, do_request)
        (law.send_keeps _ s n w d (text_apart (text "GET") (text "DELETE") refl) h)

  decrypt-Wraps :
      (n w : Text) (d : Bytes) (s : C.State)
      → Wraps s n w d
      → (transit_decrypt S C K g n w s).0 ≡ ok d
  unfolding transit_decrypt do_request decrypt_status
  decrypt-Wraps n w d s h =
      let (a, sent, fine, read) = law.decrypt_returns n w d s h in
      rw
        (
          law.makes (text "POST") (decrypt_url S g n),
          sent,
          fine,
          read,
          law.base64_decodes d,
          transit_decrypt,
          do_request,
        )
        refl

  unwrap-Kept :
      (c : S.Cid) (m : Bytes) (s : C.State)
      → Kept S C g Wraps Stored s c m
      → (unwrap S C K g c s).0 ≡ ok m
  unfolding unwrap
  unwrap-Kept c m s k =
      rw (get-Stored c k.w s k.stored k.given, unwrap)
        (decrypt-Wraps _ k.w m _ (get-Keeps c s _ k.w m k.wraps))

  posts : text "POST" ≡ text "DELETE" → ⊥
  unfolding text_eq
  posts = text_apart (text "POST") (text "DELETE") refl

  present : (c w : Text) → present_ciphertext c ≡ ok w → (c ≡ w) × (is_empty w ≡ false)
  present [] w h = absurd (ground arith)
  present (b ∷ c) w h = (ok-injective h, subst (λ t. is_empty t ≡ false) (ok-injective h) refl)

  -- A wrapped key that is read is not empty.
  encrypted :
      (a : HttpResponse) (w : Text)
      → encrypt_status K a ≡ ok w
      → (a.status ≡ 200) × (K.encrypt_response a.body ≡ ok w) × (is_empty w ≡ false)
  unfolding encrypt_status
  encrypted a w h = elim (Bool-cases (a.status == 200)) [
    | inr bad ↦ absurd (ground (arith, (rw (bad, encrypt_status) at h)))
    | inl fine ↦
        let (c, read, given) =
          >>=-eq-ok (map_err (decode_error (text "encrypt response")) (K.encrypt_response a.body)) _
            (rw (fine, encrypt_status) at h) in
        let (same, full) = present c w given in
        (
          ground (arith, fine),
          subst (λ t. K.encrypt_response a.body ≡ ok t) same (map_err-eq-ok _ _ read),
          full,
        )
  ]

  store_wrapped-Kept :
      (c : S.Cid) (m : Bytes) (w : Text) (s : C.State)
      → is_empty w ≡ false
      → Wraps s (transit_key_name S g c) w m
      → (store_wrapped S C K g c w s).0 ≡ ok tt
      → Kept S C g Wraps Stored (store_wrapped S C K g c w s).1 c m
  unfolding store_wrapped roll_back kv_put_wrapped
  store_wrapped-Kept c m w s given wraps h = elim (Result-cases (kv_put_wrapped S C K g c w s).0) [
    | inr (e, failed) ↦ absurd (ground (arith, (rw (failed, store_wrapped) at h)))
    | inl (u, fine) ↦
        let (a, sent, put, same) =
          exchange_ok C vault_prefix (vault_headers g) (text "POST") (data_url S g c)
            (some (wrapped_data w)) put_status s u fine in
        rw (fine, store_wrapped)
          (record {
            w = w;
            given = given;
            stored = subst (λ t. Stored t c w) (sym same) (law.put_stores c w s a sent put);
            wraps =
                subst (λ t. Wraps t (transit_key_name S g c) w m) (sym same)
                  (law.send_keeps _ s _ w m posts wraps);
          })
  ]

  wrap_key-Kept :
      (c : S.Cid) (m : Bytes) (s : C.State)
      → (wrap_key S C K g c m s).0 ≡ ok tt
      → Kept S C g Wraps Stored (wrap_key S C K g c m s).1 c m
  unfolding wrap_key transit_encrypt
  wrap_key-Kept c m s h =
      elim (Result-cases (transit_encrypt S C K g (transit_key_name S g c) m s).0) [
        | inr (e, failed) ↦ absurd (ground (arith, (rw (failed, wrap_key, roll_back) at h)))
        | inl (w, fine) ↦
            let (a, sent, read, same) =
              exchange_ok C vault_prefix (vault_headers g) (text "POST")
                (encrypt_url S g (transit_key_name S g c)) (some (plaintext (K.base64_encode m)))
                (encrypt_status K) s w fine in
            let (good, decoded, given) = encrypted a w read in
            rw (fine, wrap_key)
              (store_wrapped-Kept c m w _ given
                (subst (λ t. Wraps t (transit_key_name S g c) w m) (sym same)
                  (law.encrypt_wraps (transit_key_name S g c) m s a w sent good decoded))
                (rw (fine, wrap_key) at h))
      ]

  create_and_wrap-Kept :
      (c : S.Cid) (m : Bytes) (s : C.State)
      → (create_and_wrap S C K g c m s).0 ≡ ok tt
      → Kept S C g Wraps Stored (create_and_wrap S C K g c m s).1 c m
  unfolding create_and_wrap
  create_and_wrap-Kept c m s h =
      elim (Result-cases (transit_create_key S C K g (transit_key_name S g c) s).0) [
        | inr (e, failed) ↦ absurd (ground (arith, (rw (failed, create_and_wrap) at h)))
        | inl (u, fine) ↦
            rw (fine, create_and_wrap) (wrap_key-Kept c m _ (rw (fine, create_and_wrap) at h))
      ]

  pub vault-Keeps : Keeps (vault_envelope S C K g) (Kept S C g Wraps Stored)
  vault-Keeps = record { persist_keeps = create_and_wrap-Kept; unwrap_kept = unwrap-Kept }

  -- While Vault serves, what was encrypted under a new key is decrypted again: a `Decrypt` of the
  -- CID and the ciphertext right after they were generated succeeds and gives the plaintext.
  pub decrypt-generate_and_encrypt :
      (X : Crypto C.State) (crypto : IsCrypto X) (p : Bytes) (v : ServiceState C.State) (c : S.Cid)
      (ct : Bytes)
      → (generate_and_encrypt S C K g X p v).0 ≡ ok (c, ct)
      → (decrypt S C K g X c ct (generate_and_encrypt S C K g X p v).1).0 ≡ ok p
  unfolding generate_and_encrypt decrypt
  decrypt-generate_and_encrypt X crypto =
      decrypt-generate S X (vault_envelope S C K g) (Kept S C g Wraps Stored) crypto vault-Keeps
