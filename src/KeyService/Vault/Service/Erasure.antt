-- ===== src/KeyService/Vault/Service/Erasure.antt =====
-- What `Delete` of keyservice/vault.go erases: the Transit key and the wrapped key of an artifact.
use mathlib.Core.Path.{subst}
use ortholog_artifact_store.Base.{
  Text, Bytes, text, Result-cases, ok, err, ◌>>=◌, Option, none, some, ◌≡◌, inl, inr, refl, arith,
}
use ortholog_artifact_store.Storage.{Storage}
use ortholog_artifact_store.Transport.{Client}
use ortholog_artifact_store.KeyService.{key_not_found, unless_missing}
use ortholog_artifact_store.KeyService.Vault.{
  VaultTransitConfig, VaultBody, allow_deletion, wrapped_data, vault_prefix, vault_headers,
  transit_key_name, key_url, config_url, data_url, metadata_url,
}
use ortholog_artifact_store.KeyService.Vault.Api.{
  VaultCodec, transit_delete_key, allow_and_delete, delete_key, kv_delete_metadata, kv_get_wrapped,
  get_status, lookup_status, config_status,
}
use ortholog_artifact_store.KeyService.Vault.Exchange.{deleted, looked_up, configured}
use ortholog_artifact_store.KeyService.Requests.{service_request, do_request}
use ortholog_artifact_store.KeyService.Requests.Outcomes.{do_request_cases, do_request-adds}
use ortholog_artifact_store.KeyService.Vault.Service.{
  erase_key, erase_both, delete, decrypt, unwrap, vault_envelope,
}
use ortholog_artifact_store.KeyService.Envelope.{Crypto, ServiceState}
use ortholog_artifact_store.KeyService.Envelope.Contract.{decrypt-missing}
use ortholog_artifact_store.KeyService.Vault.Service.Erasing.{Erases}

module _ (S : Storage) (C : Client VaultBody) (K : VaultCodec) (g : VaultTransitConfig)
    (HasKey : C.State → Text → Type 0) (HasSecret : C.State → S.Cid → Type 0)
    (law : Erases S C g HasKey HasSecret) where
  delete_key-erases :
      (n : Text) (s : C.State)
      → unless_missing (delete_key S C K g n s).0 ≡ ok tt
      → HasKey (delete_key S C K g n s).1 n
      → ⊥
  unfolding delete_key
  delete_key-erases n s h held =
      elim (do_request_cases C vault_prefix (vault_headers g) (text "DELETE") (key_url S g n) none
        s) [
          | inl (a, (sent, got, same)) ↦
              law.key_deleted n s a sent
                (deleted (text "transit/keys delete") a (rw (got, delete_key) at h))
                (subst (λ t. HasKey t n) same held)
          | inr (e, failed, found) ↦ absurd (ground (arith, found, (rw (failed, delete_key) at h)))
        ]

  allow_and_delete-erases :
      (n : Text) (s : C.State)
      → unless_missing (allow_and_delete S C K g n s).0 ≡ ok tt
      → HasKey (allow_and_delete S C K g n s).1 n
      → ⊥
  unfolding allow_and_delete
  allow_and_delete-erases n s h held =
      elim (do_request_cases C vault_prefix (vault_headers g) (text "POST") (config_url S g n)
        (some allow_deletion) s) [
          | inl (a, (sent, got, same)) ↦ elim (Result-cases (config_status a)) [
            | inl (u, fine) ↦
                delete_key-erases n _ (rw (got, fine, allow_and_delete) at h)
                  (rw (got, fine, allow_and_delete) at held)
            | inr (e, bad) ↦
                let good = configured a (rw bad (rw (got, bad, allow_and_delete) at h)) in
                absurd (ground (arith, good, bad))
          ]
          | inr (e, failed, found) ↦
              absurd (ground (arith, found, (rw (failed, allow_and_delete) at h)))
        ]

  key-erases :
      (n : Text) (s : C.State)
      → unless_missing (transit_delete_key S C K g n s).0 ≡ ok tt
      → HasKey (transit_delete_key S C K g n s).1 n
      → ⊥
  unfolding transit_delete_key
  key-erases n s h held =
      elim (do_request_cases C vault_prefix (vault_headers g) (text "GET") (key_url S g n) none s) [
        | inr (e, failed, found) ↦
            absurd (ground (arith, found, (rw (failed, transit_delete_key) at h)))
        | inl (a, (sent, got, same)) ↦ elim (Result-cases (lookup_status a)) [
          | inl (u, fine) ↦
              allow_and_delete-erases n _ (rw (got, fine, transit_delete_key) at h)
                (rw (got, fine, transit_delete_key) at held)
          | inr (e, bad) ↦ elim (looked_up a (rw bad (rw (got, bad, transit_delete_key) at h))) [
            | inl good ↦ absurd (ground (arith, good, bad))
            | inr unknown ↦
                law.key_unknown n s a sent unknown
                  (subst (λ t. HasKey t n) same (rw (got, bad, transit_delete_key) at held))
          ]
        ]
      ]

  secret-erases :
      (c : S.Cid) (s : C.State)
      → unless_missing (kv_delete_metadata S C K g c s).0 ≡ ok tt
      → HasSecret (kv_delete_metadata S C K g c s).1 c
      → ⊥
  unfolding kv_delete_metadata
  secret-erases c s h held =
      elim (do_request_cases C vault_prefix (vault_headers g) (text "DELETE") (metadata_url S g c)
        none s) [
          | inl (a, (sent, got, same)) ↦
              law.secret_deleted c s a sent
                (deleted (text "kv-v2 metadata delete") a (rw (got, kv_delete_metadata) at h))
                (subst (λ t. HasSecret t c) same held)
          | inr (e, failed, found) ↦
              absurd (ground (arith, found, (rw (failed, kv_delete_metadata) at h)))
        ]

  -- A request that puts no secret adds none.
  secret-Keeps :
      (m u : Text) (b : Option VaultBody) (s : C.State) (c : S.Cid)
      → ((w : Text) → b ≡ some (wrapped_data w) → ⊥)
      → HasSecret (do_request C vault_prefix (vault_headers g) m u b s).1 c
      → HasSecret s c
  secret-Keeps m u b s c other =
      do_request-adds C vault_prefix (vault_headers g) m u b s (λ t. HasSecret t c)
        (λ h. elim (law.secret_put (service_request C vault_prefix (vault_headers g) m u b) s c h) [
          | inl old ↦ old
          | inr (w, put) ↦ absurd (other w put)
        ])

  allow_and_delete-Keeps :
      (n : Text) (s : C.State) (c : S.Cid)
      → HasSecret (allow_and_delete S C K g n s).1 c
      → HasSecret s c
  unfolding allow_and_delete delete_key
  allow_and_delete-Keeps n s c h =
      let (r, s') =
        do_request C vault_prefix (vault_headers g) (text "POST") (config_url S g n)
          (some allow_deletion) s in
      secret-Keeps _ _ (some allow_deletion) s c (λ w e. cc)
        (elim (Result-cases (r >>= config_status)) [
          | inl (u, fine) ↦
              secret-Keeps (text "DELETE") (key_url S g n) none s' c (λ w e. cc)
                (rw (fine, allow_and_delete) at h)
          | inr (e, bad) ↦ rw (bad, allow_and_delete) at h
        ])

  key-Keeps :
      (n : Text) (s : C.State) (c : S.Cid)
      → HasSecret (transit_delete_key S C K g n s).1 c
      → HasSecret s c
  unfolding transit_delete_key
  key-Keeps n s c h =
      let (r, s') =
        do_request C vault_prefix (vault_headers g) (text "GET") (key_url S g n) none s in
      secret-Keeps _ _ none s c (λ w e. cc)
        (elim (Result-cases (r >>= lookup_status)) [
          | inl (u, fine) ↦ allow_and_delete-Keeps n s' c (rw (fine, transit_delete_key) at h)
          | inr (e, bad) ↦ rw (bad, transit_delete_key) at h
        ])

  get-missing :
      (c : S.Cid) (s : C.State)
      → (HasSecret s c → ⊥)
      → (kv_get_wrapped S C K g c s).0 ≡ err key_not_found
  unfolding kv_get_wrapped do_request get_status
  get-missing c s gone =
      let (a, sent, missing) = law.secret_unknown c s gone in
      rw (law.makes (text "GET") (data_url S g c), sent, missing, kv_get_wrapped, do_request) refl

  erase_both-erases :
      (c : S.Cid) (s : C.State)
      → (erase_both S C K g c s).0 ≡ ok tt
      → ¬ HasKey (erase_both S C K g c s).1 (transit_key_name S g c)
        × ¬ HasSecret (erase_both S C K g c s).1 c
  unfolding erase_both erase_key
  erase_both-erases c s h =
      let (r, s') = kv_delete_metadata S C K g c s in
      elim (Result-cases (unless_missing r)) [
        | inr (e, failed) ↦ absurd (ground (arith, (rw (failed, erase_both) at h)))
        | inl (u, fine) ↦ (
          λ held.
              key-erases (transit_key_name S g c) s' (rw (fine, erase_both) at h)
                (rw (fine, erase_both) at held),
          λ held.
              secret-erases c s fine
                (key-Keeps (transit_key_name S g c) s' c (rw (fine, erase_both) at held)),
        )
      ]

  pub unwrap-erased :
      (c : S.Cid) (s : C.State)
      → (erase_both S C K g c s).0 ≡ ok tt
      → (unwrap S C K g c (erase_both S C K g c s).1).0 ≡ err key_not_found
  unfolding unwrap
  unwrap-erased c s h =
      rw (get-missing c (erase_both S C K g c s).1 (erase_both-erases c s h).1, unwrap) refl

  -- Of a Vault that keeps what it documents, a deletion that succeeds leaves neither the Transit
  -- key nor the wrapped key of the artifact, and every later decryption reports a missing key.
  pub delete-erases :
      (X : Crypto C.State) (c : S.Cid) (ct : Bytes) (v : ServiceState C.State)
      → (delete S C K g X c v).0 ≡ ok tt
      → ¬ HasKey (delete S C K g X c v).1.world (transit_key_name S g c)
        × ¬ HasSecret (delete S C K g X c v).1.world c
        × ((decrypt S C K g X c ct (delete S C K g X c v).1).0 ≡ err key_not_found)
  unfolding delete decrypt
  delete-erases X c ct v h =
      let (no_key, no_secret) = erase_both-erases c v.world h in
      (
        no_key,
        no_secret,
        decrypt-missing S X (vault_envelope S C K g) c ct (delete S C K g X c v).1
            (unwrap-erased c v.world h),
      )
