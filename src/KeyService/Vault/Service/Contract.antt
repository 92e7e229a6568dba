-- ===== src/KeyService/Vault/Service/Contract.antt =====
-- `VaultTransit` of keyservice/vault.go is a key service.
use ortholog_artifact_store.Base.{
  Text, Bytes, text, text_eq, text_apart, Result-cases, ◌>>=◌, false, Option, none, some, ◌≡◌, ◌≢◌,
  inl, inr, refl,
}
use ortholog_artifact_store.Storage.{Storage}
use ortholog_artifact_store.Transport.{Client}
use ortholog_artifact_store.KeyService.{unless_missing}
use ortholog_artifact_store.KeyService.Rotation.{IsKeyService}
use ortholog_artifact_store.KeyService.Envelope.{Crypto}
use ortholog_artifact_store.KeyService.Envelope.Sealing.{IsCrypto}
use ortholog_artifact_store.KeyService.Envelope.Contract.{Forgets, Opens, envelope-IsKeyService}
use ortholog_artifact_store.KeyService.Vault.{
  VaultTransitConfig, VaultBody, allow_deletion, wrapped_data, vault_prefix, vault_headers,
  transit_key_name, key_url, config_url, data_url, metadata_url,
}
use ortholog_artifact_store.KeyService.Vault.Api.{
  VaultCodec, transit_delete_key, allow_and_delete, delete_key, kv_delete_metadata, lookup_status,
  config_status,
}
use ortholog_artifact_store.KeyService.Requests.{do_request}
use ortholog_artifact_store.KeyService.Requests.Outcomes.{do_request-Keeps}
use ortholog_artifact_store.KeyService.Vault.Service.{
  erase_key, erase_both, vault_envelope, vault_service,
}
use ortholog_artifact_store.KeyService.Vault.Service.Erasing.{Erases}
use ortholog_artifact_store.KeyService.Vault.Service.Erasure.{unwrap-erased}
use ortholog_artifact_store.KeyService.Vault.Service.Serving.{Serves, Kept}
use ortholog_artifact_store.KeyService.Vault.Service.Roundtrip.{vault-Keeps}

module _ (S : Storage) (g : VaultTransitConfig) where
  -- Two artifacts have Transit keys and secrets of their own.
  abbrev pub Apart : S.Cid → S.Cid → Type 0
  Apart c c' =
      (transit_key_name S g c ≢ transit_key_name S g c') × (data_url S g c ≢ data_url S g c')

module _ (S : Storage) (C : Client VaultBody) (K : VaultCodec) (g : VaultTransitConfig)
    (Wraps : C.State → Text → Text → Bytes → Type 0) (Stored : C.State → S.Cid → Text → Type 0)
    (law : Serves S C K g Wraps Stored) where
  abbrev Has : S.Cid → Text → Bytes → C.State → Type 0
  Has c w m s = Stored s c w × Wraps s (transit_key_name S g c) w m

  -- A request that neither deletes nor puts a secret.
  plain-Keeps :
      (method url : Text) (body : Option VaultBody) (c : S.Cid) (w : Text) (m : Bytes) (s : C.State)
      → (method ≡ text "DELETE" → ⊥)
      → ((w' : Text) → body ≡ some (wrapped_data w') → ⊥)
      → Has c w m s
      → Has c w m (do_request C vault_prefix (vault_headers g) method url body s).1
  plain-Keeps method url body c w m s other no_put =
      do_request-Keeps C vault_prefix (vault_headers g) method url body s (Has c w m)
        (λ (stored, wraps).
          (law.send_keeps_secret _ s c w other no_put stored, law.send_keeps _ s _ w m other wraps))

  not_delete : (method : Text) → text_eq method (text "DELETE") ≡ false → method ≡ text "DELETE" → ⊥
  not_delete method = text_apart method (text "DELETE")

  delete_key-Keeps :
      (n : Text) (c : S.Cid) (w : Text) (m : Bytes) (s : C.State)
      → n ≢ transit_key_name S g c
      → Has c w m s
      → Has c w m (delete_key S C K g n s).1
  unfolding delete_key
  delete_key-Keeps n c w m s apart =
      do_request-Keeps C vault_prefix (vault_headers g) (text "DELETE") (key_url S g n) none s
        (Has c w m)
        (λ (stored, wraps). (
          law.delete_key_keeps_secret n c w s stored,
          law.delete_key_keeps n (transit_key_name S g c) w m s apart wraps,
        ))

  allow_and_delete-Keeps :
      (n : Text) (c : S.Cid) (w : Text) (m : Bytes) (s : C.State)
      → n ≢ transit_key_name S g c
      → Has c w m s
      → Has c w m (allow_and_delete S C K g n s).1
  unfolding allow_and_delete text_eq
  allow_and_delete-Keeps n c w m s apart h =
      let (r, s') =
        do_request C vault_prefix (vault_headers g) (text "POST") (config_url S g n)
          (some allow_deletion) s in
      let has =
        plain-Keeps (text "POST") (config_url S g n) (some allow_deletion) c w m s
          (not_delete (text "POST") refl) (λ w' e. cc) h in
      elim (Result-cases (r >>= config_status)) [
        | inl (u, fine) ↦ rw (fine, allow_and_delete) (delete_key-Keeps n c w m s' apart has)
        | inr (e, bad) ↦ rw (bad, allow_and_delete) has
      ]

  key-Keeps :
      (n : Text) (c : S.Cid) (w : Text) (m : Bytes) (s : C.State)
      → n ≢ transit_key_name S g c
      → Has c w m s
      → Has c w m (transit_delete_key S C K g n s).1
  unfolding transit_delete_key text_eq
  key-Keeps n c w m s apart h =
      let (r, s') =
        do_request C vault_prefix (vault_headers g) (text "GET") (key_url S g n) none s in
      let has =
        plain-Keeps (text "GET") (key_url S g n) none c w m s (not_delete (text "GET") refl)
          (λ w' e. cc) h in
      elim (Result-cases (r >>= lookup_status)) [
        | inl (u, fine) ↦
            rw (fine, transit_delete_key) (allow_and_delete-Keeps n c w m s' apart has)
        | inr (e, bad) ↦ rw (bad, transit_delete_key) has
      ]

  secret-Keeps :
      (c c' : S.Cid) (w : Text) (m : Bytes) (s : C.State)
      → data_url S g c ≢ data_url S g c'
      → Has c' w m s
      → Has c' w m (kv_delete_metadata S C K g c s).1
  unfolding kv_delete_metadata
  secret-Keeps c c' w m s apart =
      do_request-Keeps C vault_prefix (vault_headers g) (text "DELETE") (metadata_url S g c) none s
        (Has c' w m)
        (λ (stored, wraps). (
          law.delete_secret_keeps c c' w s apart stored,
          law.delete_secret_keeps_key c (transit_key_name S g c') w m s wraps,
        ))

  erase_both-Keeps :
      (c c' : S.Cid) (w : Text) (m : Bytes) (s : C.State)
      → Apart S g c c'
      → Has c' w m s
      → Has c' w m (erase_both S C K g c s).1
  unfolding erase_both erase_key
  erase_both-Keeps c c' w m s (names, urls) h =
      let (r, s') = kv_delete_metadata S C K g c s in
      let has = secret-Keeps c c' w m s urls h in
      elim (Result-cases (unless_missing r)) [
        | inl (u, fine) ↦
            rw (fine, erase_both) (key-Keeps (transit_key_name S g c) c' w m s' names has)
        | inr (e, bad) ↦ rw (bad, erase_both) has
      ]

module _ (S : Storage) (C : Client VaultBody) (K : VaultCodec) (g : VaultTransitConfig)
    (X : Crypto C.State) (Wraps : C.State → Text → Text → Bytes → Type 0)
    (Stored : C.State → S.Cid → Text → Type 0) (HasKey : C.State → Text → Type 0)
    (HasSecret : C.State → S.Cid → Type 0) (crypto : IsCrypto X) (law : Serves S C K g Wraps Stored)
    (erases : Erases S C g HasKey HasSecret) where
  abbrev VaultKept : C.State → S.Cid → Bytes → Type 0
  VaultKept = Kept S C g Wraps Stored

  vault-Forgets : Forgets (vault_envelope S C K g) VaultKept (Apart S g)
  vault-Forgets = record {
    erase_missing = unwrap-erased S C K g HasKey HasSecret erases;
    erase_keeps = λ c c' m s apart k.
        let (stored, wraps) =
          erase_both-Keeps S C K g Wraps Stored law c c' k.w m s apart (k.stored, k.wraps) in
        record { w = k.w; given = k.given; stored = stored; wraps = wraps };
  }

  -- While Vault serves as it documents, `VaultTransit` keeps the contract of a key service: what it
  -- has encrypted under a new key it decrypts; the deletion of another artifact, with a key and a
  -- secret of its own, leaves that so; and after a deletion that succeeded it reports a missing key
  -- for the artifact.
  pub vault-IsKeyService :
      IsKeyService
        (vault_service S C K g X)
        (Opens S X (vault_envelope S C K g) VaultKept)
        (Apart S g)
  vault-IsKeyService =
      envelope-IsKeyService S X (vault_envelope S C K g) VaultKept crypto
        (vault-Keeps S C K g Wraps Stored law) (Apart S g) vault-Forgets
