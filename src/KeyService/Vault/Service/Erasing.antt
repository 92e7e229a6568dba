-- ===== src/KeyService/Vault/Service/Erasing.antt =====
-- What Vault documents of the keys and secrets that it deletes, for keyservice/vault.go.
use ortholog_artifact_store.Base.{Text, text, ok, none, some, ◌≡◌, ◌⊎◌}
use ortholog_artifact_store.Storage.{Storage}
use ortholog_artifact_store.Transport.{HttpRequest, HttpResponse, Client}
use ortholog_artifact_store.KeyService.Vault.{
  VaultTransitConfig, VaultBody, new_key, wrapped_data, vault_prefix, vault_headers, key_url,
  data_url, metadata_url,
}
use ortholog_artifact_store.KeyService.Requests.{service_request}

module _ (S : Storage) (C : Client VaultBody) (g : VaultTransitConfig)
    (HasKey : C.State → Text → Type 0) (HasSecret : C.State → S.Cid → Type 0) where
  -- What Vault documents: keys are created and secrets are put, and come from nothing else; a
  -- deletion that is answered by 200, 204 or 404 leaves none; a key that is answered by 404 is not
  -- there; and a secret that is not there is answered by 404.
  pub record Erases : Type 0 where
    pub makes : (m u : Text) → C.new_request m u ≡ none
    pub key_created :
        (r : HttpRequest VaultBody) (s : C.State) (n : Text)
        → HasKey (C.send r s).1 n
        → HasKey s n ⊎ (r.body ≡ some new_key)
    pub secret_put :
        (r : HttpRequest VaultBody) (s : C.State) (c : S.Cid)
        → HasSecret (C.send r s).1 c
        → HasSecret s c ⊎ ((w : Text) × (r.body ≡ some (wrapped_data w)))
    pub key_deleted :
        (n : Text) (s : C.State) (a : HttpResponse)
        → (C.send
            (service_request C vault_prefix (vault_headers g) (text "DELETE") (key_url S g n) none)
            s).0
          ≡ ok a
        → (a.status ≡ 200) ⊎ (a.status ≡ 204) ⊎ (a.status ≡ 404)
        → HasKey
            (C.send
              (service_request C vault_prefix
                (vault_headers g)
                (text "DELETE")
                (key_url S g n)
                none)
              s).1
            n
        → ⊥
    pub key_unknown :
        (n : Text) (s : C.State) (a : HttpResponse)
        → (C.send
            (service_request C vault_prefix (vault_headers g) (text "GET") (key_url S g n) none)
            s).0
          ≡ ok a
        → a.status ≡ 404
        → HasKey
            (C.send
              (service_request C vault_prefix (vault_headers g) (text "GET") (key_url S g n) none)
              s).1
            n
        → ⊥
    pub secret_deleted :
        (c : S.Cid) (s : C.State) (a : HttpResponse)
        → (C.send
            (service_request C vault_prefix
              (vault_headers g)
              (text "DELETE")
              (metadata_url S g c)
              none)
            s).0
          ≡ ok a
        → (a.status ≡ 200) ⊎ (a.status ≡ 204) ⊎ (a.status ≡ 404)
        → HasSecret
            (C.send
              (service_request C vault_prefix
                (vault_headers g)
                (text "DELETE")
                (metadata_url S g c)
                none)
              s).1
            c
        → ⊥
    pub secret_unknown :
        (c : S.Cid) (s : C.State)
        → (HasSecret s c → ⊥)
        → (a : HttpResponse) × ((C.send
              (service_request C vault_prefix (vault_headers g) (text "GET") (data_url S g c) none)
              s).0
            ≡ ok a)
          × (a.status ≡ 404)
