-- ===== src/KeyService/Vault/Service/Serving.antt =====
-- What Vault documents while it serves, for keyservice/vault.go.
use ortholog_artifact_store.Base.{Text, Bytes, text, is_empty, ok, false, none, some, [], ◌≡◌, ◌≢◌}
use ortholog_artifact_store.Storage.{Storage}
use ortholog_artifact_store.Transport.{HttpRequest, HttpResponse, Client}
use ortholog_artifact_store.KeyService.Vault.{
  VaultTransitConfig, VaultBody, plaintext, ciphertext, wrapped_data, vault_prefix, vault_headers,
  transit_key_name, key_url, encrypt_url, decrypt_url, data_url, metadata_url,
}
use ortholog_artifact_store.KeyService.Vault.Api.{VaultCodec, put_status}
use ortholog_artifact_store.KeyService.Requests.{service_request}

module _ (S : Storage) (C : Client VaultBody) (K : VaultCodec) (g : VaultTransitConfig)
    (Wraps : C.State → Text → Text → Bytes → Type 0)
    (Stored : C.State → S.Cid → Text → Type 0) where
  -- What Vault documents while it serves, where `Wraps s n w d` says that the key `n` opens `w` to
  -- `d`, and `Stored s c w` that `w` is the secret of `c`; and what base64 does. A deletion of one
  -- key or secret leaves the others as they are.
  pub record Serves : Type 0 where
    pub makes : (m u : Text) → C.new_request m u ≡ none
    pub encrypt_wraps :
        (n : Text) (d : Bytes) (s : C.State) (a : HttpResponse) (w : Text)
        → (C.send
            (service_request C vault_prefix
              (vault_headers g)
              (text "POST")
              (encrypt_url S g n)
              (some (plaintext (K.base64_encode d))))
            s).0
          ≡ ok a
        → a.status ≡ 200
        → K.encrypt_response a.body ≡ ok w
        → Wraps
            (C.send
              (service_request C vault_prefix
                (vault_headers g)
                (text "POST")
                (encrypt_url S g n)
                (some (plaintext (K.base64_encode d))))
              s).1
            n
            w
            d
    pub put_stores :
        (c : S.Cid) (w : Text) (s : C.State) (a : HttpResponse)
        → (C.send
            (service_request C vault_prefix
              (vault_headers g)
              (text "POST")
              (data_url S g c)
              (some (wrapped_data w)))
            s).0
          ≡ ok a
        → put_status a ≡ ok tt
        → Stored
            (C.send
              (service_request C vault_prefix
                (vault_headers g)
                (text "POST")
                (data_url S g c)
                (some (wrapped_data w)))
              s).1
            c
            w
    pub send_keeps :
        (r : HttpRequest VaultBody) (s : C.State) (n w : Text) (d : Bytes)
        → (r.method ≡ text "DELETE" → ⊥)
        → Wraps s n w d
        → Wraps (C.send r s).1 n w d
    pub send_keeps_secret :
        (r : HttpRequest VaultBody) (s : C.State) (c : S.Cid) (w : Text)
        → (r.method ≡ text "DELETE" → ⊥)
        → ((w' : Text) → r.body ≡ some (wrapped_data w') → ⊥)
        → Stored s c w
        → Stored (C.send r s).1 c w
    pub delete_key_keeps :
        (n n' w : Text) (d : Bytes) (s : C.State)
        → n ≢ n'
        → Wraps s n' w d
        → Wraps
            (C.send
              (service_request C vault_prefix
                (vault_headers g)
                (text "DELETE")
                (key_url S g n)
                none)
              s).1
            n'
            w
            d
    pub delete_key_keeps_secret :
        (n : Text) (c : S.Cid) (w : Text) (s : C.State)
        → Stored s c w
        → Stored
            (C.send
              (service_request C vault_prefix
                (vault_headers g)
                (text "DELETE")
                (key_url S g n)
                none)
              s).1
            c
            w
    pub delete_secret_keeps :
        (c c' : S.Cid) (w : Text) (s : C.State)
        → data_url S g c ≢ data_url S g c'
        → Stored s c' w
        → Stored
            (C.send
              (service_request C vault_prefix
                (vault_headers g)
                (text "DELETE")
                (metadata_url S g c)
                none)
              s).1
            c'
            w
    pub delete_secret_keeps_key :
        (c : S.Cid) (n w : Text) (d : Bytes) (s : C.State)
        → Wraps s n w d
        → Wraps
            (C.send
              (service_request C vault_prefix
                (vault_headers g)
                (text "DELETE")
                (metadata_url S g c)
                none)
              s).1
            n
            w
            d
    pub get_returns :
        (c : S.Cid) (w : Text) (s : C.State)
        → Stored s c w
        → (a : HttpResponse) × ((C.send
              (service_request C vault_prefix (vault_headers g) (text "GET") (data_url S g c) none)
              s).0
            ≡ ok a)
          × (a.status ≡ 200)
          × (K.kv_response a.body ≡ ok (w, []))
    pub decrypt_returns :
        (n w : Text) (d : Bytes) (s : C.State)
        → Wraps s n w d
        → (a : HttpResponse) × ((C.send
              (service_request C vault_prefix
                (vault_headers g)
                (text "POST")
                (decrypt_url S g n)
                (some (ciphertext w)))
              s).0
            ≡ ok a)
          × (a.status ≡ 200)
          × (K.decrypt_response a.body ≡ ok (K.base64_encode d))
    pub base64_decodes : (d : Bytes) → K.base64_decode (K.base64_encode d) ≡ ok d

module _ (S : Storage) (C : Client VaultBody) (g : VaultTransitConfig)
    (Wraps : C.State → Text → Text → Bytes → Type 0)
    (Stored : C.State → S.Cid → Text → Type 0) where
  -- The key and the nonce of the artifact are kept, wrapped.
  pub record Kept (s : C.State) (c : S.Cid) (m : Bytes) : Type 0 where
    pub w : Text
    pub given : is_empty w ≡ false
    pub stored : Stored s c w
    pub wraps : Wraps s (transit_key_name S g c) w m
