-- ===== src/Tests/ToyVault.antt =====
-- A Vault that keeps its keys and its secrets by their URLs.
use ortholog_artifact_store.Base.Dict.{Dict, lookup, insert, erase, lookup-erase}
use ortholog_artifact_store.Base.{
  ℕ, Bytes, has_prefix, zero, suc, length, drop, Text, text, text_eq, text_eq_iff, Result, ok, err,
  Bool, true, false, Option, none, some, [], ◌∷◌, ◌++◌, ◌≡◌, ◌⊎◌, inl, inr, refl, arith,
  if◌then◌else◌,
}
use ortholog_artifact_store.Transport.{HttpResponse, Client}
use ortholog_artifact_store.KeyService.{key_not_found}
use ortholog_artifact_store.KeyService.Vault.{
  VaultTransitConfig, VaultBody, new_key, allow_deletion, plaintext, ciphertext, wrapped_data,
  key_url, data_url, metadata_url, transit_key_name,
}
use ortholog_artifact_store.KeyService.Vault.Api.{VaultCodec}
use ortholog_artifact_store.KeyService.Vault.Service.{delete, decrypt}
use ortholog_artifact_store.KeyService.Envelope.{Crypto, ServiceState}
use ortholog_artifact_store.KeyService.Vault.Service.Erasing.{Erases}
use ortholog_artifact_store.KeyService.Vault.Service.Erasure.{delete-erases}
use ortholog_artifact_store.Tests.Letters.{letters, reply, found}

abbrev pub settings : VaultTransitConfig
settings = record {
  endpoint = text "v";
  token = text "t";
  transit_mount = text "transit";
  kv_mount = text "secret";
  kv_namespace = text "ak";
}

-- The Transit keys and the wrapped keys, by their URLs.
abbrev pub World : Type 0
World = Dict (Unit {0}) × Dict Text

abbrev there : {A : Type 0} → Option A → Result Text HttpResponse
there none = reply 404 [] none
there (some x) = reply 200 [] none

abbrev pub read : Text → World → Result Text HttpResponse
read u (keys, secrets) =
    if has_prefix u (text "v/v1/transit")
    then there (lookup u keys)
    else found (lookup u secrets) none

-- The secrets are deleted by their metadata.
abbrev pub drop_secret : Text → Dict Text → Dict Text
drop_secret u secrets =
    if text_eq u (metadata_url letters settings true)
    then erase (data_url letters settings true) secrets
    else if text_eq u (metadata_url letters settings false)
    then erase (data_url letters settings false) secrets
    else secrets

abbrev pub answered : Text → Text → Option VaultBody → World → Result Text HttpResponse × World
answered m u (some new_key) (keys, secrets) = (reply 204 [] none, (insert u tt keys, secrets))
answered m u (some (wrapped_data w)) (keys, secrets) =
    (reply 204 [] none, (keys, insert u w secrets))
answered m u (some allow_deletion) s = (reply 204 [] none, s)
answered m u (some (plaintext p)) s = (reply 200 p none, s)
answered m u (some (ciphertext c)) s = (reply 200 c none, s)
answered m u none (keys, secrets) =
    if text_eq m (text "DELETE")
    then (reply 204 [] none, (erase u keys, drop_secret u secrets))
    else (read u (keys, secrets), (keys, secrets))

abbrev pub vault : Client VaultBody
vault = record {
  State = World;
  new_request = λ m u. none;
  send = λ r s. answered r.method r.url r.body s;
}

abbrev pub HasKey : World → Text → Type 0
HasKey s n = lookup (key_url letters settings n) s.0 ≡ some tt

abbrev pub HasSecret : World → Bool → Type 0
HasSecret s c = (w : Text) × (lookup (data_url letters settings c) s.1 ≡ some w)

keys-Keeps :
    (m u : Text) (b : Option VaultBody) (s : World) (n : Text)
    → HasKey (answered m u b s).1 n
    → HasKey s n ⊎ (b ≡ some new_key)
keys-Keeps m u (some new_key) s n h = inr refl
keys-Keeps m u (some (wrapped_data w)) s n h = inl h
keys-Keeps m u (some allow_deletion) s n h = inl h
keys-Keeps m u (some (plaintext p)) s n h = inl h
keys-Keeps m u (some (ciphertext c)) s n h = inl h
keys-Keeps m u none (keys, secrets) n h =
    inl (ground (arith, lookup-erase u (key_url letters settings n) keys))

found-erase :
    {V : Type 0} (k j : Text) (d : Dict V) (w : V)
    → lookup j (erase k d) ≡ some w
    → lookup j d ≡ some w
found-erase k j d w h = ground (arith, lookup-erase k j d)

drop_secret-Keeps :
    (u j : Text) (d : Dict Text) (w : Text)
    → lookup j (drop_secret u d) ≡ some w
    → lookup j d ≡ some w
drop_secret-Keeps u j d w h = ground (
  arith,
  found-erase (data_url letters settings true) j d w,
  found-erase (data_url letters settings false) j d w,
)

secrets-Keeps :
    (m u : Text) (b : Option VaultBody) (s : World) (c : Bool)
    → HasSecret (answered m u b s).1 c
    → HasSecret s c ⊎ ((w : Text) × (b ≡ some (wrapped_data w)))
secrets-Keeps m u (some new_key) s c h = inl h
secrets-Keeps m u (some (wrapped_data w)) s c h = inr (w, refl)
secrets-Keeps m u (some allow_deletion) s c h = inl h
secrets-Keeps m u (some (plaintext p)) s c h = inl h
secrets-Keeps m u (some (ciphertext x)) s c h = inl h
secrets-Keeps m u none (keys, secrets) c (w, h) =
    inl (w, ground (arith, drop_secret-Keeps u (data_url letters settings c) secrets w))

gone : (u : Text) {V : Type 0} (d : Dict V) (w : V) → lookup u (erase u d) ≡ some w → ⊥
gone u d w h = ground (arith, lookup-erase u u d, text_eq_iff u u)

key-unknown :
    (n : Text) (s : World) (a : HttpResponse)
    → read (key_url letters settings n) s ≡ ok a
    → a.status ≡ 404
    → HasKey s n
    → ⊥
unfolding key_url has_prefix
key-unknown n (keys, secrets) a got missing h = ground arith

drop-gone :
    (c : Bool) (d : Dict Text) (w : Text)
    → lookup (data_url letters settings c) (drop_secret (metadata_url letters settings c) d)
      ≡ some w
    → ⊥
unfolding metadata_url text_eq
drop-gone true d w h = gone (data_url letters settings true) d w h
drop-gone false d w h = gone (data_url letters settings false) d w h

absent : (x : Option Text) → ((w : Text) → x ≡ some w → ⊥) → found x none ≡ reply 404 [] none
absent none h = refl
absent (some x) h = absurd (h x refl)

secret-unknown :
    (c : Bool) (s : World)
    → (HasSecret s c → ⊥)
    → read (data_url letters settings c) s ≡ reply 404 [] none
unfolding data_url has_prefix
secret-unknown c (keys, secrets) h =
    absent (lookup (data_url letters settings c) secrets) (λ w e. h (w, e))

pub vault-Erases : Erases letters vault settings HasKey HasSecret
unfolding text_eq
vault-Erases = record {
  makes = λ m u. refl;
  key_created = λ r s n h. keys-Keeps r.method r.url r.body s n h;
  secret_put = λ r s c h. secrets-Keeps r.method r.url r.body s c h;
  key_deleted = λ n s a sent done h. gone (key_url letters settings n) s.0 tt h;
  key_unknown = λ n s a sent missing h. key-unknown n s a sent missing h;
  secret_deleted = λ c s a sent done h. drop-gone c s.1 h.0 h.1;
  secret_unknown = λ c s h. (
    record { status = 404; body = record { bytes = []; failure = none } },
    secret-unknown c s h,
    refl,
  );
}

abbrev pub sevens : ℕ → Bytes
sevens zero = []
sevens (suc n) = 7 ∷ sevens n

abbrev pub codec : VaultCodec
codec = record {
  base64_encode = λ b. b;
  base64_decode = λ t. ok t;
  encrypt_response = λ b. ok b.bytes;
  decrypt_response = λ b. ok b.bytes;
  kv_response = λ b. ok (b.bytes, []);
}

abbrev pub crypto : Crypto World
crypto = record {
  aead = record {
    cipher_error = λ k. none;
    aead_nonce_size = 1;
    seal = λ k n p. k ++ p;
    unseal = λ k n c. ok (drop (length k) c);
  };
  key_size = 1;
  nonce_size = 1;
  random = λ n s. (ok (sevens n), s);
  PublicKey = Text;
  parse_pub_key = λ t. ok t;
  encrypt_for_node = λ m k s. (ok m, s);
}

-- One artifact, with its key and its wrapped key.
abbrev start : ServiceState World
start = record {
  world = (
    (key_url letters settings (transit_key_name letters settings true), tt) ∷ [],
    (data_url letters settings true, text "w") ∷ [],
  );
  path_cache = (text "a", tt) ∷ [];
}

delete-erases_example :
    ¬ HasKey
      (delete letters vault codec settings crypto true start).1.world
      (transit_key_name letters settings true)
    × ¬ HasSecret (delete letters vault codec settings crypto true start).1.world true
    × ((decrypt letters vault codec settings crypto true
          (text "ct")
          (delete letters vault codec settings crypto true start).1).0
        ≡ err key_not_found)
unfolding delete text_eq has_prefix lookup
delete-erases_example =
    delete-erases letters vault codec settings HasKey HasSecret vault-Erases crypto true (text "ct")
      start refl
