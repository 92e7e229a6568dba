-- ===== src/Tests/Wrapping.antt =====
-- The toy Vault serves: a key is generated and used again.
use mathlib.Core.Path.{subst}
use ortholog_artifact_store.Base.{
  ℕ, zero, suc, Text, Bytes, text, text_eq, text_eq_iff, length, drop-length_append, ok, err,
  text_apart, Bool, false, some, [], ◌∷◌, has_prefix, ◌≡◌, ◌≢◌, Option, true, refl, sym, ◌∙◌, none,
  ap, arith, ok-injective,
}
use ortholog_artifact_store.Base.Dict.{lookup, lookup-insert, lookup-erase}
use ortholog_artifact_store.KeyService.Envelope.{ServiceState}
use ortholog_artifact_store.KeyService.Envelope
use ortholog_artifact_store.KeyService.Envelope.Sealing.{IsCrypto}
use ortholog_artifact_store.KeyService.Envelope.Contract.{Opens}
use ortholog_artifact_store.KeyService.{key_not_found}
use ortholog_artifact_store.KeyService.Rotation.{IsKeyService}
use ortholog_artifact_store.KeyService.Rotation.Replaces.{rotate-Replaces}
use ortholog_artifact_store.KeyService.Vault.Service.Contract.{Apart, vault-IsKeyService}
use ortholog_artifact_store.KeyService.Vault.{
  VaultBody, new_key, allow_deletion, plaintext, ciphertext, wrapped_data, vault_prefix, key_url,
  data_url, metadata_url, transit_key_name,
}
use ortholog_artifact_store.KeyService.Vault.Service.{
  vault_envelope, vault_service, create_and_wrap, erase_both, decrypt, rotate,
}
use ortholog_artifact_store.KeyService.Vault.Service.Serving.{Serves, Kept}
use ortholog_artifact_store.Tests.Letters.{letters, reply, found}
use ortholog_artifact_store.Tests.ToyVault.{
  settings, World, read, vault, codec, crypto, sevens, answered, drop_secret, HasKey, HasSecret,
  vault-Erases,
}

-- It wraps a key as the key itself.
abbrev Wraps : World → Text → Text → Bytes → Type 0
Wraps s n w d = w ≡ d

abbrev Stored : World → Bool → Text → Type 0
Stored s c w = lookup (data_url letters settings c) s.1 ≡ some w

length-sevens : (n : ℕ) → length (sevens n) ≡ n
length-sevens zero = refl
length-sevens (suc n) = ap (λ k. suc k) (length-sevens n)

read_back :
    (c : Bool) (w : Text) (s : World)
    → Stored s c w
    → read (data_url letters settings c) s ≡ reply 200 w none
unfolding data_url has_prefix
read_back c w (keys, secrets) h = ap (λ o. found o none) h

secret-Keeps :
    (m u : Text) (b : Option VaultBody) (s : World) (c : Bool) (w : Text)
    → (m ≡ text "DELETE" → ⊥)
    → ((w' : Text) → b ≡ some (wrapped_data w') → ⊥)
    → Stored s c w
    → Stored (answered m u b s).1 c w
secret-Keeps m u (some new_key) s c w other unput h = h
secret-Keeps m u (some (wrapped_data x)) s c w other unput h = absurd (unput x refl)
secret-Keeps m u (some allow_deletion) s c w other unput h = h
secret-Keeps m u (some (plaintext p)) s c w other unput h = h
secret-Keeps m u (some (ciphertext x)) s c w other unput h = h
secret-Keeps m u none (keys, secrets) c w other unput h =
    ground (arith, text_eq_iff m (text "DELETE"))

key_delete-Keeps :
    (n : Text) (c : Bool) (w : Text) (s : World)
    → Stored s c w
    → lookup (data_url letters settings c) (drop_secret (key_url letters settings n) s.1) ≡ some w
unfolding key_url metadata_url text_eq
key_delete-Keeps n c w s h = h

secret_delete-Keeps :
    (c c' : Bool) (w : Text) (s : World)
    → data_url letters settings c ≢ data_url letters settings c'
    → Stored s c' w
    → lookup (data_url letters settings c') (drop_secret (metadata_url letters settings c) s.1)
      ≡ some w
unfolding metadata_url data_url text_eq
secret_delete-Keeps true true w s apart h = absurd (apart refl)
secret_delete-Keeps false false w s apart h = absurd (apart refl)
secret_delete-Keeps true false w s apart h =
    lookup-erase (data_url letters settings true) (data_url letters settings false) s.1 ∙ h
secret_delete-Keeps false true w s apart h =
    lookup-erase (data_url letters settings false) (data_url letters settings true) s.1 ∙ h

vault-Serves : Serves letters vault codec settings Wraps Stored
unfolding data_url text_eq has_prefix
vault-Serves = record {
  makes = λ m u. refl;
  encrypt_wraps = λ n d s a w sent good read.
      sym (ap (λ x. x.body.bytes) (ok-injective sent) ∙ ok-injective read);
  put_stores = λ c w s a sent put. ground (
    arith,
    lookup-insert (data_url letters settings c) (data_url letters settings c) w s.1,
    text_eq_iff (data_url letters settings c) (data_url letters settings c),
  );
  send_keeps = λ r s n w d other h. h;
  send_keeps_secret =
      λ r s c w other unput h. secret-Keeps r.method r.url r.body s c w other unput h;
  delete_key_keeps = λ n n' w d s apart h. h;
  delete_key_keeps_secret = λ n c w s h. key_delete-Keeps n c w s h;
  delete_secret_keeps = λ c c' w s apart h. secret_delete-Keeps c c' w s apart h;
  delete_secret_keeps_key = λ c n w d s h. h;
  get_returns = λ c w s h. (
    record { status = 200; body = record { bytes = w; failure = none } },
    read_back c w s h,
    refl,
    refl,
  );
  decrypt_returns = λ n w d s h. (
    record { status = 200; body = record { bytes = w; failure = none } },
    refl,
    refl,
    ap (λ t. ok t) h,
  );
  base64_decodes = λ d. refl;
}

toy-IsCrypto : IsCrypto crypto
toy-IsCrypto = record {
  random_size = λ n s b h. subst (λ t. length t ≡ n) (ok-injective h) (length-sevens n);
  unseals = λ key nonce p made. ap (λ t. ok t) (drop-length_append key p);
}

-- A Vault with nothing in it.
abbrev blank : ServiceState World
blank = record { world = ([], []); path_cache = [] }

abbrev Opening : ServiceState World → Bool → Bytes → Bytes → Type 0
Opening =
    Opens letters crypto (vault_envelope letters vault codec settings)
      (Kept letters vault settings Wraps Stored)

vault-IsKeyService_example :
    IsKeyService
      (vault_service letters vault codec settings crypto)
      Opening
      (Apart letters settings)
vault-IsKeyService_example =
    vault-IsKeyService letters vault codec settings crypto Wraps Stored HasKey HasSecret
      toy-IsCrypto vault-Serves vault-Erases

-- One artifact, with its key and its wrapped key.
abbrev old : ServiceState World
old = record {
  world = (
    (key_url letters settings (transit_key_name letters settings true), tt) ∷ [],
    (data_url letters settings true, 7 ∷ 7 ∷ []) ∷ [],
  );
  path_cache = [];
}

letters-Apart : Apart letters settings true false
unfolding transit_key_name data_url text_eq
letters-Apart = (
  text_apart (transit_key_name letters settings true) (transit_key_name letters settings false)
      refl,
  text_apart (data_url letters settings true) (data_url letters settings false) refl,
)

rotate-Replaces_example :
    (p : Bytes) × ((decrypt letters vault codec settings crypto true (7 ∷ text "data") old).0
      ≡ ok p)
    × ((decrypt letters vault codec settings crypto false
          (7 ∷ text "data")
          (rotate letters vault codec settings crypto true (7 ∷ text "data") old).1).0
        ≡ ok p)
    × ((decrypt letters vault codec settings crypto true
          (7 ∷ text "data")
          (rotate letters vault codec settings crypto true (7 ∷ text "data") old).1).0
        ≡ err key_not_found)
unfolding rotate decrypt text_eq has_prefix lookup Envelope.generate_and_encrypt create_and_wrap
    Envelope.delete erase_both
rotate-Replaces_example =
    rotate-Replaces letters vault_prefix (vault_service letters vault codec settings crypto) Opening
      (Apart letters settings)
      (vault-IsKeyService letters vault codec settings crypto Wraps Stored HasKey HasSecret
        toy-IsCrypto vault-Serves vault-Erases)
      true (7 ∷ text "data") old false (7 ∷ text "data") refl letters-Apart
