-- ===== src/Startup.antt =====
-- cmd/artifact-store/main.go and keyservice.go: the backend, the key service and the warnings that
-- a configuration selects.
pub mod Ready
pub mod Keys
use ortholog_artifact_store.Base.{
  ℕ, zero, suc, Text, Bytes, text, text_eq, is_empty, quote, Result, ok, err, map_ok, map_err,
  ◌>>=◌, Bool, true, false, Option, none, some, List, [], ◌∷◌, ◌++◌, if◌then◌else◌,
}
use ortholog_artifact_store.Storage.{Storage}
use ortholog_artifact_store.Backends.Provider.{BackendProvider}
use ortholog_artifact_store.Backends.Mirrored.{MirrorLog, new_mirrored_store, mirrored_store}
use ortholog_artifact_store.Base.Int.{ℤ}
use ortholog_artifact_store.Transport.{Client}
use ortholog_artifact_store.Backends.Gcs.{GcsConfig, gcs_backend}
use ortholog_artifact_store.Backends.RustFs.{RustFsConfig, rustfs_backend}
use ortholog_artifact_store.Config.{Config}
use ortholog_artifact_store.KeyService.Calls.{Calls, pure, raise, lift, ending, failing}
use ortholog_artifact_store.KeyService.Vault.{VaultTransitConfig, new_vault_transit}
use ortholog_artifact_store.KeyService.GcpKms.{GcpKmsConfig, new_gcpkms}
use ortholog_artifact_store.KeyService.Pkcs11.{Pkcs11Ctx, Pkcs11Config, Pkcs11}
use ortholog_artifact_store.KeyService.Pkcs11.Setup.{new_pkcs11}
use ortholog_artifact_store.Api.Server.{ServerConfig}
use ortholog_artifact_store.Api.Token.{UploadTokenVerifier}

-- The SDK's store in memory is a parameter, and so is the HTTP client, which each backend gets of
-- its own.
module _ (S : Storage) (memory : BackendProvider S) (C : Client Bytes) (now : C.State → ℤ) where
  -- `createBackend` leaves the signers and the token function nil.
  abbrev pub gcs_config : Text → Text → GcsConfig C
  gcs_config bucket prefix = record {
    bucket = bucket;
    prefix = prefix;
    token_func = none;
    url_signer = none;
    base_url = [];
  }

  abbrev pub rustfs_config : Text → Text → Text → Text → Bool → RustFsConfig C
  rustfs_config endpoint bucket region prefix path_style = record {
    endpoint = endpoint;
    bucket = bucket;
    region = region;
    prefix = prefix;
    path_style = path_style;
    request_signer = none;
    url_signer = none;
  }

  -- `createBackend`
  unfoldable pub create_backend : Text → Config → Bool → Result Text (BackendProvider S)
  unfolding quote text_eq
  create_backend name cfg is_mirror =
      if text_eq name (text "memory")
      then ok memory
      else if text_eq name (text "gcs")
      then ok (
          gcs_backend S C now
            (gcs_config (if is_mirror then cfg.mirror_bucket else cfg.bucket) cfg.prefix))
      else if text_eq name (text "rustfs")
      then ok (
          rustfs_backend S C now (
            rustfs_config (if is_mirror then cfg.mirror_endpoint else cfg.endpoint)
              (if is_mirror then cfg.mirror_bucket else cfg.bucket) cfg.region cfg.prefix
              cfg.path_style))
      else err (text "unknown backend " ++ quote name)

  abbrev pub primary_error : Text → Text
  primary_error e = text "primary backend: " ++ e

  abbrev pub mirror_error : Text → Text
  mirror_error e = text "mirror backend: " ++ e

  -- `initBackend`, with what the mirrored store has logged.
  unfoldable pub init_backend : Config → Result Text (BackendProvider S × List MirrorLog)
  unfolding create_backend new_mirrored_store
  init_backend cfg = map_err primary_error (create_backend cfg.backend cfg false) >>= λ primary.
      if is_empty cfg.mirror_backend
      then ok (primary, [])
      else map_err mirror_error (create_backend cfg.mirror_backend cfg true) >>= λ mirror.
          ok (mirrored_store S primary mirror, new_mirrored_store cfg.mirror_mode)

-- The server's settings, as `main` passes them to `NewMux`.
unfoldable pub server_config : Config → Option UploadTokenVerifier → ServerConfig
server_config cfg verifier = record {
  verify_on_push = cfg.verify_on_push;
  max_body_size = cfg.max_body_size;
  default_expiry = cfg.default_resolve_expiry;
  upload_token_verifier = verifier;
  upload_token_policy = cfg.require_upload_token;
}

-- `runVerifyOnPushWatchdog`: how often it has warned after that many ticks before the context ends.
unfoldable pub watchdog_warnings : Config → ℕ → ℕ
unfolding text_eq
watchdog_warnings cfg ticks =
    if cfg.verify_on_push then 0 else if text_eq cfg.env (text "production") then suc ticks else 1

-- The key service that is made.
pub data KeyService : Type 0 where
  in_memory : KeyService
  vault_transit : VaultTransitConfig → KeyService
  gcpkms : GcpKmsConfig → KeyService
  pkcs11 : Pkcs11 → KeyService

-- The settings that `initKeyService` passes on; no client and no endpoint is set for GCP.
abbrev pub vault_config : Config → VaultTransitConfig
vault_config cfg = record {
  endpoint = cfg.vault_endpoint;
  token = cfg.vault_token;
  transit_mount = cfg.vault_transit_mount;
  kv_mount = cfg.vault_kv_mount;
  kv_namespace = cfg.vault_kv_namespace;
}

abbrev pub gcpkms_config : Config → GcpKmsConfig
gcpkms_config cfg = record {
  kek_resource_name = cfg.gcpkms_kek_resource;
  firestore_project_id = cfg.gcp_firestore_project_id;
  firestore_database = cfg.gcp_firestore_database;
  firestore_collection = cfg.gcp_firestore_collection;
  kms_endpoint = [];
  firestore_endpoint = [];
}

abbrev pub pkcs11_config : Config → Pkcs11Config
pkcs11_config cfg = record {
  module_path = cfg.pkcs11_module_path;
  token_label = cfg.pkcs11_token_label;
  pin = cfg.pkcs11_pin;
  key_label_prefix = [];
}

-- PKCS#11 modules and the default credentials of GCP are parameters.
module _ (M : Pkcs11Ctx) (loads : Text → Bool) (credentials : Result Text (Unit {0})) where
  unfoldable pub init_pkcs11 : Config → Calls Text M.State KeyService
  unfolding new_pkcs11
  init_pkcs11 cfg = ending (map_ok pkcs11) (new_pkcs11 M loads (pkcs11_config cfg))

  -- `initKeyService`
  unfoldable pub init_key_service : Config → Calls Text M.State KeyService
  unfolding quote text_eq new_vault_transit new_gcpkms init_pkcs11
  init_key_service cfg =
      if text_eq cfg.key_service (text "memory")
      then pure in_memory
      else if text_eq cfg.key_service (text "vault")
      then failing (λ e. text "vault keyservice: " ++ e)
          (lift (map_ok vault_transit (new_vault_transit (vault_config cfg))))
      else if text_eq cfg.key_service (text "gcpkms")
      then failing (λ e. text "gcpkms keyservice: " ++ e)
          (lift (map_ok gcpkms (new_gcpkms (gcpkms_config cfg) (some credentials))))
      else if text_eq cfg.key_service (text "pkcs11")
      then failing (λ e. text "pkcs11 keyservice: " ++ e) (init_pkcs11 cfg)
      else raise (text "unknown keyservice " ++ quote cfg.key_service)
