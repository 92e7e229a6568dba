-- ===== src/Startup/Keys.antt =====
-- When a valid configuration has its key service: cmd/artifact-store/keyservice.go after
-- config/config.go.
use ortholog_artifact_store.Base.{
  Text, text_eq, is_empty, has_prefix, Result, Result-cases, Bool-cases, ok, err, Bool, false, text,
  ◌≡◌, ◌⊎◌, inl, inr, refl, ap,
}
use ortholog_artifact_store.Config.{Config}
use ortholog_artifact_store.Config.Valid.{Valid}
use ortholog_artifact_store.KeyService.Calls.{pure, lift, ending, failing}
use ortholog_artifact_store.KeyService.Calls.Runs.{
  Runs, Keeps-call, Runs-pure, Runs-bind, Runs-then,
}
use ortholog_artifact_store.KeyService.Vault.{
  trim_right_slashes, or_default, vault_defaults, new_vault_transit,
}
use ortholog_artifact_store.KeyService.GcpKms.{gcpkms_defaults, new_gcpkms}
use ortholog_artifact_store.KeyService.Pkcs11.{Pkcs11Ctx, Pkcs11Config, Pkcs11}
use ortholog_artifact_store.KeyService.Pkcs11.Setup.{new_pkcs11, start_ctx, pkcs11_defaults}
use ortholog_artifact_store.Startup.{
  KeyService, in_memory, vault_transit, gcpkms, pkcs11, vault_config, gcpkms_config, pkcs11_config,
  init_pkcs11, init_key_service,
}

module _ (M : Pkcs11Ctx) (loads : Text → Bool) (credentials : Result Text (Unit {0})) where
  -- The key service is the one that is named, with the settings of the configuration and the
  -- documented defaults.
  abbrev pub Configured : Config → KeyService → Type 0
  Configured cfg in_memory = cfg.key_service ≡ text "memory"
  Configured cfg (vault_transit g) =
      (cfg.key_service ≡ text "vault")
      × (g.endpoint ≡ trim_right_slashes cfg.vault_endpoint)
      × (g.token ≡ cfg.vault_token)
      × (g.transit_mount ≡ or_default cfg.vault_transit_mount (text "transit"))
      × (g.kv_mount ≡ or_default cfg.vault_kv_mount (text "secret"))
      × (g.kv_namespace ≡ or_default cfg.vault_kv_namespace (text "artifact-keys"))
  Configured cfg (gcpkms g) =
      (cfg.key_service ≡ text "gcpkms")
      × (g.kek_resource_name ≡ cfg.gcpkms_kek_resource)
      × (g.firestore_project_id ≡ cfg.gcp_firestore_project_id)
      × (g.firestore_database ≡ or_default cfg.gcp_firestore_database (text "(default)"))
      × (g.firestore_collection
          ≡ or_default cfg.gcp_firestore_collection (text "ortholog-artifact-keys"))
      × (g.kms_endpoint ≡ text "https://cloudkms.googleapis.com")
      × (g.firestore_endpoint ≡ text "https://firestore.googleapis.com")
  Configured cfg (pkcs11 p) =
      (cfg.key_service ≡ text "pkcs11")
      × (p.cfg.module_path ≡ cfg.pkcs11_module_path)
      × (p.cfg.token_label ≡ cfg.pkcs11_token_label)
      × (p.cfg.pin ≡ cfg.pkcs11_pin)
      × (p.cfg.key_label_prefix ≡ text "artifact-")

  abbrev Starts : Config → M.State → Type 0
  Starts cfg w =
      (k : KeyService) × ((init_key_service M loads credentials cfg w).0 ≡ ok k) × Configured cfg k

  -- A context that starts keeps its settings.
  start_ctx-Runs :
      (c : Pkcs11Config)
      → Runs (λ _. Unit {0}) (λ (p : Pkcs11) _. p.cfg ≡ c) (λ _. Unit {0}) (start_ctx M c)
  unfolding start_ctx
  start_ctx-Runs c = Runs-then {Q = λ _ _. Unit {0}} _ _ (Keeps-call _ λ w h. tt) λ _.
      Runs-bind {Q = λ _ _. Unit {0}} _ _ (Keeps-call _ λ w h. tt) λ slot. Runs-pure _ λ w h. refl

  start_ctx-cfg :
      (c : Pkcs11Config) (p : Pkcs11) (w : M.State) → (start_ctx M c w).0 ≡ ok p → p.cfg ≡ c
  start_ctx-cfg c p w started = rw started at ((start_ctx-Runs c).at w tt)

  -- The key of GCP has another form of name, or there are no credentials.
  abbrev pub NoKms : Config → Type 0
  NoKms cfg =
      (cfg.key_service ≡ text "gcpkms")
      × ((has_prefix cfg.gcpkms_kek_resource (text "projects/") ≡ false)
          ⊎ ((e : Text) × (credentials ≡ err e)))

  -- The module cannot be loaded or started, or has no such token.
  abbrev pub NoToken : Config → M.State → Type 0
  NoToken cfg w =
      (cfg.key_service ≡ text "pkcs11")
      × ((loads cfg.pkcs11_module_path ≡ false)
          ⊎ ((e : Text) × ((start_ctx M (pkcs11_defaults M (pkcs11_config cfg)) w).0 ≡ err e)))

  memory-Starts : (cfg : Config) (w : M.State) → cfg.key_service ≡ text "memory" → Starts cfg w
  unfolding init_key_service text_eq pure
  memory-Starts cfg w memory = (in_memory, rw (memory, init_key_service) refl, memory)

  vault-Starts :
      (cfg : Config) (w : M.State)
      → cfg.key_service ≡ text "vault"
      → is_empty cfg.vault_endpoint ≡ false
      → is_empty cfg.vault_token ≡ false
      → Starts cfg w
  unfolding init_key_service new_vault_transit text_eq lift failing ending
  vault-Starts cfg w vault endpoint token = (
    vault_transit (vault_defaults (vault_config cfg)),
    rw (vault, endpoint, token, init_key_service, new_vault_transit) refl,
    (vault, refl, refl, refl, refl, refl),
  )

  gcpkms-Starts :
      (cfg : Config) (w : M.State)
      → cfg.key_service ≡ text "gcpkms"
      → is_empty cfg.gcpkms_kek_resource ≡ false
      → is_empty cfg.gcp_firestore_project_id ≡ false
      → Starts cfg w ⊎ NoKms cfg
  unfolding init_key_service new_gcpkms text_eq lift failing ending
  gcpkms-Starts cfg w gcp key project =
      elim (Bool-cases (has_prefix cfg.gcpkms_kek_resource (text "projects/"))) [
        | inr bad ↦ inr (gcp, inl bad)
        | inl good ↦ elim (Result-cases credentials) [
          | inr (e, none_given) ↦ inr (gcp, inr (e, none_given))
          | inl (u, given) ↦ inl (
            gcpkms (gcpkms_defaults (gcpkms_config cfg)),
            rw (gcp, key, good, project, given, init_key_service, new_gcpkms) refl,
            (gcp, refl, refl, refl, refl, refl, refl),
          )
        ]
      ]

  pkcs11-Starts :
      (cfg : Config) (w : M.State)
      → cfg.key_service ≡ text "pkcs11"
      → is_empty cfg.pkcs11_module_path ≡ false
      → is_empty cfg.pkcs11_token_label ≡ false
      → is_empty cfg.pkcs11_pin ≡ false
      → Starts cfg w ⊎ NoToken cfg w
  unfolding init_key_service init_pkcs11 new_pkcs11 text_eq failing ending
  pkcs11-Starts cfg w hsm path label pin = elim (Bool-cases (loads cfg.pkcs11_module_path)) [
    | inr bad ↦ inr (hsm, inl bad)
    | inl found ↦ elim (Result-cases (start_ctx M (pkcs11_defaults M (pkcs11_config cfg)) w).0) [
      | inr (e, failed) ↦ inr (hsm, inr (e, failed))
      | inl (p, started) ↦ inl (
        pkcs11 p,
        rw (hsm, path, label, pin, found, started, init_key_service, init_pkcs11, new_pkcs11) refl,
        let same = start_ctx-cfg (pkcs11_defaults M (pkcs11_config cfg)) p w started in
            (
              hsm,
              ap (λ c. c.module_path) same,
              ap (λ c. c.token_label) same,
              ap (λ c. c.pin) same,
              ap (λ c. c.key_label_prefix) same,
            ),
      )
    ]
  ]

  -- A valid configuration, with an endpoint for Vault and a path for the module, gets the key
  -- service that it names, with its settings and the documented defaults, unless Cloud KMS is
  -- selected with another form of name or without credentials, or PKCS#11 with a module that cannot
  -- be loaded or started or that has no such token.
  pub init_key_service-Valid :
      (cfg : Config)
      → Valid cfg
      → is_empty cfg.vault_endpoint ≡ false
      → is_empty cfg.pkcs11_module_path ≡ false
      → (w : M.State)
      → ((k : KeyService) × ((init_key_service M loads credentials cfg w).0 ≡ ok k)
          × Configured cfg k)
        ⊎ (NoKms cfg ⊎ NoToken cfg w)
  init_key_service-Valid cfg (known, mirror, positive, policy, keys) endpoint path w = elim keys [
    | inl memory ↦ inl (memory-Starts cfg w memory)
    | inr (inl (vault, token)) ↦ inl (vault-Starts cfg w vault endpoint token)
    | inr (inr (inl (gcp, key, project))) ↦ elim (gcpkms-Starts cfg w gcp key project) [
      | inl starts ↦ inl starts
      | inr fails ↦ inr (inl fails)
    ]
    | inr (inr (inr (hsm, label, pin))) ↦ elim (pkcs11-Starts cfg w hsm path label pin) [
      | inl starts ↦ inl starts
      | inr fails ↦ inr (inr fails)
    ]
  ]
