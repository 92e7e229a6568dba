-- ===== src/Tests/Settings.antt =====
-- An environment of one development machine.
use ortholog_artifact_store.Base.{
  false, [], some, err, Bytes, Text, text, text_eq, ok, ◌≡◌, ◌⊎◌, inl, inr, refl, arith,
  if◌then◌else◌,
}
use ortholog_artifact_store.Base.Int.{ℤ, pos, parse_int}
use ortholog_artifact_store.Startup.{create_backend, gcs_config, KeyService, init_key_service}
use ortholog_artifact_store.Startup.Keys.{Configured, NoKms, NoToken, init_key_service-Valid}
use ortholog_artifact_store.Tests.ToyToken.{ctx, start}
use ortholog_artifact_store.Startup.Ready.{resolve-no_signer}
use ortholog_artifact_store.Tests.{toy, memory, abc}
use ortholog_artifact_store.Transport.{Client}
use ortholog_artifact_store.Backends.Gcs
use ortholog_artifact_store.Backends.Gcs.{gcs_backend}
use ortholog_artifact_store.Backends.Sending.Outage.{Fails}
use ortholog_artifact_store.Config.{Config, load, validate, read_env}
use ortholog_artifact_store.Config.Valid.{Valid, load-Valid}

-- Keys in memory, a size limit that is not positive, and the defaults for the rest.
abbrev environment : Text → Text
environment key =
    if text_eq key (text "ARTIFACT_KEYSERVICE")
    then text "memory"
    else if text_eq key (text "ARTIFACT_MAX_BODY_SIZE")
    then text "-1"
    else []

-- What it is loaded as.
abbrev settings : Config
settings = record (read_env environment) { max_body_size = pos 67108864 }

loaded : load environment ≡ ok settings
unfolding load text_eq parse_int
loaded = refl

load-Valid_example : Valid settings × (validate settings ≡ ok settings)
load-Valid_example = load-Valid environment settings loaded

-- No request can be made.
abbrev offline : Client Bytes
offline = record {
  State = Unit;
  new_request = λ m u. some (text "offline");
  send = λ r s. (err (text "offline"), s);
}

abbrev epoch : Unit {0} → ℤ
epoch _ = pos 0

resolve-no_signer_example :
    Fails
      ((gcs_backend toy offline epoch (gcs_config toy (memory false) offline epoch [] [])).resolve
        abc
        (pos 60)
        tt).0
unfolding create_backend text_eq read_env Gcs.push Gcs.fetch Gcs.pin Gcs.exists Gcs.delete
    Gcs.resolve Gcs.healthy
resolve-no_signer_example =
    resolve-no_signer toy (memory false) offline epoch (text "gcs") settings false
      (gcs_backend toy offline epoch (gcs_config toy (memory false) offline epoch [] [])) (inl refl)
      refl abc (pos 60) tt

-- Keys in Vault.
abbrev vault_settings : Config
vault_settings = record settings { key_service = text "vault"; vault_token = text "t" }

init_key_service-Valid_example :
    ((k : KeyService) × ((init_key_service ctx
          (λ m. false)
          (err (text "none"))
          vault_settings
          start.world).0
        ≡ ok k)
      × Configured ctx (λ m. false) (err (text "none")) vault_settings k)
    ⊎ (NoKms ctx (λ m. false) (err (text "none")) vault_settings
        ⊎ NoToken ctx (λ m. false) (err (text "none")) vault_settings start.world)
unfolding read_env text_eq parse_int
init_key_service-Valid_example =
    init_key_service-Valid ctx (λ m. false) (err (text "none")) vault_settings
      (inr (inr refl), (inl refl, refl), omega arith, inl refl, inr (inl (refl, refl))) refl refl
      start.world
