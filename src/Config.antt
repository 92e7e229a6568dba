-- ===== src/Config.antt =====
-- config/config.go: the settings, read from the environment and validated.
pub mod Valid
use ortholog_artifact_store.Base.{
  ℕ, Text, text, text_eq, is_empty, quote, Result, ok, err, ◌>>=◌, Bool, true, false, ◌||◌, Option,
  none, some, ◌++◌, if◌then◌else◌,
}
use ortholog_artifact_store.Base.Int.{ℤ, pos, mul64, ltb_ℤ, parse_int}

-- `Config`. A duration is in nanoseconds.
pub record Config : Type 0 where
  pub backend : Text
  pub endpoint : Text
  pub bucket : Text
  pub region : Text
  pub path_style : Bool
  pub prefix : Text
  pub mirror_backend : Text
  pub mirror_endpoint : Text
  pub mirror_bucket : Text
  pub mirror_mode : Text
  pub verify_on_push : Bool
  pub env : Text
  pub require_upload_token : Text
  pub operator_pub_keys : Text
  pub operator_pub_keys_dir : Text
  pub default_resolve_expiry : ℤ
  pub listen_addr : Text
  pub max_body_size : ℤ
  pub key_service : Text
  pub vault_endpoint : Text
  pub vault_token : Text
  pub vault_transit_mount : Text
  pub vault_kv_mount : Text
  pub vault_kv_namespace : Text
  pub gcpkms_kek_resource : Text
  pub gcp_firestore_project_id : Text
  pub gcp_firestore_database : Text
  pub gcp_firestore_collection : Text
  pub pkcs11_module_path : Text
  pub pkcs11_token_label : Text
  pub pkcs11_pin : Text

-- The texts of `strconv.ParseBool`.
unfoldable pub parse_bool : Text → Option Bool
parse_bool s =
    if text_eq s (text "1")
      || text_eq s (text "t")
      || text_eq s (text "T")
      || text_eq s (text "true")
      || text_eq s (text "TRUE")
      || text_eq s (text "True")
    then some true
    else if text_eq s (text "0")
        || text_eq s (text "f")
        || text_eq s (text "F")
        || text_eq s (text "false")
        || text_eq s (text "FALSE")
        || text_eq s (text "False")
    then some false
    else none

-- The environment gives a variable that is not set as the empty text, as `os.Getenv` does.
module _ (getenv : Text → Text) where
  unfoldable pub env_or_default : Text → Text → Text
  env_or_default key fallback = if is_empty (getenv key) then fallback else getenv key

  unfoldable pub env_bool : Text → Bool → Bool
  unfolding parse_bool
  env_bool key fallback =
      if is_empty (getenv key)
      then fallback
      else elim (parse_bool (getenv key)) [ none ↦ fallback | some b ↦ b ]

  unfoldable pub env_int64 : Text → ℤ → ℤ
  unfolding parse_int
  env_int64 key fallback =
      if is_empty (getenv key)
      then fallback
      else elim (parse_int (getenv key)) [ none ↦ fallback | some n ↦ n ]

  unfoldable pub env_duration : Text → ℤ → ℤ
  unfolding parse_int mul64
  env_duration key fallback =
      if is_empty (getenv key) then fallback else elim (parse_int (getenv key)) [
        | none ↦ fallback
        | some secs ↦ mul64 secs (pos 1000000000)
      ]

  -- The composite literal of `Load`.
  unfoldable pub read_env : Config
  unfolding env_or_default env_bool env_int64 env_duration
  read_env = record {
    backend = env_or_default (text "ARTIFACT_BACKEND") (text "memory");
    endpoint = getenv (text "ARTIFACT_ENDPOINT");
    bucket = env_or_default (text "ARTIFACT_BUCKET") (text "ortholog-artifacts");
    region = env_or_default (text "ARTIFACT_REGION") (text "us-east-1");
    path_style = env_bool (text "ARTIFACT_PATH_STYLE") false;
    prefix = getenv (text "ARTIFACT_PREFIX");
    mirror_backend = getenv (text "ARTIFACT_MIRROR_BACKEND");
    mirror_endpoint = getenv (text "ARTIFACT_MIRROR_ENDPOINT");
    mirror_bucket = getenv (text "ARTIFACT_MIRROR_BUCKET");
    mirror_mode = env_or_default (text "ARTIFACT_MIRROR_MODE") (text "sync");
    verify_on_push = env_bool (text "ARTIFACT_VERIFY_ON_PUSH") true;
    env = env_or_default (text "ORTHOLOG_ENV") (text "dev");
    require_upload_token = env_or_default (text "ARTIFACT_REQUIRE_UPLOAD_TOKEN") (text "off");
    operator_pub_keys = getenv (text "ARTIFACT_OPERATOR_PUBKEYS");
    operator_pub_keys_dir = getenv (text "ARTIFACT_OPERATOR_PUBKEYS_DIR");
    default_resolve_expiry = env_duration (text "ARTIFACT_RESOLVE_EXPIRY") (pos 3600000000000);
    listen_addr = env_or_default (text "ARTIFACT_LISTEN_ADDR") (text ":8082");
    max_body_size = env_int64 (text "ARTIFACT_MAX_BODY_SIZE") (pos 67108864);
    key_service = env_or_default (text "ARTIFACT_KEYSERVICE") (text "vault");
    vault_endpoint = env_or_default (text "ARTIFACT_VAULT_ENDPOINT") (text "http://127.0.0.1:8200");
    vault_token = getenv (text "ARTIFACT_VAULT_TOKEN");
    vault_transit_mount = env_or_default (text "ARTIFACT_VAULT_TRANSIT_MOUNT") (text "transit");
    vault_kv_mount = env_or_default (text "ARTIFACT_VAULT_KV_MOUNT") (text "secret");
    vault_kv_namespace = env_or_default (text "ARTIFACT_VAULT_KV_NAMESPACE") (text "artifact-keys");
    gcpkms_kek_resource = getenv (text "ARTIFACT_GCP_KMS_KEK_RESOURCE");
    gcp_firestore_project_id = getenv (text "ARTIFACT_GCP_FIRESTORE_PROJECT_ID");
    gcp_firestore_database =
        env_or_default (text "ARTIFACT_GCP_FIRESTORE_DATABASE") (text "(default)");
    gcp_firestore_collection =
        env_or_default (text "ARTIFACT_GCP_FIRESTORE_COLLECTION") (text "ortholog-artifact-keys");
    pkcs11_module_path =
        env_or_default (text "ARTIFACT_PKCS11_MODULE_PATH")
          (text "/usr/lib/softhsm/libsofthsm2.so");
    pkcs11_token_label = getenv (text "ARTIFACT_PKCS11_TOKEN_LABEL");
    pkcs11_pin = getenv (text "ARTIFACT_PKCS11_PIN");
  }

-- `config: unknown … %q (want …)`
abbrev unknown : Text → Text → Text → Text
unknown what value want =
    text "config: unknown " ++ what ++ text " " ++ quote value ++ text " (want " ++ want ++ text ")"

unfoldable pub check_backend : Config → Result Text (Unit {0})
unfolding quote
check_backend c =
    if text_eq c.backend (text "gcs")
      || text_eq c.backend (text "rustfs")
      || text_eq c.backend (text "memory")
    then ok tt
    else err (unknown (text "backend") c.backend (text "gcs, rustfs, or memory"))

unfoldable pub check_mirror : Config → Result Text (Unit {0})
unfolding quote
check_mirror c =
    if is_empty c.mirror_backend
      || text_eq c.mirror_backend (text "gcs")
      || text_eq c.mirror_backend (text "rustfs")
    then (if text_eq c.mirror_mode (text "sync")
        then ok tt
        else err (unknown (text "mirror mode") c.mirror_mode (text "sync")))
    else err (unknown (text "mirror backend") c.mirror_backend (text "gcs or rustfs"))

-- The one change that `validate` makes: a size that is not positive is 64 MiB.
unfoldable pub fix_max_body_size : Config → Config
fix_max_body_size c =
    if ltb_ℤ (pos 0) c.max_body_size then c else record c { max_body_size = pos 67108864 }

unfoldable pub check_upload_policy : Config → Result Text (Unit {0})
unfolding quote
check_upload_policy c =
    if text_eq c.require_upload_token (text "off")
      || text_eq c.require_upload_token (text "optional")
      || text_eq c.require_upload_token (text "required")
    then ok tt
    else err (
        unknown (text "ARTIFACT_REQUIRE_UPLOAD_TOKEN") c.require_upload_token
          (text "off, optional, required"))

-- A setting that the chosen key service needs.
unfoldable pub need : Text → Text → Text → Result Text (Unit {0})
need name value service =
    if is_empty value
    then err (text "config: " ++ name ++ text " is required when ARTIFACT_KEYSERVICE=" ++ service)
    else ok tt

unfoldable pub check_key_service : Config → Result Text (Unit {0})
unfolding need quote
check_key_service c =
    if text_eq c.key_service (text "memory")
    then ok tt
    else if text_eq c.key_service (text "vault")
    then need (text "ARTIFACT_VAULT_TOKEN") c.vault_token (text "vault")
    else if text_eq c.key_service (text "gcpkms")
    then (need (text "ARTIFACT_GCP_KMS_KEK_RESOURCE") c.gcpkms_kek_resource (text "gcpkms") >>= λ _.
        need (text "ARTIFACT_GCP_FIRESTORE_PROJECT_ID") c.gcp_firestore_project_id (text "gcpkms"))
    else if text_eq c.key_service (text "pkcs11")
    then (need (text "ARTIFACT_PKCS11_TOKEN_LABEL") c.pkcs11_token_label (text "pkcs11") >>= λ _.
        need (text "ARTIFACT_PKCS11_PIN") c.pkcs11_pin (text "pkcs11"))
    else err (
        unknown (text "ARTIFACT_KEYSERVICE") c.key_service
          (text "vault, gcpkms, pkcs11, or memory"))

-- `validate`: the configuration as it leaves it.
unfoldable pub validate : Config → Result Text Config
unfolding check_backend check_mirror fix_max_body_size check_upload_policy check_key_service
validate c = do
  _ ← check_backend c
  _ ← check_mirror c
  _ ← check_upload_policy (fix_max_body_size c)
  _ ← check_key_service (fix_max_body_size c)
  ok (fix_max_body_size c)

-- `Load`
unfoldable pub load : (Text → Text) → Result Text Config
unfolding read_env validate
load getenv = validate (read_env getenv)
