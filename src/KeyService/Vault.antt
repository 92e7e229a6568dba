-- ===== src/KeyService/Vault.antt =====
-- keyservice/vault.go and vault_api.go: the configuration of `VaultTransit`, its paths and headers.
pub mod Api
pub mod Exchange
pub mod Service
use ortholog_artifact_store.Base.{
  ℕ, ◌/◌, ◌%◌, Text, Bytes, text, is_empty, decimal, trim_space, reverse, length, Result, ok, err,
  map_err, Bool, true, false, Option, none, some, List, [], ◌∷◌, ◌++◌, ◌==◌, leb, if◌then◌else◌,
}
use ortholog_artifact_store.Base.Int.{pos}
use ortholog_artifact_store.Base.Dict.{Dict}
use ortholog_artifact_store.Base.Hex.{hex_encode}
use ortholog_artifact_store.Storage.{Storage}
use ortholog_artifact_store.Api.Http.{RequestBody, read_all_limited}
use ortholog_artifact_store.Transport.{HttpRequest, HttpResponse, Client}
use ortholog_artifact_store.KeyService.{KeyError}
use ortholog_artifact_store.KeyService.Requests.{fmt_service_err}

-- `VaultTransitConfig` without its client.
pub record VaultTransitConfig : Type 0 where
  pub endpoint : Text
  pub token : Text
  pub transit_mount : Text
  pub kv_mount : Text
  pub kv_namespace : Text

abbrev pub or_default : Text → Text → Text
or_default s d = if is_empty s then d else s

-- `strings.TrimRight(s, "/")`
abbrev trim_left_slashes : Text → Text
trim_left_slashes [] = []
trim_left_slashes (c ∷ s) = let rest = trim_left_slashes s in if c == b'/' then rest else c ∷ s

abbrev pub trim_right_slashes : Text → Text
trim_right_slashes s = reverse (trim_left_slashes (reverse s))

abbrev pub vault_defaults : VaultTransitConfig → VaultTransitConfig
vault_defaults cfg = record {
  endpoint = trim_right_slashes cfg.endpoint;
  token = cfg.token;
  transit_mount = or_default cfg.transit_mount (text "transit");
  kv_mount = or_default cfg.kv_mount (text "secret");
  kv_namespace = or_default cfg.kv_namespace (text "artifact-keys");
}

-- `NewVaultTransit`
unfoldable pub new_vault_transit : VaultTransitConfig → Result Text VaultTransitConfig
new_vault_transit cfg =
    if is_empty cfg.endpoint
    then err (text "keyservice/vault: Endpoint is required")
    else if is_empty cfg.token
    then err (text "keyservice/vault: Token is required")
    else ok (vault_defaults cfg)

-- The bodies of the requests, before `encoding/json` prints them; base64 is a text of its own.
pub data VaultBody : Type 0 where
  -- an AES-256-GCM key, not derived, not exportable, with no backup in plain text
  new_key allow_deletion : VaultBody
  plaintext ciphertext wrapped_data : Text → VaultBody

-- The byte of a text at an index, with 0 where Go panics.
abbrev pub byte_at : Text → ℕ → ℕ
byte_at [] i = 0
byte_at (c ∷ s) i = elim i [ Prim.Native.Nat.zero ↦ c | Prim.Native.Nat.suc j ↦ byte_at s j ]

-- `hexCID`: two digits for each byte of the digest.
unfoldable pub hex_digits : Bytes → Text
hex_digits [] = []
hex_digits (b ∷ bs) =
    byte_at (text "0123456789abcdef") (b / 16)
    ∷ byte_at (text "0123456789abcdef") (b % 16)
    ∷ hex_digits bs

module _ (S : Storage) (g : VaultTransitConfig) where
  abbrev pub hex_cid : S.Cid → Text
  hex_cid cid = hex_digits (S.digest cid)

  -- `transitKeyName`
  unfoldable pub transit_key_name : S.Cid → Text
  unfolding hex_encode
  transit_key_name cid = text "artifact-" ++ hex_encode (S.digest cid)

  -- The URL of an operation of the Transit engine on a key.
  abbrev pub transit_url : Text → Text → Text
  transit_url operation name =
      g.endpoint
      ++ (text "/v1/" ++ (g.transit_mount ++ (text "/" ++ (operation ++ (text "/" ++ name)))))

  unfoldable pub key_url : Text → Text
  key_url = transit_url (text "keys")

  unfoldable pub config_url : Text → Text
  unfolding key_url
  config_url name = key_url name ++ text "/config"

  unfoldable pub encrypt_url : Text → Text
  encrypt_url = transit_url (text "encrypt")

  unfoldable pub decrypt_url : Text → Text
  decrypt_url = transit_url (text "decrypt")

  abbrev pub kv_path : Text → S.Cid → Text
  kv_path kind cid =
      text "/v1/"
      ++ (g.kv_mount
          ++ (text "/" ++ (kind ++ (text "/" ++ (g.kv_namespace ++ (text "/" ++ hex_cid cid))))))

  -- `kvDataPath` and `kvMetadataPath`, after the endpoint.
  unfoldable pub data_url : S.Cid → Text
  unfolding hex_digits
  data_url cid = g.endpoint ++ kv_path (text "data") cid

  unfoldable pub metadata_url : S.Cid → Text
  unfolding hex_digits
  metadata_url cid = g.endpoint ++ kv_path (text "metadata") cid

abbrev pub vault_prefix : Text
vault_prefix = text "keyservice/vault"

abbrev pub fmt_vault_err : HttpResponse → Text → KeyError
fmt_vault_err = fmt_service_err vault_prefix

-- A response whose body has been closed: reading it fails at once.
abbrev pub close : HttpResponse → HttpResponse
close r = record {
  status = r.status;
  body = record { bytes = []; failure = some (text "http: read on closed response body") };
}

abbrev pub vault_headers : VaultTransitConfig → Option VaultBody → Dict Text
vault_headers g none = (text "X-Vault-Token", g.token) ∷ []
vault_headers g (some body) =
    (text "X-Vault-Token", g.token) ∷ (text "Content-Type", text "application/json") ∷ []
