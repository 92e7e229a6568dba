-- ===== src/KeyService/Vault/Exchange.antt =====
-- What the answers to deletions in keyservice/vault_api.go come to.
use ortholog_artifact_store.Base.{Text, text, ok, ◌≡◌, ◌⊎◌, arith}
use ortholog_artifact_store.Transport.{HttpResponse}
use ortholog_artifact_store.KeyService.{unless_missing}
use ortholog_artifact_store.KeyService.Requests.Outcomes.{fmt_service_err-found}
use ortholog_artifact_store.KeyService.Vault.{vault_prefix, close}
use ortholog_artifact_store.KeyService.Vault.Api.{delete_status, lookup_status, config_status}

-- What the reading of a response makes of a deletion that did not fail but for a missing key.
pub deleted :
    (op : Text) (a : HttpResponse)
    → unless_missing (delete_status op a) ≡ ok tt
    → (a.status ≡ 200) ⊎ (a.status ≡ 204) ⊎ (a.status ≡ 404)
unfolding delete_status
deleted op a h = ground (arith, fmt_service_err-found vault_prefix a op)

pub looked_up :
    (a : HttpResponse)
    → unless_missing (lookup_status a) ≡ ok tt
    → (lookup_status a ≡ ok tt) ⊎ (a.status ≡ 404)
unfolding lookup_status
looked_up a h =
    ground (arith, fmt_service_err-found vault_prefix (close a) (text "transit/keys exists-check"))

pub configured :
    (a : HttpResponse) → unless_missing (config_status a) ≡ ok tt → config_status a ≡ ok tt
unfolding config_status
configured a h =
    ground (arith, fmt_service_err-found vault_prefix (close a) (text "transit/keys config"))
