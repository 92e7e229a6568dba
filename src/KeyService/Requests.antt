-- ===== src/KeyService/Requests.antt =====
-- Requests of the key services in vault_api.go and gcpkms_api.go: `do`, which both write alike, and
-- their errors.
pub mod Outcomes
use ortholog_artifact_store.Base.{
  Text, text, decimal, trim_space, Result, ok, err, map_err, ◌>>=◌, Option, none, some, ◌++◌, leb,
  if◌then◌else◌,
}
use ortholog_artifact_store.Base.Int.{pos}
use ortholog_artifact_store.Base.Dict.{Dict}
use ortholog_artifact_store.Api.Http.{read_all_limited}
use ortholog_artifact_store.Transport.{HttpRequest, HttpResponse, Client}
use ortholog_artifact_store.KeyService.{KeyError, service_unavailable, other}

-- `fmtVaultErr`, `fmtGCPErr`
unfoldable pub fmt_service_err : Text → HttpResponse → Text → KeyError
unfolding decimal trim_space read_all_limited
fmt_service_err prefix r op =
    let what =
      op
      ++ (text " HTTP "
          ++ (decimal r.status
              ++ (text ": " ++ trim_space (read_all_limited r.body (pos 4096)).0))) in
    if leb 500 r.status then service_unavailable what else other (prefix ++ (text ": " ++ what))

-- The headers depend on whether there is a body; errors start with the prefix.
module _ {Body : Type 0} (C : Client Body) (prefix : Text) (headers : Option Body → Dict Text) where
  abbrev pub service_request : Text → Text → Option Body → HttpRequest Body
  service_request method url body = record {
    method = method;
    url = url;
    headers = headers body;
    body = body;
  }

  -- `do`; printing the bodies as JSON does not fail.
  unfoldable pub do_request :
      Text → Text → Option Body → C.State → Result KeyError HttpResponse × C.State
  do_request method url body s = elim (C.new_request method url) [
    | some e ↦ (err (other (prefix ++ (text ": new request: " ++ e))), s)
    | none ↦
        let (answer, s') = C.send (service_request method url body) s in
        (map_err service_unavailable answer, s')
  ]

  -- A request with the reading of its response.
  abbrev pub exchange :
      {A : Type 0}
      → Text
      → Text
      → Option Body
      → (HttpResponse → Result KeyError A)
      → C.State
      → Result KeyError A × C.State
  exchange method url body read s = let (r, s') = do_request method url body s in (r >>= read, s')
