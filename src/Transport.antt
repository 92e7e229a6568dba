-- ===== src/Transport.antt =====
-- `net/http` on the client's side, a parameter: the backends and the key services send requests
-- through it. A request's body is a value of the caller's type, before it is printed.
use ortholog_artifact_store.Base.{ℕ, Text, Result, Option}
use ortholog_artifact_store.Base.Dict.{Dict}
use ortholog_artifact_store.Api.Http.{RequestBody}

pub record HttpRequest (Body : Type 0) : Type 0 where
  pub method : Text
  pub url : Text
  pub headers : Dict Text
  pub body : Option Body

-- The body of a response is read like that of a request to the server.
pub record HttpResponse : Type 0 where
  pub status : ℕ
  pub body : RequestBody

pub record Client (Body : Type 0) : Type 1 where
  -- the remote service, and whatever else a call may change
  pub State : Type 0
  -- the error of `http.NewRequestWithContext` for a method and a URL
  pub new_request : Text → Text → Option Text
  -- `client.Do`
  pub send : HttpRequest Body → State → Result Text HttpResponse × State
