-- ===== src/Api/Server.antt =====
-- `NewMux` of api/server.go: the routes, and a run of the server over a sequence of requests.
pub mod Integrity
use ortholog_artifact_store.Base.{
  ℕ, Text, text, text_eq, is_empty, Bool, true, false, ◌&&◌, Option, none, some, List, [], ◌∷◌,
  if◌then◌else◌,
}
use ortholog_artifact_store.Base.Int.{ℤ}
use ortholog_artifact_store.Storage.{Storage}
use ortholog_artifact_store.Backends.Provider.{BackendProvider}
use ortholog_artifact_store.Api.Http.{
  Method, get, head, post, delete, other_method, Request, write_status,
}
use ortholog_artifact_store.Api.Token.{Codec, UploadTokenVerifier}
use ortholog_artifact_store.Api.Push.{PushHandler, Outcome, push_serve}
use ortholog_artifact_store.Api.Handlers.{
  answer, fetch_serve, exists_serve, pin_serve, delete_serve, resolve_serve, health_serve,
}

-- `ServerConfig`, but for its backend and its logger.
pub record ServerConfig : Type 0 where
  pub verify_on_push : Bool
  pub max_body_size : ℤ
  pub default_expiry : ℤ
  pub upload_token_verifier : Option UploadTokenVerifier
  pub upload_token_policy : Text

-- The push handler that `NewMux` builds: an empty policy is "off".
unfoldable pub push_handler : ServerConfig → PushHandler
push_handler cfg = record {
  verify = cfg.verify_on_push;
  max_body = cfg.max_body_size;
  token_verifier = cfg.upload_token_verifier;
  token_policy = if is_empty cfg.upload_token_policy then text "off" else cfg.upload_token_policy;
}

-- The pattern of `http.ServeMux` that a request matches, with the value of its wildcard.
pub data Route : Type 0 where
  push_route health_route method_not_allowed no_route : Route
  fetch_route exists_route delete_route resolve_route pin_route : Text → Route

abbrev pub is_artifacts : Text → Text → Bool
is_artifacts a b = text_eq a (text "v1") && text_eq b (text "artifacts")

-- A pattern with GET matches HEAD too, unless another pattern has HEAD.
abbrev pub health_method : Method → Route
health_method get = health_route
health_method head = health_route
health_method _ = method_not_allowed

abbrev pub push_method : Method → Route
push_method post = push_route
push_method _ = method_not_allowed

abbrev pub artifact_method : Text → Method → Route
artifact_method cid get = fetch_route cid
artifact_method cid head = exists_route cid
artifact_method cid delete = delete_route cid
artifact_method cid _ = method_not_allowed

abbrev pub resolve_method : Text → Method → Route
resolve_method cid get = resolve_route cid
resolve_method cid head = resolve_route cid
resolve_method cid _ = method_not_allowed

abbrev pub pin_method : Text → Method → Route
pin_method cid post = pin_route cid
pin_method cid _ = method_not_allowed

-- The path is clean (`ServeMux` redirects others), and none of its segments is empty.
unfoldable pub route : Method → List Text → Route
route m (a ∷ []) = if text_eq a (text "healthz") then health_method m else no_route
route m (a ∷ b ∷ []) = if is_artifacts a b then push_method m else no_route
route m (a ∷ b ∷ cid ∷ []) = if is_artifacts a b then artifact_method cid m else no_route
route m (a ∷ b ∷ cid ∷ action ∷ []) =
    if is_artifacts a b
    then (if text_eq action (text "resolve")
        then resolve_method cid m
        else if text_eq action (text "pin")
        then pin_method cid m
        else no_route)
    else no_route
route m _ = no_route

module _ (S : Storage) (B : BackendProvider S) (X : Codec) (format_rfc3339 : ℤ → Text) where
  abbrev pub dispatch : ServerConfig → Request → ℤ → Route → B.State → Outcome B.State
  dispatch cfg r now push_route s = push_serve S B X (push_handler cfg) r now s
  dispatch cfg r now health_route s = health_serve S B s
  dispatch cfg r now method_not_allowed s = answer S B (write_status 405) s
  dispatch cfg r now no_route s = answer S B (write_status 404) s
  dispatch cfg r now (fetch_route cid) s = fetch_serve S B cid s
  dispatch cfg r now (exists_route cid) s = exists_serve S B cid s
  dispatch cfg r now (delete_route cid) s = delete_serve S B cid s
  dispatch cfg r now (resolve_route cid) s =
      resolve_serve S B format_rfc3339 cfg.default_expiry r.expiry cid s
  dispatch cfg r now (pin_route cid) s = pin_serve S B cid s

  -- One request, at a Unix time.
  unfoldable pub serve : ServerConfig → Request → ℤ → B.State → Outcome B.State
  serve cfg r now s = dispatch cfg r now (route r.method r.path) s

  -- The state after a sequence of requests, each with the time at which it is served.
  unfoldable pub serve_all : ServerConfig → List (Request × ℤ) → B.State → B.State
  serve_all cfg [] s = s
  serve_all cfg ((r, now) ∷ requests) s = serve_all cfg requests (serve cfg r now s).state
