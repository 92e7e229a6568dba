-- ===== src/Api/Handlers.antt =====
-- The handlers that act on one artifact: api/fetch.go, exists.go, pin.go, delete.go, resolve.go,
-- and api/health.go. Each gets the value of the path's wildcard `{cid}`.
pub mod Status
pub mod Unheld
pub mod Expiry
use ortholog_artifact_store.Base.{
  ℕ, Text, Bytes, text, is_empty, decimal, length, Result, ok, err, Bool, true, false, ◌&&◌, Option,
  none, some, List, [], ◌∷◌, if◌then◌else◌,
}
use ortholog_artifact_store.Base.Int.{ℤ, pos, mul64, ltb_ℤ, parse_int}
use ortholog_artifact_store.Storage.{
  Storage, StoreError, content_not_found, not_supported, other, error_text,
}
use ortholog_artifact_store.Backends.Provider.{BackendProvider}
use ortholog_artifact_store.Api.Http.{
  Response, write_status, write_error, json_header, raw, empty, credential_json, healthy_json,
  unhealthy_json, credential_to_wire, parse_cid_from_path,
}
use ortholog_artifact_store.Api.Push.{Outcome}

-- Nanoseconds in `time.Second`.
abbrev pub second : ℤ
second = pos 1000000000

-- The expiry of a resolve: the query's seconds if they are a positive number, as a `time.Duration`.
unfoldable pub resolve_expiry : ℤ → Text → ℤ
unfolding parse_int mul64
resolve_expiry default es = elim (parse_int es) [
  | none ↦ default
  | some secs ↦ if ltb_ℤ (pos 0) secs then mul64 secs second else default
]

module _ (S : Storage) (B : BackendProvider S) where
  abbrev pub answer : Response → B.State → Outcome B.State
  answer response s = record { response = some response; log = []; state = s }

  -- `ErrContentNotFound` is 404, any other error 500.
  unfoldable pub not_found_or_500 : StoreError → Response
  unfolding write_error error_text
  not_found_or_500 content_not_found = write_error 404 (text "not found")
  not_found_or_500 not_supported = write_error 500 (error_text S not_supported)
  not_found_or_500 (other e) = write_error 500 (error_text S (other e))

  -- The first step of the handlers that answer with a body.
  unfoldable pub with_cid : Text → (S.Cid → B.State → Outcome B.State) → B.State → Outcome B.State
  unfolding parse_cid_from_path write_error
  with_cid segment handle s = elim (parse_cid_from_path S segment) [
    | err e ↦ answer (write_error 400 e) s
    | ok cid ↦ handle cid s
  ]

  unfoldable pub fetch_response : Result StoreError Bytes → Response
  unfolding not_found_or_500 decimal
  fetch_response (err e) = not_found_or_500 e
  fetch_response (ok bytes) = record {
    status = 200;
    headers =
        (text "Content-Type", text "application/octet-stream")
        ∷ (text "Cache-Control", text "public, immutable")
        ∷ (text "Content-Length", decimal (length bytes))
        ∷ [];
    body = raw bytes;
  }

  unfoldable pub fetch_cid : S.Cid → B.State → Outcome B.State
  unfolding fetch_response
  fetch_cid cid s = let (r, s') = B.fetch cid s in answer (fetch_response r) s'

  -- `FetchHandler.ServeHTTP`
  unfoldable pub fetch_serve : Text → B.State → Outcome B.State
  unfolding with_cid fetch_cid
  fetch_serve segment s = with_cid segment fetch_cid s

  unfoldable pub exists_response : Result StoreError Bool → Response
  unfolding write_status
  exists_response (err e) = write_status 500
  exists_response (ok true) = write_status 200
  exists_response (ok false) = write_status 404

  unfoldable pub exists_cid : S.Cid → B.State → Outcome B.State
  unfolding exists_response
  exists_cid cid s = let (r, s') = B.exists cid s in answer (exists_response r) s'

  -- `ExistsHandler.ServeHTTP`: no bodies, not even for errors.
  unfoldable pub exists_serve : Text → B.State → Outcome B.State
  unfolding exists_cid parse_cid_from_path write_status
  exists_serve segment s = elim (parse_cid_from_path S segment) [
    | err e ↦ answer (write_status 400) s
    | ok cid ↦ exists_cid cid s
  ]

  unfoldable pub pin_response : Result StoreError (Unit {0}) → Response
  unfolding not_found_or_500 write_status
  pin_response (err e) = not_found_or_500 e
  pin_response (ok _) = write_status 200

  unfoldable pub pin_cid : S.Cid → B.State → Outcome B.State
  unfolding pin_response
  pin_cid cid s = let (r, s') = B.pin cid s in answer (pin_response r) s'

  -- `PinHandler.ServeHTTP`
  unfoldable pub pin_serve : Text → B.State → Outcome B.State
  unfolding with_cid pin_cid
  pin_serve segment s = with_cid segment pin_cid s

  unfoldable pub delete_response : Result StoreError (Unit {0}) → Response
  unfolding write_error write_status error_text
  delete_response (ok _) = write_status 200
  delete_response (err not_supported) =
      write_error 501 (text "delete not supported by this backend")
  delete_response (err content_not_found) = write_error 500 (error_text S content_not_found)
  delete_response (err (other e)) = write_error 500 (error_text S (other e))

  unfoldable pub delete_cid : S.Cid → B.State → Outcome B.State
  unfolding delete_response
  delete_cid cid s = let (r, s') = B.delete cid s in answer (delete_response r) s'

  -- `DeleteHandler.ServeHTTP`
  unfoldable pub delete_serve : Text → B.State → Outcome B.State
  unfolding with_cid delete_cid
  delete_serve segment s = with_cid segment delete_cid s

  unfoldable pub health_response : Result StoreError (Unit {0}) → Response
  unfolding error_text
  health_response (err e) = record {
    status = 503;
    headers = json_header;
    body = unhealthy_json (error_text S e);
  }
  health_response (ok _) = record { status = 200; headers = json_header; body = healthy_json }

  -- `HealthHandler.ServeHTTP`
  unfoldable pub health_serve : B.State → Outcome B.State
  unfolding health_response
  health_serve s = let (r, s') = B.healthy s in answer (health_response r) s'

  module _ (format_rfc3339 : ℤ → Text) where
    -- The credential, once the artifact is known to exist.
    unfoldable pub resolve_known : S.Cid → ℤ → B.State → Outcome B.State
    unfolding not_found_or_500 credential_to_wire
    resolve_known cid expiry s =
        let (r, s') = B.resolve cid expiry s in
        elim r [
          | err e ↦ answer (not_found_or_500 e) s'
          | ok credential ↦
              answer
                (record {
                  status = 200;
                  headers = json_header;
                  body = credential_json (credential_to_wire format_rfc3339 credential);
                })
                s'
        ]

    unfoldable pub resolve_cid : ℤ → Text → S.Cid → B.State → Outcome B.State
    unfolding resolve_known resolve_expiry write_error error_text
    resolve_cid default_expiry es cid s =
        let (r, s') = B.exists cid s in
        elim r [
          | err e ↦ answer (write_error 500 (error_text S e)) s'
          | ok found ↦
              if found
              then resolve_known cid (resolve_expiry default_expiry es) s'
              else answer (write_error 404 (text "not found")) s'
        ]

    -- `ResolveHandler.ServeHTTP`
    unfoldable pub resolve_serve : ℤ → Text → Text → B.State → Outcome B.State
    unfolding with_cid resolve_cid
    resolve_serve default_expiry es segment s = with_cid segment (resolve_cid default_expiry es) s
