-- ===== src/Backends/Gcs.antt =====
-- `GCSBackend` of backends/gcs.go: each operation is one request to the JSON API.
pub mod Statuses
pub mod Contract
use ortholog_artifact_store.Base.{
  ℕ, Text, Bytes, text, is_empty, decimal, Result, ok, err, map_err, map_ok, ◌>>=◌, Bool, true,
  false, ◌||◌, Option, none, some, List, [], ◌∷◌, ◌++◌, ◌==◌, if◌then◌else◌,
}
use ortholog_artifact_store.Base.Int.{ℤ, pos, ◌+ℤ◌}
use ortholog_artifact_store.Base.Dict.{Dict, insert}
use ortholog_artifact_store.Base.Urls.{path_escape, query_escape}
use ortholog_artifact_store.Storage.{
  Storage, StoreError, content_not_found, not_supported, other, RetrievalCredential,
}
use ortholog_artifact_store.Api.Http.{RequestBody}
use ortholog_artifact_store.Backends.Provider.{BackendProvider}
use ortholog_artifact_store.Transport.{HttpRequest, HttpResponse, Client}
use ortholog_artifact_store.Backends.Sending.{
  op_error, status_error, body_error, read_all, send_request, bare, with_body,
}

-- `GCSConfig`, with `none` for a function or a signer that is nil. Both may call other services.
pub record GcsConfig (C : Client Bytes) : Type 0 where
  pub bucket : Text
  pub prefix : Text
  pub token_func : Option (C.State → Result Text Text × C.State)
  pub url_signer : Option (Text → Text → ℤ → C.State → Result Text Text × C.State)
  pub base_url : Text

-- What each operation makes of a response.
unfoldable pub push_status : HttpResponse → Result StoreError (Unit {0})
unfolding body_error
push_status r =
    if (r.status == 200) || (r.status == 201) then ok tt else err (body_error (text "gcs/push") r)

unfoldable pub fetch_status : HttpResponse → Result StoreError Bytes
unfolding body_error read_all
fetch_status r =
    if r.status == 404
    then err content_not_found
    else if r.status == 200
    then read_all r.body
    else err (body_error (text "gcs/fetch") r)

abbrev pub exists_status : HttpResponse → Result StoreError Bool
exists_status r = ok (r.status == 200)

abbrev pub pin_status : HttpResponse → Result StoreError (Unit {0})
pin_status r = if r.status == 404 then err content_not_found else ok tt

unfoldable pub delete_status : HttpResponse → Result StoreError (Unit {0})
unfolding body_error
delete_status r =
    if (r.status == 200) || (r.status == 204)
    then ok tt
    else if r.status == 404
    then err content_not_found
    else err (body_error (text "gcs/delete") r)

unfoldable pub health_status : HttpResponse → Result StoreError (Unit {0})
unfolding status_error
health_status r = if r.status == 200 then ok tt else err (status_error (text "gcs/health") r)

module _ (S : Storage) (C : Client Bytes) (now : C.State → ℤ) (g : GcsConfig C) where
  unfoldable pub base_url : Text
  base_url = if is_empty g.base_url then text "https://storage.googleapis.com" else g.base_url

  unfoldable pub object_path : S.Cid → Text
  object_path cid = g.prefix ++ S.string cid

  unfoldable pub api_url : Text → Text
  unfolding base_url query_escape
  api_url object =
      base_url
      ++ (text "/upload/storage/v1/b/"
          ++ (g.bucket ++ (text "/o?uploadType=media&name=" ++ query_escape object)))

  unfoldable pub object_url : Text → Text
  unfolding base_url path_escape
  object_url object =
      base_url ++ (text "/storage/v1/b/" ++ (g.bucket ++ (text "/o/" ++ path_escape object)))

  unfoldable pub media_url : Text → Text
  unfolding object_url
  media_url object = object_url object ++ text "?alt=media"

  unfoldable pub bucket_url : Text
  unfolding base_url
  bucket_url = base_url ++ (text "/storage/v1/b/" ++ g.bucket)

  -- `authHeader`
  unfoldable pub auth_header : C.State → Result StoreError Text × C.State
  auth_header s = elim g.token_func [
    | none ↦ (ok [], s)
    | some token ↦
        let (r, s') = token s in
        (
          elim r [
            | ok t ↦ ok (text "Bearer " ++ t)
            | err e ↦ err (op_error (text "gcs: get token") e)
          ],
          s',
        )
  ]

  -- The headers of a request, with the authorization if there is one.
  abbrev pub authorize : HttpRequest Bytes → Text → Dict Text
  authorize r auth =
      if is_empty auth then r.headers else insert (text "Authorization") auth r.headers

  unfoldable pub prepare :
      Text → HttpRequest Bytes → C.State → Result StoreError (Dict Text) × C.State
  unfolding auth_header insert
  prepare op r s = let (auth, s') = auth_header s in (map_ok (authorize r) auth, s')

  unfoldable pub push : S.Cid → Bytes → C.State → Result StoreError (Unit {0}) × C.State
  unfolding send_request prepare push_status api_url object_path
  push cid bytes s =
      let (r, s') =
        send_request C prepare (text "gcs/push")
          (with_body (text "POST") (api_url (object_path cid)) (text "application/octet-stream")
            bytes)
          s in
      (r >>= push_status, s')

  unfoldable pub fetch : S.Cid → C.State → Result StoreError Bytes × C.State
  unfolding send_request prepare fetch_status media_url object_path
  fetch cid s =
      let (r, s') =
        send_request C prepare (text "gcs/fetch") (bare (text "GET") (media_url (object_path cid)))
          s in
      (r >>= fetch_status, s')

  unfoldable pub exists : S.Cid → C.State → Result StoreError Bool × C.State
  unfolding send_request prepare object_url object_path
  exists cid s =
      let (r, s') =
        send_request C prepare (text "gcs/exists")
          (bare (text "GET") (object_url (object_path cid))) s in
      (r >>= exists_status, s')

  unfoldable pub pin : S.Cid → C.State → Result StoreError (Unit {0}) × C.State
  unfolding send_request prepare object_url object_path
  pin cid s =
      let (r, s') =
        send_request C prepare (text "gcs/pin")
          (with_body (text "PATCH") (object_url (object_path cid)) (text "application/json")
            (text "{\"metadata\":{\"ortholog-pinned\":\"true\"}}"))
          s in
      (r >>= pin_status, s')

  unfoldable pub delete : S.Cid → C.State → Result StoreError (Unit {0}) × C.State
  unfolding send_request prepare delete_status object_url object_path
  delete cid s =
      let (r, s') =
        send_request C prepare (text "gcs/delete")
          (bare (text "DELETE") (object_url (object_path cid))) s in
      (r >>= delete_status, s')

  -- The expiry is counted from the end of the signing.
  unfoldable pub resolve : S.Cid → ℤ → C.State → Result StoreError RetrievalCredential × C.State
  unfolding object_path ◌+ℤ◌
  resolve cid expiry s = elim g.url_signer [
    | none ↦ (err (op_error (text "gcs/resolve") (text "no URL signer configured")), s)
    | some sign ↦
        let (r, s') = sign g.bucket (object_path cid) expiry s in
        (
          map_err (op_error (text "gcs/resolve")) r >>= λ url. ok (record {
            method = S.method_signed_url;
            url = url;
            expiry = some (now s' +ℤ expiry);
          }),
          s',
        )
  ]

  -- `Healthy` drops the error of the request: it would go on to a nil request and panic. Here that
  -- is the error of the request.
  unfoldable pub healthy : C.State → Result StoreError (Unit {0}) × C.State
  unfolding send_request prepare health_status bucket_url
  healthy s =
      let (r, s') = send_request C prepare (text "gcs/health") (bare (text "GET") bucket_url) s in
      (r >>= health_status, s')

-- `GCSBackend` as a `BackendProvider`.
abbrev pub gcs_backend :
    (S : Storage) (C : Client Bytes) → (C.State → ℤ) → GcsConfig C → BackendProvider S
gcs_backend S C now g = record {
  State = C.State;
  push = push S C now g;
  fetch = fetch S C now g;
  pin = pin S C now g;
  exists = exists S C now g;
  delete = delete S C now g;
  resolve = resolve S C now g;
  healthy = healthy S C now g;
}
