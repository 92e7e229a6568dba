-- ===== src/Backends/RustFs.antt =====
-- `RustFSBackend` of backends/rustfs.go: each operation is one request of the S3 protocol.
pub mod Statuses
pub mod Contract
use ortholog_artifact_store.Base.{
  ℕ, Text, Bytes, text, decimal, Result, ok, err, map_err, ◌>>=◌, Bool, true, false, ◌||◌, Option,
  none, some, List, [], ◌∷◌, ◌++◌, ◌==◌, ltb, leb, if◌then◌else◌,
}
use ortholog_artifact_store.Base.Int.{ℤ, pos, ◌+ℤ◌}
use ortholog_artifact_store.Base.Dict.{Dict}
use ortholog_artifact_store.Storage.{
  Storage, StoreError, content_not_found, other, RetrievalCredential,
}
use ortholog_artifact_store.Backends.Provider.{BackendProvider}
use ortholog_artifact_store.Transport.{HttpRequest, HttpResponse, Client}
use ortholog_artifact_store.Backends.Sending.{
  op_error, status_error, body_error, read_all, send_request, bare, with_body,
}

-- `RustFSConfig`, with `none` for a signer that is nil. A request signer gives the headers of the
-- request that it has signed.
pub record RustFsConfig (C : Client Bytes) : Type 0 where
  pub endpoint : Text
  pub bucket : Text
  pub region : Text
  pub prefix : Text
  pub path_style : Bool
  pub request_signer : Option (HttpRequest Bytes → C.State → Result Text (Dict Text) × C.State)
  pub url_signer : Option (Text → Text → ℤ → C.State → Result Text Text × C.State)

-- What each operation makes of a response.
unfoldable pub push_status : HttpResponse → Result StoreError (Unit {0})
unfolding status_error
push_status r =
    if (r.status == 200) || (r.status == 201)
    then ok tt
    else err (status_error (text "rustfs/push") r)

unfoldable pub fetch_status : HttpResponse → Result StoreError Bytes
unfolding body_error read_all
fetch_status r =
    if (r.status == 404) || (r.status == 403)
    then err content_not_found
    else if r.status == 200
    then read_all r.body
    else err (body_error (text "rustfs/fetch") r)

abbrev pub exists_status : HttpResponse → Result StoreError Bool
exists_status r = ok (r.status == 200)

abbrev pub pin_status : HttpResponse → Result StoreError (Unit {0})
pin_status r = if r.status == 404 then err content_not_found else ok tt

unfoldable pub delete_status : HttpResponse → Result StoreError (Unit {0})
unfolding body_error
delete_status r =
    if ltb r.status 200 || leb 300 r.status
    then err (body_error (text "rustfs/delete") r)
    else ok tt

unfoldable pub health_status : HttpResponse → Result StoreError (Unit {0})
unfolding status_error
health_status r = if leb 500 r.status then err (status_error (text "rustfs/health") r) else ok tt

module _ (S : Storage) (C : Client Bytes) (now : C.State → ℤ) (g : RustFsConfig C) where
  unfoldable pub object_key : S.Cid → Text
  object_key cid = g.prefix ++ S.string cid

  -- The two styles are written apart, and give the same URL.
  unfoldable pub object_url : S.Cid → Text
  unfolding object_key
  object_url cid =
      if g.path_style
      then g.endpoint ++ (text "/" ++ (g.bucket ++ (text "/" ++ object_key cid)))
      else (g.endpoint ++ (text "/" ++ g.bucket)) ++ (text "/" ++ object_key cid)

  unfoldable pub health_url : Text
  unfolding object_url
  health_url = if g.path_style then g.endpoint ++ (text "/" ++ g.bucket) else object_url S.zero_cid

  -- `signRequest`, with the error that the operations make of it.
  unfoldable pub sign_request :
      Text → HttpRequest Bytes → C.State → Result StoreError (Dict Text) × C.State
  sign_request op r s = elim g.request_signer [
    | none ↦ (ok r.headers, s)
    | some sign ↦
        let (signed, s') = sign r s in (map_err (op_error (op ++ text ": sign")) signed, s')
  ]

  unfoldable pub push : S.Cid → Bytes → C.State → Result StoreError (Unit {0}) × C.State
  unfolding send_request sign_request push_status object_url
  push cid bytes s =
      let (r, s') =
        send_request C sign_request (text "rustfs/push")
          (with_body (text "PUT") (object_url cid) (text "application/octet-stream") bytes) s in
      (r >>= push_status, s')

  unfoldable pub fetch : S.Cid → C.State → Result StoreError Bytes × C.State
  unfolding send_request sign_request fetch_status object_url
  fetch cid s =
      let (r, s') =
        send_request C sign_request (text "rustfs/fetch") (bare (text "GET") (object_url cid)) s in
      (r >>= fetch_status, s')

  unfoldable pub exists : S.Cid → C.State → Result StoreError Bool × C.State
  unfolding send_request sign_request object_url
  exists cid s =
      let (r, s') =
        send_request C sign_request (text "rustfs/exists") (bare (text "HEAD") (object_url cid))
          s in
      (r >>= exists_status, s')

  abbrev pub pin_body : Text
  pin_body =
      text "<?xml version=\"1.0\" encoding=\"UTF-8\"?><Tagging><TagSet><Tag>"
      ++ text "<Key>ortholog-pinned</Key><Value>true</Value></Tag></TagSet></Tagging>"

  unfoldable pub pin : S.Cid → C.State → Result StoreError (Unit {0}) × C.State
  unfolding send_request sign_request object_url
  pin cid s =
      let (r, s') =
        send_request C sign_request (text "rustfs/pin")
          (with_body (text "PUT") (object_url cid ++ text "?tagging") (text "application/xml")
            pin_body)
          s in
      (r >>= pin_status, s')

  unfoldable pub delete : S.Cid → C.State → Result StoreError (Unit {0}) × C.State
  unfolding send_request sign_request delete_status object_url
  delete cid s =
      let (r, s') =
        send_request C sign_request (text "rustfs/delete") (bare (text "DELETE") (object_url cid))
          s in
      (r >>= delete_status, s')

  unfoldable pub resolve : S.Cid → ℤ → C.State → Result StoreError RetrievalCredential × C.State
  unfolding object_key ◌+ℤ◌
  resolve cid expiry s = elim g.url_signer [
    | none ↦ (err (op_error (text "rustfs/resolve") (text "no URL signer configured")), s)
    | some presign ↦
        let (r, s') = presign g.bucket (object_key cid) expiry s in
        (
          map_err (op_error (text "rustfs/resolve")) r >>= λ url. ok (record {
            method = S.method_signed_url;
            url = url;
            expiry = some (now s' +ℤ expiry);
          }),
          s',
        )
  ]

  -- `Healthy` drops the error of the request: it would go on to a nil request and panic. Here that
  -- is the error of the request.
  unfoldable pub healthy : C.State → Result StoreError (Unit {0}) × C.State
  unfolding send_request sign_request health_status health_url
  healthy s =
      let (r, s') =
        send_request C sign_request (text "rustfs/health") (bare (text "HEAD") health_url) s in
      (r >>= health_status, s')

-- `RustFSBackend` as a `BackendProvider`.
abbrev pub rustfs_backend :
    (S : Storage) (C : Client Bytes) → (C.State → ℤ) → RustFsConfig C → BackendProvider S
rustfs_backend S C now g = record {
  State = C.State;
  push = push S C now g;
  fetch = fetch S C now g;
  pin = pin S C now g;
  exists = exists S C now g;
  delete = delete S C now g;
  resolve = resolve S C now g;
  healthy = healthy S C now g;
}
