-- ===== src/Backends/Gcs/Contract.antt =====
-- `GCSBackend` over a bucket that keeps what GCS documents is a content store: from requests and
-- URLs to the contract of backends/backend.go.
use mathlib.Core.Path.{subst}
use mathlib.Core.List.{append_cancel_left}
use ortholog_artifact_store.Base.{
  Text, Bytes, text, Result, Option-cases, ok, >>=-eq-ok, true, Option, none, some, ◌≡◌, ◌⊎◌, inl,
  inr, refl, sym, arith, All-append,
}
use ortholog_artifact_store.Base.Int.{ℤ}
use ortholog_artifact_store.Base.Urls.Unescape.{IsBytes, query_escape-injective}
use ortholog_artifact_store.Storage.{Storage}
use ortholog_artifact_store.Backends.Provider.{IsContentStore}
use ortholog_artifact_store.Transport.{HttpRequest, HttpResponse, Client}
use ortholog_artifact_store.Backends.Sending.{send_request, bare, with_body, read_all}
use ortholog_artifact_store.Backends.Sending.Sent.{
  AddsByUpload, send_request-adds, send_request-keeps, send_request-Sent,
}
use ortholog_artifact_store.Backends.Gcs.{
  GcsConfig, base_url, object_path, api_url, object_url, media_url, auth_header, prepare, push,
  fetch, exists, pin, delete, resolve, healthy, push_status, fetch_status, exists_status,
  gcs_backend,
}

module _ (S : Storage) (C : Client Bytes) (now : C.State → ℤ) (g : GcsConfig C) where
  -- An upload of the bytes `d` to the object `o`.
  abbrev pub Uploads : Text → Text → Option Bytes → Text → Bytes → Type 0
  Uploads method url body o d =
      (method ≡ text "POST") × (url ≡ api_url S C now g o) × (body ≡ some d)

  -- What GCS documents of a bucket, where `Held s o d` says that the object `o` has the bytes `d`:
  -- objects come from uploads alone, an upload that is answered by 200 or 201 has stored its body,
  -- and a media request that is answered by 200 in full has the bytes of its object. The token
  -- function and the signer upload nothing.
  pub record IsBucket (Held : C.State → Text → Bytes → Type 0) : Type 0 where
    pub send_adds :
        (r : HttpRequest Bytes) (s : C.State) (o : Text) (d : Bytes)
        → Held (C.send r s).1 o d
        → Held s o d ⊎ Uploads r.method r.url r.body o d
    pub upload_stores :
        (r : HttpRequest Bytes) (s : C.State) (o : Text) (d : Bytes) (a : HttpResponse)
        → IsBytes o
        → Uploads r.method r.url r.body o d
        → (C.send r s).0 ≡ ok a
        → (a.status ≡ 200) ⊎ (a.status ≡ 201)
        → Held (C.send r s).1 o d
    pub media_returns :
        (r : HttpRequest Bytes) (s : C.State) (o : Text) (a : HttpResponse)
        → IsBytes o
        → r.method ≡ text "GET"
        → r.url ≡ media_url S C now g o
        → (C.send r s).0 ≡ ok a
        → a.status ≡ 200
        → a.body.failure ≡ none
        → Held s o a.body.bytes
    pub object_exists :
        (r : HttpRequest Bytes) (s : C.State) (o : Text) (a : HttpResponse)
        → IsBytes o
        → r.method ≡ text "GET"
        → r.url ≡ object_url S C now g o
        → (C.send r s).0 ≡ ok a
        → a.status ≡ 200
        → (d : Bytes) × Held s o d
    pub token_keeps :
        (f : C.State → Result Text Text × C.State) (s : C.State) (o : Text) (d : Bytes)
        → g.token_func ≡ some f
        → Held (f s).1 o d
        → Held s o d
    pub sign_keeps :
        (f : Text → Text → ℤ → C.State → Result Text Text × C.State) (b p : Text) (e : ℤ)
        (s : C.State) (o : Text) (d : Bytes)
        → g.url_signer ≡ some f
        → Held (f b p e s).1 o d
        → Held s o d

  -- Objects of different names have different upload URLs.
  pub api_url-injective :
      (o o' : Text) → IsBytes o → IsBytes o' → api_url S C now g o ≡ api_url S C now g o' → o ≡ o'
  unfolding api_url
  api_url-injective o o' ho ho' e = query_escape-injective o o' ho ho' (
      append_cancel_left (text "/o?uploadType=media&name=") _ _ (
        append_cancel_left g.bucket _ _ (
          append_cancel_left (text "/upload/storage/v1/b/") _ _
            (append_cancel_left (base_url S C now g) _ _ e))))

push_ok-stored : (a : HttpResponse) → push_status a ≡ ok tt → (a.status ≡ 200) ⊎ (a.status ≡ 201)
unfolding push_status
push_ok-stored a h = ground arith

fetch_ok-read :
    (a : HttpResponse) (d : Bytes)
    → fetch_status a ≡ ok d
    → (a.status ≡ 200) × (a.body.failure ≡ none) × (a.body.bytes ≡ d)
unfolding fetch_status read_all
fetch_ok-read a d h = ground arith

exists_ok-found : (a : HttpResponse) → exists_status a ≡ ok true → a.status ≡ 200
exists_ok-found a h = ground arith

module _ (S : Storage) (C : Client Bytes) (now : C.State → ℤ) (g : GcsConfig C)
    (Held : C.State → Text → Bytes → Type 0) (law : IsBucket S C now g Held) where
  abbrev path : S.Cid → Text
  path = object_path S C now g

  -- The bytes of an artifact are those of its object.
  abbrev pub Holds : C.State → S.Cid → Bytes → Type 0
  Holds s c d = Held s (path c) d

  auth-Keeps :
      (s : C.State) (o : Text) (d : Bytes) → Held (auth_header S C now g s).1 o d → Held s o d
  unfolding auth_header
  auth-Keeps s o d h = elim (Option-cases g.token_func) [
    | inl absent ↦ rw (absent, auth_header) at h
    | inr (f, given) ↦ law.token_keeps f s o d given (rw (given, auth_header) at h)
  ]

  adds : AddsByUpload C (prepare S C now g) (Uploads S C now g) Held
  unfolding prepare
  adds = record { send_adds = law.send_adds; prepare_keeps = λ op r s o d h. auth-Keeps s o d h }

  -- A request of another method adds nothing.
  request-Keeps :
      (op : Text) (r : HttpRequest Bytes) (s : C.State) (o : Text) (d : Bytes)
      → (r.method ≡ text "POST" → ⊥)
      → Held (send_request C (prepare S C now g) op r s).1 o d
      → Held s o d
  request-Keeps op r s o d other_method h =
      send_request-keeps C (prepare S C now g) (Uploads S C now g) Held adds op r s o d
        (λ u. other_method u.0) h

  resolve-Keeps :
      (c : S.Cid) (e : ℤ) (s : C.State) (o : Text) (d : Bytes)
      → Held (resolve S C now g c e s).1 o d
      → Held s o d
  unfolding resolve
  resolve-Keeps c e s o d h = elim (Option-cases g.url_signer) [
    | inl absent ↦ rw (absent, resolve) at h
    | inr (f, given) ↦ law.sign_keeps f g.bucket (path c) e s o d given (rw (given, resolve) at h)
  ]

  module _ (prefix_bytes : IsBytes g.prefix)
      (string_bytes : (c : S.Cid) → IsBytes (S.string c)) where
    path-IsBytes : (c : S.Cid) → IsBytes (path c)
    unfolding object_path
    path-IsBytes c = All-append _ g.prefix (S.string c) prefix_bytes (string_bytes c)

    push-stores :
        (c : S.Cid) (d : Bytes) (s : C.State)
        → (push S C now g c d s).0 ≡ ok tt
        → Holds (push S C now g c d s).1 c d
    unfolding push
    push-stores c d s h =
        let r =
          with_body (text "POST") (api_url S C now g (path c)) (text "application/octet-stream")
            d in
        let (a, got, fine) =
          >>=-eq-ok (send_request C (prepare S C now g) (text "gcs/push") r s).0 _ h in
        let x =
          send_request-Sent C (prepare S C now g) (Uploads S C now g) Held adds (text "gcs/push") r
            s a got in
        subst (λ t. Held t (path c) d) x.after
          (law.upload_stores (record r { headers = x.headers }) x.from _ d a (path-IsBytes c)
            (refl, refl, refl) x.answered (push_ok-stored a fine))

    fetch-returns :
        (c : S.Cid) (d : Bytes) (s : C.State) → (fetch S C now g c s).0 ≡ ok d → Holds s c d
    unfolding fetch
    fetch-returns c d s h =
        let r = bare (text "GET") (media_url S C now g (path c)) in
        let (a, got, fine) =
          >>=-eq-ok (send_request C (prepare S C now g) (text "gcs/fetch") r s).0 _ h in
        let x =
          send_request-Sent C (prepare S C now g) (Uploads S C now g) Held adds (text "gcs/fetch") r
            s a got in
        let (found, whole, read) = fetch_ok-read a d fine in
        x.keeps _ d (
          subst (Held x.from (path c)) read (
            law.media_returns (record r { headers = x.headers }) x.from _ a (path-IsBytes c) refl
              refl x.answered found whole))

    exists-found :
        (c : S.Cid) (s : C.State) → (exists S C now g c s).0 ≡ ok true → (d : Bytes) × Holds s c d
    unfolding exists
    exists-found c s h =
        let r = bare (text "GET") (object_url S C now g (path c)) in
        let (a, got, fine) =
          >>=-eq-ok (send_request C (prepare S C now g) (text "gcs/exists") r s).0 _ h in
        let x =
          send_request-Sent C (prepare S C now g) (Uploads S C now g) Held adds (text "gcs/exists")
            r s a got in
        let (d, held) =
          law.object_exists (record r { headers = x.headers }) x.from (path c) a (path-IsBytes c)
            refl refl x.answered (exists_ok-found a fine) in
        (d, x.keeps _ d held)

    module _ (string_injective : (c c' : S.Cid) → S.string c ≡ S.string c' → c ≡ c') where
      object_path-injective : (c c' : S.Cid) → path c ≡ path c' → c ≡ c'
      unfolding object_path
      object_path-injective c c' e = string_injective c c' (append_cancel_left g.prefix _ _ e)

      push-Adds :
          (c : S.Cid) (d : Bytes) (s : C.State) (c' : S.Cid) (d' : Bytes)
          → Holds (push S C now g c d s).1 c' d'
          → Holds s c' d' ⊎ ((c' ≡ c) × (d' ≡ d))
      unfolding push
      push-Adds c d s c' d' h =
          elim (send_request-adds C (prepare S C now g) (Uploads S C now g) Held adds
            (text "gcs/push") _ s _ d' h) [
              | inl old ↦ inl old
              | inr (m, u, b) ↦ inr (
                object_path-injective c' c
                    (sym (api_url-injective S C now g _ _ (path-IsBytes c) (path-IsBytes c') u)),
                cc b,
              )
            ]

      -- Over a bucket that keeps what GCS documents, with a prefix and CIDs of bytes and a string
      -- for each CID, the backend keeps the contract of the interface: no operation adds an artifact
      -- but a push its own, a push that succeeds has stored its bytes, a fetch that succeeds returns
      -- stored bytes, and an artifact that is said to exist is held.
      pub gcs-IsContentStore : IsContentStore (gcs_backend S C now g) Holds
      unfolding push fetch exists pin delete resolve healthy
      gcs-IsContentStore = record {
        push_adds = push-Adds;
        push_stores = push-stores;
        fetch_adds = λ c s c' d' h. request-Keeps (text "gcs/fetch") _ s _ d' (λ e. cc) h;
        fetch_returns = fetch-returns;
        pin_adds = λ c s c' d' h. request-Keeps (text "gcs/pin") _ s _ d' (λ e. cc) h;
        exists_adds = λ c s c' d' h. request-Keeps (text "gcs/exists") _ s _ d' (λ e. cc) h;
        exists_true = exists-found;
        delete_adds = λ c s c' d' h. request-Keeps (text "gcs/delete") _ s _ d' (λ e. cc) h;
        resolve_adds = λ c e s c' d' h. resolve-Keeps c e s _ d' h;
        healthy_adds = λ s c' d' h. request-Keeps (text "gcs/health") _ s _ d' (λ e. cc) h;
      }
