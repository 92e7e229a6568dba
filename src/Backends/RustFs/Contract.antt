-- ===== src/Backends/RustFs/Contract.antt =====
-- `RustFSBackend` over a bucket that keeps what S3 documents is a content store: from requests and
-- URLs to the contract of backends/backend.go.
use mathlib.Core.Path.{subst}
use mathlib.Core.List.{append_assoc, append_cancel_left}
use ortholog_artifact_store.Base.{
  Text, Bytes, text, Result, Option-cases, ok, >>=-eq-ok, true, false, Option, none, some, ◌++◌,
  ◌≡◌, ◌⊎◌, inl, inr, refl, sym, ◌∙◌, arith, index_byte, index_byte-found, Bool-cases, text_eq,
  text_apart,
}
use ortholog_artifact_store.Base.Int.{ℤ}
use ortholog_artifact_store.Base.Dict.{Dict}
use ortholog_artifact_store.Storage.{Storage}
use ortholog_artifact_store.Backends.Provider.{IsContentStore}
use ortholog_artifact_store.Transport.{HttpRequest, HttpResponse, Client}
use ortholog_artifact_store.Backends.Sending.{send_request, bare, with_body, read_all}
use ortholog_artifact_store.Backends.Sending.Sent.{
  AddsByUpload, send_request-adds, send_request-keeps, send_request-Sent,
}
use ortholog_artifact_store.Backends.RustFs.{
  RustFsConfig, object_key, object_url, sign_request, push, fetch, exists, pin, delete, resolve,
  healthy, push_status, fetch_status, exists_status, rustfs_backend,
}

-- A URL that names an object and no part of it has no query.
abbrev pub IsPlain : Text → Type 0
IsPlain url = index_byte url b'?' ≡ none

-- An upload of the bytes `d` to the object at the URL `o`.
abbrev pub Uploads : Text → Text → Option Bytes → Text → Bytes → Type 0
Uploads method url body o d = (method ≡ text "PUT") × (url ≡ o) × IsPlain url × (body ≡ some d)

module _ (C : Client Bytes) (g : RustFsConfig C) where
  -- What S3 documents of a bucket, where `Held s o d` says that the object at the URL `o` has the
  -- bytes `d`: objects come from uploads alone, an upload that is answered by 200 or 201 has
  -- stored its body, and a request that is answered by 200 in full has the bytes of its object.
  -- The signers upload nothing.
  pub record IsBucket (Held : C.State → Text → Bytes → Type 0) : Type 0 where
    pub send_adds :
        (r : HttpRequest Bytes) (s : C.State) (o : Text) (d : Bytes)
        → Held (C.send r s).1 o d
        → Held s o d ⊎ Uploads r.method r.url r.body o d
    pub upload_stores :
        (r : HttpRequest Bytes) (s : C.State) (o : Text) (d : Bytes) (a : HttpResponse)
        → Uploads r.method r.url r.body o d
        → (C.send r s).0 ≡ ok a
        → (a.status ≡ 200) ⊎ (a.status ≡ 201)
        → Held (C.send r s).1 o d
    pub get_returns :
        (r : HttpRequest Bytes) (s : C.State) (a : HttpResponse)
        → r.method ≡ text "GET"
        → IsPlain r.url
        → (C.send r s).0 ≡ ok a
        → a.status ≡ 200
        → a.body.failure ≡ none
        → Held s r.url a.body.bytes
    pub head_exists :
        (r : HttpRequest Bytes) (s : C.State) (a : HttpResponse)
        → r.method ≡ text "HEAD"
        → IsPlain r.url
        → (C.send r s).0 ≡ ok a
        → a.status ≡ 200
        → (d : Bytes) × Held s r.url d
    pub request_sign_keeps :
        (f : HttpRequest Bytes → C.State → Result Text (Dict Text) × C.State)
        (r : HttpRequest Bytes) (s : C.State) (o : Text) (d : Bytes)
        → g.request_signer ≡ some f
        → Held (f r s).1 o d
        → Held s o d
    pub url_sign_keeps :
        (f : Text → Text → ℤ → C.State → Result Text Text × C.State) (b p : Text) (e : ℤ)
        (s : C.State) (o : Text) (d : Bytes)
        → g.url_signer ≡ some f
        → Held (f b p e s).1 o d
        → Held s o d

push_ok-stored : (a : HttpResponse) → push_status a ≡ ok tt → (a.status ≡ 200) ⊎ (a.status ≡ 201)
unfolding push_status
push_ok-stored a h = ground arith

fetch_ok-read :
    (a : HttpResponse) (d : Bytes)
    → fetch_status a ≡ ok d
    → (a.status ≡ 200) × (a.body.failure ≡ none) × (a.body.bytes ≡ d)
unfolding fetch_status read_all
fetch_ok-read a d h = ground arith

exists_ok-found : (a : HttpResponse) → exists_status a ≡ ok true → a.status ≡ 200
exists_ok-found a h = ground arith

module _ (S : Storage) (C : Client Bytes) (now : C.State → ℤ) (g : RustFsConfig C) where
  -- Whether the style is path style or virtual-hosted style, the URL of an object is the endpoint,
  -- the bucket and the key.
  pub object_url_style :
      (c : S.Cid)
      → object_url S C now g c
        ≡ g.endpoint ++ (text "/" ++ (g.bucket ++ (text "/" ++ object_key S C now g c)))
  unfolding object_url
  object_url_style c = elim (Bool-cases g.path_style) [
    | inl path ↦ rw (path, object_url) refl
    | inr virtual ↦
        rw (virtual, object_url)
          (append_assoc g.endpoint (text "/" ++ g.bucket) (text "/" ++ object_key S C now g c))
  ]

  -- Different CIDs have different URLs.
  object_url-injective :
      ((c c' : S.Cid) → S.string c ≡ S.string c' → c ≡ c')
      → (c c' : S.Cid) → object_url S C now g c ≡ object_url S C now g c'
      → c ≡ c'
  unfolding object_key
  object_url-injective string_injective c c' e = string_injective c c' (
      append_cancel_left g.prefix _ _ (
        append_cancel_left (text "/") _ _ (
          append_cancel_left g.bucket _ _ (
            append_cancel_left (text "/") _ _ (
              append_cancel_left g.endpoint _ _
                (sym (object_url_style c) ∙ (e ∙ object_url_style c')))))))

module _ (S : Storage) (C : Client Bytes) (now : C.State → ℤ) (g : RustFsConfig C)
    (Held : C.State → Text → Bytes → Type 0) (law : IsBucket C g Held) where
  abbrev url : S.Cid → Text
  url = object_url S C now g

  -- The bytes of an artifact are those of its object.
  abbrev pub Holds : C.State → S.Cid → Bytes → Type 0
  Holds s c d = Held s (url c) d

  sign-Keeps :
      (op : Text) (r : HttpRequest Bytes) (s : C.State) (o : Text) (d : Bytes)
      → Held (sign_request S C now g op r s).1 o d
      → Held s o d
  unfolding sign_request
  sign-Keeps op r s o d h = elim (Option-cases g.request_signer) [
    | inl absent ↦ rw (absent, sign_request) at h
    | inr (f, given) ↦ law.request_sign_keeps f r s o d given (rw (given, sign_request) at h)
  ]

  adds : AddsByUpload C (sign_request S C now g) Uploads Held
  adds = record { send_adds = law.send_adds; prepare_keeps = sign-Keeps }

  other_method : (m : Text) → text_eq m (text "PUT") ≡ false → m ≡ text "PUT" → ⊥
  other_method m = text_apart m (text "PUT")

  -- A request that is no upload adds nothing.
  request-Keeps :
      (op : Text) (r : HttpRequest Bytes) (s : C.State) (o : Text) (d : Bytes)
      → (r.method ≡ text "PUT" → IsPlain r.url → ⊥)
      → Held (send_request C (sign_request S C now g) op r s).1 o d
      → Held s o d
  request-Keeps op r s o d no_upload h =
      send_request-keeps C (sign_request S C now g) Uploads Held adds op r s o d
        (λ u. no_upload u.0 u.2) h

  pin-Keeps :
      (c : S.Cid) (s : C.State) (o : Text) (d : Bytes) → Held (pin S C now g c s).1 o d → Held s o d
  unfolding pin
  pin-Keeps c s o d h =
      request-Keeps (text "rustfs/pin") _ s o d
        (λ m p. index_byte-found b'?' (url c) (text "tagging") p) h

  resolve-Keeps :
      (c : S.Cid) (e : ℤ) (s : C.State) (o : Text) (d : Bytes)
      → Held (resolve S C now g c e s).1 o d
      → Held s o d
  unfolding resolve
  resolve-Keeps c e s o d h = elim (Option-cases g.url_signer) [
    | inl absent ↦ rw (absent, resolve) at h
    | inr (f, given) ↦
        law.url_sign_keeps f g.bucket (object_key S C now g c) e s o d given
          (rw (given, resolve) at h)
  ]

  module _ (plain : (c : S.Cid) → IsPlain (url c))
      (string_injective : (c c' : S.Cid) → S.string c ≡ S.string c' → c ≡ c') where
    push-Adds :
        (c : S.Cid) (d : Bytes) (s : C.State) (c' : S.Cid) (d' : Bytes)
        → Holds (push S C now g c d s).1 c' d'
        → Holds s c' d' ⊎ ((c' ≡ c) × (d' ≡ d))
    unfolding push
    push-Adds c d s c' d' h =
        elim (send_request-adds C (sign_request S C now g) Uploads Held adds (text "rustfs/push") _
          s _ d' h) [
            | inl old ↦ inl old
            | inr (m, u, p, b) ↦
                inr (object_url-injective S C now g string_injective c' c (sym u), cc b)
          ]

    push-stores :
        (c : S.Cid) (d : Bytes) (s : C.State)
        → (push S C now g c d s).0 ≡ ok tt
        → Holds (push S C now g c d s).1 c d
    unfolding push
    push-stores c d s h =
        let r = with_body (text "PUT") (url c) (text "application/octet-stream") d in
        let (a, got, fine) =
          >>=-eq-ok (send_request C (sign_request S C now g) (text "rustfs/push") r s).0 _ h in
        let x =
          send_request-Sent C (sign_request S C now g) Uploads Held adds (text "rustfs/push") r s a
            got in
        subst (λ t. Held t (url c) d) x.after
          (law.upload_stores (record r { headers = x.headers }) x.from _ d a
            (refl, refl, plain c, refl) x.answered (push_ok-stored a fine))

    fetch-returns :
        (c : S.Cid) (d : Bytes) (s : C.State) → (fetch S C now g c s).0 ≡ ok d → Holds s c d
    unfolding fetch
    fetch-returns c d s h =
        let r = bare (text "GET") (url c) in
        let (a, got, fine) =
          >>=-eq-ok (send_request C (sign_request S C now g) (text "rustfs/fetch") r s).0 _ h in
        let x =
          send_request-Sent C (sign_request S C now g) Uploads Held adds (text "rustfs/fetch") r s a
            got in
        let (found, whole, read) = fetch_ok-read a d fine in
        x.keeps _ d (
          subst (Held x.from (url c)) read (
            law.get_returns (record r { headers = x.headers }) x.from a refl (plain c) x.answered
              found whole))

    exists-found :
        (c : S.Cid) (s : C.State) → (exists S C now g c s).0 ≡ ok true → (d : Bytes) × Holds s c d
    unfolding exists
    exists-found c s h =
        let r = bare (text "HEAD") (url c) in
        let (a, got, fine) =
          >>=-eq-ok (send_request C (sign_request S C now g) (text "rustfs/exists") r s).0 _ h in
        let x =
          send_request-Sent C (sign_request S C now g) Uploads Held adds (text "rustfs/exists") r s
            a got in
        let (d, held) =
          law.head_exists (record r { headers = x.headers }) x.from a refl (plain c) x.answered
            (exists_ok-found a fine) in
        (d, x.keeps _ d held)

    -- Over a bucket that keeps what S3 documents, with object URLs that have no query and a string
    -- for each CID, the backend keeps the contract of the interface: no operation adds an artifact
    -- but a push its own, a push that succeeds has stored its bytes, a fetch that succeeds returns
    -- stored bytes, and an artifact that is said to exist is held.
    pub rustfs-IsContentStore : IsContentStore (rustfs_backend S C now g) Holds
    unfolding push fetch exists pin delete resolve healthy text_eq
    rustfs-IsContentStore = record {
      push_adds = push-Adds;
      push_stores = push-stores;
      fetch_adds = λ c s c' d' h.
          request-Keeps (text "rustfs/fetch") _ s _ d' (λ m p. other_method (text "GET") refl m) h;
      fetch_returns = fetch-returns;
      pin_adds = λ c s c' d' h. pin-Keeps c s _ d' h;
      exists_adds = λ c s c' d' h.
          request-Keeps (text "rustfs/exists") _ s _ d' (λ m p. other_method (text "HEAD") refl m)
            h;
      exists_true = exists-found;
      delete_adds = λ c s c' d' h.
          request-Keeps (text "rustfs/delete") _ s _ d' (λ m p. other_method (text "DELETE") refl m)
            h;
      resolve_adds = λ c e s c' d' h. resolve-Keeps c e s _ d' h;
      healthy_adds = λ s c' d' h.
          request-Keeps (text "rustfs/health") _ s _ d' (λ m p. other_method (text "HEAD") refl m)
            h;
    }
