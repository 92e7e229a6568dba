-- ===== src/Api/Server/Integrity.antt =====
-- Over any backend that keeps its contract, a server that verifies pushes stores and serves only
-- bytes that match their CID.
use ortholog_artifact_store.Base.{
  Text, Bytes, ok, Result-cases, true, Bool-cases, some, List, [], ◌∷◌, ◌≡◌, ◌⊎◌, inl, inr, arith,
}
use ortholog_artifact_store.Base.Int.{ℤ}
use ortholog_artifact_store.Storage.{Storage}
use ortholog_artifact_store.Backends.Provider.{BackendProvider, IsContentStore}
use ortholog_artifact_store.Api.Http.{Request, Response, raw, parse_cid_from_path}
use ortholog_artifact_store.Api.Token.{Codec}
use ortholog_artifact_store.Api.Push.{PushHandler, Outcome, push_serve, persist}
use ortholog_artifact_store.Api.Push.View.{refused, silent, reached, push_serve-View}
use ortholog_artifact_store.Api.Handlers.{
  with_cid, fetch_serve, fetch_cid, exists_serve, pin_serve, pin_cid, delete_serve, delete_cid,
  resolve_serve, resolve_cid, resolve_known, health_serve, resolve_expiry,
}
use ortholog_artifact_store.Api.Server.{
  ServerConfig, push_handler, Route, push_route, health_route, method_not_allowed, no_route,
  fetch_route, exists_route, delete_route, resolve_route, pin_route, route, dispatch, serve,
  serve_all,
}

-- Every artifact that the backend holds matches its CID.
abbrev pub Verified :
    (S : Storage) (B : BackendProvider S) → (B.State → S.Cid → Bytes → Type 0) → B.State → Type 0
Verified S B Holds s = (c : S.Cid) (d : Bytes) → Holds s c d → S.verify c d ≡ true

module _ (S : Storage) (B : BackendProvider S) (X : Codec) (format_rfc3339 : ℤ → Text)
    (Holds : B.State → S.Cid → Bytes → Type 0) (law : IsContentStore B Holds) where
  -- A step that adds nothing to what the backend holds.
  abbrev Keeps : (B.State → Outcome B.State) → Type 0
  Keeps step = (s : B.State) (c : S.Cid) (d : Bytes) → Holds (step s).state c d → Holds s c d

  with_cid-Keeps :
      (segment : Text) (handle : S.Cid → B.State → Outcome B.State)
      → ((cid : S.Cid) → Keeps (handle cid))
      → Keeps (with_cid S B segment handle)
  unfolding with_cid
  with_cid-Keeps segment handle keeps s c d h =
      elim (Result-cases (parse_cid_from_path S segment)) [
        | inl (cid, e) ↦ keeps cid s c d (rw (e, with_cid) at h)
        | inr (x, e) ↦ rw (e, with_cid) at h
      ]

  fetch-Keeps : (segment : Text) → Keeps (fetch_serve S B segment)
  unfolding fetch_serve
  fetch-Keeps segment = with_cid-Keeps segment (fetch_cid S B) (λ cid s. law.fetch_adds cid s)

  pin-Keeps : (segment : Text) → Keeps (pin_serve S B segment)
  unfolding pin_serve
  pin-Keeps segment = with_cid-Keeps segment (pin_cid S B) (λ cid s. law.pin_adds cid s)

  delete-Keeps : (segment : Text) → Keeps (delete_serve S B segment)
  unfolding delete_serve
  delete-Keeps segment = with_cid-Keeps segment (delete_cid S B) (λ cid s. law.delete_adds cid s)

  exists-Keeps : (segment : Text) → Keeps (exists_serve S B segment)
  unfolding exists_serve
  exists-Keeps segment s c d h = elim (Result-cases (parse_cid_from_path S segment)) [
    | inl (cid, e) ↦ law.exists_adds cid s c d (rw (e, exists_serve) at h)
    | inr (x, e) ↦ rw (e, exists_serve) at h
  ]

  resolve_known-Keeps :
      (cid : S.Cid) (expiry : ℤ) → Keeps (resolve_known S B format_rfc3339 cid expiry)
  unfolding resolve_known
  resolve_known-Keeps cid expiry s c d h =
      law.resolve_adds cid expiry s c d (elim (Result-cases (B.resolve cid expiry s).0) [
        | inl (x, e) ↦ rw (e, resolve_known) at h
        | inr (x, e) ↦ rw (e, resolve_known) at h
      ])

  resolve_cid-Keeps :
      (default : ℤ) (es : Text) (cid : S.Cid)
      → Keeps (resolve_cid S B format_rfc3339 default es cid)
  unfolding resolve_cid
  resolve_cid-Keeps default es cid s c d h =
      law.exists_adds cid s c d (elim (Result-cases (B.exists cid s).0) [
        | inr (x, e) ↦ rw (e, resolve_cid) at h
        | inl (found, e) ↦ elim (Bool-cases found) [
          | inl yes_found ↦
              resolve_known-Keeps cid (resolve_expiry default es) _ c d
                (rw (e, yes_found, resolve_cid) at h)
          | inr missing ↦ rw (e, missing, resolve_cid) at h
        ]
      ])

  resolve-Keeps :
      (default : ℤ) (es segment : Text)
      → Keeps (resolve_serve S B format_rfc3339 default es segment)
  unfolding resolve_serve
  resolve-Keeps default es segment = with_cid-Keeps segment _ (resolve_cid-Keeps default es)

  persist_state :
      (r : Request) (cid_str : Text) (cid : S.Cid) (body : Bytes) (s : B.State)
      → (persist S B X r cid_str cid body s).state ≡ (B.push cid body s).1
  unfolding persist
  persist_state r cid_str cid body s = ground arith

  -- A push adds at most one artifact, and it matches its CID.
  push_adds_verified :
      (h : PushHandler) (r : Request) (now : ℤ) (s : B.State) (c : S.Cid) (d : Bytes)
      → h.verify ≡ true
      → Holds (push_serve S B X h r now s).state c d
      → Holds s c d ⊎ (S.verify c d ≡ true)
  push_adds_verified h r now s c d on held = elim (push_serve-View S B X h r now s) [
    | refused response entry e fits ↦ inl (rw e at held)
    | silent body marked e ↦ inl (rw e at held)
    | reached cid body parsed read fits authorized verified e ↦
        elim (law.push_adds cid body s c d (rw (e, persist_state) at held)) [
          | inl old ↦ inl old
          | inr (same_cid, same_body) ↦ inr (rw (same_cid, same_body) (verified on))
        ]
  ]

  dispatch-Verified :
      (cfg : ServerConfig) (r : Request) (now : ℤ) (to : Route) (s : B.State)
      → cfg.verify_on_push ≡ true
      → Verified S B Holds s
      → Verified S B Holds (dispatch S B X format_rfc3339 cfg r now to s).state
  unfolding push_handler health_serve
  dispatch-Verified cfg r now push_route s on v c d h =
      elim (push_adds_verified (push_handler cfg) r now s c d on h) [
        | inl old ↦ v c d old
        | inr matches ↦ matches
      ]
  dispatch-Verified cfg r now health_route s on v c d h = v c d (law.healthy_adds s c d h)
  dispatch-Verified cfg r now method_not_allowed s on v c d h = v c d h
  dispatch-Verified cfg r now no_route s on v c d h = v c d h
  dispatch-Verified cfg r now (fetch_route cid) s on v c d h = v c d (fetch-Keeps cid s c d h)
  dispatch-Verified cfg r now (exists_route cid) s on v c d h = v c d (exists-Keeps cid s c d h)
  dispatch-Verified cfg r now (delete_route cid) s on v c d h = v c d (delete-Keeps cid s c d h)
  dispatch-Verified cfg r now (resolve_route cid) s on v c d h =
      v c d (resolve-Keeps cfg.default_expiry r.expiry cid s c d h)
  dispatch-Verified cfg r now (pin_route cid) s on v c d h = v c d (pin-Keeps cid s c d h)

  -- Whatever the requests, with verification on, a backend whose artifacts match their CIDs is left
  -- with artifacts that match their CIDs.
  pub serve_all-Verified :
      (cfg : ServerConfig) (requests : List (Request × ℤ)) (s : B.State)
      → cfg.verify_on_push ≡ true
      → Verified S B Holds s
      → Verified S B Holds (serve_all S B X format_rfc3339 cfg requests s)
  unfolding serve_all serve
  serve_all-Verified cfg [] s on v = v
  serve_all-Verified cfg ((r, now) ∷ requests) s on v =
      serve_all-Verified cfg requests _ on
        (dispatch-Verified cfg r now (route r.method r.path) s on v)

  fetch_cid-raw :
      (cid : S.Cid) (s : B.State) (response : Response) (d : Bytes)
      → (fetch_cid S B cid s).response ≡ some response
      → response.body ≡ raw d
      → (B.fetch cid s).0 ≡ ok d
  unfolding fetch_cid
  fetch_cid-raw cid s response d answer body = ground arith

  -- After any requests, with verification on, the bytes that a fetch answers with match the CID
  -- in its path.
  pub fetch-matches :
      (cfg : ServerConfig) (requests : List (Request × ℤ)) (s : B.State) (segment : Text)
      (response : Response) (d : Bytes)
      → cfg.verify_on_push ≡ true
      → Verified S B Holds s
      → (fetch_serve S B segment (serve_all S B X format_rfc3339 cfg requests s)).response
        ≡ some response
      → response.body ≡ raw d
      → (cid : S.Cid) × (parse_cid_from_path S segment ≡ ok cid) × (S.verify cid d ≡ true)
  unfolding fetch_serve with_cid
  fetch-matches cfg requests s segment response d on v answer body =
      elim (Result-cases (parse_cid_from_path S segment)) [
        | inr (x, e) ↦ absurd (ground (arith, rw (e, with_cid) at answer))
        | inl (cid, e) ↦ (
          cid,
          e,
          serve_all-Verified cfg requests s on v cid d (
              law.fetch_returns cid d _
                (fetch_cid-raw cid _ response d (rw (e, with_cid) at answer) body)),
        )
      ]
