-- ===== src/Api/Handlers/Unheld.antt =====
-- What the handlers answer for an artifact that the backend does not hold.
use mathlib.Core.Path.{subst}
use ortholog_artifact_store.Base.{
  Text, Bytes, ok-injective, ok, Result-cases, ◌≡◌, ◌≢◌, sym, ◌∙◌, inl, inr, ap, arith,
}
use ortholog_artifact_store.Base.Int.{ℤ}
use ortholog_artifact_store.Storage.{Storage}
use ortholog_artifact_store.Backends.Provider.{BackendProvider, IsContentStore}
use ortholog_artifact_store.Api.Http.{parse_cid_from_path, write_status}
use ortholog_artifact_store.Api.Push.{status_code}
use ortholog_artifact_store.Api.Handlers.{
  fetch_serve, exists_serve, resolve_serve, with_cid, fetch_cid, exists_cid, fetch_response,
  exists_response,
}
use ortholog_artifact_store.Api.Handlers.Status.{not_found_or_500-ne, resolve_answers}

module _ (S : Storage) (B : BackendProvider S) (format_rfc3339 : ℤ → Text) (default_expiry : ℤ)
    (Holds : B.State → S.Cid → Bytes → Type 0) (law : IsContentStore B Holds) (segment : Text)
    (s : B.State) where
  fetch-Holds :
      (cid : S.Cid)
      → parse_cid_from_path S segment ≡ ok cid
      → status_code (fetch_serve S B segment s).response ≡ 200
      → (d : Bytes) × Holds s cid d
  unfolding fetch_serve fetch_cid fetch_response with_cid status_code
  fetch-Holds cid parsed success = elim (Result-cases (B.fetch cid s).0) [
    | inl (d, found) ↦ (d, law.fetch_returns cid d s found)
    | inr (e, failed) ↦ absurd (
        not_found_or_500-ne S B format_rfc3339 default_expiry segment s e
          (rw (parsed, failed, with_cid) at success))
  ]

  exists-Holds :
      (cid : S.Cid)
      → parse_cid_from_path S segment ≡ ok cid
      → status_code (exists_serve S B segment s).response ≡ 200
      → (d : Bytes) × Holds s cid d
  unfolding exists_serve exists_cid exists_response write_status status_code
  exists-Holds cid parsed success = law.exists_true cid s (ground arith)

  resolve-Holds :
      (es : Text) (cid : S.Cid)
      → parse_cid_from_path S segment ≡ ok cid
      → status_code (resolve_serve S B format_rfc3339 default_expiry es segment s).response ≡ 200
      → (d : Bytes) × Holds s cid d
  resolve-Holds es cid parsed success =
      let (cid', credential, between, parsed', found, made, same) =
        resolve_answers S B format_rfc3339 default_expiry segment s es success in
      subst (λ x. (d : Bytes) × Holds s x d) (ok-injective (sym parsed' ∙ parsed))
        (law.exists_true cid' s (ap (λ x. x.0) found))

  -- Over any backend that keeps the contract of the interface, an artifact that it does not hold is
  -- never answered by 200 to a fetch, an existence check or a resolve.
  pub unheld_artifact :
      (es : Text) (cid : S.Cid)
      → parse_cid_from_path S segment ≡ ok cid
      → ((d : Bytes) → Holds s cid d → ⊥)
      → (status_code (fetch_serve S B segment s).response ≢ 200)
        × (status_code (exists_serve S B segment s).response ≢ 200)
        × (status_code (resolve_serve S B format_rfc3339 default_expiry es segment s).response
            ≢ 200)
  unheld_artifact es cid parsed unheld = (
    λ h. let (d, held) = fetch-Holds cid parsed h in unheld d held,
    λ h. let (d, held) = exists-Holds cid parsed h in unheld d held,
    λ h. let (d, held) = resolve-Holds es cid parsed h in unheld d held,
  )
