-- ===== src/Backends/Gcs/Statuses.antt =====
-- What the operations of backends/gcs.go make of the status of a response.
use ortholog_artifact_store.Base.{Bytes, text, ok, leb, true, false, ◌≡◌, arith}
use ortholog_artifact_store.Base.Int.{ℤ}
use ortholog_artifact_store.Storage.{Storage}
use ortholog_artifact_store.Transport.{HttpResponse, Client}
use ortholog_artifact_store.Backends.Sending.{body_error, status_error}
use ortholog_artifact_store.Backends.Sending.Outage.{Fails, Down, outcome-Down}
use ortholog_artifact_store.Backends.Gcs.{
  GcsConfig, prepare, push, fetch, exists, pin, delete, healthy, push_status, fetch_status,
  exists_status, pin_status, delete_status, health_status,
}

-- A server error is an error for four operations. `exists_status` reads it as absence, and
-- `pin_status` as success.
push-Fails : (a : HttpResponse) → leb 500 a.status ≡ true → Fails (push_status a)
unfolding push_status
push-Fails a bad = (body_error (text "gcs/push") a, ground arith)

fetch-Fails : (a : HttpResponse) → leb 500 a.status ≡ true → Fails (fetch_status a)
unfolding fetch_status
fetch-Fails a bad = (body_error (text "gcs/fetch") a, ground arith)

delete-Fails : (a : HttpResponse) → leb 500 a.status ≡ true → Fails (delete_status a)
unfolding delete_status
delete-Fails a bad = (body_error (text "gcs/delete") a, ground arith)

health-Fails : (a : HttpResponse) → leb 500 a.status ≡ true → Fails (health_status a)
unfolding health_status
health-Fails a bad = (status_error (text "gcs/health") a, ground arith)

exists_hides : (a : HttpResponse) → leb 500 a.status ≡ true → exists_status a ≡ ok false
exists_hides a bad = ground arith

pin_hides : (a : HttpResponse) → leb 500 a.status ≡ true → pin_status a ≡ ok tt
pin_hides a bad = ground arith

module _ (S : Storage) (C : Client Bytes) (now : C.State → ℤ) (g : GcsConfig C)
    (down : Down C (prepare S C now g)) (c : S.Cid) (d : Bytes) (s : C.State) where
  -- While the service answers every request with a server error, push, fetch, delete and the
  -- health check fail, yet an artifact is reported as absent and a pin as done.
  pub gcs_outage :
      Fails (push S C now g c d s).0
      × Fails (fetch S C now g c s).0
      × Fails (delete S C now g c s).0
      × Fails (healthy S C now g s).0
      × ((exists S C now g c s).0 ≡ ok false)
      × ((pin S C now g c s).0 ≡ ok tt)
  unfolding push fetch delete healthy exists pin
  gcs_outage = (
    outcome-Down C (prepare S C now g) Fails push_status push-Fails down (text "gcs/push") _ s,
    outcome-Down C (prepare S C now g) Fails fetch_status fetch-Fails down (text "gcs/fetch") _ s,
    outcome-Down C (prepare S C now g) Fails delete_status delete-Fails down (text "gcs/delete") _
        s,
    outcome-Down C (prepare S C now g) Fails health_status health-Fails down (text "gcs/health") _
        s,
    outcome-Down C (prepare S C now g) (λ r. r ≡ ok false) exists_status exists_hides down
        (text "gcs/exists") _ s,
    outcome-Down C (prepare S C now g) (λ r. r ≡ ok tt) pin_status pin_hides down (text "gcs/pin") _
        s,
  )
