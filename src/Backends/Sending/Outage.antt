-- ===== src/Backends/Sending/Outage.antt =====
-- A service that answers every request with a server error, and what a request then gets.
use mathlib.Core.Path.{subst}
use ortholog_artifact_store.Base.{
  sym, ◌>>=◌, Text, Bytes, Result, ok, err, none, leb, true, ◌≡◌, refl,
}
use ortholog_artifact_store.Base.Dict.{Dict}
use ortholog_artifact_store.Storage.{StoreError}
use ortholog_artifact_store.Transport.{HttpRequest, HttpResponse, Client}
use ortholog_artifact_store.Backends.Sending.{send_prepared, send_request}

abbrev pub Fails {ℓ} : {A : Type ℓ} → Result StoreError A → Type ℓ
Fails r = (e : StoreError) × (r ≡ err e)

module _ (C : Client Bytes)
    (prepare : Text → HttpRequest Bytes → C.State → Result StoreError (Dict Text) × C.State) where
  -- Requests can be made and prepared, and the answers are 500 or above.
  pub record Down : Type 0 where
    pub makes : (m u : Text) → C.new_request m u ≡ none
    pub prepares :
        (op : Text) (r : HttpRequest Bytes) (s : C.State)
        → (headers : Dict Text) × ((prepare op r s).0 ≡ ok headers)
    pub answers :
        (r : HttpRequest Bytes) (s : C.State)
        → (a : HttpResponse) × ((C.send r s).0 ≡ ok a) × (leb 500 a.status ≡ true)

  -- A request then always gets a server error.
  pub send_request-Down :
      Down
      → (op : Text) (r : HttpRequest Bytes) (s : C.State)
      → (a : HttpResponse) × ((send_request C prepare op r s).0 ≡ ok a) × (leb 500 a.status ≡ true)
  unfolding send_request send_prepared
  send_request-Down down op r s =
      let (headers, prepared) = down.prepares op r s in
      let (a, got, bad) = down.answers (record r { headers = headers }) (prepare op r s).1 in
      (a, rw (down.makes r.method r.url, prepared, got, send_request, send_prepared) refl, bad)

  -- What holds of the reading of every server error holds of the outcome.
  pub outcome-Down :
      {A : Type 0} (P : Result StoreError A → Type 0) (read : HttpResponse → Result StoreError A)
      → ((a : HttpResponse) → leb 500 a.status ≡ true → P (read a))
      → Down
      → (op : Text) (r : HttpRequest Bytes) (s : C.State)
      → P ((send_request C prepare op r s).0 >>= read)
  outcome-Down P read each down op r s =
      let (a, got, bad) = send_request-Down down op r s in
      subst (λ x. P (x >>= read)) (sym got) (each a bad)
