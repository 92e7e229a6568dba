-- ===== src/KeyService/Requests/Outcomes.antt =====
-- What a request of a key service may come to.
use ortholog_artifact_store.Base.{
  Result, Text, text, Result-cases, Option-cases, ok, err, false, Option, ◌++◌, ◌≡◌, ◌⊎◌, inl, inr,
  refl, arith,
}
use ortholog_artifact_store.Base.Dict.{Dict}
use ortholog_artifact_store.Transport.{HttpResponse, Client}
use ortholog_artifact_store.KeyService.{KeyError, service_unavailable, other, is_not_found}
use ortholog_artifact_store.KeyService.Requests.{
  service_request, do_request, exchange, fmt_service_err,
}

pub fmt_service_err-found :
    (prefix : Text) (r : HttpResponse) (op : Text)
    → is_not_found (fmt_service_err prefix r op) ≡ false
unfolding fmt_service_err
fmt_service_err-found prefix r op = ground arith

module _ {Body : Type 0} (C : Client Body) (prefix : Text) (headers : Option Body → Dict Text)
    (method url : Text) (body : Option Body) (s : C.State) where
  -- The request was answered.
  abbrev pub Answered : HttpResponse → Type 0
  Answered a =
      ((C.send (service_request C prefix headers method url body) s).0 ≡ ok a)
      × ((do_request C prefix headers method url body s).0 ≡ ok a)
      × ((do_request C prefix headers method url body s).1
          ≡ (C.send (service_request C prefix headers method url body) s).1)

  -- A request is answered, or it fails for another reason than a missing key.
  pub do_request_cases :
      ((a : HttpResponse) × Answered a)
      ⊎ ((e : KeyError) × ((do_request C prefix headers method url body s).0 ≡ err e)
          × (is_not_found e ≡ false))
  unfolding do_request
  do_request_cases = elim (Option-cases (C.new_request method url)) [
    | inr (e, failed) ↦
        inr (other (prefix ++ (text ": new request: " ++ e)), rw (failed, do_request) refl, refl)
    | inl made ↦
        elim (Result-cases (C.send (service_request C prefix headers method url body) s).0) [
          | inl (a, got) ↦
              inl (a, (got, rw (made, got, do_request) refl, rw (made, do_request) refl))
          | inr (e, failed) ↦ inr (service_unavailable e, rw (made, failed, do_request) refl, refl)
        ]
  ]

  -- What the service does not add, a request does not add.
  pub do_request-adds :
      (P : C.State → Type 0)
      → (P (C.send (service_request C prefix headers method url body) s).1 → P s)
      → P (do_request C prefix headers method url body s).1
      → P s
  unfolding do_request
  do_request-adds P keeps h = elim (Option-cases (C.new_request method url)) [
    | inr (e, failed) ↦ rw (failed, do_request) at h
    | inl made ↦ keeps (rw (made, do_request) at h)
  ]

  -- What the service keeps, a request keeps.
  pub do_request-Keeps :
      (P : C.State → Type 0)
      → (P s → P (C.send (service_request C prefix headers method url body) s).1)
      → P s
      → P (do_request C prefix headers method url body s).1
  unfolding do_request
  do_request-Keeps P keeps h = elim (Option-cases (C.new_request method url)) [
    | inr (e, failed) ↦ rw (failed, do_request) h
    | inl made ↦ rw (made, do_request) (keeps h)
  ]

-- A request that succeeds was answered, and its answer was read.
pub exchange_ok :
    {Body A : Type 0} (C : Client Body) (prefix : Text) (headers : Option Body → Dict Text)
    (method url : Text) (body : Option Body) (read : HttpResponse → Result KeyError A) (s : C.State)
    (x : A)
    → (exchange C prefix headers method url body read s).0 ≡ ok x
    → (a : HttpResponse) × ((C.send (service_request C prefix headers method url body) s).0 ≡ ok a)
      × (read a ≡ ok x)
      × ((exchange C prefix headers method url body read s).1
          ≡ (C.send (service_request C prefix headers method url body) s).1)
exchange_ok C prefix headers method url body read s x h =
    elim (do_request_cases C prefix headers method url body s) [
      | inl (a, (sent, got, same)) ↦ (a, sent, rw got at h, same)
      | inr (e, failed, found) ↦ absurd (ground (arith, (rw failed at h)))
    ]
