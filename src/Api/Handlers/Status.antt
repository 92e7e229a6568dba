-- ===== src/Api/Handlers/Status.antt =====
-- What the statuses of the handlers say of the request and of the backend.
use mathlib.Core.Path.{subst}
use ortholog_artifact_store.Base.{
  ℕ, Text, Bytes, ◌⊎◌, Result, ok, err, Result-cases, Bool, true, false, Bool-cases, some, ◌≡◌, ◌≢◌,
  sym, ◌∙◌, [], inl, inr, refl, ap, arith,
}
use ortholog_artifact_store.Base.Int.{ℤ}
use ortholog_artifact_store.Storage.{
  Storage, StoreError, content_not_found, not_supported, other, RetrievalCredential,
}
use ortholog_artifact_store.Backends.Provider.{BackendProvider}
use ortholog_artifact_store.Api.Http.{
  credential_json, credential_to_wire, parse_cid_from_path, write_error, write_status, json_header,
}
use ortholog_artifact_store.Api.Push.{Outcome, status_code}
use ortholog_artifact_store.Api.Handlers.{
  fetch_serve, exists_serve, pin_serve, delete_serve, resolve_serve, resolve_expiry,
  not_found_or_500, with_cid, fetch_cid, pin_cid, delete_cid, resolve_cid, resolve_known,
  exists_cid, fetch_response, exists_response, pin_response, delete_response,
}

module _ (S : Storage) (B : BackendProvider S) (format_rfc3339 : ℤ → Text) (default_expiry : ℤ)
    (segment : Text) (s : B.State) where
  -- A handler has answered with this status and left the backend alone.
  abbrev pub Refused : ℕ → Outcome B.State → Type 0
  Refused status o = (status_code o.response ≡ status) × (o.state ≡ s)

  abbrev resolved : Text → Outcome B.State
  resolved es = resolve_serve S B format_rfc3339 default_expiry es segment s

  invalid_cid :
      (es : Text) (e : Text)
      → parse_cid_from_path S segment ≡ err e
      → Refused 400 (fetch_serve S B segment s)
        × Refused 400 (exists_serve S B segment s)
        × Refused 400 (pin_serve S B segment s)
        × Refused 400 (delete_serve S B segment s)
        × Refused 400 (resolved es)
  unfolding fetch_serve exists_serve pin_serve delete_serve resolve_serve with_cid status_code
  invalid_cid es e bad = ground arith

  -- A handler's answer is not 400.
  abbrev pub NotBad : Outcome B.State → Type 0
  NotBad o = status_code o.response ≢ 400

  store_error-NotBad : (e : StoreError) → (not_found_or_500 S B e).status ≢ 400
  unfolding not_found_or_500 write_error
  store_error-NotBad content_not_found = ground arith
  store_error-NotBad not_supported = ground arith
  store_error-NotBad (other e) = ground arith

  fetch_response-NotBad : (r : Result StoreError Bytes) → (fetch_response S B r).status ≢ 400
  unfolding fetch_response
  fetch_response-NotBad (err e) = store_error-NotBad e
  fetch_response-NotBad (ok d) = ground arith

  exists_response-NotBad : (r : Result StoreError Bool) → (exists_response S B r).status ≢ 400
  unfolding exists_response write_status
  exists_response-NotBad (err e) = ground arith
  exists_response-NotBad (ok true) = ground arith
  exists_response-NotBad (ok false) = ground arith

  pin_response-NotBad : (r : Result StoreError (Unit {0})) → (pin_response S B r).status ≢ 400
  unfolding pin_response write_status
  pin_response-NotBad (err e) = store_error-NotBad e
  pin_response-NotBad (ok d) = ground arith

  delete_response-NotBad : (r : Result StoreError (Unit {0})) → (delete_response S B r).status ≢ 400
  unfolding delete_response write_status write_error
  delete_response-NotBad (ok d) = ground arith
  delete_response-NotBad (err content_not_found) = ground arith
  delete_response-NotBad (err not_supported) = ground arith
  delete_response-NotBad (err (other e)) = ground arith

  resolve_known-NotBad :
      (cid : S.Cid) (expiry : ℤ) (between : B.State)
      → NotBad (resolve_known S B format_rfc3339 cid expiry between)
  unfolding resolve_known status_code
  resolve_known-NotBad cid expiry between = elim (Result-cases (B.resolve cid expiry between).0) [
    | inl (credential, made) ↦ rw (made, resolve_known) (ground arith)
    | inr (e, failed) ↦ rw (failed, resolve_known) (store_error-NotBad e)
  ]

  resolve_cid-NotBad :
      (es : Text) (cid : S.Cid) → NotBad (resolve_cid S B format_rfc3339 default_expiry es cid s)
  unfolding resolve_cid status_code write_error
  resolve_cid-NotBad es cid = elim (Result-cases (B.exists cid s).0) [
    | inr (e, failed) ↦ rw (failed, resolve_cid) (ground arith)
    | inl (found, answered) ↦ elim (Bool-cases found) [
      | inl there ↦
          rw (answered ∙ ap ok there, resolve_cid)
            (resolve_known-NotBad cid (resolve_expiry default_expiry es) (B.exists cid s).1)
      | inr gone ↦ rw (answered ∙ ap ok gone, resolve_cid) (ground arith)
    ]
  ]

  valid_cid :
      (es : Text) (cid : S.Cid)
      → parse_cid_from_path S segment ≡ ok cid
      → NotBad (fetch_serve S B segment s)
        × NotBad (exists_serve S B segment s)
        × NotBad (pin_serve S B segment s)
        × NotBad (delete_serve S B segment s)
        × NotBad (resolved es)
  unfolding fetch_serve exists_serve pin_serve delete_serve resolve_serve with_cid status_code
      fetch_cid exists_cid pin_cid delete_cid
  valid_cid es cid parsed = (
    rw (parsed, with_cid) (fetch_response-NotBad _),
    rw (parsed, exists_serve) (exists_response-NotBad _),
    rw (parsed, with_cid) (pin_response-NotBad _),
    rw (parsed, with_cid) (delete_response-NotBad _),
    rw (parsed, with_cid) (resolve_cid-NotBad es cid),
  )

  -- All handlers answer 400 and leave the backend alone.
  abbrev pub AllRefused : Text → Type 0
  AllRefused es =
      Refused 400 (fetch_serve S B segment s)
      × Refused 400 (exists_serve S B segment s)
      × Refused 400 (pin_serve S B segment s)
      × Refused 400 (delete_serve S B segment s)
      × Refused 400 (resolved es)

  -- No handler answers 400.
  abbrev pub NoneRefused : Text → Type 0
  NoneRefused es =
      NotBad (fetch_serve S B segment s)
      × NotBad (exists_serve S B segment s)
      × NotBad (pin_serve S B segment s)
      × NotBad (delete_serve S B segment s)
      × NotBad (resolved es)

  -- Whether the path's CID parses decides the status 400 of every handler: if it does not, all five
  -- answer 400 and leave the backend as it is; if it does, none of them answers 400, whatever the
  -- backend says.
  pub bad_request_cases :
      (es : Text)
      → ((e : Text) × (parse_cid_from_path S segment ≡ err e) × AllRefused es)
        ⊎ ((cid : S.Cid) × (parse_cid_from_path S segment ≡ ok cid) × NoneRefused es)
  bad_request_cases es = elim (Result-cases (parse_cid_from_path S segment)) [
    | inr (e, bad) ↦ inl (e, bad, invalid_cid es e bad)
    | inl (cid, parsed) ↦ inr (cid, parsed, valid_cid es cid parsed)
  ]

  -- The answer that carries a credential.
  abbrev pub with_credential : RetrievalCredential → B.State → Outcome B.State
  with_credential credential s' = record {
    response = some (record {
      status = 200;
      headers = json_header;
      body = credential_json (credential_to_wire format_rfc3339 credential);
    });
    log = [];
    state = s';
  }

  -- The backend knew of the artifact, made a credential, and the outcome carries it.
  abbrev pub Resolved : Text → Outcome B.State → Type 0
  Resolved es o =
      (cid : S.Cid) × (credential : RetrievalCredential) × (between : B.State)
      × (parse_cid_from_path S segment ≡ ok cid)
      × (B.exists cid s ≡ (ok true, between))
      × (B.resolve cid (resolve_expiry default_expiry es) between ≡ (ok credential, o.state))
      × (o ≡ with_credential credential o.state)

  pub not_found_or_500-ne : (e : StoreError) → (not_found_or_500 S B e).status ≢ 200
  unfolding not_found_or_500 write_error
  not_found_or_500-ne content_not_found = ground arith
  not_found_or_500-ne not_supported = ground arith
  not_found_or_500-ne (other e) = ground arith

  resolve_known-answers :
      (cid : S.Cid) (between : B.State) (expiry : ℤ)
      → status_code (resolve_known S B format_rfc3339 cid expiry between).response ≡ 200
      → (credential : RetrievalCredential) × (B.resolve cid expiry between
          ≡ (ok credential, (B.resolve cid expiry between).1))
        × (resolve_known S B format_rfc3339 cid expiry between
            ≡ with_credential credential (B.resolve cid expiry between).1)
  unfolding resolve_known status_code
  resolve_known-answers cid between expiry success =
      elim (Result-cases (B.resolve cid expiry between).0) [
        | inl (credential, made) ↦ (
          credential,
          ap (λ r. (r, (B.resolve cid expiry between).1)) made,
          rw (made, resolve_known) refl,
        )
        | inr (e, failed) ↦
            absurd (not_found_or_500-ne e (rw (failed, resolve_known, status_code) at success))
      ]

  resolve_cid-answers :
      (es : Text) (cid : S.Cid)
      → status_code (resolve_cid S B format_rfc3339 default_expiry es cid s).response ≡ 200
      → (B.exists cid s ≡ (ok true, (B.exists cid s).1))
        × (resolve_cid S B format_rfc3339 default_expiry es cid s
            ≡ resolve_known S B format_rfc3339 cid
                (resolve_expiry default_expiry es)
                (B.exists cid s).1)
  unfolding resolve_cid status_code write_error
  resolve_cid-answers es cid success = elim (Result-cases (B.exists cid s).0) [
    | inr (e, failed) ↦ absurd (ground (arith, (rw (failed, resolve_cid, status_code) at success)))
    | inl (found, answered) ↦ elim (Bool-cases found) [
      | inl there ↦ (
        ap (λ r. (r, (B.exists cid s).1)) (answered ∙ ap ok there),
        rw (answered ∙ ap ok there, resolve_cid) refl,
      )
      | inr gone ↦
          absurd (ground (arith, (rw (answered ∙ ap ok gone, resolve_cid, status_code) at success)))
    ]
  ]

  resolve_parsed :
      (es : Text) (cid : S.Cid)
      → parse_cid_from_path S segment ≡ ok cid
      → resolved es ≡ resolve_cid S B format_rfc3339 default_expiry es cid s
  unfolding resolve_serve with_cid
  resolve_parsed es cid parsed = rw (parsed, with_cid) refl

  resolve_cid-Resolved :
      (es : Text) (cid : S.Cid)
      → parse_cid_from_path S segment ≡ ok cid
      → status_code (resolve_cid S B format_rfc3339 default_expiry es cid s).response ≡ 200
      → Resolved es (resolve_cid S B format_rfc3339 default_expiry es cid s)
  resolve_cid-Resolved es cid parsed success =
      let (found, e) = resolve_cid-answers es cid success in
      let (credential, made, e') =
        resolve_known-answers cid _ _
          (subst (λ (o : Outcome B.State). status_code o.response ≡ 200) e success) in
      subst (Resolved es) (sym (e ∙ e')) (cid, credential, _, parsed, found, made, refl)

  -- A resolve that is answered by 200 has asked the backend for the artifact, was told that it
  -- exists, and answers with the credential that the backend then made.
  pub resolve_answers :
      (es : Text)
      → status_code (resolve_serve S B format_rfc3339 default_expiry es segment s).response ≡ 200
      → Resolved es (resolve_serve S B format_rfc3339 default_expiry es segment s)
  resolve_answers es success = elim (Result-cases (parse_cid_from_path S segment)) [
    | inr (e, bad) ↦ absurd (ground (arith, invalid_cid es e bad))
    | inl (cid, parsed) ↦
        let same = resolve_parsed es cid parsed in
        subst (Resolved es) (sym same) (
          resolve_cid-Resolved es cid parsed
            (subst (λ (o : Outcome B.State). status_code o.response ≡ 200) same success))
  ]
