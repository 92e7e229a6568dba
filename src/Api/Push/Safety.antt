-- ===== src/Api/Push/Safety.antt =====
-- What a client, an operator and an auditor can rely on when a push has been answered.
use mathlib.Core.Path.{subst}
use ortholog_artifact_store.Base.{
  ℕ, suc, ◌+◌, ◌<◌, ◌≤◌, Text, Bytes, text, text_eq, text_eq_iff, length, length-take, ok,
  Result-cases, true, false, Bool-cases, Option, none, some, [], ◌∷◌, ◌≡◌, ◌≢◌, ◌⊎◌, inl, inr, refl,
  sym, ◌∙◌, ap, arith,
}
use ortholog_artifact_store.Base.Int.{ℤ, pos, add64, ◌≤ℤ◌, two63}
use ortholog_artifact_store.Base.Dict.{Dict}
use ortholog_artifact_store.Storage.{Storage}
use ortholog_artifact_store.Backends.Provider.{BackendProvider}
use ortholog_artifact_store.Api.Http.{
  Request, RequestBody, Response, Rejection, Reason, read_all_limited, backend_error, pushed_json,
}
use ortholog_artifact_store.Api.Token.{Codec, UploadTokenVerifier, verify}
use ortholog_artifact_store.Api.Token.Accepts.{Evidence, verify_iff}
use ortholog_artifact_store.Api.Push.{
  PushHandler, Outcome, status_code, check_upload_token, rejected_mark, persist, push_serve,
}
use ortholog_artifact_store.Api.Push.View.{
  reason_status, refused, silent, reached, token_check, push_serve-View,
}

-- Within an `int64` the limit is one more than the largest body.
pub add64_one : (m : ℕ) → m + 1 < two63 → add64 (pos m) (pos 1) ≡ pos (suc m)
unfolding add64
add64_one m h = ground arith

-- A read that stays within the limit has read the whole body.
read_whole :
    (b : RequestBody) (m : ℕ) (body : Bytes)
    → read_all_limited b (pos (suc m)) ≡ (body, none)
    → length body ≤ m
    → body ≡ b.bytes
unfolding read_all_limited
read_whole b m body read fits =
    ground (arith, length-take (suc m) b.bytes, ap (λ (p : Bytes × Option Text). length p.0) read)

reason_status-ne : (reason : Reason) → reason_status reason ≢ 200
reason_status-ne reason = ground arith

pub policy-off :
    (h : PushHandler)
    → h.token_policy ≡ text "required"
    → text_eq h.token_policy (text "off") ≡ false
unfolding text_eq
policy-off h required = rw required refl

-- Either the answer is 200 and nothing is logged, or there is exactly one audit record; then the
-- status is that of its reason, and unless the backend failed the state is `s`.
abbrev pub Audited : {State : Type 0} → State → Outcome State → Type 0
Audited s o =
    ((status_code o.response ≡ 200) × (o.log ≡ []))
    ⊎ ((entry : Rejection) × (o.log ≡ entry ∷ [])
        × (status_code o.response ≡ reason_status entry.reason)
        × ((entry.reason ≡ backend_error) ⊎ (o.state ≡ s)))

-- The stored artifact that a 200 with a body speaks of.
pub record Stored {S : Storage} (B : BackendProvider S) (h : PushHandler) (r : Request)
    (s : B.State) (o : Outcome B.State) (response : Response) : Type 0 where
  pub cid : S.Cid
  pub parsed : S.parse_cid r.artifact_cid ≡ ok cid
  pub verified : (h.verify ≡ false) ⊎ (S.verify cid r.body.bytes ≡ true)
  pub pushed : B.push cid r.body.bytes s ≡ (ok tt, o.state)
  pub answered : response.body ≡ pushed_json (S.string cid) (length r.body.bytes)

module _ (S : Storage) (B : BackendProvider S) (X : Codec) (h : PushHandler) (r : Request) (now : ℤ)
    (s : B.State) where
  abbrev outcome : Outcome B.State
  outcome = push_serve S B X h r now s

  persist-Audited :
      (cid : S.Cid) (body : Bytes) → Audited s (persist S B X r r.artifact_cid cid body s)
  unfolding persist status_code
  persist-Audited cid body = elim (Result-cases (B.push cid body s).0) [
    | inl (done, e) ↦ rw (e, persist) (inl (refl, refl))
    | inr (x, e) ↦ rw (e, persist) (inr (_, refl, refl, inl refl))
  ]

  -- Either a push is answered by 200 and nothing is logged, or there is exactly one audit record.
  -- Then the status is that of its reason, and unless the backend failed the state is as before.
  pub push_audit : Audited s (push_serve S B X h r now s)
  unfolding status_code
  push_audit = elim (push_serve-View S B X h r now s) [
    | refused response entry e (fits, ours) ↦
        subst (Audited s) (sym e) (inr (entry, refl, fits, inr refl))
    | silent body marked e ↦ subst (Audited s) (sym e) (inl (refl, refl))
    | reached cid body parsed read fits authorized verified e ↦
        subst (Audited s) (sym e) (persist-Audited cid body)
  ]

  persist-pushed :
      (cid : S.Cid) (body : Bytes) (response : Response)
      → (persist S B X r r.artifact_cid cid body s).response ≡ some response
      → response.status ≡ 200
      → (B.push cid body s ≡ (ok tt, (persist S B X r r.artifact_cid cid body s).state))
        × (response.body ≡ pushed_json (S.string cid) (length body))
  unfolding persist
  persist-pushed cid body response answer success = ground arith

  verified_cases :
      (cid : S.Cid) (body : Bytes)
      → (h.verify ≡ true → S.verify cid body ≡ true)
      → (h.verify ≡ false) ⊎ (S.verify cid body ≡ true)
  verified_cases cid body f = elim (Bool-cases h.verify) [ inl on ↦ inr (f on) | inr off ↦ inl off ]

  whole :
      (m : ℕ) (body : Bytes)
      → h.max_body ≡ pos m
      → m + 1 < two63
      → read_all_limited r.body (add64 h.max_body (pos 1)) ≡ (body, none)
      → pos (length body) ≤ℤ h.max_body
      → body ≡ r.body.bytes
  whole m body limit small read fits =
      read_whole r.body m body (rw (limit, add64_one m small) at read) (ground arith)

  persist-Stored :
      (cid : S.Cid) (body : Bytes) (o : Outcome B.State) (response : Response)
      → S.parse_cid r.artifact_cid ≡ ok cid
      → body ≡ r.body.bytes
      → (h.verify ≡ true → S.verify cid body ≡ true)
      → o ≡ persist S B X r r.artifact_cid cid body s
      → o.response ≡ some response
      → response.status ≡ 200
      → Stored B h r s o response
  persist-Stored cid body o response parsed all verified e answer success =
      let (pushed, answered) =
        persist-pushed cid body response (sym (ap (λ x. x.response) e) ∙ answer) success in
      record {
        cid = cid;
        parsed = parsed;
        verified = rw (← all) (verified_cases cid body verified);
        pushed = rw (← all) (rw (← e) at pushed);
        answered = rw (← all) answered;
      }

  -- With a size limit below the largest `int64`, an answer of 200 that is written means that the
  -- whole body was pushed under the CID of the header, that its digest was verified unless
  -- verification is off, and that the answer names the CID and the size.
  pub push_stores :
      (m : ℕ) (response : Response)
      → h.max_body ≡ pos m
      → m + 1 < two63
      → (push_serve S B X h r now s).response ≡ some response
      → response.status ≡ 200
      → Stored B h r s (push_serve S B X h r now s) response
  push_stores m response limit small answer success = elim (push_serve-View S B X h r now s) [
    | refused resp entry e (fits, ours) ↦
        absurd (
          ground (arith, ap (λ (o : Outcome B.State). o.response) e, reason_status-ne entry.reason))
    | silent body marked e ↦ absurd (ground (arith, ap (λ (o : Outcome B.State). o.response) e))
    | reached cid body parsed read fits authorized verified e ↦
        persist-Stored cid body _ response parsed (whole m body limit small read fits) verified e
          answer success
  ]

  check-authorized :
      (v : UploadTokenVerifier) (body : Bytes)
      → h.token_policy ≡ text "required"
      → h.token_verifier ≡ some v
      → (token_check S B X h r now s body).kid ≢ rejected_mark
      → v r.upload_token r.artifact_cid (length body) now ≡ ok tt
  unfolding check_upload_token
  check-authorized v body required verifier authorized = ground (
    arith,
    policy-off h required,
    (text_eq_iff h.token_policy (text "required")).1 required,
    authorized,
  )

  -- With a size limit below the largest `int64`, and under the policy "required" with the Ed25519
  -- verifier, an answer of 200 that is written means that the request's token was signed by a
  -- registered key for this CID and for the size of the whole body, and has not expired.
  pub push_authorized :
      (keys : Dict Bytes) (m : ℕ) (response : Response)
      → h.token_policy ≡ text "required"
      → h.token_verifier ≡ some (verify X keys)
      → h.max_body ≡ pos m
      → m + 1 < two63
      → (push_serve S B X h r now s).response ≡ some response
      → response.status ≡ 200
      → Evidence X keys r.upload_token r.artifact_cid (length r.body.bytes) now
  push_authorized keys m response required verifier limit small answer success =
      elim (push_serve-View S B X h r now s) [
        | refused resp entry e (fits, ours) ↦ absurd (
            ground
              (arith, ap (λ (o : Outcome B.State). o.response) e, reason_status-ne entry.reason))
        | silent body marked e ↦ absurd (ground (arith, ap (λ (o : Outcome B.State). o.response) e))
        | reached cid body parsed read fits authorized verified e ↦
            (verify_iff X keys r.upload_token r.artifact_cid (length r.body.bytes) now).0 (
              rw (← (whole m body limit small read fits))
                (check-authorized (verify X keys) body required verifier authorized))
      ]
