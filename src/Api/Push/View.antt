-- ===== src/Api/Push/View.antt =====
-- The ways a push can end, with what has been established on each: the common lemma behind the
-- theorems about `PushHandler`.
use mathlib.Core.Bool.{false≢true}
use ortholog_artifact_store.Base.{
  ℕ, Text, Bytes, text_eq, text_eq_iff, is_empty, length, ok, Result-cases, Bool, true, false,
  Bool-cases, Option-cases, none, some, List, [], ◌∷◌, ◌≡◌, ◌≢◌, inl, inr, refl, sym, ◌∙◌, ap,
  arith,
}
use ortholog_artifact_store.Base.Int.{ℤ, pos, add64, ltb_ℤ, ◌≤ℤ◌}
use ortholog_artifact_store.Storage.{Storage}
use ortholog_artifact_store.Backends.Provider.{BackendProvider}
use ortholog_artifact_store.Api.Http.{
  Request, Response, Rejection, Reason, Attribute, Attribute, read_all_limited, missing_cid_header,
  invalid_cid_header, read_body_error, size_exceeded, cid_mismatch, token_required_missing,
  token_invalid, token_unknown_kid, token_cid_mismatch, token_size_mismatch, token_expired,
  token_malformed, backend_error, write_error,
}
use ortholog_artifact_store.Api.Token.{Codec, TokenError}
use ortholog_artifact_store.Api.Push.{
  PushHandler, Outcome, TokenCheck, check_upload_token, rejected_mark, persist, verify_digest,
  after_token, check_size, read_body, push_serve, rejection, reject, rejection,
  classify_token_error,
}

-- The status that answers a rejection, by its reason.
abbrev pub reason_status : Reason → ℕ
reason_status missing_cid_header = 400
reason_status invalid_cid_header = 400
reason_status read_body_error = 400
reason_status size_exceeded = 413
reason_status cid_mismatch = 400
reason_status token_required_missing = 401
reason_status token_invalid = 401
reason_status token_unknown_kid = 401
reason_status token_cid_mismatch = 401
reason_status token_size_mismatch = 401
reason_status token_expired = 401
reason_status token_malformed = 401
reason_status backend_error = 500

-- A rejection whose status is that of its reason, and whose reason is not the backend's.
abbrev pub Fits : Response → Rejection → Type 0
Fits response entry =
    (response.status ≡ reason_status entry.reason) × (entry.reason ≢ backend_error)

-- The two halves of `checkUploadToken`'s answer agree.
abbrev pub Sound : TokenCheck → Type 0
Sound c = (w : Response × Rejection) → c.written ≡ some w → Fits w.0 w.1

classify-is_401 :
    (e : TokenError)
    → (401 ≡ reason_status (classify_token_error e)) × (classify_token_error e ≢ backend_error)
unfolding classify_token_error
classify-is_401 e = ground arith

check_upload_token-Sound :
    (X : Codec) (h : PushHandler) (r : Request) (cid_str : Text) (size : ℕ) (now : ℤ)
    → Sound (check_upload_token X h r cid_str size now)
unfolding check_upload_token
check_upload_token-Sound X h r cid_str size now w e = ground arith

abbrev is_ours : Reason → Bool
is_ours backend_error = false
is_ours _ = true

ours-ne : (reason : Reason) → is_ours reason ≡ true → reason ≢ backend_error
ours-ne reason h e = ground (arith, ap is_ours e)

module _ (S : Storage) (B : BackendProvider S) (X : Codec) (h : PushHandler) (r : Request) (now : ℤ)
    (s : B.State) where
  abbrev pub token_check : Bytes → TokenCheck
  token_check body = check_upload_token X h r r.artifact_cid (length body) now

  -- A push ends with a rejection that leaves the backend alone, or in silence where the token's kid
  -- is the sentinel text, or it reaches the backend with all its checks passed.
  pub data View (o : Outcome B.State) : Type 0 where
    refused :
        (response : Response) (entry : Rejection)
        → o ≡ record { response = some response; log = entry ∷ []; state = s }
        → Fits response entry
        → View o
    silent :
        (body : Bytes)
        → (token_check body).kid ≡ rejected_mark
        → o ≡ record { response = none; log = []; state = s }
        → View o
    reached :
        (cid : S.Cid) (body : Bytes)
        → S.parse_cid r.artifact_cid ≡ ok cid
        → read_all_limited r.body (add64 h.max_body (pos 1)) ≡ (body, none)
        → pos (length body) ≤ℤ h.max_body
        → (token_check body).kid ≢ rejected_mark
        → (h.verify ≡ true → S.verify cid body ≡ true)
        → o ≡ persist S B X r r.artifact_cid cid body s
        → View o

  reject-View :
      (reason : Reason) (cid_str : Text) (size : ℕ) (attributes : List Attribute) (status : ℕ)
      (message : Text)
      → status ≡ reason_status reason
      → is_ours reason ≡ true
      → View (reject S B X reason r cid_str size attributes status message s)
  unfolding reject
  reject-View reason cid_str size attributes status message e ours =
      refused (write_error status message) (rejection reason r cid_str size attributes) refl
        (e, ours-ne reason ours)

  verify_digest-View :
      (cid : S.Cid) (body : Bytes)
      → S.parse_cid r.artifact_cid ≡ ok cid
      → read_all_limited r.body (add64 h.max_body (pos 1)) ≡ (body, none)
      → pos (length body) ≤ℤ h.max_body
      → (token_check body).kid ≢ rejected_mark
      → View (verify_digest S B X h r r.artifact_cid cid body (token_check body).kid s)
  unfolding verify_digest
  verify_digest-View cid body parsed read fits authorized = elim (Bool-cases h.verify) [
    | inr off ↦ reached cid body parsed read fits authorized (λ on. cc) (simp off)
    | inl on ↦ elim (Bool-cases (S.verify cid body)) [
      | inl match ↦ reached cid body parsed read fits authorized (λ _. match) (simp (on, match))
      | inr differ ↦ simp (on, differ) (reject-View cid_mismatch _ _ _ _ _ refl refl)
    ]
  ]

  after_token-View :
      (cid : S.Cid) (body : Bytes)
      → S.parse_cid r.artifact_cid ≡ ok cid
      → read_all_limited r.body (add64 h.max_body (pos 1)) ≡ (body, none)
      → pos (length body) ≤ℤ h.max_body
      → View (after_token S B X h r r.artifact_cid cid body (token_check body) s)
  unfolding after_token
  after_token-View cid body parsed read fits =
      elim (Bool-cases (text_eq (token_check body).kid rejected_mark)) [
        | inr other ↦ rw other (
            verify_digest-View cid body parsed read fits
              (λ marked. false≢true (sym other ∙ (text_eq_iff _ _).1 marked)))
        | inl marked ↦ elim (Option-cases (token_check body).written) [
          | inl none_written ↦ silent body ((text_eq_iff _ _).0 marked) (rw (marked, none_written))
          | inr (w, written) ↦
              refused w.0 w.1 (rw (marked, written))
                (check_upload_token-Sound X h r r.artifact_cid (length body) now w written)
        ]
      ]

  check_size-View :
      (cid : S.Cid) (body : Bytes)
      → S.parse_cid r.artifact_cid ≡ ok cid
      → read_all_limited r.body (add64 h.max_body (pos 1)) ≡ (body, none)
      → View (check_size S B X h r r.artifact_cid cid body now s)
  unfolding check_size
  check_size-View cid body parsed read = elim (Bool-cases (ltb_ℤ h.max_body (pos (length body)))) [
    | inl over ↦ rw over (reject-View size_exceeded _ _ _ _ _ refl refl)
    | inr fits ↦ rw fits (after_token-View cid body parsed read (ground arith))
  ]

  read_body-View :
      (cid : S.Cid)
      → S.parse_cid r.artifact_cid ≡ ok cid
      → View (read_body S B X h r r.artifact_cid cid now s)
  unfolding read_body
  read_body-View cid parsed =
      let p = read_all_limited r.body (add64 h.max_body (pos 1)) in
      elim (Option-cases p.1) [
        | inl whole ↦
            rw (whole, read_body) (check_size-View cid p.0 parsed (ap (λ f. (p.0, f)) whole))
        | inr (e, broken) ↦ rw (broken, read_body) (reject-View read_body_error _ _ _ _ _ refl refl)
      ]

  -- Every push ends in one of these ways.
  pub push_serve-View : View (push_serve S B X h r now s)
  unfolding push_serve
  push_serve-View = elim (Bool-cases (is_empty r.artifact_cid)) [
    | inl missing ↦ rw missing (reject-View missing_cid_header _ _ _ _ _ refl refl)
    | inr given ↦ elim (Result-cases (S.parse_cid r.artifact_cid)) [
      | inl (cid, parsed) ↦ rw (given, parsed) (read_body-View cid parsed)
      | inr (e, bad) ↦ rw (given, bad) (reject-View invalid_cid_header _ _ _ _ _ refl refl)
    ]
  ]
