-- ===== src/Api/Push/Limits.antt =====
-- The ends of a push that its size limit and its upload token decide, and two of them that lose
-- bytes: a limit of the largest `int64`, and a kid that is the sentinel text.
use ortholog_artifact_store.Base.{
  ℕ, suc, ◌+◌, ◌-◌, ◌<◌, ◌≤◌, Text, Bytes, text, text_eq, is_empty, take, length, length-take, ok,
  true, false, Option, none, some, [], ◌≡◌, refl, ap, ◌∙◌, arith,
}
use ortholog_artifact_store.Base.Int.{ℤ, pos, add64, ltb_ℤ, two63}
use ortholog_artifact_store.Storage.{Storage}
use ortholog_artifact_store.Backends.Provider.{BackendProvider}
use ortholog_artifact_store.Api.Http.{
  Request, RequestBody, read_all_limited, Reason, write_error, token_required_missing,
}
use ortholog_artifact_store.Api.Token.{Codec, UploadTokenVerifier}
use ortholog_artifact_store.Api.Push.{
  PushHandler, status_code, TokenCheck, proceed, reject_token, check_upload_token, present_token,
  extract_kid, rejected_mark, persist, verify_digest, after_token, check_size, read_body,
  push_serve,
}
use ortholog_artifact_store.Api.Push.Safety.{add64_one}

-- A body that ends within the limit is read to its end.
read_all-fits :
    (b : RequestBody) (m : ℕ)
    → length b.bytes ≤ m
    → read_all_limited b (pos (suc m)) ≡ (b.bytes, b.failure)
unfolding read_all_limited
read_all-fits b m fits = ground arith

-- Of a longer one, one byte more than the limit is read.
read_all-long :
    (b : RequestBody) (m : ℕ)
    → m < length b.bytes
    → read_all_limited b (pos (suc m)) ≡ (take (suc m) b.bytes, none)
unfolding read_all_limited
read_all-long b m long = ground arith

read-limit :
    (b : RequestBody) (h : PushHandler) (m : ℕ)
    → h.max_body ≡ pos m
    → m + 1 < two63
    → read_all_limited b (add64 h.max_body (pos 1)) ≡ read_all_limited b (pos (suc m))
read-limit b h m limit small =
    ap (read_all_limited b) (ap (λ z. add64 z (pos 1)) limit ∙ add64_one m small)

-- A size against the limit.
over_limit : (z : ℤ) (m n : ℕ) → z ≡ pos m → m < n → ltb_ℤ z (pos n) ≡ true
over_limit z m n limit over = rw limit (ground arith)

within_limit : (z : ℤ) (m n : ℕ) → z ≡ pos m → n ≤ m → ltb_ℤ z (pos n) ≡ false
within_limit z m n limit fits = rw limit (ground arith)

-- One more than the largest `int64` is negative.
add64_max : (b : RequestBody) → read_all_limited b (add64 (pos (two63 - 1)) (pos 1)) ≡ ([], none)
unfolding read_all_limited add64
add64_max b = refl

-- What `check_upload_token` does by the policy and the token.
module _ (X : Codec) (h : PushHandler) (r : Request) (size : ℕ) (now : ℤ) where
  no_verifier :
      h.token_verifier ≡ none → (check_upload_token X h r r.artifact_cid size now) ≡ proceed []
  unfolding check_upload_token
  no_verifier absent = rw absent (ground arith)

  missing_token :
      (verifier : UploadTokenVerifier)
      → h.token_policy ≡ text "required"
      → h.token_verifier ≡ some verifier
      → is_empty r.upload_token ≡ true
      → check_upload_token X h r r.artifact_cid size now
        ≡ reject_token token_required_missing r r.artifact_cid size []
            (text "X-Upload-Token required")
  unfolding check_upload_token text_eq
  missing_token verifier required configured missing = simp (configured, missing, required)

  accepted_token :
      (verifier : UploadTokenVerifier)
      → h.token_policy ≡ text "required"
      → h.token_verifier ≡ some verifier
      → is_empty r.upload_token ≡ false
      → verifier r.upload_token r.artifact_cid size now ≡ ok tt
      → check_upload_token X h r r.artifact_cid size now ≡ proceed (extract_kid X r.upload_token)
  unfolding check_upload_token present_token text_eq
  accepted_token verifier required configured present accepted =
      rw (configured, present, required, present_token, accepted) refl

module _ (S : Storage) (B : BackendProvider S) (X : Codec) (h : PushHandler) (r : Request) (now : ℤ)
    (s : B.State) where
  -- A request with a CID gets as far as its body.
  reads_body :
      (cid : S.Cid)
      → is_empty r.artifact_cid ≡ false
      → S.parse_cid r.artifact_cid ≡ ok cid
      → push_serve S B X h r now s ≡ read_body S B X h r r.artifact_cid cid now s
  unfolding push_serve
  reads_body cid given parsed = rw (given, parsed)

  -- A body that was read is measured.
  measures_read :
      (read_all_limited r.body (add64 h.max_body (pos 1))).1 ≡ none
      → (cid : S.Cid)
      → read_body S B X h r r.artifact_cid cid now s
        ≡ check_size S B X h r r.artifact_cid cid
            (read_all_limited r.body (add64 h.max_body (pos 1))).0
            now
            s
  unfolding read_body
  measures_read ends cid = rw (ends, read_body) refl

  measures_body :
      (cid : S.Cid) (body : Bytes)
      → read_all_limited r.body (add64 h.max_body (pos 1)) ≡ (body, none)
      → read_body S B X h r r.artifact_cid cid now s
        ≡ check_size S B X h r r.artifact_cid cid body now s
  measures_body cid body read =
      measures_read (ap (λ (p : Bytes × Option Text). p.1) read) cid
      ∙ ap (λ (p : Bytes × Option Text). check_size S B X h r r.artifact_cid cid p.0 now s) read

  too_long :
      (cid : S.Cid) (body : Bytes)
      → ltb_ℤ h.max_body (pos (length body)) ≡ true
      → (status_code (check_size S B X h r r.artifact_cid cid body now s).response ≡ 413)
        × ((check_size S B X h r r.artifact_cid cid body now s).state ≡ s)
  unfolding check_size status_code
  too_long cid body long = rw long (refl, refl)

  within :
      (cid : S.Cid) (body : Bytes)
      → ltb_ℤ h.max_body (pos (length body)) ≡ false
      → check_size S B X h r r.artifact_cid cid body now s
        ≡ after_token S B X h r r.artifact_cid cid body
            (check_upload_token X h r r.artifact_cid (length body) now)
            s
  unfolding check_size
  within cid body fits = rw fits refl

  -- With a CID header that parses and a size limit below the largest `int64`, a body longer than the
  -- limit is answered by 413 and not stored, whatever the token, the digest or the rest of the body.
  pub push_too_large :
      (cid : S.Cid) (m : ℕ)
      → is_empty r.artifact_cid ≡ false
      → S.parse_cid r.artifact_cid ≡ ok cid
      → h.max_body ≡ pos m
      → m + 1 < two63
      → m < length r.body.bytes
      → (status_code (push_serve S B X h r now s).response ≡ 413)
        × ((push_serve S B X h r now s).state ≡ s)
  push_too_large cid m given parsed limit small long =
      rw
        (
          reads_body cid given parsed,
          measures_body cid (take (suc m) r.body.bytes)
              (read-limit r.body h m limit small ∙ read_all-long r.body m long),
        )
        (too_long cid (take (suc m) r.body.bytes)
          (over_limit h.max_body m _ limit (ground (arith, length-take (suc m) r.body.bytes))))

  -- A complete body within the limit gets as far as its token.
  reaches_token :
      (cid : S.Cid) (m : ℕ)
      → is_empty r.artifact_cid ≡ false
      → S.parse_cid r.artifact_cid ≡ ok cid
      → h.max_body ≡ pos m
      → m + 1 < two63
      → length r.body.bytes ≤ m
      → r.body.failure ≡ none
      → push_serve S B X h r now s
        ≡ after_token S B X h r r.artifact_cid cid r.body.bytes
            (check_upload_token X h r r.artifact_cid (length r.body.bytes) now)
            s
  reaches_token cid m given parsed limit small fits ends =
      reads_body cid given parsed
      ∙ measures_body cid r.body.bytes (
          read-limit r.body h m limit small
          ∙ read_all-fits r.body m fits
          ∙ ap (λ f. (r.body.bytes, f)) ends)
      ∙ within cid r.body.bytes (within_limit h.max_body m _ limit fits)

  after_rejection :
      (cid : S.Cid) (body : Bytes) (check : TokenCheck) (size : ℕ) (reason : Reason)
      → check ≡ reject_token reason r r.artifact_cid size [] (text "X-Upload-Token required")
      → (status_code (after_token S B X h r r.artifact_cid cid body check s).response ≡ 401)
        × ((after_token S B X h r r.artifact_cid cid body check s).state ≡ s)
  unfolding after_token reject_token status_code text_eq write_error
  after_rejection cid body check size reason e = rw e (refl, refl)

  -- Under the policy "required", a complete push within the limit that carries no token is answered
  -- by 401 and not stored, whatever its digest.
  pub push_missing_token :
      (cid : S.Cid) (m : ℕ) (verifier : UploadTokenVerifier)
      → is_empty r.artifact_cid ≡ false
      → S.parse_cid r.artifact_cid ≡ ok cid
      → h.max_body ≡ pos m
      → m + 1 < two63
      → length r.body.bytes ≤ m
      → r.body.failure ≡ none
      → h.token_policy ≡ text "required"
      → h.token_verifier ≡ some verifier
      → is_empty r.upload_token ≡ true
      → (status_code (push_serve S B X h r now s).response ≡ 401)
        × ((push_serve S B X h r now s).state ≡ s)
  push_missing_token cid m verifier given parsed limit small fits ends required configured missing =
      rw (reaches_token cid m given parsed limit small fits ends) (
        after_rejection cid r.body.bytes _ _ _
          (missing_token X h r _ now verifier required configured missing))

  no_check :
      (cid : S.Cid) (body : Bytes) (check : TokenCheck)
      → check ≡ proceed []
      → h.verify ≡ false
      → after_token S B X h r r.artifact_cid cid body check s
        ≡ persist S B X r r.artifact_cid cid body s
  unfolding after_token verify_digest text_eq
  no_check cid body check e off = rw e (rw (off, verify_digest) refl)

  -- With the largest `int64` as the limit, the size that is read wraps round and nothing is read:
  -- with no verifier and no verification, the empty body is pushed in place of any other.
  pub push_max_limit :
      (cid : S.Cid)
      → is_empty r.artifact_cid ≡ false
      → S.parse_cid r.artifact_cid ≡ ok cid
      → h.max_body ≡ pos (two63 - 1)
      → h.verify ≡ false
      → h.token_verifier ≡ none
      → push_serve S B X h r now s ≡ persist S B X r r.artifact_cid cid [] s
  push_max_limit cid given parsed limit off absent =
      reads_body cid given parsed
      ∙ measures_body cid []
          (ap (λ z. read_all_limited r.body (add64 z (pos 1))) limit ∙ add64_max r.body)
      ∙ within cid [] (within_limit h.max_body (two63 - 1) 0 limit (omega arith))
      ∙ no_check cid [] _ (no_verifier X h r _ now absent) off

  marked_silent :
      (cid : S.Cid) (body : Bytes) (check : TokenCheck) (kid : Text)
      → check ≡ proceed kid
      → kid ≡ rejected_mark
      → after_token S B X h r r.artifact_cid cid body check s
        ≡ record { response = none; log = []; state = s }
  unfolding after_token text_eq
  marked_silent cid body check kid e marked = rw (e, marked) refl

  -- A verified token whose kid is the sentinel text ends the push without a word: no response is
  -- written, so that `net/http` answers 200, nothing is logged and nothing is stored.
  pub push_sentinel_kid :
      (cid : S.Cid) (m : ℕ) (verifier : UploadTokenVerifier)
      → is_empty r.artifact_cid ≡ false
      → S.parse_cid r.artifact_cid ≡ ok cid
      → h.max_body ≡ pos m
      → m + 1 < two63
      → length r.body.bytes ≤ m
      → r.body.failure ≡ none
      → h.token_policy ≡ text "required"
      → h.token_verifier ≡ some verifier
      → is_empty r.upload_token ≡ false
      → verifier r.upload_token r.artifact_cid (length r.body.bytes) now ≡ ok tt
      → extract_kid X r.upload_token ≡ rejected_mark
      → push_serve S B X h r now s ≡ record { response = none; log = []; state = s }
  push_sentinel_kid cid m verifier given parsed limit small fits ends required configured present
        accepted marked =
      reaches_token cid m given parsed limit small fits ends
      ∙ marked_silent cid r.body.bytes _ (extract_kid X r.upload_token)
          (accepted_token X h r _ now verifier required configured present accepted) marked
