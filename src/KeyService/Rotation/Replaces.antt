-- ===== src/KeyService/Rotation/Replaces.antt =====
-- What a rotation that succeeds leaves behind.
use ortholog_artifact_store.Base.{
  Bytes, Text, Result, Result-cases, ok, err, none, some, ◌≡◌, refl, ap, arith, some-injective, inl,
  inr, ◌∙◌,
}
use ortholog_artifact_store.Storage.{Storage}
use ortholog_artifact_store.KeyService.{KeyError, key_not_found}
use ortholog_artifact_store.KeyService.Rotation.{
  KeyOperations, IsKeyService, rotated, rotate_to, rotate,
}

module _ (S : Storage) (prefix : Text) (K : KeyOperations S)
    (Opens : K.State → S.Cid → Bytes → Bytes → Type 0) (Apart : S.Cid → S.Cid → Type 0)
    (law : IsKeyService K Opens Apart) where
  -- The new artifact and no error: the deletion succeeded.
  rotated_ok :
      (new x : S.Cid × Bytes) (r : Result KeyError (Unit {0}))
      → rotated S prefix K new r ≡ (some x, none)
      → (r ≡ ok tt) × (new ≡ x)
  rotated_ok new x (ok u) h = (refl, some-injective (ap (λ y. y.0) h))
  rotated_ok new x (err e) h = absurd (ground (arith, ap (λ y. y.1) h))

  rotate_to-Opens :
      (old : S.Cid) (t p : Bytes) (s : K.State) (c : S.Cid) (t' : Bytes)
      → (rotate_to S prefix K old p s).0 ≡ (some (c, t'), none)
      → Apart old c
      → Opens (rotate_to S prefix K old p s).1 c t' p
        × ((K.decrypt old t (rotate_to S prefix K old p s).1).0 ≡ err key_not_found)
  unfolding rotate_to
  rotate_to-Opens old t p s c t' h apart = elim (Result-cases (K.generate_and_encrypt p s).0) [
    | inr (e, failed) ↦ absurd (ground (arith, ap (λ y. y.0) (rw (failed, rotate_to) at h)))
    | inl (new, made) ↦
        let s' = (K.generate_and_encrypt p s).1 in
        let (done, same) = rotated_ok new (c, t') (K.delete old s').0 (rw (made, rotate_to) at h) in
        rw (made, rotate_to)
          (
            law.delete_keeps old c t' p s' apart
                (law.generate_opens p s c t' (made ∙ ap (λ x. ok x) same)),
            law.delete_erases old t s' done,
          )
  ]

  -- A rotation that succeeds gives a new artifact: if its key is apart from the old one's, the new
  -- artifact decrypts to what the old one did, and the key of the old one is missing.
  pub rotate-Replaces :
      (old : S.Cid) (t : Bytes) (s : K.State) (c : S.Cid) (t' : Bytes)
      → (rotate S prefix K old t s).0 ≡ (some (c, t'), none)
      → Apart old c
      → (p : Bytes) × ((K.decrypt old t s).0 ≡ ok p)
        × ((K.decrypt c t' (rotate S prefix K old t s).1).0 ≡ ok p)
        × ((K.decrypt old t (rotate S prefix K old t s).1).0 ≡ err key_not_found)
  unfolding rotate
  rotate-Replaces old t s c t' h apart = elim (Result-cases (K.decrypt old t s).0) [
    | inr (e, failed) ↦ absurd (ground (arith, ap (λ y. y.0) (rw (failed, rotate) at h)))
    | inl (p, had) ↦
        let s' = (K.decrypt old t s).1 in
        let (opens, gone) = rotate_to-Opens old t p s' c t' (rw (had, rotate) at h) apart in
        (p, had, rw (had, rotate) (law.decrypt_opened c t' p _ opens), rw (had, rotate) gone)
  ]
