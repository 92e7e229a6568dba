-- ===== src/KeyService/Envelope/Contract.antt =====
-- Envelope encryption over a service that keeps the wrapped keys is a key service.
use mathlib.Core.Path.{subst}
use ortholog_artifact_store.Base.{
  Bytes, length, Result-cases, ok, err, ok-injective, ◌++◌, ◌≡◌, inl, inr, refl, arith,
}
use ortholog_artifact_store.Storage.{Storage}
use ortholog_artifact_store.KeyService.{key_not_found, aes_gcm_seal}
use ortholog_artifact_store.KeyService.Rotation.{IsKeyService}
use ortholog_artifact_store.KeyService.Envelope.{
  Crypto, Envelope, ServiceState, persist_new, seal_and_wrap, draw_nonce, encrypt_new,
  generate_and_encrypt, open_with, decrypt, delete, envelope_service,
}
use ortholog_artifact_store.KeyService.Envelope.Sealing.{IsCrypto, seal-opens}

-- `Kept s c m` says that the service keeps the key and the nonce `m` for `c`: what is persisted is
-- kept, and what is kept is fetched.
pub record Keeps {S : Storage} {World : Type 0} (E : Envelope S World)
    (Kept : World → S.Cid → Bytes → Type 0) : Type 0 where
  pub persist_keeps :
      (c : S.Cid) (m : Bytes) (s : World)
      → (E.persist c m s).0 ≡ ok tt
      → Kept (E.persist c m s).1 c m
  pub unwrap_kept : (c : S.Cid) (m : Bytes) (s : World) → Kept s c m → (E.unwrap c s).0 ≡ ok m

-- An artifact's own erasure, and no other's, makes its key missing.
pub record Forgets {S : Storage} {World : Type 0} (E : Envelope S World)
    (Kept : World → S.Cid → Bytes → Type 0) (Apart : S.Cid → S.Cid → Type 0) : Type 0 where
  pub erase_missing :
      (c : S.Cid) (s : World)
      → (E.erase_kept c s).0 ≡ ok tt
      → (E.unwrap c (E.erase_kept c s).1).0 ≡ err key_not_found
  pub erase_keeps :
      (c c' : S.Cid) (m : Bytes) (s : World)
      → Apart c c'
      → Kept s c' m
      → Kept (E.erase_kept c s).1 c' m

module _ (S : Storage) {World : Type 0} (X : Crypto World) (E : Envelope S World) where
  -- A key that is missing is reported as such.
  pub decrypt-missing :
      (c : S.Cid) (ct : Bytes) (v : ServiceState World)
      → (E.unwrap c v.world).0 ≡ err key_not_found
      → (decrypt S X E c ct v).0 ≡ err key_not_found
  unfolding decrypt
  decrypt-missing c ct v gone = rw (gone, decrypt) refl

module _ (S : Storage) {World : Type 0} (X : Crypto World) (E : Envelope S World)
    (Kept : World → S.Cid → Bytes → Type 0) where
  -- What is kept opens the ciphertext to the plaintext.
  abbrev pub Sealed : World → S.Cid → Bytes → Bytes → Type 0
  Sealed s c ct p = (m : Bytes) × Kept s c m × (open_with S X E ct m ≡ ok p)

  abbrev pub Opens : ServiceState World → S.Cid → Bytes → Bytes → Type 0
  Opens v = Sealed v.world

module _ (S : Storage) {World : Type 0} (X : Crypto World) (E : Envelope S World)
    (Kept : World → S.Cid → Bytes → Type 0) (crypto : IsCrypto X) (law : Keeps E Kept) where
  persist_new-Kept :
      (c : S.Cid) (ct m : Bytes) (s : World) (x : S.Cid × Bytes)
      → (persist_new S X E c ct m s).0 ≡ ok x
      → ((c, ct) ≡ x) × Kept (persist_new S X E c ct m s).1 c m
  unfolding persist_new
  persist_new-Kept c ct m s x h = elim (Result-cases (E.persist c m s).0) [
    | inr (e, failed) ↦ absurd (ground (arith, (rw failed at h)))
    | inl (u, fine) ↦ (ok-injective (rw fine at h), law.persist_keeps c m s fine)
  ]

  seal_and_wrap-Sealed :
      (p key nonce : Bytes) (s : World) (c : S.Cid) (ct : Bytes)
      → length key ≡ X.key_size
      → length nonce ≡ X.nonce_size
      → (seal_and_wrap S X E p key nonce s).0 ≡ ok (c, ct)
      → Sealed S X E Kept (seal_and_wrap S X E p key nonce s).1 c ct p
  unfolding seal_and_wrap
  seal_and_wrap-Sealed p key nonce s c ct hk hn h =
      elim (Result-cases (aes_gcm_seal X.aead key nonce p)) [
        | inr (e, failed) ↦ absurd (ground (arith, (rw (failed, seal_and_wrap) at h)))
        | inl (ct', fine) ↦
            let (same, kept) =
              persist_new-Kept (S.compute ct') ct' (key ++ nonce) s (c, ct)
                (rw (fine, seal_and_wrap) at h) in
            rw (fine, seal_and_wrap)
              (subst
                (λ x.
                  Sealed S X E Kept (persist_new S X E (S.compute ct') ct' (key ++ nonce) s).1 x.0
                    x.1 p)
                same (key ++ nonce, kept, seal-opens S X E crypto key nonce p ct' hk hn fine))
      ]

  draw_nonce-Sealed :
      (p key : Bytes) (s : World) (c : S.Cid) (ct : Bytes)
      → length key ≡ X.key_size
      → (draw_nonce S X E p key s).0 ≡ ok (c, ct)
      → Sealed S X E Kept (draw_nonce S X E p key s).1 c ct p
  unfolding draw_nonce
  draw_nonce-Sealed p key s c ct hk h = elim (Result-cases (X.random X.nonce_size s).0) [
    | inr (e, failed) ↦ absurd (ground (arith, (rw (failed, draw_nonce) at h)))
    | inl (nonce, drawn) ↦
        rw (drawn, draw_nonce)
          (seal_and_wrap-Sealed p key nonce _ c ct hk (crypto.random_size _ s nonce drawn)
            (rw (drawn, draw_nonce) at h))
  ]

  encrypt_new-Sealed :
      (p : Bytes) (s : World) (c : S.Cid) (ct : Bytes)
      → (encrypt_new S X E p s).0 ≡ ok (c, ct)
      → Sealed S X E Kept (encrypt_new S X E p s).1 c ct p
  unfolding encrypt_new
  encrypt_new-Sealed p s c ct h = elim (Result-cases (X.random X.key_size s).0) [
    | inr (e, failed) ↦ absurd (ground (arith, (rw (failed, encrypt_new) at h)))
    | inl (key, drawn) ↦
        rw (drawn, encrypt_new)
          (draw_nonce-Sealed p key _ c ct (crypto.random_size _ s key drawn)
            (rw (drawn, encrypt_new) at h))
  ]

  decrypt-Opens :
      (c : S.Cid) (ct p : Bytes) (v : ServiceState World)
      → Opens S X E Kept v c ct p
      → (decrypt S X E c ct v).0 ≡ ok p
  unfolding decrypt
  decrypt-Opens c ct p v (m, kept, opens) = rw (law.unwrap_kept c m v.world kept, decrypt) opens

  -- What was encrypted under a new key is decrypted again.
  pub decrypt-generate :
      (p : Bytes) (v : ServiceState World) (c : S.Cid) (ct : Bytes)
      → (generate_and_encrypt S X E p v).0 ≡ ok (c, ct)
      → (decrypt S X E c ct (generate_and_encrypt S X E p v).1).0 ≡ ok p
  unfolding generate_and_encrypt
  decrypt-generate p v c ct h =
      decrypt-Opens c ct p (generate_and_encrypt S X E p v).1 (encrypt_new-Sealed p v.world c ct h)

  pub envelope-IsKeyService :
      (Apart : S.Cid → S.Cid → Type 0)
      → Forgets E Kept Apart
      → IsKeyService (envelope_service S X E) (Opens S X E Kept) Apart
  unfolding generate_and_encrypt delete
  envelope-IsKeyService Apart forgets = record {
    generate_opens = λ p v c ct h. encrypt_new-Sealed p v.world c ct h;
    decrypt_opened = decrypt-Opens;
    delete_erases = λ c ct v h. decrypt-missing S X E c ct _ (forgets.erase_missing c v.world h);
    delete_keeps =
        λ c c' ct p v apart o. (o.0, forgets.erase_keeps c c' o.0 v.world apart o.1, o.2);
  }
