-- ===== src/KeyService/Envelope/Sealing.antt =====
-- A fresh key and nonce open what they have sealed.
use mathlib.Core.Path.{subst}
use ortholog_artifact_store.Base.{
  ℕ, ◌+◌, Bytes, length, take, drop, length-append, take-length_append, drop-length_append,
  Option-cases, Bool-cases, ok, ok-injective, true, none, ◌==◌, ◌++◌, ◌≡◌, inl, inr, refl, arith,
}
use ortholog_artifact_store.Storage.{Storage}
use ortholog_artifact_store.KeyService.{aes_gcm_seal, aes_gcm_open}
use ortholog_artifact_store.KeyService.Envelope.{Crypto, Envelope, open_with}

-- What AES-GCM and the random source do.
pub record IsCrypto {World : Type 0} (X : Crypto World) : Type 0 where
  pub random_size : (n : ℕ) (s : World) (b : Bytes) → (X.random n s).0 ≡ ok b → length b ≡ n
  pub unseals :
      (key nonce p : Bytes)
      → X.aead.cipher_error key ≡ none
      → X.aead.unseal key nonce (X.aead.seal key nonce p) ≡ ok p

module _ (S : Storage) {World : Type 0} (X : Crypto World) (E : Envelope S World)
    (law : IsCrypto X) where
  whole_size :
      (key nonce : Bytes)
      → length key ≡ X.key_size
      → length nonce ≡ X.nonce_size
      → (length (key ++ nonce) == X.key_size + X.nonce_size) ≡ true
  whole_size key nonce hk hn = ground (arith, length-append key nonce, hk, hn)

  sealed_parts :
      (key nonce p ct : Bytes)
      → aes_gcm_seal X.aead key nonce p ≡ ok ct
      → (X.aead.cipher_error key ≡ none)
        × ((length nonce == X.aead.aead_nonce_size) ≡ true)
        × (X.aead.seal key nonce p ≡ ct)
  unfolding aes_gcm_seal
  sealed_parts key nonce p ct h = elim (Option-cases (X.aead.cipher_error key)) [
    | inr (e, bad) ↦ absurd (ground (arith, (rw (bad, aes_gcm_seal) at h)))
    | inl made ↦ elim (Bool-cases (length nonce == X.aead.aead_nonce_size)) [
      | inr bad ↦ absurd (ground (arith, (rw (made, bad, aes_gcm_seal) at h)))
      | inl fits ↦ (made, fits, ok-injective (rw (made, fits, aes_gcm_seal) at h))
    ]
  ]

  opened :
      (key nonce p : Bytes)
      → X.aead.cipher_error key ≡ none
      → (length nonce == X.aead.aead_nonce_size) ≡ true
      → aes_gcm_open X.aead key nonce (X.aead.seal key nonce p) ≡ ok p
  unfolding aes_gcm_open
  opened key nonce p made fits = rw (made, fits, aes_gcm_open) (law.unseals key nonce p made)

  -- Under fresh keys of the right sizes the ciphertext is opened again.
  pub seal-opens :
      (key nonce p ct : Bytes)
      → length key ≡ X.key_size
      → length nonce ≡ X.nonce_size
      → aes_gcm_seal X.aead key nonce p ≡ ok ct
      → open_with S X E ct (key ++ nonce) ≡ ok p
  unfolding open_with
  seal-opens key nonce p ct hk hn h =
      let (made, fits, sealed) = sealed_parts key nonce p ct h in
      let first = subst (λ n. take n (key ++ nonce) ≡ key) hk (take-length_append key nonce) in
      let second = subst (λ n. drop n (key ++ nonce) ≡ nonce) hk (drop-length_append key nonce) in
      subst (λ t. open_with S X E t (key ++ nonce) ≡ ok p) sealed
        (rw (open_with, whole_size key nonce hk hn, first, second)
          (rw (opened key nonce p made fits) refl))
