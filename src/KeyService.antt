-- ===== src/KeyService.antt =====
-- What the key services of keyservice/ share: their errors, and AES-GCM of internals.go.
pub mod Rotation
pub mod Requests
pub mod Envelope
pub mod Vault
pub mod GcpKms
pub mod Calls
pub mod Pkcs11
use ortholog_artifact_store.Base.{
  ℕ, Text, Bytes, text, decimal, length, Result, ok, err, map_err, ◌>>=◌, Bool, true, false, Option,
  none, some, ◌++◌, ◌==◌, if◌then◌else◌,
}

-- The sentinels of the SDK that callers tell apart, with the text that follows them, and
-- each service's own `errVaultNotFound`, `errGCPNotFound` or `errPKCS11NotFound`, which callers do
-- not see. `wrapped` is `fmt.Errorf("<text>: %w", err)`.
pub data KeyError : Type 0 where
  key_not_found backend_not_found : KeyError
  service_unavailable ciphertext_mismatch : Text → KeyError
  invalid_recipient_key : Option Text → KeyError
  wrapped : Text → KeyError → KeyError
  other : Text → KeyError

-- `errors.Is` with the service's own sentinel
abbrev pub is_not_found : KeyError → Bool
is_not_found backend_not_found = true
is_not_found (wrapped context e) = is_not_found e
is_not_found _ = false

-- The error of a deletion, if it is not that there was nothing to delete.
abbrev pub unless_missing : Result KeyError (Unit {0}) → Result KeyError (Unit {0})
unless_missing (ok _) = ok tt
unless_missing (err e) = if is_not_found e then ok tt else err e

-- `crypto/aes` and `crypto/cipher`, a parameter: the error of making the AEAD for a key, its nonce
-- size, and sealing and opening without additional data.
pub record Aead : Type 0 where
  pub cipher_error : Bytes → Option Text
  pub aead_nonce_size : ℕ
  pub seal : Bytes → Bytes → Bytes → Bytes
  pub unseal : Bytes → Bytes → Bytes → Result Text Bytes

module _ (A : Aead) where
  abbrev pub nonce_error : ℕ → Text
  nonce_error n =
      text "keyservice: nonce length " ++ decimal n ++ text ", want " ++ decimal A.aead_nonce_size

  -- `aesGCMSeal`
  unfoldable pub aes_gcm_seal : Bytes → Bytes → Bytes → Result Text Bytes
  unfolding decimal
  aes_gcm_seal key nonce plaintext = elim (A.cipher_error key) [
    | some e ↦ err e
    | none ↦
        if length nonce == A.aead_nonce_size
        then ok (A.seal key nonce plaintext)
        else err (nonce_error (length nonce))
  ]

  -- `aesGCMOpen`
  unfoldable pub aes_gcm_open : Bytes → Bytes → Bytes → Result Text Bytes
  unfolding decimal
  aes_gcm_open key nonce ciphertext = elim (A.cipher_error key) [
    | some e ↦ err e
    | none ↦
        if length nonce == A.aead_nonce_size
        then A.unseal key nonce ciphertext
        else err (nonce_error (length nonce))
  ]
