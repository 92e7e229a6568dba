-- ===== src/KeyService/Rotation.antt =====
-- The operations of a key service, the contract that the SDK's `ArtifactKeyService` gives them, and
-- `Rotate`, which keyservice/vault.go, gcpkms.go and pkcs11.go write alike.
pub mod Replaces
use ortholog_artifact_store.Base.{Bytes, Text, text, Result, ok, err, Option, none, some, ◌++◌, ◌≡◌}
use ortholog_artifact_store.Storage.{Storage}
use ortholog_artifact_store.KeyService.{KeyError, key_not_found, wrapped}

pub record KeyOperations (S : Storage) : Type 1 where
  pub State : Type 0
  pub generate_and_encrypt : Bytes → State → Result KeyError (S.Cid × Bytes) × State
  pub wrap_for_recipient : S.Cid → Bytes → State → Result KeyError Bytes × State
  pub decrypt : S.Cid → Bytes → State → Result KeyError Bytes × State
  pub delete : S.Cid → State → Result KeyError (Unit {0}) × State

-- `Opens s c t p` says that the service keeps what opens the ciphertext `t` of `c` to `p`, and
-- `Apart c c'` that the two have keys of their own. What was encrypted is opened, a deletion of
-- another key leaves that so, and after its own key is deleted the key is missing.
pub record IsKeyService {S : Storage} (K : KeyOperations S)
    (Opens : K.State → S.Cid → Bytes → Bytes → Type 0) (Apart : S.Cid → S.Cid → Type 0)
    : Type 0 where
  pub generate_opens :
      (p : Bytes) (s : K.State) (c : S.Cid) (t : Bytes)
      → (K.generate_and_encrypt p s).0 ≡ ok (c, t)
      → Opens (K.generate_and_encrypt p s).1 c t p
  pub decrypt_opened :
      (c : S.Cid) (t p : Bytes) (s : K.State) → Opens s c t p → (K.decrypt c t s).0 ≡ ok p
  pub delete_erases :
      (c : S.Cid) (t : Bytes) (s : K.State)
      → (K.delete c s).0 ≡ ok tt
      → (K.decrypt c t (K.delete c s).1).0 ≡ err key_not_found
  pub delete_keeps :
      (c c' : S.Cid) (t p : Bytes) (s : K.State)
      → Apart c c'
      → Opens s c' t p
      → Opens (K.delete c s).1 c' t p

-- A Go function that returns a value and an error, where both may be there.
abbrev pub Rotated : Storage → Type 0
Rotated S = Option (S.Cid × Bytes) × Option KeyError

module _ (S : Storage) (prefix : Text) (K : KeyOperations S) where
  -- After a failed deletion the new artifact is returned beside the error.
  abbrev pub rotated : S.Cid × Bytes → Result KeyError (Unit {0}) → Rotated S
  rotated new (ok _) = (some new, none)
  rotated new (err e) = (some new, some (wrapped (prefix ++ text ": post-rotate delete old") e))

  unfoldable pub rotate_to : S.Cid → Bytes → K.State → Rotated S × K.State
  rotate_to old plaintext s =
      let (r, s') = K.generate_and_encrypt plaintext s in
      elim r [
        | err e ↦ ((none, some e), s')
        | ok new ↦ let (r', s'') = K.delete old s' in (rotated new r', s'')
      ]

  unfoldable pub rotate : S.Cid → Bytes → K.State → Rotated S × K.State
  unfolding rotate_to
  rotate old old_ciphertext s =
      let (r, s') = K.decrypt old old_ciphertext s in
      elim r [ err e ↦ ((none, some e), s') | ok plaintext ↦ rotate_to old plaintext s' ]
