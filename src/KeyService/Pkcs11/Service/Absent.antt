-- ===== src/KeyService/Pkcs11/Service/Absent.antt =====
-- What the operations of keyservice/pkcs11.go answer when no key has the label of the CID.
use ortholog_artifact_store.Base.{ℕ, Bytes, is_empty, ok, err, false, [], ◌≡◌, refl}
use ortholog_artifact_store.Storage.{Storage}
use ortholog_artifact_store.KeyService.{key_not_found, backend_not_found}
use ortholog_artifact_store.KeyService.Envelope.{Crypto}
use ortholog_artifact_store.KeyService.Calls.{failing, finally, ending, lift, ◌>>=◌, ◌>>◌}
use ortholog_artifact_store.KeyService.Pkcs11.{Pkcs11Ctx, Pkcs11, Pkcs11State, key_label}
use ortholog_artifact_store.KeyService.Pkcs11.Session.{
  open_session, key_template, find_key_by_label,
}
use ortholog_artifact_store.KeyService.Pkcs11.Service.{
  find_artifact_key, wrap_key, wrap_for, wrap_for_recipient, decrypt_with, decrypt, erase_with,
  delete,
}

module _ (S : Storage) (M : Pkcs11Ctx) (X : Crypto M.State) (p : Pkcs11) (c : S.Cid) (sh : ℕ)
    (w : M.State) where
  -- The search of the label runs and finds nothing.
  pub record NotThere : Type 0 where
    pub begins : (M.find_objects_init sh (key_template (key_label S p c)) w).0 ≡ ok tt
    pub finds_none :
        (M.find_objects sh 1 (M.find_objects_init sh (key_template (key_label S p c)) w).1).0
        ≡ ok []

module _ (S : Storage) (M : Pkcs11Ctx) (X : Crypto M.State) (p : Pkcs11) (c : S.Cid) (sh : ℕ)
    (w : M.State) (absent : NotThere S M X p c sh w) where
  find-none : (find_key_by_label M sh (key_label S p c) w).0 ≡ err backend_not_found
  unfolding find_key_by_label failing ending finally lift ◌>>=◌ ◌>>◌
  find-none = rw (absent.begins, absent.finds_none, find_key_by_label, failing, finally) refl

  find_artifact-none : (find_artifact_key S M X p c sh w).0 ≡ err key_not_found
  unfolding find_artifact_key failing ending
  find_artifact-none = rw (find-none, find_artifact_key, failing, ending) refl

  decrypt_with-none : (ct : Bytes) → (decrypt_with S M X p c ct sh w).0 ≡ err key_not_found
  unfolding decrypt_with ◌>>=◌
  decrypt_with-none ct = rw (find_artifact-none, decrypt_with, ◌>>=◌) refl

  wrap_key-none : (k : X.PublicKey) → (wrap_key S M X p k c sh w).0 ≡ err key_not_found
  unfolding wrap_key ◌>>=◌
  wrap_key-none k = rw (find_artifact-none, wrap_key, ◌>>=◌) refl

  erase_with-none : (erase_with S M X p c sh w).0 ≡ ok tt
  unfolding erase_with ending ◌>>=◌
  erase_with-none = rw (find-none, erase_with, ending, ◌>>=◌) refl

module _ (S : Storage) (M : Pkcs11Ctx) (X : Crypto M.State) (p : Pkcs11) where
  -- When a session opens and its search of the CID's label finds no key, decrypting and wrapping
  -- for a recipient whose public key parses report a missing key, and deleting succeeds.
  pub absent-outcomes :
      (c : S.Cid) (ct recipient : Bytes) (k : X.PublicKey) (v : Pkcs11State M.State) (sh : ℕ)
      → v.closed ≡ false
      → (open_session M p v.world).0 ≡ ok sh
      → NotThere S M X p c sh (open_session M p v.world).1
      → is_empty recipient ≡ false
      → X.parse_pub_key recipient ≡ ok k
      → ((decrypt S M X p c ct v).0 ≡ err key_not_found)
        × ((wrap_for_recipient S M X p c recipient v).0 ≡ err key_not_found)
        × ((delete S M X p c v).0 ≡ ok tt)
  unfolding decrypt wrap_for_recipient wrap_for delete finally ◌>>=◌
  absent-outcomes c ct recipient k v sh open_yet opened absent given parsed =
      let w = (open_session M p v.world).1 in
      (
        rw (open_yet, opened, decrypt, ◌>>=◌, finally) (decrypt_with-none S M X p c sh w absent ct),
        rw (given, parsed, wrap_for_recipient, wrap_for, open_yet, opened, ◌>>=◌, finally)
            (wrap_key-none S M X p c sh w absent k),
        rw (open_yet, opened, delete, ◌>>=◌, finally) (erase_with-none S M X p c sh w absent),
      )
