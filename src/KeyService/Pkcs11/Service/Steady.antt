-- ===== src/KeyService/Pkcs11/Service/Steady.antt =====
-- What the calls of keyservice/pkcs11_api.go keep that neither open nor close sessions, and neither
-- make nor destroy keys.
use ortholog_artifact_store.Base.{ℕ, Text, Bytes, List}
use ortholog_artifact_store.Storage.{Storage}
use ortholog_artifact_store.KeyService.Envelope.{Crypto}
use ortholog_artifact_store.KeyService.Calls.Runs.{
  Keeps, Keeps-call, Keeps-lift, Runs-failing, Runs-finally, Runs-bind, Runs-then,
}
use ortholog_artifact_store.KeyService.Pkcs11.{KeyAttribute, Pkcs11Ctx, Pkcs11}
use ortholog_artifact_store.KeyService.Pkcs11.Session.{
  find_key_by_label, read_key_material, gcm_encrypt, gcm_decrypt,
}
use ortholog_artifact_store.KeyService.Pkcs11.Service.{
  commit_label, find_artifact_key, wrap_key, decrypt_with,
}

-- The calls that leave sessions and keys as they are keep `P`.
pub record Steady (M : Pkcs11Ctx) (X : Crypto M.State) (P : M.State → Type 0) : Type 0 where
  pub random : (n : ℕ) (w : M.State) → P w → P (X.random n w).1
  pub encrypt_for_node :
      (m : Bytes) (k : X.PublicKey) (w : M.State) → P w → P (X.encrypt_for_node m k w).1
  pub login : (sh : ℕ) (pin : Text) (w : M.State) → P w → P (M.login sh pin w).1
  pub logout : (sh : ℕ) (w : M.State) → P w → P (M.logout sh w).1
  pub find_objects_init :
      (sh : ℕ) (t : List KeyAttribute) (w : M.State) → P w → P (M.find_objects_init sh t w).1
  pub find_objects : (sh n : ℕ) (w : M.State) → P w → P (M.find_objects sh n w).1
  pub find_objects_final : (sh : ℕ) (w : M.State) → P w → P (M.find_objects_final sh w).1
  pub get_attribute_value :
      (sh oh : ℕ) (t : List KeyAttribute) (w : M.State)
      → P w
      → P (M.get_attribute_value sh oh t w).1
  pub set_attribute_value :
      (sh oh : ℕ) (t : List KeyAttribute) (w : M.State)
      → P w
      → P (M.set_attribute_value sh oh t w).1
  pub encrypt_init :
      (sh : ℕ) (nonce : Bytes) (oh : ℕ) (w : M.State) → P w → P (M.encrypt_init sh nonce oh w).1
  pub encrypt : (sh : ℕ) (b : Bytes) (w : M.State) → P w → P (M.encrypt sh b w).1
  pub decrypt_init :
      (sh : ℕ) (nonce : Bytes) (oh : ℕ) (w : M.State) → P w → P (M.decrypt_init sh nonce oh w).1
  pub decrypt : (sh : ℕ) (b : Bytes) (w : M.State) → P w → P (M.decrypt sh b w).1

module _ (S : Storage) (M : Pkcs11Ctx) (X : Crypto M.State) (p : Pkcs11) (P : M.State → Type 0)
    (law : Steady M X P) where
  pub find_key_by_label-Keeps : (sh : ℕ) (name : Text) → Keeps P (find_key_by_label M sh name)
  unfolding find_key_by_label
  find_key_by_label-Keeps sh name =
      Runs-then _ _ (Runs-failing _ _ (Keeps-call _ (law.find_objects_init sh _))) λ _.
        Runs-bind _ _
          (Runs-failing _ _ (
            Runs-finally _ _ (Keeps-call _ (law.find_objects sh 1))
              (λ objs. law.find_objects_final sh) (law.find_objects_final sh)))
          λ objs. Keeps-lift _

  find_artifact_key-Keeps : (c : S.Cid) (sh : ℕ) → Keeps P (find_artifact_key S M X p c sh)
  unfolding find_artifact_key
  find_artifact_key-Keeps c sh = Runs-failing _ _ (find_key_by_label-Keeps sh _)

  read_key_material-Keeps : (sh oh : ℕ) → Keeps P (read_key_material M sh oh)
  unfolding read_key_material
  read_key_material-Keeps sh oh =
      Runs-bind _ _ (Runs-failing _ _ (Keeps-call _ (law.get_attribute_value sh oh _)))
        λ got. Keeps-lift _

  pub gcm_encrypt-Keeps : (sh oh : ℕ) (nonce b : Bytes) → Keeps P (gcm_encrypt M sh oh nonce b)
  unfolding gcm_encrypt
  gcm_encrypt-Keeps sh oh nonce b =
      Runs-then _ _ (Runs-failing _ _ (Keeps-call _ (law.encrypt_init sh nonce oh)))
        λ _. Runs-failing _ _ (Keeps-call _ (law.encrypt sh b))

  gcm_decrypt-Keeps : (sh oh : ℕ) (nonce b : Bytes) → Keeps P (gcm_decrypt M sh oh nonce b)
  unfolding gcm_decrypt
  gcm_decrypt-Keeps sh oh nonce b =
      Runs-then _ _ (Runs-failing _ _ (Keeps-call _ (law.decrypt_init sh nonce oh)))
        λ _. Runs-failing _ _ (Keeps-call _ (law.decrypt sh b))

  pub commit_label-Keeps : (sh oh : ℕ) (c : S.Cid) → Keeps P (commit_label S M X p sh oh c)
  unfolding commit_label
  commit_label-Keeps sh oh c = Runs-failing _ _ (Keeps-call _ (law.set_attribute_value sh oh _))

  pub wrap_key-Keeps : (k : X.PublicKey) (c : S.Cid) (sh : ℕ) → Keeps P (wrap_key S M X p k c sh)
  unfolding wrap_key
  wrap_key-Keeps k c sh = Runs-bind _ _ (find_artifact_key-Keeps c sh) λ oh.
      Runs-bind _ _ (read_key_material-Keeps sh oh)
        λ material. Runs-failing _ _ (Keeps-call _ (law.encrypt_for_node _ k))

  pub decrypt_with-Keeps :
      (c : S.Cid) (ct : Bytes) (sh : ℕ) → Keeps P (decrypt_with S M X p c ct sh)
  unfolding decrypt_with
  decrypt_with-Keeps c ct sh = Runs-bind _ _ (find_artifact_key-Keeps c sh) λ oh.
      Runs-bind _ _ (Runs-failing _ _ (Keeps-call _ (law.get_attribute_value sh oh _))) λ attrs.
        Runs-bind _ _ (Keeps-lift _) λ nonce. Runs-failing _ _ (gcm_decrypt-Keeps sh oh nonce ct)
