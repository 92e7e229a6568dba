-- ===== src/KeyService/Pkcs11/Service/Orphans.antt =====
-- The keys that `GenerateAndEncrypt` of keyservice/pkcs11.go leaves on the token.
use ortholog_artifact_store.Base.{
  ℕ, Text, Bytes, text, Result-cases, Bool-cases, ok, err, List, ◌∷◌, ◌≡◌, ◌⊎◌, inl, inr, refl, ap,
  ◌∙◌,
}
use ortholog_artifact_store.Storage.{Storage}
use ortholog_artifact_store.KeyService.{KeyError, other}
use ortholog_artifact_store.KeyService.Envelope.{Crypto}
use ortholog_artifact_store.KeyService.Calls.{failing, ending}
use ortholog_artifact_store.KeyService.Calls.Runs.{
  Runs, Keeps, Keeps-call, Runs-pure, Runs-raise, Runs-failing, Runs-finally, Runs-or_undo,
  Runs-bind, Runs-then,
}
use ortholog_artifact_store.KeyService.Pkcs11.{
  KeyAttribute, CtxError, Pkcs11Ctx, Pkcs11, Pkcs11State, has_code,
}
use ortholog_artifact_store.KeyService.Pkcs11.Session.{
  reopen, log_in, open_session, close_session, generate_aes_key, destroy_key, new_key_template,
}
use ortholog_artifact_store.KeyService.Pkcs11.Service.{
  encrypt_under, encrypt_new, generate_and_encrypt,
}
use ortholog_artifact_store.KeyService.Pkcs11.Service.Steady.{
  Steady, gcm_encrypt-Keeps, commit_label-Keeps,
}

module _ (M : Pkcs11Ctx) (keys : M.State → List ℕ) where
  abbrev pub Has : List ℕ → M.State → Type 0
  Has k w = keys w ≡ k

  -- One key more.
  abbrev pub HasNew : List ℕ → M.State → Type 0
  HasNew k w = (oh : ℕ) × (keys w ≡ oh ∷ k)

module _ (M : Pkcs11Ctx) (X : Crypto M.State) (p : Pkcs11) (keys : M.State → List ℕ) where
  -- What a module documents of the keys on its tokens, where `keys` lists them: only making and
  -- destroying changes them, and the last one that was made can be destroyed.
  pub record CountsKeys : Type 0 where
    pub steady : (k : List ℕ) → Steady M X (Has M keys k)
    pub open_session : (w : M.State) → keys (M.open_session p.slot_id w).1 ≡ keys w
    pub close_session : (sh : ℕ) (w : M.State) → keys (M.close_session sh w).1 ≡ keys w
    pub made :
        (sh : ℕ) (t : List KeyAttribute) (w : M.State) (oh : ℕ)
        → (M.generate_key sh t w).0 ≡ ok oh
        → keys (M.generate_key sh t w).1 ≡ oh ∷ keys w
    pub not_made :
        (sh : ℕ) (t : List KeyAttribute) (w : M.State) (e : CtxError)
        → (M.generate_key sh t w).0 ≡ err e
        → keys (M.generate_key sh t w).1 ≡ keys w
    pub destroys :
        (sh oh : ℕ) (k : List ℕ) (w : M.State)
        → keys w ≡ oh ∷ k
        → keys (M.destroy_object sh oh w).1 ≡ k

module _ (S : Storage) (M : Pkcs11Ctx) (X : Crypto M.State) (p : Pkcs11) (keys : M.State → List ℕ)
    (law : CountsKeys M X p keys) where
  slot-Keeps : (k : List ℕ) → Keeps (Has M keys k) (M.open_session p.slot_id)
  slot-Keeps k = Keeps-call _ λ w h. law.open_session w ∙ h

  reopen-Keeps : (e : CtxError) (k : List ℕ) → Keeps (Has M keys k) (reopen M p e)
  unfolding reopen
  reopen-Keeps e k = elim (Bool-cases (has_code M M.user_already_logged_in e)) [
    | inl yet ↦ rw (yet, reopen) (Runs-failing _ _ (slot-Keeps k))
    | inr bad ↦ rw (bad, reopen) (Runs-raise _ λ w h. h)
  ]

  log_in-Keeps : (sh : ℕ) (k : List ℕ) → Keeps (Has M keys k) (log_in M p sh)
  unfolding log_in
  log_in-Keeps sh k = record {
    at = λ w h.
        let h' = (law.steady k).login sh p.cfg.pin w h in
        elim (Result-cases (M.login sh p.cfg.pin w).0) [
          | inl (u, fine) ↦ rw (fine, log_in) h'
          | inr (e, bad) ↦ rw (bad, log_in) ((reopen-Keeps e k).at _ (law.close_session sh _ ∙ h'))
        ];
  }

  open_session-Keeps : (k : List ℕ) → Keeps (Has M keys k) (open_session M p)
  unfolding open_session
  open_session-Keeps k = Runs-bind _ _ (Runs-failing _ _ (slot-Keeps k)) λ sh. log_in-Keeps sh k

  close-Keeps : (sh : ℕ) (w : M.State) → keys (close_session M sh w).1 ≡ keys w
  close-Keeps sh w = law.close_session sh _ ∙ (law.steady (keys w)).logout sh w refl

  make-Runs :
      (sh : ℕ) (name : Text) (nonce : Bytes) (k : List ℕ)
      → Runs
          (Has M keys k)
          (λ oh. Has M keys (oh ∷ k))
          (Has M keys k)
          (generate_aes_key M sh name nonce)
  unfolding generate_aes_key
  make-Runs sh name nonce k = Runs-failing _ _ (record {
    at = λ w h. elim (Result-cases (M.generate_key sh (new_key_template name nonce) w).0) [
      | inl (oh, fine) ↦ rw fine (law.made sh _ w oh fine ∙ ap (λ t. oh ∷ t) h)
      | inr (e, bad) ↦ rw bad (law.not_made sh _ w e bad ∙ h)
    ];
  })

  undo :
      (sh oh : ℕ) (k : List ℕ) (w : M.State)
      → Has M keys (oh ∷ k) w
      → Has M keys k (destroy_key M sh oh w).1
  unfolding destroy_key failing ending
  undo sh oh k w h = law.destroys sh oh k w h

  encrypt_under-Runs :
      (b nonce : Bytes) (sh : ℕ) (k : List ℕ)
      → Runs (Has M keys k) (λ _. HasNew M keys k) (Has M keys k) (encrypt_under S M X p b nonce sh)
  unfolding encrypt_under
  encrypt_under-Runs b nonce sh k = Runs-bind _ _ (make-Runs sh _ nonce k) λ oh.
      Runs-bind _ _
        (Runs-or_undo _ _ (gcm_encrypt-Keeps S M X p _ (law.steady (oh ∷ k)) sh oh nonce b)
          (undo sh oh k))
        λ ct.
          Runs-then _ _
            (Runs-or_undo _ _ (commit_label-Keeps S M X p _ (law.steady (oh ∷ k)) sh oh _)
              (undo sh oh k))
            λ _. Runs-pure _ λ w h. (oh, h)

  encrypt_new-Runs :
      (b : Bytes) (k : List ℕ)
      → Runs (Has M keys k) (λ _. HasNew M keys k) (Has M keys k) (encrypt_new S M X p b)
  unfolding encrypt_new
  encrypt_new-Runs b k =
      Runs-bind _ _ (Runs-failing _ _ (Keeps-call _ ((law.steady k).random _))) λ nonce.
        Runs-bind _ _ (open_session-Keeps k) λ sh.
          Runs-finally _ _ (encrypt_under-Runs b nonce sh k)
            (λ x w (oh, h). (oh, close-Keeps sh w ∙ h)) (λ w h. close-Keeps sh w ∙ h)

  -- Of a module that destroys the last key it made when it is asked to, and makes and destroys keys
  -- in no other call, a generation that succeeds leaves exactly one new key on the token, and one
  -- that fails, after whichever call, leaves exactly the keys that were there.
  pub generate-leaves :
      (b : Bytes) (v : Pkcs11State M.State)
      → ((x : S.Cid × Bytes) × (oh : ℕ) × ((generate_and_encrypt S M X p b v).0 ≡ ok x)
          × (keys (generate_and_encrypt S M X p b v).1.world ≡ oh ∷ keys v.world))
        ⊎ ((e : KeyError) × ((generate_and_encrypt S M X p b v).0 ≡ err e)
            × (keys (generate_and_encrypt S M X p b v).1.world ≡ keys v.world))
  unfolding generate_and_encrypt
  generate-leaves b v =
      let ends = (encrypt_new-Runs b (keys v.world)).at v.world refl in
      elim (Bool-cases v.closed) [
        | inl gone ↦
            inr (other (text "keyservice/pkcs11: service is closed"), rw gone refl, rw gone refl)
        | inr open_yet ↦ elim (Result-cases (encrypt_new S M X p b v.world).0) [
          | inl (x, fine) ↦
              let (oh, h) = rw fine at ends in inl (x, oh, rw (open_yet, fine) refl, rw open_yet h)
          | inr (e, bad) ↦ inr (e, rw (open_yet, bad) refl, rw open_yet (rw bad at ends))
        ]
      ]
