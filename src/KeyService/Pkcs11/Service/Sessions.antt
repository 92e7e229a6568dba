-- ===== src/KeyService/Pkcs11/Service/Sessions.antt =====
-- The sessions that the operations of keyservice/pkcs11.go open, they close.
use ortholog_artifact_store.Base.{
  ℕ, Text, Bytes, is_empty, Result, Result-cases, Bool-cases, ok, err, List, ◌∷◌, ◌≡◌, inl, inr,
  refl, ap, ◌∙◌,
}
use ortholog_artifact_store.Storage.{Storage}
use ortholog_artifact_store.KeyService.{KeyError}
use ortholog_artifact_store.KeyService.Rotation.{rotate_to}
use ortholog_artifact_store.KeyService.Rotation
use ortholog_artifact_store.KeyService.Envelope.{Crypto}
use ortholog_artifact_store.KeyService.Calls.{Calls}
use ortholog_artifact_store.KeyService.Calls.Runs.{
  Runs, Keeps, Keeps-call, Keeps-ending, Keeps-at, Runs-pure, Runs-raise, Runs-failing,
  Runs-finally, Runs-or_undo, Runs-bind, Runs-then,
}
use ortholog_artifact_store.KeyService.Pkcs11.{
  KeyAttribute, CtxError, Pkcs11Ctx, Pkcs11, Pkcs11State, pkcs11_prefix, has_code,
}
use ortholog_artifact_store.KeyService.Pkcs11.Session.{
  reopen, log_in, open_session, close_session, generate_aes_key, destroy_key,
}
use ortholog_artifact_store.KeyService.Pkcs11.Service.{
  with_session, when_open, encrypt_under, encrypt_new, generate_and_encrypt, wrap_for,
  wrap_for_recipient, decrypt, erase_with, delete, rotate, pkcs11_service,
}
use ortholog_artifact_store.KeyService.Pkcs11.Service.Steady.{
  Steady, find_key_by_label-Keeps, gcm_encrypt-Keeps, commit_label-Keeps, wrap_key-Keeps,
  decrypt_with-Keeps,
}

module _ (M : Pkcs11Ctx) (sessions : M.State → List ℕ) where
  abbrev pub Open : List ℕ → M.State → Type 0
  Open l w = sessions w ≡ l

module _ (M : Pkcs11Ctx) (X : Crypto M.State) (p : Pkcs11) (sessions : M.State → List ℕ) where
  -- What a module documents of its sessions, where `sessions` lists the open ones: only opening and
  -- closing changes them, and the last one that was opened can be closed.
  pub record CountsSessions : Type 0 where
    pub steady : (l : List ℕ) → Steady M X (Open M sessions l)
    pub opened :
        (w : M.State) (sh : ℕ)
        → (M.open_session p.slot_id w).0 ≡ ok sh
        → sessions (M.open_session p.slot_id w).1 ≡ sh ∷ sessions w
    pub not_opened :
        (w : M.State) (e : CtxError)
        → (M.open_session p.slot_id w).0 ≡ err e
        → sessions (M.open_session p.slot_id w).1 ≡ sessions w
    pub closes :
        (sh : ℕ) (l : List ℕ) (w : M.State)
        → sessions w ≡ sh ∷ l
        → sessions (M.close_session sh w).1 ≡ l
    pub generate_key :
        (sh : ℕ) (t : List KeyAttribute) (w : M.State)
        → sessions (M.generate_key sh t w).1 ≡ sessions w
    pub destroy_object :
        (sh oh : ℕ) (w : M.State) → sessions (M.destroy_object sh oh w).1 ≡ sessions w

module _ (S : Storage) (M : Pkcs11Ctx) (X : Crypto M.State) (p : Pkcs11)
    (sessions : M.State → List ℕ) (law : CountsSessions M X p sessions) where
  slot-Runs :
      (l : List ℕ)
      → Runs
          (Open M sessions l)
          (λ sh. Open M sessions (sh ∷ l))
          (Open M sessions l)
          (M.open_session p.slot_id)
  slot-Runs l = record {
    at = λ w h. elim (Result-cases (M.open_session p.slot_id w).0) [
      | inl (sh, fine) ↦ rw fine (law.opened w sh fine ∙ ap (λ t. sh ∷ t) h)
      | inr (e, bad) ↦ rw bad (law.not_opened w e bad ∙ h)
    ];
  }

  reopen-Runs :
      (e : CtxError) (l : List ℕ)
      → Runs (Open M sessions l) (λ sh. Open M sessions (sh ∷ l)) (Open M sessions l) (reopen M p e)
  unfolding reopen
  reopen-Runs e l = elim (Bool-cases (has_code M M.user_already_logged_in e)) [
    | inl yet ↦ rw (yet, reopen) (Runs-failing _ _ (slot-Runs l))
    | inr bad ↦ rw (bad, reopen) (Runs-raise _ λ w h. h)
  ]

  log_in-Runs :
      (sh : ℕ) (l : List ℕ)
      → Runs
          (Open M sessions (sh ∷ l))
          (λ sh'. Open M sessions (sh' ∷ l))
          (Open M sessions l)
          (log_in M p sh)
  unfolding log_in
  log_in-Runs sh l = record {
    at = λ w h.
        let h' = (law.steady (sh ∷ l)).login sh p.cfg.pin w h in
        elim (Result-cases (M.login sh p.cfg.pin w).0) [
          | inl (u, fine) ↦ rw (fine, log_in) h'
          | inr (e, bad) ↦ rw (bad, log_in) ((reopen-Runs e l).at _ (law.closes sh l _ h'))
        ];
  }

  open_session-Runs :
      (l : List ℕ)
      → Runs
          (Open M sessions l)
          (λ sh. Open M sessions (sh ∷ l))
          (Open M sessions l)
          (open_session M p)
  unfolding open_session
  open_session-Runs l = Runs-bind _ _ (Runs-failing _ _ (slot-Runs l)) λ sh. log_in-Runs sh l

  with_session-Keeps :
      {A : Type 0} (body : ℕ → Calls KeyError M.State A) (l : List ℕ)
      → ((sh : ℕ) → Keeps (Open M sessions (sh ∷ l)) (body sh))
      → Keeps (Open M sessions l) (with_session S M X p body)
  with_session-Keeps body l keeps =
      Runs-bind _ _ (open_session-Runs l)
        λ sh. Runs-finally _ _ (keeps sh) (λ x w. close sh w) (close sh)
    where
      close :
          (sh : ℕ) (w : M.State)
          → Open M sessions (sh ∷ l) w
          → Open M sessions l (close_session M sh w).1
      close sh w h = law.closes sh l _ ((law.steady (sh ∷ l)).logout sh w h)

  destroy_key-Keeps : (sh oh : ℕ) (l : List ℕ) → Keeps (Open M sessions l) (destroy_key M sh oh)
  unfolding destroy_key
  destroy_key-Keeps sh oh l = Runs-failing _ _ (Keeps-call _ λ w h. law.destroy_object sh oh w ∙ h)

  encrypt_under-Keeps :
      (b nonce : Bytes) (sh : ℕ) (l : List ℕ)
      → Keeps (Open M sessions l) (encrypt_under S M X p b nonce sh)
  unfolding encrypt_under generate_aes_key
  encrypt_under-Keeps b nonce sh l =
      Runs-bind _ _ (Runs-failing _ _ (Keeps-call _ λ w h. law.generate_key sh _ w ∙ h)) λ oh.
        Runs-bind _ _
          (Runs-or_undo _ _ (gcm_encrypt-Keeps S M X p _ (law.steady l) sh oh nonce b)
            (Keeps-at _ (destroy_key-Keeps sh oh l)))
          λ ct.
            Runs-then _ _
              (Runs-or_undo _ _ (commit_label-Keeps S M X p _ (law.steady l) sh oh _)
                (Keeps-at _ (destroy_key-Keeps sh oh l)))
              λ _. Runs-pure _ λ w h. h

  encrypt_new-Keeps : (b : Bytes) (l : List ℕ) → Keeps (Open M sessions l) (encrypt_new S M X p b)
  unfolding encrypt_new
  encrypt_new-Keeps b l =
      Runs-bind _ _ (Runs-failing _ _ (Keeps-call _ ((law.steady l).random _)))
        λ nonce. with_session-Keeps _ l λ sh. encrypt_under-Keeps b nonce sh (sh ∷ l)

  erase_with-Keeps :
      (c : S.Cid) (sh : ℕ) (l : List ℕ) → Keeps (Open M sessions l) (erase_with S M X p c sh)
  unfolding erase_with
  erase_with-Keeps c sh l = Keeps-ending _ _ (
      Runs-bind _ _ (find_key_by_label-Keeps S M X p _ (law.steady l) sh _)
        λ oh. destroy_key-Keeps sh oh l)

  abbrev Releases : {A : Type 0} → Calls KeyError (Pkcs11State M.State) A → Type 0
  Releases call = (v : Pkcs11State M.State) → sessions (call v).1.world ≡ sessions v.world

  when_open-Releases :
      {A : Type 0} (call : Calls KeyError M.State A)
      → ((l : List ℕ) → Keeps (Open M sessions l) call)
      → Releases (when_open S M X p call)
  when_open-Releases call keeps v = elim (Bool-cases v.closed) [
    | inl gone ↦ rw gone refl
    | inr open_yet ↦ rw open_yet (Keeps-at call (keeps (sessions v.world)) v.world refl)
  ]

  wrap_for-Releases : (k : Result Text X.PublicKey) (c : S.Cid) → Releases (wrap_for S M X p k c)
  unfolding wrap_for
  wrap_for-Releases (err e) c v = refl
  wrap_for-Releases (ok k) c v =
      when_open-Releases _
        (λ l. with_session-Keeps _ l λ sh. wrap_key-Keeps S M X p _ (law.steady (sh ∷ l)) k c sh) v

  wrap_for_recipient-Releases : (c : S.Cid) (b : Bytes) → Releases (wrap_for_recipient S M X p c b)
  unfolding wrap_for_recipient
  wrap_for_recipient-Releases c b v = elim (Bool-cases (is_empty b)) [
    | inl bare ↦ rw (bare, wrap_for_recipient) refl
    | inr given ↦ rw (given, wrap_for_recipient) (wrap_for-Releases _ c v)
  ]

  generate-Releases : (b : Bytes) → Releases (generate_and_encrypt S M X p b)
  unfolding generate_and_encrypt
  generate-Releases b = when_open-Releases _ (encrypt_new-Keeps b)

  decrypt-Releases : (c : S.Cid) (ct : Bytes) → Releases (decrypt S M X p c ct)
  unfolding decrypt
  decrypt-Releases c ct =
      when_open-Releases _
        λ l. with_session-Keeps _ l λ sh. decrypt_with-Keeps S M X p _ (law.steady (sh ∷ l)) c ct sh

  delete-Releases : (c : S.Cid) → Releases (delete S M X p c)
  unfolding delete
  delete-Releases c =
      when_open-Releases _ λ l. with_session-Keeps _ l λ sh. erase_with-Keeps c sh (sh ∷ l)

  rotate_to-Releases :
      (c : S.Cid) (b : Bytes) (v : Pkcs11State M.State)
      → sessions (rotate_to S pkcs11_prefix (pkcs11_service S M X p) c b v).1.world
        ≡ sessions v.world
  unfolding rotate_to
  rotate_to-Releases c b v =
      let (r, v') = generate_and_encrypt S M X p b v in
      elim (Result-cases r) [
        | inl (new, made) ↦ rw (made, rotate_to) (delete-Releases c v' ∙ generate-Releases b v)
        | inr (e, bad) ↦ rw (bad, rotate_to) (generate-Releases b v)
      ]

  rotate-Releases :
      (c : S.Cid) (ct : Bytes) (v : Pkcs11State M.State)
      → sessions (rotate S M X p c ct v).1.world ≡ sessions v.world
  unfolding rotate Rotation.rotate
  rotate-Releases c ct v =
      let (r, v') = decrypt S M X p c ct v in
      elim (Result-cases r) [
        | inl (b, had) ↦
            rw (had, rotate, Rotation.rotate) (rotate_to-Releases c b v' ∙ decrypt-Releases c ct v)
        | inr (e, bad) ↦ rw (bad, rotate, Rotation.rotate) (decrypt-Releases c ct v)
      ]

  -- Of a module that closes the last session it opened when it is asked to, and opens and closes
  -- sessions in no other call, every operation leaves the sessions that
  -- were open before it, however it ends: the login refused, no key found, or a call of the module
  -- failed. A rotation leaves them too.
  pub operations_release :
      (b : Bytes) (c : S.Cid) (ct recipient : Bytes) (v : Pkcs11State M.State)
      → (sessions (generate_and_encrypt S M X p b v).1.world ≡ sessions v.world)
        × (sessions (wrap_for_recipient S M X p c recipient v).1.world ≡ sessions v.world)
        × (sessions (decrypt S M X p c ct v).1.world ≡ sessions v.world)
        × (sessions (delete S M X p c v).1.world ≡ sessions v.world)
        × (sessions (rotate S M X p c ct v).1.world ≡ sessions v.world)
  operations_release b c ct recipient v = (
    generate-Releases b v,
    wrap_for_recipient-Releases c recipient v,
    decrypt-Releases c ct v,
    delete-Releases c v,
    rotate-Releases c ct v,
  )
