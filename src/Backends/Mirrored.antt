-- ===== src/Backends/Mirrored.antt =====
-- `MirroredStore` of backends/mirrored.go: synchronous double writes over two backends. Its state
-- is that of the two backends and the entries that its logger has received.
pub mod Contract
pub mod Outcomes
use ortholog_artifact_store.Base.{
  Text, Bytes, text, text_eq, is_empty, Result, ok, err, Bool, true, false, not, ◌&&◌, List, [],
  ◌∷◌, ◌++◌, if◌then◌else◌,
}
use ortholog_artifact_store.Base.Int.{ℤ}
use ortholog_artifact_store.Storage.{Storage, StoreError, RetrievalCredential, error_text}
use ortholog_artifact_store.Backends.Provider.{BackendProvider}

-- The calls of `m.logger`, by their message, with the CID and the error that they carry.
pub data MirrorLog : Type 0 where
  unknown_mode : Text → MirrorLog
  push_failed : Text → Text → MirrorLog
  primary_fetch_failed : Text → Text → MirrorLog
  pin_failed : Text → Text → MirrorLog
  delete_failed : Text → Text → MirrorLog

-- `NewMirroredStore`: an unknown mode is logged, and the store is synchronous all the same.
unfoldable pub new_mirrored_store : Text → List MirrorLog
new_mirrored_store mode =
    if not (is_empty mode) && not (text_eq mode (text "sync")) then unknown_mode mode ∷ [] else []

module _ (S : Storage) (P M : BackendProvider S) where
  pub record State : Type 0 where
    pub primary : P.State
    pub mirror : M.State
    pub log : List MirrorLog

  -- A result of the mirror that is not passed on: only its error is logged.
  abbrev pub warn {ℓ} :
      {A : Type ℓ} → (Text → MirrorLog) → Result StoreError A → List MirrorLog → List MirrorLog
  warn entry (ok a) log = log
  warn entry (err e) log = log ++ (entry (error_text S e) ∷ [])

  abbrev pub push_mirror :
      S.Cid → Bytes → Result StoreError (Unit {0}) → State → Result StoreError (Unit {0}) × State
  push_mirror cid bytes (err e) s = (err e, s)
  push_mirror cid bytes (ok done) s =
      let (r, m) = M.push cid bytes s.mirror in
      (ok tt, record s { mirror = m; log = warn (push_failed (S.string cid)) r s.log })

  unfoldable pub push : S.Cid → Bytes → State → Result StoreError (Unit {0}) × State
  push cid bytes s =
      let (r, p) = P.push cid bytes s.primary in push_mirror cid bytes r (record s { primary = p })

  abbrev pub fetch_mirror :
      S.Cid → Result StoreError Bytes → State → Result StoreError Bytes × State
  fetch_mirror cid (ok bytes) s = (ok bytes, s)
  fetch_mirror cid (err e) s =
      let (r, m) = M.fetch cid s.mirror in
      (
        r,
        record s {
          mirror = m;
          log = s.log ++ (primary_fetch_failed (S.string cid) (error_text S e) ∷ []);
        },
      )

  unfoldable pub fetch : S.Cid → State → Result StoreError Bytes × State
  fetch cid s = let (r, p) = P.fetch cid s.primary in fetch_mirror cid r (record s { primary = p })

  abbrev pub exists_mirror : S.Cid → Result StoreError Bool → State → Result StoreError Bool × State
  exists_mirror cid (ok true) s = (ok true, s)
  exists_mirror cid _ s = let (r, m) = M.exists cid s.mirror in (r, record s { mirror = m })

  unfoldable pub exists : S.Cid → State → Result StoreError Bool × State
  exists cid s =
      let (r, p) = P.exists cid s.primary in exists_mirror cid r (record s { primary = p })

  unfoldable pub pin : S.Cid → State → Result StoreError (Unit {0}) × State
  pin cid s =
      let (r, p) = P.pin cid s.primary in
      let (r', m) = M.pin cid s.mirror in
      (r, record { primary = p; mirror = m; log = warn (pin_failed (S.string cid)) r' s.log })

  unfoldable pub delete : S.Cid → State → Result StoreError (Unit {0}) × State
  delete cid s =
      let (r, p) = P.delete cid s.primary in
      let (r', m) = M.delete cid s.mirror in
      (r, record { primary = p; mirror = m; log = warn (delete_failed (S.string cid)) r' s.log })

  unfoldable pub resolve : S.Cid → ℤ → State → Result StoreError RetrievalCredential × State
  resolve cid expiry s =
      let (r, p) = P.resolve cid expiry s.primary in (r, record s { primary = p })

  abbrev pub healthy_mirror :
      Result StoreError (Unit {0}) → State → Result StoreError (Unit {0}) × State
  healthy_mirror (err e) s = (err e, s)
  healthy_mirror (ok _) s = let (r, m) = M.healthy s.mirror in (r, record s { mirror = m })

  unfoldable pub healthy : State → Result StoreError (Unit {0}) × State
  healthy s = let (r, p) = P.healthy s.primary in healthy_mirror r (record s { primary = p })

-- `MirroredStore` as a `BackendProvider`.
abbrev pub mirrored_store : (S : Storage) (P M : BackendProvider S) → BackendProvider S
mirrored_store S P M = record {
  State = State S P M;
  push = push S P M;
  fetch = fetch S P M;
  pin = pin S P M;
  exists = exists S P M;
  delete = delete S P M;
  resolve = resolve S P M;
  healthy = healthy S P M;
}
