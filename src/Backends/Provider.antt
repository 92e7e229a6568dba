-- ===== src/Backends/Provider.antt =====
-- `BackendProvider` of backends/backend.go: the operations of an object store, over a state that
-- each call may change (the remote store, the network, the log of a decorator).
use ortholog_artifact_store.Base.{Bytes, Result, ok, Bool, true, ◌≡◌, ◌⊎◌}
use ortholog_artifact_store.Base.Int.{ℤ}
use ortholog_artifact_store.Storage.{Storage, StoreError, RetrievalCredential}

pub record BackendProvider (S : Storage) : Type 1 where
  pub State : Type 0
  pub push : S.Cid → Bytes → State → Result StoreError (Unit {0}) × State
  pub fetch : S.Cid → State → Result StoreError Bytes × State
  pub pin : S.Cid → State → Result StoreError (Unit {0}) × State
  pub exists : S.Cid → State → Result StoreError Bool × State
  pub delete : S.Cid → State → Result StoreError (Unit {0}) × State
  -- the duration is in nanoseconds
  pub resolve : S.Cid → ℤ → State → Result StoreError RetrievalCredential × State
  pub healthy : State → Result StoreError (Unit {0}) × State

-- What the documentation of `BackendProvider` promises about contents: `Holds s c d` says that
-- some replica of the store has the bytes `d` under `c`. A call adds nothing but what is pushed,
-- a push that succeeds has stored its bytes, and a fetch that succeeds returns stored bytes.
-- A push that fails may or may not have stored them.
pub record IsContentStore {S : Storage} (B : BackendProvider S)
    (Holds : B.State → S.Cid → Bytes → Type 0) : Type 0 where
  pub push_adds :
      (c : S.Cid) (d : Bytes) (s : B.State) (c' : S.Cid) (d' : Bytes)
      → Holds (B.push c d s).1 c' d'
      → Holds s c' d' ⊎ ((c' ≡ c) × (d' ≡ d))
  pub push_stores :
      (c : S.Cid) (d : Bytes) (s : B.State) → (B.push c d s).0 ≡ ok tt → Holds (B.push c d s).1 c d
  pub fetch_adds :
      (c : S.Cid) (s : B.State) (c' : S.Cid) (d' : Bytes)
      → Holds (B.fetch c s).1 c' d'
      → Holds s c' d'
  pub fetch_returns : (c : S.Cid) (d : Bytes) (s : B.State) → (B.fetch c s).0 ≡ ok d → Holds s c d
  pub pin_adds :
      (c : S.Cid) (s : B.State) (c' : S.Cid) (d' : Bytes)
      → Holds (B.pin c s).1 c' d'
      → Holds s c' d'
  pub exists_adds :
      (c : S.Cid) (s : B.State) (c' : S.Cid) (d' : Bytes)
      → Holds (B.exists c s).1 c' d'
      → Holds s c' d'
  pub exists_true :
      (c : S.Cid) (s : B.State) → (B.exists c s).0 ≡ ok true → (d : Bytes) × Holds s c d
  pub delete_adds :
      (c : S.Cid) (s : B.State) (c' : S.Cid) (d' : Bytes)
      → Holds (B.delete c s).1 c' d'
      → Holds s c' d'
  pub resolve_adds :
      (c : S.Cid) (e : ℤ) (s : B.State) (c' : S.Cid) (d' : Bytes)
      → Holds (B.resolve c e s).1 c' d'
      → Holds s c' d'
  pub healthy_adds :
      (s : B.State) (c' : S.Cid) (d' : Bytes) → Holds (B.healthy s).1 c' d' → Holds s c' d'
