-- ===== src/Backends/Mirrored/Contract.antt =====
-- A mirrored store of two content stores is a content store: it holds what either of them holds.
use ortholog_artifact_store.Base.{
  Bytes, Result, ok, err, Bool, true, false, ◌≡◌, refl, ◌⊎◌, inl, inr, map_either,
}
use ortholog_artifact_store.Storage.{Storage, StoreError}
use ortholog_artifact_store.Backends.Provider.{BackendProvider, IsContentStore}
use ortholog_artifact_store.Backends.Mirrored.{
  State, push_mirror, push, fetch_mirror, fetch, exists_mirror, exists, pin, delete, resolve,
  healthy_mirror, healthy, mirrored_store,
}

-- What either replica has.
abbrev pub Either :
    (S : Storage) (P M : BackendProvider S)
    → (P.State → S.Cid → Bytes → Type 0)
    → (M.State → S.Cid → Bytes → Type 0)
    → State S P M
    → S.Cid
    → Bytes
    → Type 0
Either S P M HP HM s c d = HP s.primary c d ⊎ HM s.mirror c d

module _ (S : Storage) (P M : BackendProvider S) (HP : P.State → S.Cid → Bytes → Type 0)
    (HM : M.State → S.Cid → Bytes → Type 0) (p : IsContentStore P HP)
    (m : IsContentStore M HM) where
  abbrev Holds : State S P M → S.Cid → Bytes → Type 0
  Holds = Either S P M HP HM

  abbrev Grows : State S P M → State S P M → S.Cid → Bytes → Type 0
  Grows s t c d = Holds t c d → Holds s c d

  abbrev Adds : S.Cid → Bytes → State S P M → S.Cid → Bytes → Type 0
  Adds c d s c' d' = Holds s c' d' ⊎ ((c' ≡ c) × (d' ≡ d))

  push_mirror-Adds :
      (c : S.Cid) (d : Bytes) (r : Result StoreError (Unit {0})) (s : State S P M)
      → (c' : S.Cid) (d' : Bytes) → Holds (push_mirror S P M c d r s).1 c' d'
      → Adds c d s c' d'
  push_mirror-Adds c d (err e) s c' d' h = inl h
  push_mirror-Adds c d (ok _) s c' d' (inl h) = inl (inl h)
  push_mirror-Adds c d (ok _) s c' d' (inr h) = elim (m.push_adds c d s.mirror c' d' h) [
    | inl old ↦ inl (inr old)
    | inr new ↦ inr new
  ]

  push-Adds :
      (c : S.Cid) (d : Bytes) (s : State S P M) (c' : S.Cid) (d' : Bytes)
      → Holds (push S P M c d s).1 c' d'
      → Adds c d s c' d'
  unfolding push
  push-Adds c d s c' d' h =
      elim (push_mirror-Adds c d (P.push c d s.primary).0
        (record s { primary = (P.push c d s.primary).1 }) c' d' h) [
          | inl (inl old) ↦ elim (p.push_adds c d s.primary c' d' old) [
            | inl older ↦ inl (inl older)
            | inr new ↦ inr new
          ]
          | inl (inr old) ↦ inl (inr old)
          | inr new ↦ inr new
        ]

  push_mirror_stores :
      (c : S.Cid) (d : Bytes) (r : Result StoreError (Unit {0})) (s : State S P M)
      → (r ≡ ok tt → HP s.primary c d)
      → (push_mirror S P M c d r s).0 ≡ ok tt
      → Holds (push_mirror S P M c d r s).1 c d
  push_mirror_stores c d (err e) s f h = cc
  push_mirror_stores c d (ok tt) s f h = inl (f refl)

  fetch_mirror_adds :
      (c : S.Cid) (r : Result StoreError Bytes) (s : State S P M) (c' : S.Cid) (d' : Bytes)
      → Grows s (fetch_mirror S P M c r s).1 c' d'
  fetch_mirror_adds c (ok b) s c' d' h = h
  fetch_mirror_adds c (err e) s c' d' h = map_either (λ x. x) (m.fetch_adds c s.mirror c' d') h

  fetch_mirror_returns :
      (c : S.Cid) (d : Bytes) (r : Result StoreError Bytes) (s t : State S P M)
      → t.mirror ≡ s.mirror
      → (r ≡ ok d → HP s.primary c d)
      → (fetch_mirror S P M c r t).0 ≡ ok d
      → Holds s c d
  fetch_mirror_returns c d (ok b) s t e f h = inl (f h)
  fetch_mirror_returns c d (err x) s t e f h = inr (m.fetch_returns c d s.mirror (rw (← e) h))

  exists_mirror_adds :
      (c : S.Cid) (r : Result StoreError Bool) (s : State S P M) (c' : S.Cid) (d' : Bytes)
      → Grows s (exists_mirror S P M c r s).1 c' d'
  exists_mirror_adds c (ok true) s c' d' h = h
  exists_mirror_adds c (ok false) s c' d' h = map_either (λ x. x) (m.exists_adds c s.mirror c' d') h
  exists_mirror_adds c (err e) s c' d' h = map_either (λ x. x) (m.exists_adds c s.mirror c' d') h

  exists_mirror-true :
      (c : S.Cid) (r : Result StoreError Bool) (s t : State S P M)
      → t.mirror ≡ s.mirror
      → (r ≡ ok true → (d : Bytes) × HP s.primary c d)
      → (exists_mirror S P M c r t).0 ≡ ok true
      → (d : Bytes) × Holds s c d
  exists_mirror-true c (ok true) s t e f h = let (d, x) = f refl in (d, inl x)
  exists_mirror-true c (ok false) s t e f h =
      let (d, x) = m.exists_true c s.mirror (rw (← e) h) in (d, inr x)
  exists_mirror-true c (err z) s t e f h =
      let (d, x) = m.exists_true c s.mirror (rw (← e) h) in (d, inr x)

  healthy_mirror_adds :
      (r : Result StoreError (Unit {0})) (s : State S P M) (c' : S.Cid) (d' : Bytes)
      → Grows s (healthy_mirror S P M r s).1 c' d'
  healthy_mirror_adds (ok _) s c' d' h = map_either (λ x. x) (m.healthy_adds s.mirror c' d') h
  healthy_mirror_adds (err e) s c' d' h = h

  -- The decorator keeps the contract of the stores that it decorates, whichever calls fail.
  pub mirrored-IsContentStore : IsContentStore (mirrored_store S P M) (Either S P M HP HM)
  unfolding push fetch exists pin delete resolve healthy
  mirrored-IsContentStore = record {
    push_adds = push-Adds;
    push_stores = λ c d s h. push_mirror_stores c d _ _ (p.push_stores c d s.primary) h;
    fetch_adds = λ c s c' d' h.
        map_either (p.fetch_adds c s.primary c' d') (λ x. x) (fetch_mirror_adds c _ _ c' d' h);
    fetch_returns =
        λ c d s h. fetch_mirror_returns c d _ s _ refl (p.fetch_returns c d s.primary) h;
    pin_adds =
        λ c s c' d' h. map_either (p.pin_adds c s.primary c' d') (m.pin_adds c s.mirror c' d') h;
    exists_adds = λ c s c' d' h.
        map_either (p.exists_adds c s.primary c' d') (λ x. x) (exists_mirror_adds c _ _ c' d' h);
    exists_true = λ c s h. exists_mirror-true c _ s _ refl (p.exists_true c s.primary) h;
    delete_adds = λ c s c' d' h.
        map_either (p.delete_adds c s.primary c' d') (m.delete_adds c s.mirror c' d') h;
    resolve_adds = λ c e s c' d' h. map_either (p.resolve_adds c e s.primary c' d') (λ x. x) h;
    healthy_adds = λ s c' d' h.
        map_either (p.healthy_adds s.primary c' d') (λ x. x) (healthy_mirror_adds _ _ c' d' h);
  }
