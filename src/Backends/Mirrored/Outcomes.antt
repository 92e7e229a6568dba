-- ===== src/Backends/Mirrored/Outcomes.antt =====
-- What a client of `MirroredStore` is told, from what the two backends answer.
use ortholog_artifact_store.Base.{
  Bytes, Result, ok, err, true, ◌≡◌, refl, ◌⊎◌, ◌↔◌, inl, inr, arith, length, Result-cases, ap, [],
  ◌∷◌, List, ◌++◌, length-append,
}
use ortholog_artifact_store.Storage.{Storage, StoreError}
use ortholog_artifact_store.Backends.Provider.{BackendProvider, IsContentStore}
use ortholog_artifact_store.Backends.Mirrored.{
  State, push_mirror, push, fetch, exists, delete, healthy,
}

module _ (S : Storage) (P M : BackendProvider S) (c : S.Cid) (s : State S P M) where
  -- A push that the primary refuses is refused with its error and never reaches the mirror; a push
  -- that the primary takes succeeds, and the mirror has been called, whatever it answered.
  pub push_cases :
      (d : Bytes)
      → ((e : StoreError) × ((P.push c d s.primary).0 ≡ err e)
          × ((push S P M c d s).0 ≡ err e)
          × ((push S P M c d s).1.mirror ≡ s.mirror))
        ⊎ (((P.push c d s.primary).0 ≡ ok tt)
            × ((push S P M c d s).0 ≡ ok tt)
            × ((push S P M c d s).1.mirror ≡ (M.push c d s.mirror).1))
  unfolding push
  push_cases d = elim (Result-cases (P.push c d s.primary).0) [
    | inl (done, taken) ↦ inr (taken, ground arith, ground arith)
    | inr (e, refused) ↦ inl (e, refused, ground arith, ground arith)
  ]

  -- A fetch fails only if both backends fail; then the error is the mirror's.
  pub fetch_fails :
      (e : StoreError)
      → (fetch S P M c s).0 ≡ err e
      → ((e' : StoreError) × ((P.fetch c s.primary).0 ≡ err e')) × ((M.fetch c s.mirror).0 ≡ err e)
  unfolding fetch
  fetch_fails e h = ground arith

  -- An artifact exists exactly when one of the backends says that it does.
  pub exists_iff :
      ((exists S P M c s).0 ≡ ok true)
      ↔ (((P.exists c s.primary).0 ≡ ok true) ⊎ ((M.exists c s.mirror).0 ≡ ok true))
  unfolding exists
  exists_iff = ground arith

  -- The store is healthy exactly when the primary is, and the mirror too.
  pub healthy_iff :
      ((healthy S P M s).0 ≡ ok tt)
      ↔ (((P.healthy s.primary).0 ≡ ok tt) × ((M.healthy s.mirror).0 ≡ ok tt))
  unfolding healthy
  healthy_iff = ground arith

  refused_fetch :
      (d : Bytes) (e e' : StoreError)
      → (P.delete c s.primary).0 ≡ ok tt
      → (M.delete c s.mirror).0 ≡ err e
      → (P.fetch c (P.delete c s.primary).1).0 ≡ err e'
      → (M.fetch c (M.delete c s.mirror).1).0 ≡ ok d
      → ((delete S P M c s).0 ≡ ok tt) × ((fetch S P M c (delete S P M c s).1).0 ≡ ok d)
  unfolding fetch delete
  refused_fetch d e e' deleted refused gone left = ground arith

append-ne {ℓ} : {A : Type ℓ} (xs : List A) (x : A) → xs ++ (x ∷ []) ≡ xs → ⊥
append-ne xs x e = absurd (omega (arith, length-append xs (x ∷ []), ap length e))

module _ (S : Storage) (P M : BackendProvider S) (HP : P.State → S.Cid → Bytes → Type 0)
    (HM : M.State → S.Cid → Bytes → Type 0) (p : IsContentStore P HP)
    (m : IsContentStore M HM) where
  push_mirror_replicates :
      (c : S.Cid) (d : Bytes) (r : Result StoreError (Unit {0})) (s : State S P M)
      → (r ≡ ok tt → HP s.primary c d)
      → (push_mirror S P M c d r s).0 ≡ ok tt
      → (push_mirror S P M c d r s).1.log ≡ s.log
      → HP (push_mirror S P M c d r s).1.primary c d × HM (push_mirror S P M c d r s).1.mirror c d
  push_mirror_replicates c d (err e) s f h quiet = cc
  push_mirror_replicates c d (ok tt) s f h quiet = (
    f refl,
    elim (Result-cases (M.push c d s.mirror).0) [
      | inl (done, e) ↦ m.push_stores c d s.mirror e
      | inr (x, e) ↦ absurd (append-ne s.log _ (rw e at quiet))
    ],
  )

  -- A push that succeeds and adds no log entry has stored the bytes in both backends.
  pub push_replicates :
      (c : S.Cid) (d : Bytes) (s : State S P M)
      → (push S P M c d s).0 ≡ ok tt
      → (push S P M c d s).1.log ≡ s.log
      → HP (push S P M c d s).1.primary c d × HM (push S P M c d s).1.mirror c d
  unfolding push
  push_replicates c d s h quiet =
      push_mirror_replicates c d (P.push c d s.primary).0
        (record s { primary = (P.push c d s.primary).1 }) (p.push_stores c d s.primary) h quiet

  -- A delete that the primary carries out and the mirror refuses is reported as a success, and if
  -- the refusal leaves the mirror's bytes there, and the mirror returns what it holds, the next
  -- fetch returns the bytes that the mirror held.
  pub fetch-delete_mirror_failed :
      (c : S.Cid) (d : Bytes) (e : StoreError) (s : State S P M)
      → ((x : Bytes) → HP (P.delete c s.primary).1 c x → ⊥)
      → (HM s.mirror c d → HM (M.delete c s.mirror).1 c d)
      → ((t : M.State) → HM t c d → (M.fetch c t).0 ≡ ok d)
      → HM s.mirror c d
      → (P.delete c s.primary).0 ≡ ok tt
      → (M.delete c s.mirror).0 ≡ err e
      → ((delete S P M c s).0 ≡ ok tt) × ((fetch S P M c (delete S P M c s).1).0 ≡ ok d)
  fetch-delete_mirror_failed c d e s erased kept serves held deleted refused =
      elim (Result-cases (P.fetch c (P.delete c s.primary).1).0) [
        | inl (x, found) ↦ absurd (erased x (p.fetch_returns c x _ found))
        | inr (e', gone) ↦
            refused_fetch S P M c s d e e' deleted refused gone (serves _ (kept held))
      ]
