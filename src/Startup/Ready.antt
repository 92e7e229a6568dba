-- ===== src/Startup/Ready.antt =====
-- A valid configuration has a backend: cmd/artifact-store/main.go after config/config.go.
use mathlib.Core.Path.{subst}
use ortholog_artifact_store.Base.{
  Text, Bytes, text, ok-injective, text_eq, ok, Bool, [], ◌≡◌, ◌⊎◌, inl, inr, refl, if◌then◌else◌,
}
use ortholog_artifact_store.Storage.{Storage}
use ortholog_artifact_store.Backends.Provider.{BackendProvider}
use ortholog_artifact_store.Backends.Mirrored.{mirrored_store}
use ortholog_artifact_store.Base.Int.{ℤ}
use ortholog_artifact_store.Transport.{Client}
use ortholog_artifact_store.Backends.Gcs
use ortholog_artifact_store.Backends.Gcs.{gcs_backend}
use ortholog_artifact_store.Backends.RustFs
use ortholog_artifact_store.Backends.RustFs.{rustfs_backend}
use ortholog_artifact_store.Backends.Sending.Outage.{Fails}
use ortholog_artifact_store.Config.{Config}
use ortholog_artifact_store.Config.Valid.{Valid}
use ortholog_artifact_store.Startup.{gcs_config, rustfs_config, create_backend}

module _ (S : Storage) (memory : BackendProvider S) (C : Client Bytes) (now : C.State → ℤ) where
  -- The store that a name stands for, at a bucket and an endpoint.
  abbrev pub Selected : Config → Text → Text → Text → BackendProvider S → Type 1
  Selected cfg name bucket endpoint b =
      ((name ≡ text "gcs")
        × (b ≡ gcs_backend S C now (gcs_config S memory C now bucket cfg.prefix)))
      ⊎ (((name ≡ text "rustfs")
            × (b
                ≡ rustfs_backend S C now (
                    rustfs_config S memory C now endpoint bucket cfg.region cfg.prefix
                      cfg.path_style)))
          ⊎ ((name ≡ text "memory") × (b ≡ memory)))

  -- The primary store alone, or the two replicas, each at its own bucket and endpoint.
  abbrev pub Wanted : Config → BackendProvider S → Type 1
  Wanted cfg b =
      ((cfg.mirror_backend ≡ []) × Selected cfg cfg.backend cfg.bucket cfg.endpoint b)
      ⊎ ((p : BackendProvider S) × (m : BackendProvider S) × Selected cfg cfg.backend cfg.bucket
            cfg.endpoint p
          × Selected cfg cfg.mirror_backend cfg.mirror_bucket cfg.mirror_endpoint m
          × (b ≡ mirrored_store S p m))

  abbrev Made : Config → Bool → Text → Type 1
  Made cfg is_mirror name =
      (b : BackendProvider S) × (create_backend S memory C now name cfg is_mirror ≡ ok b)
      × Selected cfg name (if is_mirror then cfg.mirror_bucket else cfg.bucket)
          (if is_mirror then cfg.mirror_endpoint else cfg.endpoint) b

  -- A store that is made for a bucket, of either kind, fails every resolve: it has no signer.
  pub resolve-no_signer :
      (name : Text) (cfg : Config) (is_mirror : Bool) (b : BackendProvider S)
      → (name ≡ text "gcs") ⊎ (name ≡ text "rustfs")
      → create_backend S memory C now name cfg is_mirror ≡ ok b
      → (c : S.Cid) (e : ℤ) (s : b.State) → Fails (b.resolve c e s).0
  unfolding create_backend text_eq Gcs.resolve RustFs.resolve
  resolve-no_signer name cfg is_mirror b (inl gcs) made =
      subst (λ x. (c : S.Cid) (e : ℤ) (s : x.State) → Fails (x.resolve c e s).0)
        (ok-injective (rw (gcs, create_backend) at made)) (λ c e s. (_, refl))
  resolve-no_signer name cfg is_mirror b (inr rustfs) made =
      subst (λ x. (c : S.Cid) (e : ℤ) (s : x.State) → Fails (x.resolve c e s).0)
        (ok-injective (rw (rustfs, create_backend) at made)) (λ c e s. (_, refl))
