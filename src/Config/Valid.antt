-- ===== src/Config/Valid.antt =====
-- What a configuration that `Load` has returned satisfies, config/config.go.
use mathlib.Core.Path.{subst}
use ortholog_artifact_store.Base.{
  [], ◌∷◌, Text, text, text_eq_iff, is_empty, ok, >>=-eq-ok, >>=_ok, ok-injective, true, false,
  Bool-cases, ◌≡◌, ◌⊎◌, ◌↔◌, inl, inr, refl, sym, ◌∙◌, ap, arith,
}
use ortholog_artifact_store.Base.Int.{ℤ, pos, ltb_ℤ, ◌<ℤ◌}
use ortholog_artifact_store.Config.{
  Config, check_backend, check_mirror, fix_max_body_size, check_upload_policy, need,
  check_key_service, validate, read_env, load,
}

abbrev pub Backend : Text → Type 0
Backend b = (b ≡ text "gcs") ⊎ ((b ≡ text "rustfs") ⊎ (b ≡ text "memory"))

abbrev pub Mirror : Text → Text → Type 0
Mirror b mode = ((b ≡ []) ⊎ ((b ≡ text "gcs") ⊎ (b ≡ text "rustfs"))) × (mode ≡ text "sync")

abbrev Policy : Text → Type 0
Policy p = (p ≡ text "off") ⊎ ((p ≡ text "optional") ⊎ (p ≡ text "required"))

-- The key service is known, and what it needs is set.
abbrev KeyService : Config → Type 0
KeyService c =
    (c.key_service ≡ text "memory")
    ⊎ (((c.key_service ≡ text "vault") × (is_empty c.vault_token ≡ false))
        ⊎ (((c.key_service ≡ text "gcpkms")
              × (is_empty c.gcpkms_kek_resource ≡ false)
              × (is_empty c.gcp_firestore_project_id ≡ false))
            ⊎ ((c.key_service ≡ text "pkcs11")
                × (is_empty c.pkcs11_token_label ≡ false)
                × (is_empty c.pkcs11_pin ≡ false))))

-- A valid configuration.
abbrev pub Valid : Config → Type 0
Valid c =
    Backend c.backend
    × Mirror c.mirror_backend c.mirror_mode
    × (pos 0 <ℤ c.max_body_size)
    × Policy c.require_upload_token
    × KeyService c

check_backend_iff : (c : Config) → (check_backend c ≡ ok tt) ↔ Backend c.backend
unfolding check_backend
check_backend_iff c = ground (
  arith,
  text_eq_iff c.backend (text "gcs"),
  text_eq_iff c.backend (text "rustfs"),
  text_eq_iff c.backend (text "memory"),
)

empty_iff : (s : Text) → (is_empty s ≡ true) ↔ (s ≡ [])
empty_iff [] = (λ h. refl, λ h. refl)
empty_iff (c ∷ s) = (λ h. cc, λ h. cc)

check_mirror_iff : (c : Config) → (check_mirror c ≡ ok tt) ↔ Mirror c.mirror_backend c.mirror_mode
unfolding check_mirror
check_mirror_iff c = ground (
  arith,
  empty_iff c.mirror_backend,
  text_eq_iff c.mirror_backend (text "gcs"),
  text_eq_iff c.mirror_backend (text "rustfs"),
  text_eq_iff c.mirror_mode (text "sync"),
)

check_upload_policy_iff :
    (c : Config) → (check_upload_policy c ≡ ok tt) ↔ Policy c.require_upload_token
unfolding check_upload_policy
check_upload_policy_iff c = ground (
  arith,
  text_eq_iff c.require_upload_token (text "off"),
  text_eq_iff c.require_upload_token (text "optional"),
  text_eq_iff c.require_upload_token (text "required"),
)

check_key_service_iff : (c : Config) → (check_key_service c ≡ ok tt) ↔ KeyService c
unfolding check_key_service need
check_key_service_iff c = ground (
  arith,
  text_eq_iff c.key_service (text "memory"),
  text_eq_iff c.key_service (text "vault"),
  text_eq_iff c.key_service (text "gcpkms"),
  text_eq_iff c.key_service (text "pkcs11"),
)

positive_iff : (z : ℤ) → (ltb_ℤ (pos 0) z ≡ true) ↔ (pos 0 <ℤ z)
positive_iff z = ground arith

-- The repair leaves a positive size alone, and leaves a positive size.
fix-positive : (c : Config) → pos 0 <ℤ (fix_max_body_size c).max_body_size
unfolding fix_max_body_size
fix-positive c = elim (Bool-cases (ltb_ℤ (pos 0) c.max_body_size)) [
  | inl fits ↦ rw (fits, fix_max_body_size) ((positive_iff c.max_body_size).0 fits)
  | inr bad ↦ rw (bad, fix_max_body_size) (omega arith)
]

fix_positive : (c : Config) → pos 0 <ℤ c.max_body_size → fix_max_body_size c ≡ c
unfolding fix_max_body_size
fix_positive c positive = rw ((positive_iff c.max_body_size).1 positive, fix_max_body_size) refl

-- The repair changes nothing else.
fix_cases :
    (c : Config)
    → (fix_max_body_size c ≡ c) ⊎ (fix_max_body_size c ≡ record c { max_body_size = pos 67108864 })
unfolding fix_max_body_size
fix_cases c = elim (Bool-cases (ltb_ℤ (pos 0) c.max_body_size)) [
  | inl fits ↦ inl (rw (fits, fix_max_body_size) refl)
  | inr bad ↦ inr (rw (bad, fix_max_body_size) refl)
]

-- The checks before the repair hold after it.
abbrev Replicas : Config → Type 0
Replicas c = Backend c.backend × Mirror c.mirror_backend c.mirror_mode

fix-Replicas : (c : Config) → Replicas c → Replicas (fix_max_body_size c)
fix-Replicas c r = elim (fix_cases c) [
  | inl same ↦ subst Replicas (sym same) r
  | inr repaired ↦ subst Replicas (sym repaired) r
]

-- The configuration that a successful validation leaves is valid.
pub validate-Valid : (c c' : Config) → validate c ≡ ok c' → Valid c'
unfolding validate
validate-Valid c c' h =
    let (_, h₁, g₁) = >>=-eq-ok (check_backend c) _ h in
    let (_, h₂, g₂) = >>=-eq-ok (check_mirror c) _ g₁ in
    let (_, h₃, g₃) = >>=-eq-ok (check_upload_policy (fix_max_body_size c)) _ g₂ in
    let (_, h₄, g₄) = >>=-eq-ok (check_key_service (fix_max_body_size c)) _ g₃ in
    let (b, m) = fix-Replicas c ((check_backend_iff c).0 h₁, (check_mirror_iff c).0 h₂) in
    subst Valid (ok-injective g₄) (
      b,
      m,
      fix-positive c,
      (check_upload_policy_iff (fix_max_body_size c)).0 h₃,
      (check_key_service_iff (fix_max_body_size c)).0 h₄,
    )

-- Validation accepts a valid configuration and leaves it as it is.
pub validate_complete : (c : Config) → Valid c → validate c ≡ ok c
unfolding validate
validate_complete c (b, m, positive, p, k) =
    let same = fix_positive c positive in
    >>=_ok (check_backend c) _ ((check_backend_iff c).1 b) (
      >>=_ok (check_mirror c) _ ((check_mirror_iff c).1 m) (
        >>=_ok (check_upload_policy (fix_max_body_size c)) _
          (ap check_upload_policy same ∙ (check_upload_policy_iff c).1 p)
          (>>=_ok (check_key_service (fix_max_body_size c)) _
            (ap check_key_service same ∙ (check_key_service_iff c).1 k) (ap ok same))))

-- What `Load` returns is a fixed point of validation: from any environment, a configuration that
-- is loaded is valid.
pub load-Valid :
    (getenv : Text → Text) (c : Config) → load getenv ≡ ok c → Valid c × (validate c ≡ ok c)
unfolding load
load-Valid getenv c h =
    let valid = validate-Valid (read_env getenv) c h in (valid, validate_complete c valid)
