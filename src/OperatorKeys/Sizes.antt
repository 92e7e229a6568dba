-- ===== src/OperatorKeys/Sizes.antt =====
-- The keys that cmd/artifact-store/token.go loads have the size that the verifier wants.
use mathlib.Core.Path.{subst}
use ortholog_artifact_store.Base.{
  ℕ, suc, ◌-◌, ◌*◌, Text, Bytes, text, text_eq, text_eq_iff, is_empty, trim_space, take, drop,
  length, length-drop, has_prefix, Result, Result-cases, Option-cases, ok, map_err, map_err-eq-ok,
  >>=-eq-ok, >>=_ok, ok-injective, Bool-cases, Option, none, some, List, [], ◌∷◌, All, ◌≡◌, inl,
  inr, refl, ap, ◌∙◌, arith, ◌==◌, index_byte, not, ◌||◌,
}
use ortholog_artifact_store.Base.Dict.{Dict, lookup, insert}
use ortholog_artifact_store.Config.{Config}
use ortholog_artifact_store.Api.Token.{copy_keys, new_ed25519_upload_token_verifier}
use ortholog_artifact_store.OperatorKeys.{
  KeyCodec, build_error, keys_error, is_pem, entry_error, read_error, parse_error, listing_error,
  kid_of_file, pem_key, base64_key, hex_or_base64, decode_trimmed, decode_pub_key, register,
  parse_entry, parse_entries, parse_inline_pub_keys, split_inline_entries, Entry, load_file,
  load_files, load_pub_keys_dir, load_keys, verifier_keys, check_sources, build_configured,
  build_upload_token_verifier,
}

-- `hex.DecodeString` makes a byte of every two characters.
abbrev pub IsHex : KeyCodec → Type 0
IsHex K = (raw : Text) (b : Bytes) → K.hex_decode raw ≡ ok b → length raw ≡ 2 * length b

-- Every key has the size of an Ed25519 public key.
abbrev pub Sized : Dict Bytes → Type 0
Sized = All (λ (entry : Text × Bytes). length entry.1 ≡ 32)

pem_key-size : (o : Option Bytes) (key : Bytes) → pem_key o ≡ ok key → length key ≡ 32
unfolding pem_key
pem_key-size none key h = ground arith
pem_key-size (some b) key h = ground (arith, length-drop (length b - 32) b)

base64_key-size : (r : Result Text Bytes) (key : Bytes) → base64_key r ≡ ok key → length key ≡ 32
unfolding base64_key
base64_key-size r key h = ground arith

insert-Sized :
    (kid : Text) (key : Bytes) (out : Dict Bytes)
    → length key ≡ 32
    → Sized out
    → Sized (insert kid key out)
unfolding insert
insert-Sized kid key [] h s = (h, tt)
insert-Sized kid key ((j, v) ∷ out) h (hv, s) = elim (Bool-cases (text_eq j kid)) [
  | inl same ↦ rw (same, insert) (h, s)
  | inr differs ↦ rw (differs, insert) (hv, insert-Sized kid key out h s)
]

register-Sized :
    (duplicate kid : Text) (key : Bytes) (out keys : Dict Bytes)
    → length key ≡ 32
    → Sized out
    → register duplicate kid key out ≡ ok keys
    → Sized keys
unfolding register
register-Sized duplicate kid key out keys h s e = elim (Option-cases (lookup kid out)) [
  | inl fresh ↦
      subst Sized (ok-injective (rw (fresh, register) at e)) (insert-Sized kid key out h s)
  | inr (v, taken) ↦ absurd (ground (arith, (rw (taken, register) at e)))
]

module _ (K : KeyCodec) (law : IsHex K) where
  hex_or_base64-size : (raw : Text) (key : Bytes) → hex_or_base64 K raw ≡ ok key → length key ≡ 32
  unfolding hex_or_base64
  hex_or_base64-size raw key h = elim (Bool-cases (length raw == 64)) [
    | inr other ↦ base64_key-size (K.base64_decode raw) key (rw (other, hex_or_base64) at h)
    | inl sixty_four ↦ elim (Result-cases (K.hex_decode raw)) [
      | inl (b, is_hex) ↦ ground (
        arith,
        law raw b is_hex,
        ap length (ok-injective (rw (sixty_four, is_hex, hex_or_base64) at h)),
      )
      | inr (e, no_hex) ↦
          base64_key-size (K.base64_decode raw) key (rw (sixty_four, no_hex, hex_or_base64) at h)
    ]
  ]

  decode_trimmed-size : (raw : Text) (key : Bytes) → decode_trimmed K raw ≡ ok key → length key ≡ 32
  unfolding decode_trimmed
  decode_trimmed-size raw key h = elim (Bool-cases (is_empty raw)) [
    | inl blank ↦ absurd (ground (arith, (rw (blank, decode_trimmed) at h)))
    | inr given ↦ elim (Bool-cases (has_prefix raw (text "-----BEGIN"))) [
      | inl pem ↦ pem_key-size (K.pem_decode raw) key (rw (given, pem, decode_trimmed) at h)
      | inr plain ↦ hex_or_base64-size raw key (rw (given, plain, decode_trimmed) at h)
    ]
  ]

  -- A key that is decoded has 32 bytes.
  pub decode_pub_key-size :
      (raw : Text) (key : Bytes) → decode_pub_key K raw ≡ ok key → length key ≡ 32
  unfolding decode_pub_key
  decode_pub_key-size raw key h = decode_trimmed-size (trim_space raw) key h

  parse_entry-Sized :
      (i : ℕ) (entry : Text) (out keys : Dict Bytes)
      → Sized out
      → parse_entry K i entry out ≡ ok keys
      → Sized keys
  unfolding parse_entry
  parse_entry-Sized i entry out keys s h = elim (Option-cases (index_byte entry b':')) [
    | inl absent ↦ absurd (ground (arith, (rw (absent, parse_entry) at h)))
    | inr (colon, found) ↦ elim (Bool-cases (is_empty (trim_space (drop (suc colon) entry)))) [
      | inl blank ↦ absurd (ground (arith, (rw (found, blank, parse_entry) at h)))
      | inr given ↦
          let (key, decoded, registered) =
            >>=-eq-ok
              (map_err (entry_error i (trim_space (take colon entry)))
                (decode_pub_key K (trim_space (drop (suc colon) entry))))
              _ (rw (found, given, parse_entry) at h) in
          register-Sized _ _ key out keys
            (decode_pub_key-size (trim_space (drop (suc colon) entry)) key
              (map_err-eq-ok _ _ decoded))
            s registered
    ]
  ]

  parse_entries-Sized :
      (i : ℕ) (entries : List Text) (out keys : Dict Bytes)
      → Sized out
      → parse_entries K i entries out ≡ ok keys
      → Sized keys
  unfolding parse_entries
  parse_entries-Sized i [] out keys s h = subst Sized (ok-injective h) s
  parse_entries-Sized i (entry ∷ entries) out keys s h =
      let (out', one, rest) = >>=-eq-ok (parse_entry K i entry out) _ h in
      parse_entries-Sized (suc i) entries out' keys (parse_entry-Sized i entry out out' s one) rest

  module _ (join : Text → Text → Text) where
    load_file-Sized :
        (dir : Text) (e : Entry) (out keys : Dict Bytes)
        → Sized out
        → load_file K join dir e out ≡ ok keys
        → Sized keys
    unfolding load_file
    load_file-Sized dir e out keys s h =
        let (raw, read, h₁) = >>=-eq-ok (map_err (read_error (join dir e.name)) e.contents) _ h in
        let (key, decoded, registered) =
          >>=-eq-ok
            (map_err (parse_error (join dir e.name) (kid_of_file e.name))
              (decode_pub_key K (trim_space raw)))
            _ h₁ in
        register-Sized _ _ key out keys
          (decode_pub_key-size (trim_space raw) key (map_err-eq-ok _ _ decoded)) s registered

    load_files-Sized :
        (dir : Text) (entries : List Entry) (out keys : Dict Bytes)
        → Sized out
        → load_files K join dir entries out ≡ ok keys
        → Sized keys
    unfolding load_files
    load_files-Sized dir [] out keys s h = subst Sized (ok-injective h) s
    load_files-Sized dir (e ∷ entries) out keys s h =
        elim (Bool-cases (e.is_dir || not (is_pem e.name))) [
          | inl skipped ↦ load_files-Sized dir entries out keys s (rw (skipped, load_files) at h)
          | inr taken ↦
              let (out', one, rest) =
                >>=-eq-ok (load_file K join dir e out) _ (rw (taken, load_files) at h) in
              load_files-Sized dir entries out' keys (load_file-Sized dir e out out' s one) rest
        ]

    -- Whichever setting gives the keys, those that are loaded have 32 bytes each.
    pub load_keys-Sized :
        (cfg : Config) (read_dir : Text → Result Text (List Entry)) (keys : Dict Bytes)
        → load_keys K join cfg read_dir ≡ ok keys
        → Sized keys
    unfolding load_keys load_pub_keys_dir parse_inline_pub_keys
    load_keys-Sized cfg read_dir keys h = elim (Bool-cases (is_empty cfg.operator_pub_keys)) [
      | inl absent ↦
          let (entries, listed, loaded) =
            >>=-eq-ok
              (map_err (listing_error cfg.operator_pub_keys_dir)
                (read_dir cfg.operator_pub_keys_dir))
              _ (rw (absent, load_keys) at h) in
          load_files-Sized cfg.operator_pub_keys_dir entries [] keys tt loaded
      | inr given ↦
          parse_entries-Sized 0 (split_inline_entries cfg.operator_pub_keys) [] keys tt
            (rw (given, load_keys) at h)
    ]

copy_keys-Sized :
    (keys out : Dict Bytes) → Sized keys → (all : Dict Bytes) × (copy_keys keys out ≡ ok all)
unfolding copy_keys
copy_keys-Sized [] out s = (out, refl)
copy_keys-Sized ((kid, key) ∷ keys) out (h, s) =
    let (all, e) = copy_keys-Sized keys (insert kid key out) s in (all, ground arith)

-- An absent verifier is only what the policy "off" gives.
verifier_keys-some : (keys : Dict Bytes) → verifier_keys keys ≡ ok none → ⊥
unfolding verifier_keys
verifier_keys-some [] h = ground arith
verifier_keys-some (k ∷ keys) h =
    let (out, built, given) =
      >>=-eq-ok (map_err build_error (new_ed25519_upload_token_verifier (k ∷ keys))) _ h in
    ground arith

module _ (K : KeyCodec) (join : Text → Text → Text) (cfg : Config)
    (read_dir : Text → Result Text (List Entry)) where
  build_configured-some : build_configured K join cfg read_dir ≡ ok none → ⊥
  unfolding build_configured
  build_configured-some h =
      let (_, given, h₁) = >>=-eq-ok (check_sources cfg) _ h in
      let (keys, loaded, h₂) =
        >>=-eq-ok (map_err keys_error (load_keys K join cfg read_dir)) _ h₁ in
      verifier_keys-some keys h₂

  -- A verifier is left out only under the policy "off": with any other policy, the start either
  -- fails or has a verifier.
  pub build-off :
      build_upload_token_verifier K join cfg read_dir ≡ ok none
      → cfg.require_upload_token ≡ text "off"
  unfolding build_upload_token_verifier
  build-off h = elim (Bool-cases (text_eq cfg.require_upload_token (text "off"))) [
    | inl off ↦ (text_eq_iff cfg.require_upload_token (text "off")).0 off
    | inr on ↦
        elim (Bool-cases (
          text_eq cfg.require_upload_token (text "optional")
          || text_eq cfg.require_upload_token (text "required"))) [
            | inl wanted ↦
                absurd (build_configured-some (rw (on, wanted, build_upload_token_verifier) at h))
            | inr other ↦
                absurd (ground (arith, (rw (on, other, build_upload_token_verifier) at h)))
          ]
  ]

  required_builds :
      cfg.require_upload_token ≡ text "required"
      → build_upload_token_verifier K join cfg read_dir ≡ build_configured K join cfg read_dir
  unfolding build_upload_token_verifier text_eq
  required_builds required = rw (required, build_upload_token_verifier) refl

  -- Under the policy "required", from exactly one of the two settings and at least one key, a
  -- verifier is built: the keys that were loaded have the size that it wants.
  pub build_required :
      (law : IsHex K) (entry : Text × Bytes) (keys : Dict Bytes)
      → cfg.require_upload_token ≡ text "required"
      → check_sources cfg ≡ ok tt
      → load_keys K join cfg read_dir ≡ ok (entry ∷ keys)
      → (all : Dict Bytes) × (build_upload_token_verifier K join cfg read_dir ≡ ok (some all))
  unfolding build_configured verifier_keys new_ed25519_upload_token_verifier
  build_required law entry keys required sources loaded =
      let (all, copied) =
        copy_keys-Sized (entry ∷ keys) []
          (load_keys-Sized K law join cfg read_dir (entry ∷ keys) loaded) in
      (
        all,
        required_builds required
            ∙ >>=_ok (check_sources cfg) _ sources (
                >>=_ok (map_err keys_error (load_keys K join cfg read_dir)) _
                  (ap (map_err keys_error) loaded)
                  (>>=_ok (map_err build_error (copy_keys (entry ∷ keys) [])) _
                    (ap (map_err build_error) copied) refl)),
      )
