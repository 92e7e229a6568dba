-- ===== src/OperatorKeys/Entries.antt =====
-- Each entry of the inline list of cmd/artifact-store/token.go registers its key under its kid.
use mathlib.Core.Path.{subst}
use ortholog_artifact_store.Base.{
  ℕ, suc, Text, Bytes, text_eq_iff, is_empty, trim_space, take, drop, index_byte, ok, map_err,
  map_err-eq-ok, >>=-eq-ok, ok-injective, inl, inr, Bool-cases, Option-cases, none, some, List, [],
  ◌∷◌, All, ◌≡◌, arith,
}
use ortholog_artifact_store.Base.Dict.{Dict, lookup, insert, lookup-insert}
use ortholog_artifact_store.OperatorKeys.{
  KeyCodec, decode_pub_key, register, entry_error, parse_entry, parse_entries,
  parse_inline_pub_keys, split_inline_entries,
}

-- The loaded keys have the key that the entry encodes, under the kid that it names.
abbrev pub Registered : KeyCodec → Dict Bytes → Text → Type 0
Registered K keys entry =
    (colon : ℕ) × (key : Bytes) × (index_byte entry b':' ≡ some colon)
    × (decode_pub_key K (trim_space (drop (suc colon) entry)) ≡ ok key)
    × (lookup (trim_space (take colon entry)) keys ≡ some key)

-- What is registered stays.
abbrev Keeps : Dict Bytes → Dict Bytes → Type 0
Keeps out keys = (j : Text) (key : Bytes) → lookup j out ≡ some key → lookup j keys ≡ some key

register-inserts :
    (duplicate kid : Text) (key : Bytes) (out keys : Dict Bytes)
    → register duplicate kid key out ≡ ok keys
    → (lookup kid out ≡ none) × (insert kid key out ≡ keys)
unfolding register
register-inserts duplicate kid key out keys h = elim (Option-cases (lookup kid out)) [
  | inl fresh ↦ (fresh, ok-injective (rw (fresh, register) at h))
  | inr (v, taken) ↦ absurd (ground (arith, (rw (taken, register) at h)))
]

insert-Keeps :
    (kid : Text) (key : Bytes) (out : Dict Bytes)
    → lookup kid out ≡ none
    → Keeps out (insert kid key out)
insert-Keeps kid key out fresh j v h =
    ground (arith, lookup-insert kid j key out, text_eq_iff kid j)

insert-lookup :
    (kid : Text) (key : Bytes) (out : Dict Bytes) → lookup kid (insert kid key out) ≡ some key
insert-lookup kid key out = ground (arith, lookup-insert kid kid key out, text_eq_iff kid kid)

register-Keeps :
    (duplicate kid : Text) (key : Bytes) (out keys : Dict Bytes)
    → register duplicate kid key out ≡ ok keys
    → Keeps out keys × (lookup kid keys ≡ some key)
register-Keeps duplicate kid key out keys h =
    let (fresh, e) = register-inserts duplicate kid key out keys h in
    (
      subst (Keeps out) e (insert-Keeps kid key out fresh),
      subst (λ m. lookup kid m ≡ some key) e (insert-lookup kid key out),
    )

module _ (K : KeyCodec) where
  parse_entry-registers :
      (i : ℕ) (entry : Text) (out keys : Dict Bytes)
      → parse_entry K i entry out ≡ ok keys
      → Keeps out keys × Registered K keys entry
  unfolding parse_entry
  parse_entry-registers i entry out keys h = elim (Option-cases (index_byte entry b':')) [
    | inl absent ↦ absurd (ground (arith, (rw (absent, parse_entry) at h)))
    | inr (colon, found) ↦ elim (Bool-cases (is_empty (trim_space (drop (suc colon) entry)))) [
      | inl blank ↦ absurd (ground (arith, (rw (found, blank, parse_entry) at h)))
      | inr given ↦
          let (key, decoded, registered) =
            >>=-eq-ok
              (map_err (entry_error i (trim_space (take colon entry)))
                (decode_pub_key K (trim_space (drop (suc colon) entry))))
              _ (rw (found, given, parse_entry) at h) in
          let (keeps, there) =
            register-Keeps _ (trim_space (take colon entry)) key out keys registered in
          (keeps, (colon, key, found, map_err-eq-ok _ _ decoded, there))
    ]
  ]

  Registered-Keeps :
      (out keys : Dict Bytes) (entry : Text)
      → Keeps out keys
      → Registered K out entry
      → Registered K keys entry
  Registered-Keeps out keys entry keeps (colon, key, found, decoded, there) =
      (colon, key, found, decoded, keeps _ key there)

  parse_entries-registers :
      (i : ℕ) (entries : List Text) (out keys : Dict Bytes)
      → parse_entries K i entries out ≡ ok keys
      → Keeps out keys × All (Registered K keys) entries
  unfolding parse_entries
  parse_entries-registers i [] out keys h =
      (subst (Keeps out) (ok-injective h) (λ j key there. there), tt)
  parse_entries-registers i (entry ∷ entries) out keys h =
      let (out', one, rest) = >>=-eq-ok (parse_entry K i entry out) _ h in
      let (kept, registered) = parse_entry-registers i entry out out' one in
      let (keeps, all) = parse_entries-registers (suc i) entries out' keys rest in
      (
        λ j key there. keeps j key (kept j key there),
        (Registered-Keeps out' keys entry keeps registered, all),
      )

  -- When the inline list loads, every entry has a colon, the text after it decodes to a key, and
  -- the loaded keys have that key under the text before it: no entry replaces another.
  pub parse_inline-registers :
      (spec : Text) (keys : Dict Bytes)
      → parse_inline_pub_keys K spec ≡ ok keys
      → All (Registered K keys) (split_inline_entries spec)
  unfolding parse_inline_pub_keys
  parse_inline-registers spec keys h =
      (parse_entries-registers 0 (split_inline_entries spec) [] keys h).1
