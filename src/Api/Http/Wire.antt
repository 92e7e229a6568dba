-- ===== src/Api/Http/Wire.antt =====
-- The wire shape of a credential, api/wire.go.
use ortholog_artifact_store.Base.{
  ◌+◌, ◌*◌, ◌/◌, ◌<◌, Text, is_empty, false, Option, none, some, ◌≡◌, refl, ap, ◌∙◌,
}
use ortholog_artifact_store.Base.Int.{ℤ, pos, negsuc, two63}
use ortholog_artifact_store.Storage.{RetrievalCredential}
use ortholog_artifact_store.Api.Http.{credential_to_wire, credential_from_wire}

-- A time without the nanoseconds after its second.
abbrev pub whole_second : ℤ → ℤ
whole_second (pos n) = pos (n / 1000000000 * 1000000000)
whole_second (negsuc n) = negsuc (n / 1000000000 * 1000000000 + 999999999)

-- A time whose nanoseconds since the epoch fit an `int64`.
abbrev pub Fits : ℤ → Type 0
Fits (pos n) = n < two63
Fits (negsuc n) = n < two63

-- What `time` documents of the layout RFC 3339: the text of a time tells its second, and reads as
-- the start of that second.
pub record IsRfc3339 (format : ℤ → Text) (parse : Text → Option ℤ) : Type 0 where
  pub given : (t : ℤ) → Fits t → is_empty (format t) ≡ false
  pub reads : (t : ℤ) → Fits t → parse (format t) ≡ some (whole_second t)
  pub same_second : (t : ℤ) → Fits t → format (whole_second t) ≡ format t

abbrev pub FitsExpiry : Option ℤ → Type 0
FitsExpiry none = Unit {0}
FitsExpiry (some t) = Fits t

abbrev pub whole_expiry : RetrievalCredential → RetrievalCredential
whole_expiry c = record c {
  expiry = elim c.expiry [ none ↦ none | some t ↦ some (whole_second t) ];
}

module _ (format_rfc3339 : ℤ → Text) (parse_rfc3339 : Text → Option ℤ)
    (law : IsRfc3339 format_rfc3339 parse_rfc3339) where
  expiry_roundtrip :
      (method url : Text) (e : Option ℤ)
      → FitsExpiry e
      → credential_from_wire parse_rfc3339
          (credential_to_wire format_rfc3339 (record { method = method; url = url; expiry = e }))
        ≡ whole_expiry (record { method = method; url = url; expiry = e })
  unfolding credential_from_wire credential_to_wire
  expiry_roundtrip method url none fits = refl
  expiry_roundtrip method url (some t) fits = rw (law.given t fits, law.reads t fits) refl

  expiry_again :
      (method url : Text) (e : Option ℤ)
      → FitsExpiry e
      → credential_to_wire format_rfc3339
          (whole_expiry (record { method = method; url = url; expiry = e }))
        ≡ credential_to_wire format_rfc3339 (record { method = method; url = url; expiry = e })
  unfolding credential_to_wire
  expiry_again method url none fits = refl
  expiry_again method url (some t) fits = rw (law.same_second t fits) refl

  -- A credential whose expiry fits an `int64` of nanoseconds is read back from the wire with the
  -- nanoseconds after the second of its expiry cut off, and with no expiry if it had none; what is
  -- read back has the same wire shape again.
  pub credential-roundtrip :
      (c : RetrievalCredential)
      → FitsExpiry c.expiry
      → (credential_from_wire parse_rfc3339 (credential_to_wire format_rfc3339 c) ≡ whole_expiry c)
        × (credential_to_wire format_rfc3339
              (credential_from_wire parse_rfc3339 (credential_to_wire format_rfc3339 c))
            ≡ credential_to_wire format_rfc3339 c)
  credential-roundtrip c fits =
      let read = expiry_roundtrip c.method c.url c.expiry fits in
      (
        read,
        ap (credential_to_wire format_rfc3339) read ∙ expiry_again c.method c.url c.expiry fits,
      )
