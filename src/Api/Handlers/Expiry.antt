-- ===== src/Api/Handlers/Expiry.antt =====
-- The expiry that api/resolve.go takes from the query: seconds, as a `time.Duration` of `int64`
-- nanoseconds.
use ortholog_artifact_store.Base.{
  ℕ, zero, suc, ◌-◌, ◌*◌, ◌<◌, ◌≤◌, Text, Option-cases, none, some, false, Bool-cases, leb, ◌≡◌,
  ◌⊎◌, inl, inr, refl, ap, ◌∙◌, arith,
}
use ortholog_artifact_store.Base.Int.{
  ℤ, pos, negsuc, ltb_ℤ, mul64, wrap64, wrap64_fits, ◌*ℤ◌, two63, two64, signed64, parse_int,
}
use ortholog_artifact_store.Api.Handlers.{resolve_expiry, second}

-- The seconds of an `int64` duration that do not overflow.
abbrev pub max_seconds : ℕ
max_seconds = 9223372036

times_second : (k : ℕ) → pos k *ℤ second ≡ pos (k * 1000000000)
unfolding ◌*ℤ◌
times_second k = ground arith

mul64_fits : (k : ℕ) → k ≤ max_seconds → mul64 (pos k) second ≡ pos (k * 1000000000)
unfolding mul64
mul64_fits k h = ap wrap64 (times_second k) ∙ wrap64_fits (k * 1000000000) (omega arith)

wrap64_high : (n : ℕ) → two63 ≤ n → n < two64 → wrap64 (pos n) ≡ negsuc (two64 - 1 - n)
unfolding wrap64 signed64
wrap64_high n low high = ground arith

mul64_overflows :
    (k : ℕ)
    → max_seconds < k
    → k ≤ 18446744073
    → mul64 (pos k) second ≡ negsuc (two64 - 1 - k * 1000000000)
unfolding mul64
mul64_overflows k low high =
    ap wrap64 (times_second k) ∙ wrap64_high (k * 1000000000) (omega arith) (omega arith)

resolve_expiry_seconds :
    (default : ℤ) (es : Text) (k : ℕ)
    → parse_int es ≡ some (pos k)
    → 0 < k
    → resolve_expiry default es ≡ mul64 (pos k) second
unfolding resolve_expiry
resolve_expiry_seconds default es k parsed positive = rw (parsed, resolve_expiry) (ground arith)

-- The query has no number, or one that is not positive.
abbrev pub NoSeconds : Text → Type 0
NoSeconds es =
    (parse_int es ≡ none) ⊎ ((n : ℤ) × (parse_int es ≡ some n) × (ltb_ℤ (pos 0) n ≡ false))

-- The query has a positive number `k` of seconds.
abbrev pub Seconds : Text → ℕ → Type 0
Seconds es k = (parse_int es ≡ some (pos k)) × (0 < k)

-- What the expiry is in each case.
abbrev pub Lasts : ℤ → Text → Type 0
Lasts default es =
    (NoSeconds es × (resolve_expiry default es ≡ default))
    ⊎ (((k : ℕ) × Seconds es k
          × (k ≤ max_seconds)
          × (resolve_expiry default es ≡ pos (k * 1000000000)))
        ⊎ ((k : ℕ) × Seconds es k
            × (max_seconds < k)
            × (resolve_expiry default es ≡ wrap64 (pos (k * 1000000000)))))

Lasts-number : (default : ℤ) (es : Text) (n : ℤ) → parse_int es ≡ some n → Lasts default es
unfolding resolve_expiry mul64
Lasts-number default es (negsuc n) parsed =
    inl (inr (negsuc n, parsed, ground arith), rw (parsed, resolve_expiry) (ground arith))
Lasts-number default es (pos zero) parsed =
    inl (inr (pos zero, parsed, ground arith), rw (parsed, resolve_expiry) (ground arith))
Lasts-number default es (pos (suc k)) parsed =
    let exact = resolve_expiry_seconds default es (suc k) parsed (omega arith) in
    elim (Bool-cases (leb (suc k) max_seconds)) [
      | inl fits ↦ inr (
          inl
            (suc k, (parsed, omega arith), ground arith, exact ∙ mul64_fits (suc k) (ground arith)))
      | inr over ↦ inr (
          inr
            (suc k, (parsed, omega arith), ground arith, exact ∙ ap wrap64 (times_second (suc k))))
    ]

-- The expiry of a resolve is the default if the query has no number or one that is not positive. Otherwise it is the number of seconds in nanoseconds, exact up to 9223372036, the
-- largest whose nanoseconds fit, and wrapped round to 64 bits above it.
pub resolve_expiry_cases : (default : ℤ) (es : Text) → Lasts default es
unfolding resolve_expiry
resolve_expiry_cases default es = elim (Option-cases (parse_int es)) [
  | inl absent ↦ inl (inl absent, rw (absent, resolve_expiry) refl)
  | inr (n, parsed) ↦ Lasts-number default es n parsed
]

-- From 9223372037 to 18446744073 seconds, the expiry that the backend gets is negative, although
-- the handler lets only positive numbers pass.
pub resolve_expiry_overflow :
    (default : ℤ) (es : Text) (k : ℕ)
    → parse_int es ≡ some (pos k)
    → max_seconds < k
    → k ≤ 18446744073
    → (n : ℕ) × (resolve_expiry default es ≡ negsuc n)
resolve_expiry_overflow default es k parsed low high =
    (_, resolve_expiry_seconds default es k parsed (omega arith) ∙ mul64_overflows k low high)
