-- ===== src/Tests/Letters.antt =====
-- A storage of two artifacts, and what the buckets of the small world reply.
use ortholog_artifact_store.Base.{
  ℕ, Text, Bytes, text, text_eq, Result, ok, Bool, true, false, Option, none, some, [], ◌≡◌, refl,
  arith, if◌then◌else◌,
}
use ortholog_artifact_store.Base.Int.{ℤ, pos}
use ortholog_artifact_store.Base.Dict.{Dict, lookup}
use ortholog_artifact_store.Storage.{Storage}
use ortholog_artifact_store.Transport.{HttpResponse}

abbrev pub letter : Bool → Text
letter true = text "a"
letter false = text "b"

abbrev pub letters : Storage
letters = record {
  Cid = Bool;
  Algorithm = Unit {0};
  zero_cid = false;
  algorithm = λ _. tt;
  digest = letter;
  parse_cid = λ t. if text_eq t (text "a") then ok true else ok false;
  string = letter;
  verify = λ c d. text_eq (letter c) d;
  compute = λ d. text_eq d (text "a");
  compute_with = λ d _. text_eq d (text "a");
  content_not_found_text = text "not found";
  not_supported_text = text "not supported";
  method_signed_url = text "signed_url";
  method_direct = text "direct";
}

pub letter-injective : (c c' : Bool) → letter c ≡ letter c' → c ≡ c'
letter-injective true true h = refl
letter-injective true false h = ground arith
letter-injective false true h = ground arith
letter-injective false false h = refl

abbrev pub reply : ℕ → Bytes → Option Text → Result Text HttpResponse
reply status bytes failure =
    ok (record { status = status; body = record { bytes = bytes; failure = failure } })

abbrev pub found : Option Bytes → Option Text → Result Text HttpResponse
found none failure = reply 404 [] none
found (some d) failure = reply 200 d failure

abbrev pub epoch : Dict Bytes → ℤ
epoch _ = pos 0

abbrev pub Has : Dict Bytes → Text → Bytes → Type 0
Has s o d = lookup o s ≡ some d
