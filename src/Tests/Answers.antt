-- ===== src/Tests/Answers.antt =====
-- The other handlers and the whole server, in the small world.
use ortholog_artifact_store.Base.{
  ℕ, ◌+◌, ◌*◌, ◌/◌, ◌==◌, if◌then◌else◌, is_empty, ap, Option, none, err, Text, text, ok, true,
  false, some, text_eq, index_byte, List, [], ◌∷◌, ◌≡◌, ◌≢◌, ◌⊎◌, refl, arith,
}
use ortholog_artifact_store.Base.Int.{ℤ, pos, negsuc, format_int, parse_int}
use ortholog_artifact_store.Base.Dict.{lookup, insert}
use ortholog_artifact_store.Api.Http.{
  Request, credential_to_wire, credential_from_wire, parse_cid_from_path,
}
use ortholog_artifact_store.Api.Http.Wire.{whole_second, IsRfc3339, credential-roundtrip}
use ortholog_artifact_store.Storage.{RetrievalCredential}
use ortholog_artifact_store.Api.Token.{verify}
use ortholog_artifact_store.Api.Push.{status_code, push_serve}
use ortholog_artifact_store.Api.Handlers.{
  fetch_serve, fetch_response, exists_serve, resolve_serve, resolve_expiry,
}
use ortholog_artifact_store.Api.Handlers.Expiry.{
  Lasts, resolve_expiry_cases, resolve_expiry_overflow,
}
use ortholog_artifact_store.Api.Handlers.Status.{
  AllRefused, NoneRefused, bad_request_cases, Resolved, resolve_answers,
}
use ortholog_artifact_store.Api.Handlers.Unheld.{unheld_artifact}
use ortholog_artifact_store.Api.Server.{ServerConfig, push_handler, route, serve_all, serve}
use ortholog_artifact_store.Api.Server.Integrity.{Verified, serve_all-Verified, fetch-matches}
use ortholog_artifact_store.Tests.{
  toy, memory, Has, memory-IsContentStore, toy_codec, keys, abc, token, request,
}

abbrev cfg : ServerConfig
cfg = record {
  verify_on_push = true;
  max_body_size = pos 10;
  default_expiry = pos 3600;
  upload_token_verifier = some (verify (toy_codec []) (keys []));
  upload_token_policy = text "required";
}

-- A push of `abc`, and a push of `abc` as `abd`.
abbrev pushes : List (Request × ℤ)
pushes = (request abc token, pos 100) ∷ (request (text "abd") token, pos 101) ∷ []

empty-Verified : Verified toy (memory false) Has []
unfolding lookup
empty-Verified c d h = ground arith

served : serve_all toy (memory false) (toy_codec []) format_int cfg pushes [] ≡ (abc, abc) ∷ []
unfolding serve_all serve text_eq route push_serve push_handler verify index_byte lookup insert
served = refl

serve_all-Verified_example :
    Verified toy
      (memory false)
      Has
      (serve_all toy (memory false) (toy_codec []) format_int cfg pushes [])
serve_all-Verified_example =
    serve_all-Verified toy (memory false) (toy_codec []) format_int Has
      (memory-IsContentStore false) cfg pushes [] refl empty-Verified

fetch-matches_example :
    (cid : Text) × (parse_cid_from_path toy abc ≡ ok cid) × (text_eq cid abc ≡ true)
unfolding serve_all serve text_eq route push_serve push_handler verify index_byte lookup insert
    fetch_serve
fetch-matches_example =
    fetch-matches toy (memory false) (toy_codec []) format_int Has (memory-IsContentStore false) cfg
      pushes [] abc (fetch_response toy (memory false) (ok abc)) abc refl empty-Verified refl refl

resolve_expiry_cases_example : Lasts (pos 3600) (text "60")
resolve_expiry_cases_example = resolve_expiry_cases (pos 3600) (text "60")

resolve_expiry_overflow_example :
    (n : ℕ) × (resolve_expiry (pos 3600) (text "9223372037") ≡ negsuc n)
unfolding parse_int
resolve_expiry_overflow_example =
    resolve_expiry_overflow (pos 3600) (text "9223372037") 9223372037 refl (omega arith)
      (omega arith)

bad_request_cases_example :
    ((e : Text) × (parse_cid_from_path toy [] ≡ err e)
      × AllRefused toy (memory false) format_int (pos 3600) [] [] [])
    ⊎ ((cid : Text) × (parse_cid_from_path toy [] ≡ ok cid)
        × NoneRefused toy (memory false) format_int (pos 3600) [] [] [])
bad_request_cases_example = bad_request_cases toy (memory false) format_int (pos 3600) [] [] []

unheld_artifact_example :
    (status_code (fetch_serve toy (memory false) abc []).response ≢ 200)
    × (status_code (exists_serve toy (memory false) abc []).response ≢ 200)
    × (status_code (resolve_serve toy (memory false) format_int (pos 3600) [] abc []).response
        ≢ 200)
unfolding parse_cid_from_path lookup
unheld_artifact_example =
    unheld_artifact toy (memory false) format_int (pos 3600) Has (memory-IsContentStore false) abc
      [] [] abc refl (λ d h. ground (arith, h))

resolve_answers_example :
    Resolved toy
      (memory false)
      format_int
      (pos 3600)
      abc
      ((abc, abc) ∷ [])
      (text "60")
      (resolve_serve toy (memory false) format_int (pos 3600) (text "60") abc ((abc, abc) ∷ []))
unfolding resolve_serve lookup text_eq status_code
resolve_answers_example =
    resolve_answers toy (memory false) format_int (pos 3600) abc ((abc, abc) ∷ []) (text "60") refl

-- A sign and a number of seconds.
abbrev format_toy : ℤ → Text
format_toy (pos n) = b'+' ∷ (n / 1000000000) ∷ []
format_toy (negsuc n) = b'-' ∷ (n / 1000000000) ∷ []

abbrev parse_toy_time : Text → Option ℤ
parse_toy_time (sign ∷ k ∷ []) =
    if sign == b'+' then some (pos (k * 1000000000)) else some (negsuc (k * 1000000000 + 999999999))
parse_toy_time _ = none

same_toy : (t : ℤ) → format_toy (whole_second t) ≡ format_toy t
same_toy (pos n) = ap (λ k. b'+' ∷ k ∷ []) (omega arith)
same_toy (negsuc n) = ap (λ k. b'-' ∷ k ∷ []) (omega arith)

given_toy : (t : ℤ) → is_empty (format_toy t) ≡ false
given_toy (pos n) = refl
given_toy (negsuc n) = refl

reads_toy : (t : ℤ) → parse_toy_time (format_toy t) ≡ some (whole_second t)
reads_toy (pos n) = refl
reads_toy (negsuc n) = refl

toy-IsRfc3339 : IsRfc3339 format_toy parse_toy_time
toy-IsRfc3339 = record {
  given = λ t fits. given_toy t;
  reads = λ t fits. reads_toy t;
  same_second = λ t fits. same_toy t;
}

-- It expires half a second after second 42.
abbrev signed : RetrievalCredential
signed = record { method = text "signed_url"; url = text "u"; expiry = some (pos 42500000000) }

credential-roundtrip_example :
    (credential_from_wire parse_toy_time (credential_to_wire format_toy signed)
      ≡ record signed { expiry = some (pos 42000000000) })
    × (credential_to_wire format_toy
          (credential_from_wire parse_toy_time (credential_to_wire format_toy signed))
        ≡ credential_to_wire format_toy signed)
credential-roundtrip_example =
    credential-roundtrip format_toy parse_toy_time toy-IsRfc3339 signed (omega arith)
