-- ===== src/Tests/Pushes.antt =====
-- Pushes of the small world: accepted, refused, and lost.
use ortholog_artifact_store.Base.{
  Text, text, ok, false, none, some, text_eq, index_byte, [], ◌∷◌, ◌++◌, ◌-◌, ◌≡◌, refl, arith,
}
use ortholog_artifact_store.Base.Int.{ℤ, pos, two63}
use ortholog_artifact_store.Base.Dict.{lookup, insert}
use ortholog_artifact_store.Api.Http.{Response, json_header, pushed_json}
use ortholog_artifact_store.Api.Token.{verify}
use ortholog_artifact_store.Api.Token.Accepts.{Evidence, verify_iff, verify-mint, mint}
use ortholog_artifact_store.Api.Push.{
  Outcome, push_serve, status_code, persist, rejected_mark, extract_kid,
}
use ortholog_artifact_store.Api.Push.Safety.{
  Audited, push_audit, Stored, push_stores, push_authorized,
}
use ortholog_artifact_store.Api.Push.Limits.{push_too_large, push_max_limit, push_sentinel_kid}
use ortholog_artifact_store.Tests.{
  toy, memory, toy_codec, encode, encode-IsEncoder, abc, key, keys, payload, token, request,
  handler, open_handler,
}

abbrev op : Text
op = text "op-1"

-- The store before the push, and the outcomes of a push of `abc` under some CID with some token.
abbrev pushing : ℤ → Text → Text → Text → Text → Outcome (memory false).State
pushing max policy kid cid upload_token =
    push_serve toy (memory false) (toy_codec kid) (handler max policy kid)
      (request cid upload_token) (pos 100) []

-- The answer to the push of `abc` with its token.
abbrev pushed : Response
pushed = record { status = 200; headers = json_header; body = pushed_json abc 3 }

-- With its token, `abc` is stored.
push_token :
    pushing (pos 10) (text "required") op abc token
    ≡ record { response = some pushed; log = []; state = (abc, abc) ∷ [] }
unfolding push_serve text_eq verify index_byte lookup insert
push_token = refl

-- Under another CID it is not, token or none.
push_mismatch :
    (status_code (pushing (pos 10) (text "optional") op (text "abd") []).response ≡ 400)
    × ((pushing (pos 10) (text "optional") op (text "abd") []).state ≡ [])
unfolding push_serve text_eq verify index_byte lookup insert status_code
push_mismatch = (refl, refl)

accepted : verify (toy_codec op) (keys op) token abc 3 (pos 100) ≡ ok tt
unfolding push_serve text_eq verify index_byte lookup insert
accepted = refl

verify_iff_example : Evidence (toy_codec op) (keys op) token abc 3 (pos 100)
verify_iff_example = (verify_iff (toy_codec op) (keys op) token abc 3 (pos 100)).0 accepted

verify-mint_example :
    verify (toy_codec op) (keys op) (mint encode payload (key ++ payload)) abc 3 (pos 100) ≡ ok tt
unfolding push_serve text_eq verify index_byte lookup insert
verify-mint_example =
    verify-mint (toy_codec op) encode (encode-IsEncoder op) (keys op) payload (key ++ payload) key
      (record { cid = abc; size = pos 3; exp = pos 200; iat = pos 0; kid = op }) abc 3 (pos 100)
      (omega arith) (omega arith) refl refl refl (λ e. ground arith, omega arith, refl, refl)

push_audit_example : Audited [] (pushing (pos 10) (text "required") op abc token)
push_audit_example =
    push_audit toy (memory false) (toy_codec op) (handler (pos 10) (text "required") op)
      (request abc token) (pos 100) []

push_stores_example :
    Stored
      (memory false)
      (handler (pos 10) (text "required") op)
      (request abc token)
      []
      (pushing (pos 10) (text "required") op abc token)
      pushed
unfolding push_serve text_eq verify index_byte lookup insert
push_stores_example =
    push_stores toy (memory false) (toy_codec op) (handler (pos 10) (text "required") op)
      (request abc token) (pos 100) [] 10 pushed refl (omega arith) refl refl

push_authorized_example : Evidence (toy_codec op) (keys op) token abc 3 (pos 100)
unfolding push_serve text_eq verify index_byte lookup insert
push_authorized_example =
    push_authorized toy (memory false) (toy_codec op) (handler (pos 10) (text "required") op)
      (request abc token) (pos 100) [] (keys op) 10 pushed refl refl refl (omega arith) refl refl

push_too_large_example :
    (status_code (pushing (pos 2) (text "required") op abc token).response ≡ 413)
    × ((pushing (pos 2) (text "required") op abc token).state ≡ [])
unfolding push_serve text_eq verify index_byte lookup insert
push_too_large_example =
    push_too_large toy (memory false) (toy_codec op) (handler (pos 2) (text "required") op)
      (request abc token) (pos 100) [] abc 2 refl refl refl (omega arith) (omega arith)

push_max_limit_example :
    push_serve toy
      (memory false)
      (toy_codec op)
      (open_handler (pos (two63 - 1)))
      (request abc [])
      (pos 100)
      []
    ≡ persist toy (memory false) (toy_codec op) (request abc []) abc abc [] []
unfolding push_serve text_eq verify index_byte lookup insert
push_max_limit_example =
    push_max_limit toy (memory false) (toy_codec op) (open_handler (pos (two63 - 1)))
      (request abc []) (pos 100) [] abc refl refl refl refl refl

push_sentinel_kid_example :
    pushing (pos 10) (text "required") rejected_mark abc token
    ≡ record { response = none; log = []; state = [] }
unfolding push_serve text_eq verify index_byte lookup insert extract_kid
push_sentinel_kid_example =
    push_sentinel_kid toy (memory false) (toy_codec rejected_mark)
      (handler (pos 10) (text "required") rejected_mark) (request abc token) (pos 100) [] abc 10
      (verify (toy_codec rejected_mark) (keys rejected_mark)) refl refl refl (omega arith)
      (omega arith) refl refl refl refl refl refl
