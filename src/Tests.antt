-- ===== src/Tests.antt =====
-- A small world in which the theorems are applied: a storage whose CIDs are the bytes themselves, a
-- store in memory, and tokens that are signed by their key's bytes.
pub mod Pushes
pub mod Replicas
pub mod Answers
pub mod Settings
pub mod Keys
pub mod Letters
pub mod S3Bucket
pub mod GcsBucket
pub mod ToyVault
pub mod Wrapping
pub mod ToyKms
pub mod ToyToken
use ortholog_artifact_store.Base.{
  ℕ, ◌+◌, ◌-◌, ◌≤◌, Text, Bytes, text, text_eq, text_eq_iff, is_empty, length, Result, ok, err,
  Bool, true, false, Option, none, some, List, [], ◌∷◌, ◌++◌, ◌≡◌, ◌⊎◌, inl, inr, refl, arith, ltb,
  if◌then◌else◌, Lacks,
}
use ortholog_artifact_store.Base.Int.{ℤ, pos}
use ortholog_artifact_store.Base.Dict.{Dict, lookup, insert, erase, lookup-insert, lookup-erase}
use ortholog_artifact_store.Storage.{
  Storage, StoreError, content_not_found, other, RetrievalCredential,
}
use ortholog_artifact_store.Backends.Provider.{BackendProvider, IsContentStore}
use ortholog_artifact_store.Api.Http.{Request, post}
use ortholog_artifact_store.Api.Token.{Codec, UploadTokenPayload, verify}
use ortholog_artifact_store.Api.Token.Accepts.{IsEncoder, mint}
use ortholog_artifact_store.Api.Push.{PushHandler}

abbrev parse_toy : Text → Result Text Text
parse_toy [] = err (text "empty")
parse_toy (c ∷ s) = ok (c ∷ s)

-- A CID is the data that it names.
abbrev pub toy : Storage
toy = record {
  Cid = Text;
  Algorithm = Unit {0};
  zero_cid = [];
  algorithm = λ _. tt;
  digest = λ c. c;
  parse_cid = parse_toy;
  string = λ c. c;
  verify = λ c d. text_eq c d;
  compute = λ d. d;
  compute_with = λ d _. d;
  content_not_found_text = text "not found";
  not_supported_text = text "not supported";
  method_signed_url = text "signed_url";
  method_direct = text "direct";
}

abbrev pub found_or_missing : Option Bytes → Result StoreError Bytes
found_or_missing none = err content_not_found
found_or_missing (some d) = ok d

abbrev is_found : Option Bytes → Bool
is_found none = false
is_found (some d) = true

abbrev known : Option Bytes → Result StoreError (Unit {0})
known none = err content_not_found
known (some d) = ok tt

abbrev direct : Text → Option Bytes → Result StoreError RetrievalCredential
direct c none = err content_not_found
direct c (some d) = ok (record { method = text "direct"; url = c; expiry = none })

-- A store in memory; a locked one refuses every delete.
abbrev pub memory : Bool → BackendProvider toy
memory locked = record {
  State = Dict Bytes;
  push = λ c d s. (ok tt, insert c d s);
  fetch = λ c s. (found_or_missing (lookup c s), s);
  pin = λ c s. (known (lookup c s), s);
  exists = λ c s. (ok (is_found (lookup c s)), s);
  delete =
      λ c s. if locked then (err (other (text "locked")), s) else (known (lookup c s), erase c s);
  resolve = λ c e s. (direct c (lookup c s), s);
  healthy = λ s. (ok tt, s);
}

abbrev pub Has : Dict Bytes → Text → Bytes → Type 0
Has s c d = lookup c s ≡ some d

memory-push_adds :
    (c : Text) (d : Bytes) (s : Dict Bytes) (c' : Text) (d' : Bytes)
    → Has (insert c d s) c' d'
    → Has s c' d' ⊎ ((c' ≡ c) × (d' ≡ d))
memory-push_adds c d s c' d' h = ground (arith, lookup-insert c c' d s, text_eq_iff c c')

memory-delete_adds :
    (locked : Bool) (c : Text) (s : Dict Bytes) (c' : Text) (d' : Bytes)
    → Has ((memory locked).delete c s).1 c' d'
    → Has s c' d'
memory-delete_adds true c s c' d' h = h
memory-delete_adds false c s c' d' h = ground (arith, lookup-erase c c' s)

exists_found :
    (o : Option Bytes)
    → ◌≡◌ {A = Result StoreError Bool} (ok (is_found o)) (ok true)
    → (d : Bytes) × (o ≡ some d)
exists_found none h = ground arith
exists_found (some d) h = (d, refl)

fetch_found : (o : Option Bytes) (d : Bytes) → found_or_missing o ≡ ok d → o ≡ some d
fetch_found o d h = ground arith

pub memory-IsContentStore : (locked : Bool) → IsContentStore (memory locked) Has
memory-IsContentStore locked = record {
  push_adds = memory-push_adds;
  push_stores = λ c d s h. ground (arith, lookup-insert c c d s, text_eq_iff c c);
  fetch_adds = λ c s c' d' h. h;
  fetch_returns = λ c d s h. fetch_found (lookup c s) d h;
  pin_adds = λ c s c' d' h. h;
  exists_adds = λ c s c' d' h. h;
  exists_true = λ c s h. exists_found (lookup c s) h;
  delete_adds = memory-delete_adds locked;
  resolve_adds = λ c e s c' d' h. h;
  healthy_adds = λ s c' d' h. h;
}

-- Bytes are encoded above the dot.
abbrev pub encode : Bytes → Text
encode [] = []
encode (b ∷ bs) = (b + 47) ∷ encode bs

abbrev decode : Text → Result Text Bytes
decode [] = ok []
decode (c ∷ s) =
    if ltb c 47
    then err (text "illegal data")
    else elim (decode s) [ ok bs ↦ ok ((c - 47) ∷ bs) | err e ↦ err e ]

abbrev payload_of : Text → Bytes → Result Text UploadTokenPayload
payload_of kid (size ∷ exp ∷ cid) =
    ok (record { cid = cid; size = pos size; exp = pos exp; iat = pos 0; kid = kid })
payload_of kid _ = err (text "unexpected end")

abbrev signed_by : Bytes → Bytes → Bytes → Result Text (Unit {0})
signed_by key message signature =
    if text_eq signature (key ++ message) then ok tt else err (text "invalid signature")

-- Every payload names the same kid; a signature is the key and then the message.
abbrev pub toy_codec : Text → Codec
toy_codec kid = record {
  raw_url_decode = decode;
  url_decode = decode;
  unmarshal_payload = payload_of kid;
  unmarshal_kid = λ _. ok kid;
  verify_ed25519 = signed_by;
}

decodes : (b : Bytes) → decode (encode b) ≡ ok b
decodes [] = refl
decodes (b ∷ bs) = ground (arith, decodes bs)

dotless : (b : Bytes) → Lacks b'.' (encode b)
dotless [] = tt
dotless (b ∷ bs) = (ground arith, dotless bs)

nonempty : (b : Bytes) → 1 ≤ length b → 1 ≤ length (encode b)
nonempty [] h = h
nonempty (b ∷ bs) h = omega arith

pub encode-IsEncoder : (kid : Text) → IsEncoder (toy_codec kid) encode
encode-IsEncoder kid = record { decodes = decodes; dotless = dotless; nonempty = nonempty }

abbrev pub abc : Text
abc = text "abc"

abbrev pub key : Bytes
key = 7 ∷ []

abbrev pub keys : Text → Dict Bytes
keys kid = (kid, key) ∷ []

-- Three bytes named `abc`, until second 200.
abbrev pub payload : Bytes
payload = 3 ∷ 200 ∷ abc

abbrev pub token : Text
token = mint encode payload (key ++ payload)

abbrev pub request : Text → Text → Request
request cid upload_token = record {
  method = post;
  path = text "v1" ∷ text "artifacts" ∷ [];
  artifact_cid = cid;
  upload_token = upload_token;
  expiry = [];
  remote_addr = text "10.0.0.1:4000";
  body = record { bytes = abc; failure = none };
}

abbrev pub handler : ℤ → Text → Text → PushHandler
handler max_body policy kid = record {
  verify = true;
  max_body = max_body;
  token_verifier = some (verify (toy_codec kid) (keys kid));
  token_policy = policy;
}

abbrev pub open_handler : ℤ → PushHandler
open_handler max_body = record {
  verify = false;
  max_body = max_body;
  token_verifier = none;
  token_policy = text "off";
}
