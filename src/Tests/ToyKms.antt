-- ===== src/Tests/ToyKms.antt =====
-- A Cloud KMS that wraps a key as the key itself, and a Firestore that keeps documents by their ids.
use mathlib.Core.Path.{subst}
use ortholog_artifact_store.Base.Dict.{Dict, lookup, insert, erase, lookup-insert, lookup-erase}
use ortholog_artifact_store.Base.{
  ℕ, zero, suc, Bytes, length, drop, drop-length_append, Text, text, text_eq, text_eq_iff, Result,
  ok, err, Option, none, some, [], ◌∷◌, ◌++◌, ◌≡◌, ◌≢◌, refl, sym, ap, ◌∙◌, ok-injective, arith,
  if◌then◌else◌,
}
use ortholog_artifact_store.Transport.{HttpResponse, Client}
use ortholog_artifact_store.KeyService.Rotation.{IsKeyService}
use ortholog_artifact_store.KeyService.Envelope.{Crypto}
use ortholog_artifact_store.KeyService.Envelope.Sealing.{IsCrypto}
use ortholog_artifact_store.KeyService.Envelope.Contract.{Opens}
use ortholog_artifact_store.KeyService.GcpKms.{
  GcpKmsConfig, GcpBody, plaintext, ciphertext, document, create_url, doc_url,
}
use ortholog_artifact_store.KeyService.GcpKms.Api.{GcpCodec}
use ortholog_artifact_store.KeyService.GcpKms.Service.{gcpkms_envelope, gcpkms_service}
use ortholog_artifact_store.KeyService.GcpKms.Service.Serving.{Serves, Kept}
use ortholog_artifact_store.KeyService.GcpKms.Service.Contract.{Apart, gcpkms-IsKeyService}
use ortholog_artifact_store.Tests.Letters.{letters, reply, found}

abbrev settings : GcpKmsConfig
settings = record {
  kek_resource_name = text "projects/k";
  firestore_project_id = text "p";
  firestore_database = text "d";
  firestore_collection = text "c";
  kms_endpoint = text "k";
  firestore_endpoint = text "f";
}

-- The documents by their URLs.
abbrev World : Type 0
World = Dict Text

-- The URL of a document that is created at another.
abbrev target : Text → Text
target u = drop (length (create_url letters settings [])) u

abbrev answered : Text → Text → Option GcpBody → World → Result Text HttpResponse × World
answered m u (some (plaintext t)) s = (reply 200 t none, s)
answered m u (some (ciphertext t)) s = (reply 200 t none, s)
answered m u (some (document t)) s =
    (reply 200 [] none, insert (doc_url letters settings (target u)) t s)
answered m u none s =
    if text_eq m (text "DELETE")
    then (reply 200 [] none, erase u s)
    else (found (lookup u s) none, s)

abbrev kms : Client GcpBody
kms = record {
  State = World;
  new_request = λ m u. none;
  send = λ r s. answered r.method r.url r.body s;
}

-- Base64 with a mark, so that no text in it is empty.
abbrev unmark : Text → Result Text Bytes
unmark [] = err []
unmark (c ∷ t) = ok t

abbrev codec : GcpCodec
codec = record {
  base64_encode = λ b. 61 ∷ b;
  base64_decode = unmark;
  encrypt_response = λ b. ok b.bytes;
  decrypt_response = λ b. ok b.bytes;
  document_response = λ b. ok b.bytes;
}

abbrev eights : ℕ → Bytes
eights zero = []
eights (suc n) = 8 ∷ eights n

abbrev crypto : Crypto World
crypto = record {
  aead = record {
    cipher_error = λ k. none;
    aead_nonce_size = 1;
    seal = λ k n p. k ++ p;
    unseal = λ k n c. ok (drop (length k) c);
  };
  key_size = 1;
  nonce_size = 1;
  random = λ n s. (ok (eights n), s);
  PublicKey = Text;
  parse_pub_key = λ t. ok t;
  encrypt_for_node = λ m k s. (ok m, s);
}

abbrev Wraps : World → Bytes → Bytes → Type 0
Wraps s w d = w ≡ d

abbrev Stored : World → Text → Bytes → Type 0
Stored s i w = lookup (doc_url letters settings i) s ≡ some (61 ∷ w)

abbrev HasDoc : World → Text → Type 0
HasDoc s i = (w : Text) × (lookup (doc_url letters settings i) s ≡ some w)

length-eights : (n : ℕ) → length (eights n) ≡ n
length-eights zero = refl
length-eights (suc n) = ap (λ k. suc k) (length-eights n)

toy-IsCrypto : IsCrypto crypto
toy-IsCrypto = record {
  random_size = λ n s b h. subst (λ t. length t ≡ n) (ok-injective h) (length-eights n);
  unseals = λ key nonce p made. ap (λ t. ok t) (drop-length_append key p);
}

doc_url-apart : (i i' : Text) → i ≢ i' → doc_url letters settings i ≢ doc_url letters settings i'
unfolding doc_url
doc_url-apart i i' apart h = apart (ap (λ u. drop (length (doc_url letters settings [])) u) h)

target-id : (i : Text) → target (create_url letters settings i) ≡ i
unfolding create_url
target-id i = refl

stored : (u : Text) (w : Text) (s : World) → lookup u (insert u w s) ≡ some w
stored u w s = ground (arith, lookup-insert u u w s, text_eq_iff u u)

gone : (u : Text) (s : World) (w : Text) → lookup u (erase u s) ≡ some w → ⊥
gone u s w h = ground (arith, lookup-erase u u s, text_eq_iff u u)

left :
    (u u' : Text) (s : World) (w : Text)
    → u ≢ u'
    → lookup u' s ≡ some w
    → lookup u' (erase u s) ≡ some w
left u u' s w apart h = ground (arith, lookup-erase u u' s, text_eq_iff u u', text_eq_iff u' u)

read_back :
    (u w : Text) (s : World) → lookup u s ≡ some w → found (lookup u s) none ≡ reply 200 w none
read_back u w s h = ap (λ o. found o none) h

absent : (x : Option Text) → ((w : Text) → x ≡ some w → ⊥) → found x none ≡ reply 404 [] none
absent none h = refl
absent (some x) h = absurd (h x refl)

unmarked : (c w d : Bytes) → c ≡ 61 ∷ d → unmark c ≡ ok w → w ≡ d
unmarked [] w d h read = absurd (ground arith)
unmarked (x ∷ c) w d h read = ground (arith, h, read)

kms-Serves : Serves letters kms codec settings Wraps Stored HasDoc
unfolding text_eq
kms-Serves = record {
  makes = λ m u. refl;
  encrypt_wraps = λ d w c s a sent good read decoded. (
    unmarked c w d (sym (ap (λ x. x.body.bytes) (ok-injective sent) ∙ ok-injective read)) decoded,
    refl,
  );
  create_stores = λ i w s a sent done.
      subst
        (λ j.
          lookup (doc_url letters settings i) (insert (doc_url letters settings j) (61 ∷ w) s)
          ≡ some (61 ∷ w))
        (sym (target-id i)) (stored (doc_url letters settings i) (61 ∷ w) s);
  send_keeps = λ r s w d h. h;
  delete_keeps = λ i i' w s apart h.
      left (doc_url letters settings i) (doc_url letters settings i') s (61 ∷ w)
        (doc_url-apart i i' apart) h;
  get_returns = λ i w s h. (
    record { status = 200; body = record { bytes = 61 ∷ w; failure = none } },
    read_back (doc_url letters settings i) (61 ∷ w) s h,
    refl,
    refl,
  );
  decrypt_returns = λ w d s h. (
    record { status = 200; body = record { bytes = 61 ∷ w; failure = none } },
    refl,
    refl,
    ap (λ t. ok (61 ∷ t)) h,
  );
  doc_deleted = λ i s a sent done h. gone (doc_url letters settings i) s h.0 h.1;
  doc_unknown = λ i s h. (
    record { status = 404; body = record { bytes = []; failure = none } },
    absent (lookup (doc_url letters settings i) s) (λ w e. h (w, e)),
    refl,
  );
  base64_decodes = λ d. refl;
}

gcpkms-IsKeyService_example :
    IsKeyService
      (gcpkms_service letters kms codec settings crypto)
      (Opens letters crypto
        (gcpkms_envelope letters kms codec settings)
        (Kept letters kms codec settings Wraps Stored HasDoc))
      (Apart letters settings)
gcpkms-IsKeyService_example =
    gcpkms-IsKeyService letters kms codec settings Wraps Stored HasDoc kms-Serves crypto
      toy-IsCrypto
