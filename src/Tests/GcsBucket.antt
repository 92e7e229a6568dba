-- ===== src/Tests/GcsBucket.antt =====
-- A bucket that answers by escaped object names, as GCS does.
use mathlib.Core.Path.{subst}
use mathlib.Core.List.{append_cancel_left, append_cancel_right}
use ortholog_artifact_store.Base.{
  ℕ, ok, sym, ◌∙◌, Text, Bytes, text, text_eq, text_eq_iff, Bool-cases, some-injective, Result,
  Bool, true, false, Option, Option-cases, none, some, [], ◌∷◌, ◌++◌, ◌≡◌, ◌⊎◌, inl, inr, refl,
  arith, if◌then◌else◌, Lacks,
}
use ortholog_artifact_store.Base.Dict.{Dict, lookup, insert, lookup-insert}
use ortholog_artifact_store.Base.Urls.{path_escape}
use ortholog_artifact_store.Base.Urls.Unescape.{IsBytes, path_escape-injective}
use ortholog_artifact_store.Transport.{HttpRequest, HttpResponse, Client}
use ortholog_artifact_store.Backends.Provider.{IsContentStore}
use ortholog_artifact_store.Backends.Gcs
use ortholog_artifact_store.Backends.Gcs.Contract
use ortholog_artifact_store.Backends.Gcs.Statuses.{gcs_outage}
use ortholog_artifact_store.Backends.Sending.Outage.{Fails}
use ortholog_artifact_store.Tests.Letters.{
  letter, letters, letter-injective, reply, found, epoch, Has,
}

-- The client of a configuration is known before its service: the URLs do not depend on it.
abbrev settings : (C : Client Bytes) → Gcs.GcsConfig C
settings C = record {
  bucket = text "art";
  prefix = text "x/";
  token_func = none;
  url_signer = none;
  base_url = [];
}

abbrev silent : Client Bytes
silent = record {
  State = Dict Bytes;
  new_request = λ m u. none;
  send = λ r s. (reply 503 [] none, s);
}

abbrev upload_of : Text → Text
upload_of = Gcs.api_url letters silent epoch (settings silent)

abbrev object_of : Text → Text
object_of = Gcs.object_url letters silent epoch (settings silent)

abbrev media_of : Text → Text
media_of = Gcs.media_url letters silent epoch (settings silent)

-- The object among the two that has the URL.
abbrev named : (Text → Text) → Text → Option Text
named f url =
    if text_eq url (f (text "x/a"))
    then some (text "x/a")
    else if text_eq url (f (text "x/b"))
    then some (text "x/b")
    else none

-- Its metadata are answered too, with a body that breaks off.
abbrev read_at : Option Text → Option Text → Dict Bytes → Result Text HttpResponse
read_at (some o) object s = found (lookup o s) none
read_at none (some o) s = found (lookup o s) (some (text "reset"))
read_at none none s = reply 404 [] none

abbrev stored :
    Bool → Option Text → Option Bytes → Dict Bytes → Result Text HttpResponse × Dict Bytes
stored true (some o) (some d) s = (reply 200 [] none, insert o d s)
stored post upload body s = (reply 400 [] none, s)

abbrev send : HttpRequest Bytes → Dict Bytes → Result Text HttpResponse × Dict Bytes
send r s =
    if text_eq r.method (text "POST")
    then stored true (named upload_of r.url) r.body s
    else (read_at (named media_of r.url) (named object_of r.url) s, s)

abbrev gcs : Client Bytes
gcs = record { State = Dict Bytes; new_request = λ m u. none; send = send }

named-found : (f : Text → Text) (url o : Text) → named f url ≡ some o → (url ≡ f o) × IsBytes o
named-found f url o h = elim (Bool-cases (text_eq url (f (text "x/a")))) [
  | inl first ↦
      subst (λ t. (url ≡ f t) × IsBytes t) (some-injective (rw first at h))
        (
          (text_eq_iff url (f (text "x/a"))).0 first,
          (omega arith, (omega arith, (omega arith, tt))),
        )
  | inr other ↦ elim (Bool-cases (text_eq url (f (text "x/b")))) [
    | inl second ↦
        subst (λ t. (url ≡ f t) × IsBytes t) (some-injective (rw (other, second) at h))
          (
            (text_eq_iff url (f (text "x/b"))).0 second,
            (omega arith, (omega arith, (omega arith, tt))),
          )
    | inr neither ↦ absurd (ground (arith, (rw (other, neither) at h)))
  ]
]

path_escape-Lacks : (o : Text) → IsBytes o → Lacks b'?' (path_escape o)
unfolding path_escape
path_escape-Lacks [] h = tt
path_escape-Lacks (c ∷ o) (hc, ho) = ground (arith, path_escape-Lacks o ho)

object_of-injective : (n o : Text) → IsBytes n → IsBytes o → object_of n ≡ object_of o → n ≡ o
unfolding Gcs.object_url
object_of-injective n o hn ho e = path_escape-injective n o hn ho (
    append_cancel_left (text "/o/") _ _
      (append_cancel_left (text "https://storage.googleapis.com/storage/v1/b/art") _ _ e))

media_of-injective : (n o : Text) → IsBytes n → IsBytes o → media_of n ≡ media_of o → n ≡ o
unfolding Gcs.media_url
media_of-injective n o hn ho e =
    object_of-injective n o hn ho (append_cancel_right _ _ (text "?alt=media") e)

Lacks-found : (b : ℕ) (s t : Text) → Lacks b (s ++ b ∷ t) → ⊥
Lacks-found b [] t h = ground arith
Lacks-found b (c ∷ s) t (hc, h) = Lacks-found b s t h

-- The reply at an object's URL.
found-some :
    (x : Option Bytes) (a : HttpResponse)
    → found x (some (text "reset")) ≡ ok a
    → a.status ≡ 200
    → (d : Bytes) × (x ≡ some d)
found-some none a got good = absurd (ground arith)
found-some (some d) a got good = (d, refl)

broken :
    (x : Option Text) (s : Dict Bytes) (a : HttpResponse)
    → read_at none x s ≡ ok a
    → a.status ≡ 200
    → a.body.failure ≡ none
    → ⊥
broken x s a got good whole = ground arith

letter-IsBytes : (c : Bool) → IsBytes (letter c)
letter-IsBytes true = (omega arith, tt)
letter-IsBytes false = (omega arith, tt)

-- A media URL has a query, and an object URL has none.
media_of-object_of : (n o : Text) → IsBytes o → (named media_of (object_of o) ≡ some n) → ⊥
unfolding Gcs.media_url Gcs.object_url path_escape
media_of-object_of n o ho h =
    let (at, hn) = named-found media_of (object_of o) n h in
    Lacks-found b'?' (path_escape n) (text "alt=media") (
      subst (Lacks b'?')
        (append_cancel_left (text "/o/") _ _
          (append_cancel_left (text "https://storage.googleapis.com/storage/v1/b/art") _ _ at))
        (path_escape-Lacks o ho))

at_name :
    (f : Text → Text) (u o n : Text)
    → ((n o : Text) → IsBytes n → IsBytes o → f n ≡ f o → n ≡ o)
    → IsBytes o
    → u ≡ f o
    → named f u ≡ some n
    → n ≡ o
at_name f u o n injective ho at h =
    let (at', hn) = named-found f u n h in injective n o hn ho (sym at' ∙ at)

stored-adds :
    (o' : Option Text) (b : Option Bytes) (s : Dict Bytes) (o : Text) (d : Bytes)
    → Has (stored true o' b s).1 o d
    → Has s o d ⊎ ((o' ≡ some o) × (b ≡ some d))
stored-adds (some n) (some d') s o d h = ground (arith, lookup-insert n o d' s, text_eq_iff n o)
stored-adds none b s o d h = inl h
stored-adds (some n) none s o d h = inl h

send-adds :
    (r : HttpRequest Bytes) (s : Dict Bytes) (o : Text) (d : Bytes)
    → Has (send r s).1 o d
    → Has s o d ⊎ Contract.Uploads letters gcs epoch (settings gcs) r.method r.url r.body o d
unfolding Gcs.api_url
send-adds r s o d h = elim (Bool-cases (text_eq r.method (text "POST"))) [
  | inr other ↦ inl (rw other at h)
  | inl post ↦ elim (stored-adds (named upload_of r.url) r.body s o d (rw post at h)) [
    | inl old ↦ inl old
    | inr (at, whole) ↦
        inr
          ((text_eq_iff r.method (text "POST")).0 post, (named-found upload_of r.url o at).0, whole)
  ]
]

stored-puts :
    (x : Option Text) (b : Option Bytes) (s : Dict Bytes) (o : Text) (d : Bytes) (a : HttpResponse)
    → b ≡ some d
    → ((n : Text) → x ≡ some n → n ≡ o)
    → (stored true x b s).0 ≡ ok a
    → (a.status ≡ 200) ⊎ (a.status ≡ 201)
    → Has (stored true x b s).1 o d
stored-puts none b s o d a whole at got good = absurd (ground arith)
stored-puts (some n) b s o d a whole at got good =
    rw (whole, at n refl) (ground (arith, lookup-insert o o d s, text_eq_iff o o))

upload-stores :
    (r : HttpRequest Bytes) (s : Dict Bytes) (o : Text) (d : Bytes) (a : HttpResponse)
    → IsBytes o
    → Contract.Uploads letters gcs epoch (settings gcs) r.method r.url r.body o d
    → (send r s).0 ≡ ok a
    → (a.status ≡ 200) ⊎ (a.status ≡ 201)
    → Has (send r s).1 o d
unfolding Gcs.api_url
upload-stores r s o d a ho (post, at, whole) got good =
    let posted = (text_eq_iff r.method (text "POST")).1 post in
    rw (posted, send)
      (stored-puts (named upload_of r.url) r.body s o d a whole
        (λ n h.
          at_name upload_of r.url o n
            (Contract.api_url-injective letters silent epoch (settings silent)) ho at h)
        (rw (posted, send) at got) good)

found_whole :
    (x : Option Bytes) (a : HttpResponse)
    → found x none ≡ ok a
    → a.status ≡ 200
    → x ≡ some a.body.bytes
found_whole x a got good = ground arith

read_only : (m : Text) → m ≡ text "GET" → text_eq m (text "POST") ≡ false
unfolding text_eq
read_only m get = rw get refl

media-returns :
    (r : HttpRequest Bytes) (s : Dict Bytes) (o : Text) (a : HttpResponse)
    → IsBytes o
    → r.method ≡ text "GET"
    → r.url ≡ media_of o
    → (send r s).0 ≡ ok a
    → a.status ≡ 200
    → a.body.failure ≡ none
    → Has s o a.body.bytes
media-returns r s o a ho get at got good whole = elim (Option-cases (named media_of r.url)) [
  | inr (n, is) ↦
      subst (λ t. Has s t a.body.bytes) (at_name media_of r.url o n media_of-injective ho at is)
        (found_whole (lookup n s) a (rw (read_only r.method get, is) at got) good)
  | inl missing ↦
      absurd (
        broken (named object_of r.url) s a (rw (read_only r.method get, missing) at got) good whole)
]

object-exists :
    (r : HttpRequest Bytes) (s : Dict Bytes) (o : Text) (a : HttpResponse)
    → IsBytes o
    → r.method ≡ text "GET"
    → r.url ≡ object_of o
    → (send r s).0 ≡ ok a
    → a.status ≡ 200
    → (d : Bytes) × Has s o d
object-exists r s o a ho get at got good = elim (Option-cases (named media_of r.url)) [
  | inr (n, is) ↦ absurd (media_of-object_of n o ho (subst (λ u. named media_of u ≡ some n) at is))
  | inl missing ↦ elim (Option-cases (named object_of r.url)) [
    | inl neither ↦ absurd (ground (arith, (rw (read_only r.method get, missing, neither) at got)))
    | inr (n, is) ↦
        subst (λ t. (d : Bytes) × Has s t d)
          (at_name object_of r.url o n object_of-injective ho at is)
          (found-some (lookup n s) a (rw (read_only r.method get, missing, is) at got) good)
  ]
]

gcs-IsBucket : Contract.IsBucket letters gcs epoch (settings gcs) Has
unfolding Gcs.media_url Gcs.object_url
gcs-IsBucket = record {
  send_adds = send-adds;
  upload_stores = λ r s o d a ho u got good. upload-stores r s o d a ho u got good;
  media_returns = media-returns;
  object_exists = object-exists;
  token_keeps = λ f s o d given h. absurd (ground (arith, given));
  sign_keeps = λ f b p e s o d given h. absurd (ground (arith, given));
}

gcs-IsContentStore_example :
    IsContentStore
      (Gcs.gcs_backend letters gcs epoch (settings gcs))
      (Contract.Holds letters gcs epoch (settings gcs) Has gcs-IsBucket)
gcs-IsContentStore_example =
    Contract.gcs-IsContentStore letters gcs epoch (settings gcs) Has gcs-IsBucket
      (omega arith, (omega arith, tt)) letter-IsBytes letter-injective

gcs_outage_example :
    Fails (Gcs.push letters silent epoch (settings silent) true (text "data") []).0
    × Fails (Gcs.fetch letters silent epoch (settings silent) true []).0
    × Fails (Gcs.delete letters silent epoch (settings silent) true []).0
    × Fails (Gcs.healthy letters silent epoch (settings silent) []).0
    × ((Gcs.exists letters silent epoch (settings silent) true []).0 ≡ ok false)
    × ((Gcs.pin letters silent epoch (settings silent) true []).0 ≡ ok tt)
unfolding Gcs.prepare
gcs_outage_example =
    gcs_outage letters silent epoch (settings silent)
      (record {
        makes = λ m u. refl;
        prepares = λ op r s. (r.headers, refl);
        answers = λ r s.
            (record { status = 503; body = record { bytes = []; failure = none } }, refl, refl);
      })
      true (text "data") []
