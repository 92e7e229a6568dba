-- ===== src/Tests/S3Bucket.antt =====
-- A bucket that answers by object URLs, as S3 does.
use ortholog_artifact_store.Base.{
  ℕ, ok, sym, ◌∙◌, Text, Bytes, text, text_eq, text_eq_iff, text_apart, index_byte, Result, Bool,
  true, false, Option, none, some, [], ◌≡◌, ◌⊎◌, inl, inr, refl, arith, if◌then◌else◌,
}
use ortholog_artifact_store.Base.Dict.{Dict, lookup, insert, lookup-insert}
use ortholog_artifact_store.Transport.{HttpRequest, HttpResponse, Client}
use ortholog_artifact_store.Backends.Provider.{IsContentStore}
use ortholog_artifact_store.Backends.RustFs
use ortholog_artifact_store.Backends.RustFs.Contract
use ortholog_artifact_store.Backends.RustFs.Statuses.{rustfs_outage}
use ortholog_artifact_store.Backends.Sending.Outage.{Fails}
use ortholog_artifact_store.Tests.Letters.{letters, letter-injective, reply, found, epoch, Has}

abbrev stored : Bool → Option ℕ → Option Bytes → Text → Dict Bytes → Dict Bytes
stored true none (some d) url s = insert url d s
stored put query body url s = s

-- A PUT with no query stores its body at its URL; a GET or a HEAD reads there.
abbrev send : HttpRequest Bytes → Dict Bytes → Result Text HttpResponse × Dict Bytes
send r s =
    let put = text_eq r.method (text "PUT") in
    (
      if put then reply 200 [] none else found (lookup r.url s) none,
      stored put (index_byte r.url b'?') r.body r.url s,
    )

abbrev s3 : Client Bytes
s3 = record { State = Dict Bytes; new_request = λ m u. none; send = send }

abbrev settings : RustFs.RustFsConfig s3
settings = record {
  endpoint = text "http://s3";
  bucket = text "art";
  region = text "eu";
  prefix = text "x/";
  path_style = false;
  request_signer = none;
  url_signer = none;
}

stored-adds :
    (put : Bool) (query : Option ℕ) (body : Option Bytes) (url : Text) (s : Dict Bytes) (o : Text)
    (d : Bytes)
    → Has (stored put query body url s) o d
    → Has s o d ⊎ ((put ≡ true) × (url ≡ o) × (query ≡ none) × (body ≡ some d))
stored-adds true none (some d') url s o d h =
    ground (arith, lookup-insert url o d' s, text_eq_iff url o)
stored-adds false query body url s o d h = inl h
stored-adds true (some i) body url s o d h = inl h
stored-adds true none none url s o d h = inl h

send-adds :
    (r : HttpRequest Bytes) (s : Dict Bytes) (o : Text) (d : Bytes)
    → Has (send r s).1 o d
    → Has s o d ⊎ Contract.Uploads r.method r.url r.body o d
send-adds r s o d h =
    elim (stored-adds (text_eq r.method (text "PUT")) (index_byte r.url b'?') r.body r.url s o d
      h) [
        | inl old ↦ inl old
        | inr (put, at, plain, whole) ↦
            inr ((text_eq_iff r.method (text "PUT")).0 put, at, plain, whole)
      ]

put-stores :
    (m u : Text) (h : Dict Text) (b : Option Bytes) (s : Dict Bytes) (o : Text) (d : Bytes)
    → Contract.Uploads m u b o d
    → Has (send (record { method = m; url = u; headers = h; body = b }) s).1 o d
put-stores m u h b s o d (put, at, plain, whole) =
    rw ((text_eq_iff m (text "PUT")).1 put, plain, whole)
      (ground (arith, lookup-insert u o d s, text_eq_iff u o))

found_whole :
    (x : Option Bytes) (a : HttpResponse)
    → found x none ≡ ok a
    → a.status ≡ 200
    → x ≡ some a.body.bytes
found_whole x a got good = ground arith

read-found :
    (r : HttpRequest Bytes) (s : Dict Bytes) (a : HttpResponse)
    → (r.method ≡ text "PUT" → ⊥)
    → (send r s).0 ≡ ok a
    → a.status ≡ 200
    → Has s r.url a.body.bytes
read-found r s a other got good =
    found_whole (lookup r.url s) a (ground (arith, text_eq_iff r.method (text "PUT"))) good

read_only : (m n : Text) → text_eq n (text "PUT") ≡ false → m ≡ n → m ≡ text "PUT" → ⊥
read_only m n other at put = text_apart n (text "PUT") other (sym at ∙ put)

s3-IsBucket : Contract.IsBucket s3 settings Has
unfolding text_eq
s3-IsBucket = record {
  send_adds = send-adds;
  upload_stores = λ r s o d a u got good. put-stores r.method r.url r.headers r.body s o d u;
  get_returns = λ r s a m plain got good whole.
      read-found r s a (read_only r.method (text "GET") refl m) got good;
  head_exists = λ r s a m plain got good.
      (a.body.bytes, read-found r s a (read_only r.method (text "HEAD") refl m) got good);
  request_sign_keeps = λ f r s o d given h. absurd (ground (arith, given));
  url_sign_keeps = λ f b p e s o d given h. absurd (ground (arith, given));
}

url-IsPlain : (c : Bool) → Contract.IsPlain (RustFs.object_url letters s3 epoch settings c)
unfolding RustFs.object_url index_byte
url-IsPlain true = refl
url-IsPlain false = refl

rustfs-IsContentStore_example :
    IsContentStore
      (RustFs.rustfs_backend letters s3 epoch settings)
      (Contract.Holds letters s3 epoch settings Has s3-IsBucket)
rustfs-IsContentStore_example =
    Contract.rustfs-IsContentStore letters s3 epoch settings Has s3-IsBucket url-IsPlain
      letter-injective

-- The service is down.
abbrev down : Client Bytes
down = record {
  State = Dict Bytes;
  new_request = λ m u. none;
  send = λ r s. (reply 503 [] none, s);
}

abbrev down_settings : RustFs.RustFsConfig down
down_settings = record {
  endpoint = text "http://s3";
  bucket = text "art";
  region = text "eu";
  prefix = text "x/";
  path_style = true;
  request_signer = none;
  url_signer = none;
}

rustfs_outage_example :
    Fails (RustFs.push letters down epoch down_settings true (text "data") []).0
    × Fails (RustFs.fetch letters down epoch down_settings true []).0
    × Fails (RustFs.delete letters down epoch down_settings true []).0
    × Fails (RustFs.healthy letters down epoch down_settings []).0
    × ((RustFs.exists letters down epoch down_settings true []).0 ≡ ok false)
    × ((RustFs.pin letters down epoch down_settings true []).0 ≡ ok tt)
unfolding RustFs.sign_request
rustfs_outage_example =
    rustfs_outage letters down epoch down_settings
      (record {
        makes = λ m u. refl;
        prepares = λ op r s. (r.headers, refl);
        answers = λ r s.
            (record { status = 503; body = record { bytes = []; failure = none } }, refl, refl);
      })
      true (text "data") []
