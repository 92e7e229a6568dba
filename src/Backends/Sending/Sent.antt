-- ===== src/Backends/Sending/Sent.antt =====
-- What a request of a backend has done to the objects that its service holds.
use ortholog_artifact_store.Base.{
  Text, Bytes, Result, Result-cases, Option-cases, ok, map_err-eq-ok, Option, ◌≡◌, ◌⊎◌, inl, inr,
  refl, arith,
}
use ortholog_artifact_store.Base.Dict.{Dict}
use ortholog_artifact_store.Storage.{StoreError}
use ortholog_artifact_store.Transport.{HttpRequest, HttpResponse, Client}
use ortholog_artifact_store.Backends.Sending.{op_error, send_prepared, send_request}

-- `Uploads m u b o d` says that a request of the method `m` to the URL `u` with the body `b` stores
-- the bytes `d` under the name `o`.
module _ (C : Client Bytes)
    (prepare : Text → HttpRequest Bytes → C.State → Result StoreError (Dict Text) × C.State)
    (Uploads : Text → Text → Option Bytes → Text → Bytes → Type 0)
    (Held : C.State → Text → Bytes → Type 0) where
  -- Objects come from uploads alone, and preparing a request uploads nothing.
  pub record AddsByUpload : Type 0 where
    pub send_adds :
        (r : HttpRequest Bytes) (s : C.State) (o : Text) (d : Bytes)
        → Held (C.send r s).1 o d
        → Held s o d ⊎ Uploads r.method r.url r.body o d
    pub prepare_keeps :
        (op : Text) (r : HttpRequest Bytes) (s : C.State) (o : Text) (d : Bytes)
        → Held (prepare op r s).1 o d
        → Held s o d

  -- A request that got its response was sent as it is, but for its headers, from a state that
  -- holds nothing new.
  pub record Sent (r : HttpRequest Bytes) (s : C.State) (a : HttpResponse) (s' : C.State)
      : Type 0 where
    pub headers : Dict Text
    pub from : C.State
    pub answered : (C.send (record r { headers = headers }) from).0 ≡ ok a
    pub after : (C.send (record r { headers = headers }) from).1 ≡ s'
    pub keeps : (o : Text) (d : Bytes) → Held from o d → Held s o d

  module _ (law : AddsByUpload) (op : Text) (r : HttpRequest Bytes) (s : C.State) where
    send_prepared-adds :
        (o : Text) (d : Bytes)
        → Held (send_prepared C prepare op r s).1 o d
        → Held s o d ⊎ Uploads r.method r.url r.body o d
    unfolding send_prepared
    send_prepared-adds o d h = elim (Result-cases (prepare op r s).0) [
      | inr (e, failed) ↦ inl (law.prepare_keeps op r s o d (rw (failed, send_prepared) at h))
      | inl (a, got) ↦
          elim (law.send_adds (record r { headers = a }) _ o d (rw (got, send_prepared) at h)) [
            | inl old ↦ inl (law.prepare_keeps op r s o d old)
            | inr uploaded ↦ inr uploaded
          ]
    ]

    -- A request adds nothing but what it uploads.
    pub send_request-adds :
        (o : Text) (d : Bytes)
        → Held (send_request C prepare op r s).1 o d
        → Held s o d ⊎ Uploads r.method r.url r.body o d
    unfolding send_request
    send_request-adds o d h = elim (Option-cases (C.new_request r.method r.url)) [
      | inl made ↦ send_prepared-adds o d (rw (made, send_request) at h)
      | inr (e, failed) ↦ inl (rw (failed, send_request) at h)
    ]

    -- A request that uploads nothing adds nothing.
    pub send_request-keeps :
        (o : Text) (d : Bytes)
        → (Uploads r.method r.url r.body o d → ⊥)
        → Held (send_request C prepare op r s).1 o d
        → Held s o d
    send_request-keeps o d no_upload h = elim (send_request-adds o d h) [
      | inl old ↦ old
      | inr uploaded ↦ absurd (no_upload uploaded)
    ]

    send_prepared-Sent :
        (a : HttpResponse)
        → (send_prepared C prepare op r s).0 ≡ ok a
        → Sent r s a (send_prepared C prepare op r s).1
    unfolding send_prepared
    send_prepared-Sent a h = elim (Result-cases (prepare op r s).0) [
      | inr (e, failed) ↦ absurd (ground (arith, (rw (failed, send_prepared) at h)))
      | inl (t, got) ↦ record {
        headers = t;
        from = (prepare op r s).1;
        answered = map_err-eq-ok (op_error op) _ (rw (got, send_prepared) at h);
        after = rw (got, send_prepared) refl;
        keeps = law.prepare_keeps op r s;
      }
    ]

    pub send_request-Sent :
        (a : HttpResponse)
        → (send_request C prepare op r s).0 ≡ ok a
        → Sent r s a (send_request C prepare op r s).1
    unfolding send_request
    send_request-Sent a h = elim (Option-cases (C.new_request r.method r.url)) [
      | inl made ↦ rw (made, send_request) (send_prepared-Sent a (rw (made, send_request) at h))
      | inr (e, failed) ↦ absurd (ground (arith, (rw (failed, send_request) at h)))
    ]
