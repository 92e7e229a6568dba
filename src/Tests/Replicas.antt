-- ===== src/Tests/Replicas.antt =====
-- Mirrored stores of the small world.
use ortholog_artifact_store.Base.{
  text, ok, err, true, false, ap, arith, text_eq, [], ◌∷◌, ◌≡◌, ◌⊎◌, refl,
}
use ortholog_artifact_store.Base.Dict.{lookup, insert, erase}
use ortholog_artifact_store.Storage.{StoreError, content_not_found, other}
use ortholog_artifact_store.Backends.Provider.{IsContentStore}
use ortholog_artifact_store.Backends.Mirrored.{State, push, fetch, delete, mirrored_store}
use ortholog_artifact_store.Backends.Mirrored.Contract.{Either, mirrored-IsContentStore}
use ortholog_artifact_store.Backends.Mirrored.Outcomes.{
  push_cases, fetch_fails, fetch-delete_mirror_failed, push_replicates,
}
use ortholog_artifact_store.Tests.{toy, memory, Has, memory-IsContentStore, found_or_missing, abc}

-- Both replicas hold `abc`, and the mirror is locked.
abbrev both : State toy (memory false) (memory true)
both = record { primary = (abc, abc) ∷ []; mirror = (abc, abc) ∷ []; log = [] }

-- No replica holds anything.
abbrev blank : State toy (memory false) (memory true)
blank = record { primary = []; mirror = []; log = [] }

mirrored-IsContentStore_example :
    IsContentStore
      (mirrored_store toy (memory false) (memory true))
      (Either toy (memory false) (memory true) Has Has)
mirrored-IsContentStore_example =
    mirrored-IsContentStore toy (memory false) (memory true) Has Has (memory-IsContentStore false)
      (memory-IsContentStore true)

fetch_fails_example :
    ((e' : StoreError) × (((memory false).fetch abc []).0 ≡ err e'))
    × (((memory true).fetch abc []).0 ≡ err content_not_found)
unfolding fetch lookup
fetch_fails_example = fetch_fails toy (memory false) (memory true) abc blank content_not_found refl

fetch-delete_mirror_failed_example :
    ((delete toy (memory false) (memory true) abc both).0 ≡ ok tt)
    × ((fetch toy
          (memory false)
          (memory true)
          abc
          (delete toy (memory false) (memory true) abc both).1).0
        ≡ ok abc)
unfolding fetch delete lookup erase text_eq
fetch-delete_mirror_failed_example =
    fetch-delete_mirror_failed toy (memory false) (memory true) Has Has
      (memory-IsContentStore false) (memory-IsContentStore true) abc abc (other (text "locked"))
      both (λ x h. ground (arith, h)) (λ h. h) (λ t h. ap found_or_missing h) refl refl refl

push_replicates_example :
    Has (push toy (memory false) (memory true) abc abc blank).1.primary abc abc
    × Has (push toy (memory false) (memory true) abc abc blank).1.mirror abc abc
unfolding push lookup insert
push_replicates_example =
    push_replicates toy (memory false) (memory true) Has Has (memory-IsContentStore false)
      (memory-IsContentStore true) abc abc blank refl refl

push_cases_example :
    ((e : StoreError) × (((memory false).push abc abc []).0 ≡ err e)
      × ((push toy (memory false) (memory true) abc abc blank).0 ≡ err e)
      × ((push toy (memory false) (memory true) abc abc blank).1.mirror ≡ blank.mirror))
    ⊎ ((((memory false).push abc abc []).0 ≡ ok tt)
        × ((push toy (memory false) (memory true) abc abc blank).0 ≡ ok tt)
        × ((push toy (memory false) (memory true) abc abc blank).1.mirror
            ≡ ((memory true).push abc abc []).1))
push_cases_example = push_cases toy (memory false) (memory true) abc blank abc
