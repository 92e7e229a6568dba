-- ===== src/Tests/ToyToken.antt =====
-- A module with one token, which counts its sessions and its keys and refuses to encrypt.
use ortholog_artifact_store.Base.{
  ℕ, Bytes, Text, text, ok, err, Bool, false, List, [], ok-injective, arith, ◌∷◌, ◌≡◌, ◌⊎◌, refl,
  ap, none, ◌++◌,
}
use ortholog_artifact_store.KeyService.{KeyError, key_not_found}
use ortholog_artifact_store.KeyService.Pkcs11.Session.{open_session}
use ortholog_artifact_store.KeyService.Pkcs11.Service.Absent.{absent-outcomes}
use ortholog_artifact_store.KeyService.Calls.{failing, ◌>>=◌}
use ortholog_artifact_store.KeyService.Envelope.{Crypto}
use ortholog_artifact_store.KeyService.Pkcs11.{Pkcs11Ctx, Pkcs11, Pkcs11State, failed}
use ortholog_artifact_store.KeyService.Pkcs11.Service.{
  generate_and_encrypt, wrap_for_recipient, decrypt, delete, rotate,
}
use ortholog_artifact_store.KeyService.Pkcs11.Service.Steady.{Steady}
use ortholog_artifact_store.KeyService.Pkcs11.Service.Sessions.{
  Open, CountsSessions, operations_release,
}
use ortholog_artifact_store.KeyService.Pkcs11.Service.Orphans.{Has, CountsKeys, generate-leaves}
use ortholog_artifact_store.Tests.Letters.{letters}

pub record World : Type 0 where
  pub sessions : List ℕ
  pub keys : List ℕ

abbrev rest : List ℕ → List ℕ
rest [] = []
rest (x ∷ l) = l

abbrev pub ctx : Pkcs11Ctx
ctx = record {
  State = World;
  code_text = λ n. text "code";
  user_already_logged_in = 256;
  object_handle_invalid = 130;
  key_handle_invalid = 96;
  initialize = λ w. (ok tt, w);
  finalize = λ w. (ok tt, w);
  destroy = λ w. w;
  get_slot_list = λ w. (ok (0 ∷ []), w);
  get_token_label = λ n w. (ok (text "t"), w);
  open_session = λ n w. (ok 5, record w { sessions = 5 ∷ w.sessions });
  login = λ h pin w. (ok tt, w);
  logout = λ h w. (ok tt, w);
  close_session = λ h w. (ok tt, record w { sessions = rest w.sessions });
  find_objects_init = λ h t w. (ok tt, w);
  find_objects = λ h n w. (ok w.keys, w);
  find_objects_final = λ h w. (ok tt, w);
  generate_key = λ h t w. (ok 9, record w { keys = 9 ∷ w.keys });
  get_attribute_value = λ h o t w. (ok t, w);
  set_attribute_value = λ h o t w. (ok tt, w);
  encrypt_init = λ h n o w. (ok tt, w);
  encrypt = λ h b w. (err (failed (text "no")), w);
  decrypt_init = λ h n o w. (ok tt, w);
  decrypt = λ h b w. (ok b, w);
  destroy_object = λ h o w. (ok tt, record w { keys = rest w.keys });
}

abbrev crypto : Crypto World
crypto = record {
  aead = record {
    cipher_error = λ k. none;
    aead_nonce_size = 1;
    seal = λ k n p. k ++ p;
    unseal = λ k n c. ok c;
  };
  key_size = 1;
  nonce_size = 1;
  random = λ n s. (ok (3 ∷ []), s);
  PublicKey = Text;
  parse_pub_key = λ t. ok t;
  encrypt_for_node = λ m k s. (ok m, s);
}

abbrev service : Pkcs11
service = record {
  cfg = record {
    module_path = text "m";
    token_label = text "t";
    pin = text "1";
    key_label_prefix = text "artifact-";
  };
  slot_id = 0;
}

calls-Steady : (P : World → Type 0) → Steady ctx crypto P
calls-Steady P = record {
  random = λ n w h. h;
  encrypt_for_node = λ m k w h. h;
  login = λ sh pin w h. h;
  logout = λ sh w h. h;
  find_objects_init = λ sh t w h. h;
  find_objects = λ sh n w h. h;
  find_objects_final = λ sh w h. h;
  get_attribute_value = λ sh oh t w h. h;
  set_attribute_value = λ sh oh t w h. h;
  encrypt_init = λ sh nonce oh w h. h;
  encrypt = λ sh b w h. h;
  decrypt_init = λ sh nonce oh w h. h;
  decrypt = λ sh b w h. h;
}

abbrev open_sessions : World → List ℕ
open_sessions w = w.sessions

abbrev keys_there : World → List ℕ
keys_there w = w.keys

ctx-CountsSessions : CountsSessions ctx crypto service open_sessions
ctx-CountsSessions = record {
  steady = λ l. calls-Steady (Open ctx open_sessions l);
  opened = λ w sh h. ap (λ x. x ∷ w.sessions) (ok-injective h);
  not_opened = λ w e h. absurd (ground arith);
  closes = λ sh l w h. ap rest h;
  generate_key = λ sh t w. refl;
  destroy_object = λ sh oh w. refl;
}

ctx-CountsKeys : CountsKeys ctx crypto service keys_there
ctx-CountsKeys = record {
  steady = λ k. calls-Steady (Has ctx keys_there k);
  open_session = λ w. refl;
  close_session = λ sh w. refl;
  made = λ sh t w oh h. ap (λ x. x ∷ w.keys) (ok-injective h);
  not_made = λ sh t w e h. absurd (ground arith);
  destroys = λ sh oh k w h. ap rest h;
}

-- Another session is open, and there is a key.
abbrev pub start : Pkcs11State World
start = record { world = record { sessions = 4 ∷ []; keys = 8 ∷ [] }; closed = false }

operations_release_example :
    (open_sessions (generate_and_encrypt letters ctx crypto service (text "data") start).1.world
      ≡ 4 ∷ [])
    × (open_sessions (wrap_for_recipient letters ctx crypto service false (text "k") start).1.world
        ≡ 4 ∷ [])
    × (open_sessions (decrypt letters ctx crypto service false (text "ct") start).1.world ≡ 4 ∷ [])
    × (open_sessions (delete letters ctx crypto service false start).1.world ≡ 4 ∷ [])
    × (open_sessions (rotate letters ctx crypto service false (text "ct") start).1.world ≡ 4 ∷ [])
operations_release_example =
    operations_release letters ctx crypto service open_sessions ctx-CountsSessions (text "data")
      false (text "ct") (text "k") start

generate-leaves_example :
    ((x : Bool × Bytes) × (oh : ℕ) × ((generate_and_encrypt letters ctx crypto service
          (text "data")
          start).0
        ≡ ok x)
      × (keys_there (generate_and_encrypt letters ctx crypto service (text "data") start).1.world
          ≡ oh ∷ 8 ∷ []))
    ⊎ ((e : KeyError) × ((generate_and_encrypt letters ctx crypto service (text "data") start).0
          ≡ err e)
        × (keys_there (generate_and_encrypt letters ctx crypto service (text "data") start).1.world
            ≡ 8 ∷ []))
generate-leaves_example =
    generate-leaves letters ctx crypto service keys_there ctx-CountsKeys (text "data") start

-- A token without a key.
abbrev bare : Pkcs11State World
bare = record { world = record { sessions = []; keys = [] }; closed = false }

absent-outcomes_example :
    ((decrypt letters ctx crypto service false (text "ct") bare).0 ≡ err key_not_found)
    × ((wrap_for_recipient letters ctx crypto service false (text "k") bare).0 ≡ err key_not_found)
    × ((delete letters ctx crypto service false bare).0 ≡ ok tt)
unfolding open_session ◌>>=◌ failing
absent-outcomes_example =
    absent-outcomes letters ctx crypto service false (text "ct") (text "k") (text "k") bare 5 refl
      refl (record { begins = refl; finds_none = refl }) refl refl
