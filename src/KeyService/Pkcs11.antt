-- ===== src/KeyService/Pkcs11.antt =====
-- keyservice/pkcs11_setup.go: the configuration of `PKCS11`, and `github.com/miekg/pkcs11`, a
-- parameter.
pub mod Session
pub mod Setup
pub mod Service
use ortholog_artifact_store.Base.{
  ℕ, Text, Bytes, text, reverse, Result, Bool, true, false, List, [], ◌∷◌, ◌++◌, ◌==◌, ◌||◌,
  if◌then◌else◌,
}
use ortholog_artifact_store.Base.Hex.{hex_encode}
use ortholog_artifact_store.Storage.{Storage}
use ortholog_artifact_store.KeyService.{KeyError, other}
use ortholog_artifact_store.KeyService.Calls.{Calls}

-- `pkcs11.Attribute`, one constructor for each type of attribute that is used.
pub data KeyAttribute : Type 0 where
  secret_key_class aes_key_type : KeyAttribute
  value_len : ℕ → KeyAttribute
  token private sensitive extractable may_encrypt may_decrypt : Bool → KeyAttribute
  label : Text → KeyAttribute
  id value : Bytes → KeyAttribute

-- An error of a call: `pkcs11.Error`, which is a code, or another.
pub data CtxError : Type 0 where
  returned : ℕ → CtxError
  failed : Text → CtxError

-- `pkcs11.Ctx` over the tokens of its module, with the codes that the service tells apart. Session
-- flags, mechanisms and the length of the tag are always the same, and are not arguments.
pub record Pkcs11Ctx : Type 1 where
  pub State : Type 0
  pub code_text : ℕ → Text
  pub user_already_logged_in : ℕ
  pub object_handle_invalid : ℕ
  pub key_handle_invalid : ℕ
  pub initialize : Calls CtxError State (Unit {0})
  pub finalize : Calls CtxError State (Unit {0})
  pub destroy : State → State
  -- the slots that have a token, and the label of a slot's token
  pub get_slot_list : Calls CtxError State (List ℕ)
  pub get_token_label : ℕ → Calls CtxError State Text
  pub open_session : ℕ → Calls CtxError State ℕ
  pub login : ℕ → Text → Calls CtxError State (Unit {0})
  pub logout : ℕ → Calls CtxError State (Unit {0})
  pub close_session : ℕ → Calls CtxError State (Unit {0})
  pub find_objects_init : ℕ → List KeyAttribute → Calls CtxError State (Unit {0})
  pub find_objects : ℕ → ℕ → Calls CtxError State (List ℕ)
  pub find_objects_final : ℕ → Calls CtxError State (Unit {0})
  pub generate_key : ℕ → List KeyAttribute → Calls CtxError State ℕ
  pub get_attribute_value : ℕ → ℕ → List KeyAttribute → Calls CtxError State (List KeyAttribute)
  pub set_attribute_value : ℕ → ℕ → List KeyAttribute → Calls CtxError State (Unit {0})
  -- a session, the nonce, and the key
  pub encrypt_init : ℕ → Bytes → ℕ → Calls CtxError State (Unit {0})
  pub encrypt : ℕ → Bytes → Calls CtxError State Bytes
  pub decrypt_init : ℕ → Bytes → ℕ → Calls CtxError State (Unit {0})
  pub decrypt : ℕ → Bytes → Calls CtxError State Bytes
  pub destroy_object : ℕ → ℕ → Calls CtxError State (Unit {0})

pub record Pkcs11Config : Type 0 where
  pub module_path : Text
  pub token_label : Text
  pub pin : Text
  pub key_label_prefix : Text

-- `PKCS11` without its context and its lock.
pub record Pkcs11 : Type 0 where
  pub cfg : Pkcs11Config
  pub slot_id : ℕ

-- The world behind the context, and whether the context is gone.
pub record Pkcs11State (World : Type 0) : Type 0 where
  pub world : World
  pub closed : Bool

abbrev pub pkcs11_prefix : Text
pkcs11_prefix = text "keyservice/pkcs11"

module _ (M : Pkcs11Ctx) where
  abbrev pub ctx_error_text : CtxError → Text
  ctx_error_text (returned code) = M.code_text code
  ctx_error_text (failed e) = e

  abbrev pub ctx_error : Text → CtxError → Text
  ctx_error op e = pkcs11_prefix ++ (text ": " ++ (op ++ (text ": " ++ ctx_error_text e)))

  abbrev pub call_error : Text → CtxError → KeyError
  call_error op e = other (ctx_error op e)

  -- `errors.As` with a `pkcs11.Error`, and its code.
  abbrev pub has_code : ℕ → CtxError → Bool
  has_code code (returned c) = c == code
  has_code code (failed e) = false

-- `trimNul`
abbrev pub trim_padding : Text → Text
trim_padding [] = []
trim_padding (b ∷ rest) =
    let trimmed = trim_padding rest in if (b == 0) || (b == 32) then trimmed else b ∷ rest

unfoldable pub trim_nul : Text → Text
trim_nul s = reverse (trim_padding (reverse s))

-- `keyLabel`
unfoldable pub key_label : (S : Storage) → Pkcs11 → S.Cid → Text
unfolding hex_encode
key_label S p cid = p.cfg.key_label_prefix ++ hex_encode (S.digest cid)
