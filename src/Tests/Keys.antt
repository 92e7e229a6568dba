-- ===== src/Tests/Keys.antt =====
-- Two operators of the small world, whose keys are thirty-two sevens in two encodings.
use ortholog_artifact_store.Base.{
  ◌*◌, Text, Bytes, text, text_eq, take, length-take, ap, ok-injective, true, Result, ok, err, none,
  List, [], ◌∷◌, ◌++◌, ◌≡◌, refl, arith, length, ◌==◌, if◌then◌else◌, All, Bool, false,
}
use ortholog_artifact_store.Base.Dict.{Dict, lookup, insert}
use ortholog_artifact_store.Config.{Config, read_env}
use ortholog_artifact_store.OperatorKeys.{
  KeyCodec, Entry, parse_inline_pub_keys, split_inline_entries, load_keys,
  build_upload_token_verifier,
}
use ortholog_artifact_store.OperatorKeys.Sizes.{IsHex, Sized, load_keys-Sized, build-off}
use ortholog_artifact_store.OperatorKeys.Entries.{Registered, parse_inline-registers}

-- Thirty-two sevens.
abbrev sevens : Bytes
sevens = text "77777777777777777777777777777777"

-- Hex takes the first half of sixty-four characters; base64 is as it stands.
abbrev toy_keys : KeyCodec
toy_keys = record {
  pem_decode = λ s. none;
  hex_decode = λ s. if length s == 64 then ok (take 32 s) else err (text "invalid length");
  base64_decode = λ s. ok s;
}

hex_half :
    (raw : Text) (b : Bytes) (sized : Bool)
    → (length raw == 64) ≡ sized
    → (if sized then ok (take 32 raw) else err (text "invalid length")) ≡ ok b
    → length raw ≡ 2 * length b
hex_half raw b true sixty_four h =
    ground (arith, length-take 32 raw, ap length (ok-injective {E = Text} h))
hex_half raw b false other h = cc

toy_keys-IsHex : IsHex toy_keys
toy_keys-IsHex raw b h = hex_half raw b (length raw == 64) refl h

abbrev spec : Text
spec = text "a:77777777777777777777777777777777, b :" ++ sevens ++ sevens

abbrev loaded_keys : Dict Bytes
loaded_keys = (text "a", sevens) ∷ (text "b", sevens) ∷ []

loads : parse_inline_pub_keys toy_keys spec ≡ ok loaded_keys
unfolding parse_inline_pub_keys lookup insert text_eq
loads = refl

parse_inline-registers_example : All (Registered toy_keys loaded_keys) (split_inline_entries spec)
parse_inline-registers_example = parse_inline-registers toy_keys spec loaded_keys loads

-- A deployment that wants tokens, and one that does not.
abbrev required : Config
required = record (read_env (λ _. [])) {
  require_upload_token = text "required";
  operator_pub_keys = spec;
}

abbrev off : Config
off = record (read_env (λ _. [])) { require_upload_token = text "off" }

abbrev no_dir : Text → Result Text (List Entry)
no_dir dir = err (text "no such directory")

load_keys-Sized_example : Sized loaded_keys
unfolding load_keys
load_keys-Sized_example =
    load_keys-Sized toy_keys toy_keys-IsHex (λ dir name. dir ++ name) required no_dir loaded_keys
      loads

build-off_example : off.require_upload_token ≡ text "off"
unfolding build_upload_token_verifier
build-off_example = build-off toy_keys (λ dir name. dir ++ name) off no_dir refl
