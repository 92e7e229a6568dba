-- ===== src/OperatorKeys.antt =====
-- cmd/artifact-store/token.go: the operators' keys, read at the start, and the verifier over them.
pub mod Sizes
pub mod Entries
use ortholog_artifact_store.Base.{
  ℕ, zero, suc, ◌+◌, ◌-◌, Text, Bytes, text, text_eq, is_empty, index_byte, has_prefix, contains,
  trim_space, decimal, quote, take, drop, length, Result, ok, err, map_err, ◌>>=◌, Bool, true,
  false, not, ◌&&◌, ◌||◌, Option, none, some, List, [], ◌∷◌, ◌++◌, reverse, leb, ltb, ◌==◌,
  if◌then◌else◌,
}
use ortholog_artifact_store.Base.Dict.{Dict, lookup, insert}
use ortholog_artifact_store.Config.{Config}
use ortholog_artifact_store.Api.Token.{public_key_size, new_ed25519_upload_token_verifier}

-- The decoders that the loader calls: `pem.Decode` (the bytes of the first block), `hex.DecodeString`
-- and `base64.StdEncoding.DecodeString`.
pub record KeyCodec : Type 0 where
  pub pem_decode : Text → Option Bytes
  pub hex_decode : Text → Result Text Bytes
  pub base64_decode : Text → Result Text Bytes

abbrev pub pem_begin : Text
pem_begin = text "-----BEGIN"

-- The bytes of a PEM block: the key is its end.
unfoldable pub pem_key : Option Bytes → Result Text Bytes
unfolding decimal
pem_key none = err (text "PEM decode failed")
pem_key (some b) =
    if length b == public_key_size
    then ok b
    else if leb public_key_size (length b)
    then ok (drop (length b - public_key_size) b)
    else err (text "PEM key too short: " ++ decimal (length b) ++ text " bytes")

unfoldable pub base64_key : Result Text Bytes → Result Text Bytes
unfolding decimal
base64_key (err e) = err (text "neither hex nor base64: " ++ e)
base64_key (ok b) =
    if length b == public_key_size
    then ok b
    else err (text "base64-decoded key is " ++ decimal (length b) ++ text " bytes, want 32")

module _ (K : KeyCodec) where
  -- Sixty-four characters are hex if they can be, and base64 otherwise.
  unfoldable pub hex_or_base64 : Text → Result Text Bytes
  unfolding base64_key
  hex_or_base64 raw =
      if length raw == 64
      then elim (K.hex_decode raw) [ ok b ↦ ok b | err _ ↦ base64_key (K.base64_decode raw) ]
      else base64_key (K.base64_decode raw)

  unfoldable pub decode_trimmed : Text → Result Text Bytes
  unfolding pem_key hex_or_base64 has_prefix
  decode_trimmed raw =
      if is_empty raw
      then err (text "key value is empty")
      else if has_prefix raw pem_begin
      then pem_key (K.pem_decode raw)
      else hex_or_base64 raw

  -- `decodePubKey`
  unfoldable pub decode_pub_key : Text → Result Text Bytes
  unfolding decode_trimmed trim_space
  decode_pub_key raw = decode_trimmed (trim_space raw)

-- `strings.Split(s, ",")`: the text before the first comma, and the rest of the split.
unfoldable pub split_comma : Text → List Text
split_comma [] = [] ∷ []
split_comma (c ∷ s) =
    let rest = split_comma s in
    if c == b',' then [] ∷ rest else elim rest [ [] ↦ (c ∷ []) ∷ [] | t ∷ ts ↦ (c ∷ t) ∷ ts ]

-- The entries that are not blank.
unfoldable pub filter_blank : List Text → List Text
unfolding trim_space
filter_blank [] = []
filter_blank (e ∷ es) =
    let rest = filter_blank es in if is_empty (trim_space e) then rest else e ∷ rest

-- The entry that has been gathered, if it is not blank, before those that follow. The builder
-- `current` is kept in reverse.
unfoldable pub emit : Text → List Text → List Text
unfolding trim_space
emit current rest =
    if is_empty (trim_space (reverse current)) then rest else trim_space (reverse current) ∷ rest

-- The depth is a Go `int` that falls below 0 at an END without its BEGIN.
abbrev pub Depth : Type 0
Depth = ℕ × ℕ

abbrev pub at_top : Depth → Bool
at_top (opened, closed) = opened == closed

abbrev pub step_depth : Text → Depth → Depth
step_depth s (opened, closed) = (
  if has_prefix s (text "-----BEGIN ") then suc opened else opened,
  if has_prefix s (text "-----END ") then suc closed else closed,
)

-- The walk over the characters that splits at commas outside the PEM blocks.
unfoldable pub split_pem : Text → Text → Depth → List Text
unfolding emit has_prefix
split_pem [] current depth = emit current []
split_pem (c ∷ s) current depth =
    let cut = at_top depth && (c == b',') in
    let rest =
      split_pem s (if cut then [] else c ∷ current)
        (if cut then depth else step_depth (c ∷ s) depth) in
    if cut then emit current rest else rest

-- `splitInlineEntries`
unfoldable pub split_inline_entries : Text → List Text
unfolding contains split_comma filter_blank split_pem
split_inline_entries spec =
    if contains spec pem_begin then split_pem spec [] (0, 0) else filter_blank (split_comma spec)

-- `entry %d (kid=%q): …`
abbrev pub entry_error : ℕ → Text → Text → Text
entry_error i kid e = text "entry " ++ decimal i ++ text " (kid=" ++ quote kid ++ text "): " ++ e

-- A key that is registered once.
unfoldable pub register : Text → Text → Bytes → Dict Bytes → Result Text (Dict Bytes)
register duplicate kid key out = elim (lookup kid out) [
  | some _ ↦ err duplicate
  | none ↦ ok (insert kid key out)
]

module _ (K : KeyCodec) where
  -- One entry `kid:encoded` of the list.
  unfoldable pub parse_entry : ℕ → Text → Dict Bytes → Result Text (Dict Bytes)
  unfolding decode_pub_key register index_byte decimal quote trim_space
  parse_entry i entry out = elim (index_byte entry b':') [
    | none ↦ err (text "entry " ++ decimal i ++ text ": missing kid:value separator (':')")
    | some colon ↦
        let kid = trim_space (take colon entry) in
        let encoded = trim_space (drop (suc colon) entry) in
        if is_empty encoded
        then err (entry_error i kid (text "empty key value"))
        else map_err (entry_error i kid) (decode_pub_key K encoded) >>= λ key.
            register (entry_error i kid (text "duplicate kid")) kid key out
  ]

  unfoldable pub parse_entries : ℕ → List Text → Dict Bytes → Result Text (Dict Bytes)
  unfolding parse_entry
  parse_entries i [] out = ok out
  parse_entries i (entry ∷ entries) out =
      parse_entry i entry out >>= λ out'. parse_entries (suc i) entries out'

  -- `parseInlinePubKeys`
  unfoldable pub parse_inline_pub_keys : Text → Result Text (Dict Bytes)
  unfolding parse_entries split_inline_entries
  parse_inline_pub_keys spec = parse_entries 0 (split_inline_entries spec) []

-- An entry of the directory: its name, whether it is a directory, and what `os.ReadFile` gives.
pub record Entry : Type 0 where
  pub name : Text
  pub is_dir : Bool
  pub contents : Result Text Text

abbrev pem_suffix : Text
pem_suffix = text ".pem"

-- `strings.HasSuffix` and `strings.TrimSuffix`, at ".pem"
unfoldable pub is_pem : Text → Bool
unfolding text_eq
is_pem name = leb 4 (length name) && text_eq (drop (length name - 4) name) pem_suffix

abbrev pub kid_of_file : Text → Text
kid_of_file name = take (length name - 4) name

abbrev pub build_error : Text → Text
build_error e = text "config: build verifier: " ++ e

abbrev pub keys_error : Text → Text
keys_error e = text "config: operator pubkeys: " ++ e

abbrev pub listing_error : Text → Text → Text
listing_error dir e = text "read dir " ++ quote dir ++ text ": " ++ e

abbrev pub read_error : Text → Text → Text
read_error path e = text "read " ++ quote path ++ text ": " ++ e

abbrev pub parse_error : Text → Text → Text → Text
parse_error path kid e =
    text "parse " ++ quote path ++ text " (kid=" ++ quote kid ++ text "): " ++ e

-- The verifier's keys.
unfoldable pub verifier_keys : Dict Bytes → Result Text (Option (Dict Bytes))
unfolding new_ed25519_upload_token_verifier
verifier_keys [] = err (text "config: operator pubkeys: no keys loaded")
verifier_keys (k ∷ keys) = do
  out ← map_err build_error (new_ed25519_upload_token_verifier (k ∷ keys))
  ok (some out)

-- Both settings or neither of them is an error.
unfoldable pub check_sources : Config → Result Text (Unit {0})
check_sources cfg =
    if is_empty cfg.operator_pub_keys && is_empty cfg.operator_pub_keys_dir
    then err (
        text "config: ARTIFACT_REQUIRE_UPLOAD_TOKEN="
        ++ cfg.require_upload_token
        ++ text " requires ARTIFACT_OPERATOR_PUBKEYS or ARTIFACT_OPERATOR_PUBKEYS_DIR")
    else if is_empty cfg.operator_pub_keys || is_empty cfg.operator_pub_keys_dir
    then ok tt
    else err (
        text
          "config: ARTIFACT_OPERATOR_PUBKEYS and ARTIFACT_OPERATOR_PUBKEYS_DIR are mutually exclusive; pick one")

-- The directory comes as what `os.ReadDir` gives; `join` is `filepath.Join`.
module _ (K : KeyCodec) (join : Text → Text → Text) where
  unfoldable pub load_file : Text → Entry → Dict Bytes → Result Text (Dict Bytes)
  unfolding decode_pub_key register quote trim_space
  load_file dir e out = do
    raw ← map_err (read_error (join dir e.name)) e.contents
    key ←
        map_err (parse_error (join dir e.name) (kid_of_file e.name))
          (decode_pub_key K (trim_space raw))
    register (text "duplicate kid " ++ quote (kid_of_file e.name) ++ text " in dir " ++ quote dir)
        (kid_of_file e.name) key out

  unfoldable pub load_files : Text → List Entry → Dict Bytes → Result Text (Dict Bytes)
  unfolding load_file is_pem
  load_files dir [] out = ok out
  load_files dir (e ∷ entries) out =
      if e.is_dir || not (is_pem e.name)
      then load_files dir entries out
      else load_file dir e out >>= λ out'. load_files dir entries out'

  -- `loadPubKeysDir`
  unfoldable pub load_pub_keys_dir : Text → Result Text (List Entry) → Result Text (Dict Bytes)
  unfolding load_files quote
  load_pub_keys_dir dir listing =
      map_err (listing_error dir) listing >>= λ entries. load_files dir entries []

  -- The keys, from the one of the two settings that is given.
  unfoldable pub load_keys : Config → (Text → Result Text (List Entry)) → Result Text (Dict Bytes)
  unfolding parse_inline_pub_keys load_pub_keys_dir
  load_keys cfg read_dir =
      if is_empty cfg.operator_pub_keys
      then load_pub_keys_dir cfg.operator_pub_keys_dir (read_dir cfg.operator_pub_keys_dir)
      else parse_inline_pub_keys K cfg.operator_pub_keys

  -- What the policies that want a verifier do.
  unfoldable pub build_configured :
      Config → (Text → Result Text (List Entry)) → Result Text (Option (Dict Bytes))
  unfolding check_sources load_keys verifier_keys
  build_configured cfg read_dir = do
    _ ← check_sources cfg
    keys ← map_err keys_error (load_keys cfg read_dir)
    verifier_keys keys

  -- `buildUploadTokenVerifier`: no keys is no verifier.
  unfoldable pub build_upload_token_verifier :
      Config → (Text → Result Text (List Entry)) → Result Text (Option (Dict Bytes))
  unfolding build_configured quote text_eq
  build_upload_token_verifier cfg read_dir =
      if text_eq cfg.require_upload_token (text "off")
      then ok none
      else if text_eq cfg.require_upload_token (text "optional")
          || text_eq cfg.require_upload_token (text "required")
      then build_configured cfg read_dir
      else err (
          text "config: ARTIFACT_REQUIRE_UPLOAD_TOKEN="
          ++ quote cfg.require_upload_token
          ++ text " (want off|optional|required)")
