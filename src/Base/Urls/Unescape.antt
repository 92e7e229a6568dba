-- ===== src/Base/Urls/Unescape.antt =====
-- What a server reads back of an escaped text.
use Prim.Native.Nat.{ℕ, ◌+◌, ◌*◌, ◌-◌, ◌/◌, ◌%◌, ◌<◌}
use mathlib.Core.Path.{◌≡◌, refl, sym, ap, ◌∙◌}
use mathlib.Core.Bool.{Bool, true, false, ◌&&◌}
use mathlib.Core.List.{[], ◌∷◌}
use native.Mathlib.Omega.{arith}
use ortholog_artifact_store.Base.Tests.{leb, ◌==◌, if◌then◌else◌}
use ortholog_artifact_store.Base.Lists.{All}
use ortholog_artifact_store.Base.Texts.{Text}
use ortholog_artifact_store.Base.Urls.{upper_hex, path_escape, query_escape}

-- Where a reader stands: between characters, after a percent sign, or after its first digit.
pub data Reader : Type 0 where
  between percent : Reader
  digit : ℕ → Reader

abbrev pub hex_value : ℕ → ℕ
hex_value c = if leb c b'9' then c - b'0' else c - b'A' + 10

-- The reader of a query, where a plus sign is a space, and that of a path.
unfoldable pub unescape_from : Bool → Reader → Text → Text
unescape_from plus r [] = []
unescape_from plus between (c ∷ s) =
    if c == b'%'
    then unescape_from plus percent s
    else (if plus && (c == b'+') then 32 else c) ∷ unescape_from plus between s
unescape_from plus percent (c ∷ s) = unescape_from plus (digit c) s
unescape_from plus (digit h) (c ∷ s) =
    (hex_value h * 16 + hex_value c) ∷ unescape_from plus between s

pub path_unescape : Text → Text
path_unescape = unescape_from false between

pub query_unescape : Text → Text
query_unescape = unescape_from true between

-- Every element is a byte.
abbrev pub IsBytes : Text → Type 0
IsBytes = All (λ c. c < 256)

hex_digits :
    (c : ℕ) → c < 256 → hex_value (upper_hex (c / 16)) * 16 + hex_value (upper_hex (c % 16)) ≡ c
hex_digits c h = ground arith

-- A path segment is read back.
pub path-unescape-escape : (s : Text) → IsBytes s → path_unescape (path_escape s) ≡ s
unfolding path_escape path_unescape unescape_from
path-unescape-escape [] h = refl
path-unescape-escape (c ∷ s) (hc, hs) = ground (arith, hex_digits c hc, path-unescape-escape s hs)

-- So is a query value.
pub query-unescape-escape : (s : Text) → IsBytes s → query_unescape (query_escape s) ≡ s
unfolding query_escape query_unescape unescape_from
query-unescape-escape [] h = refl
query-unescape-escape (c ∷ s) (hc, hs) = ground (arith, hex_digits c hc, query-unescape-escape s hs)

pub path_escape-injective :
    (s t : Text) → IsBytes s → IsBytes t → path_escape s ≡ path_escape t → s ≡ t
path_escape-injective s t hs ht e =
    sym (path-unescape-escape s hs) ∙ ap path_unescape e ∙ path-unescape-escape t ht

pub query_escape-injective :
    (s t : Text) → IsBytes s → IsBytes t → query_escape s ≡ query_escape t → s ≡ t
query_escape-injective s t hs ht e =
    sym (query-unescape-escape s hs) ∙ ap query_unescape e ∙ query-unescape-escape t ht
