-- ===== src/Base/Urls.antt =====
-- `url.PathEscape` and `url.QueryEscape` of net/url, on the bytes of a text.
pub mod Unescape
use Prim.Native.Nat.{ℕ, ◌+◌, ◌-◌, ◌/◌, ◌%◌}
use mathlib.Core.Bool.{Bool, true, false, ◌&&◌, ◌||◌}
use mathlib.Core.List.{[], ◌∷◌}
use ortholog_artifact_store.Base.Tests.{ltb, leb, ◌==◌, if◌then◌else◌}
use ortholog_artifact_store.Base.Texts.{Text}

-- The digits `0` to `9` and `A` to `F`.
abbrev pub upper_hex : ℕ → ℕ
upper_hex d = if ltb d 10 then b'0' + d else b'A' + (d - 10)

-- Letters, digits, `-`, `_`, `.` and `~` stand for themselves everywhere.
abbrev pub unreserved : ℕ → Bool
unreserved c =
    (leb b'a' c && leb c b'z')
    || (leb b'A' c && leb c b'Z')
    || (leb b'0' c && leb c b'9')
    || (c == b'-')
    || (c == b'_')
    || (c == b'.')
    || (c == b'~')

-- A path segment keeps `$`, `&`, `+`, `:`, `=` and `@` too.
abbrev pub path_safe : ℕ → Bool
path_safe c =
    unreserved c
    || (c == b'$')
    || (c == b'&')
    || (c == b'+')
    || (c == b':')
    || (c == b'=')
    || (c == b'@')

unfoldable pub path_escape : Text → Text
path_escape [] = []
path_escape (c ∷ s) =
    let rest = path_escape s in
    if path_safe c then c ∷ rest else b'%' ∷ upper_hex (c / 16) ∷ upper_hex (c % 16) ∷ rest

-- In a query a space is a plus sign.
unfoldable pub query_escape : Text → Text
query_escape [] = []
query_escape (c ∷ s) =
    let rest = query_escape s in
    if unreserved c
    then c ∷ rest
    else if c == 32
    then b'+' ∷ rest
    else b'%' ∷ upper_hex (c / 16) ∷ upper_hex (c % 16) ∷ rest
