-- ===== src/Base/Hex.antt =====
-- `hex.EncodeToString`: two digits for each byte.
use Prim.Native.Nat.{ℕ, ◌+◌, ◌-◌, ◌/◌, ◌%◌}
use mathlib.Core.List.{[], ◌∷◌}
use ortholog_artifact_store.Base.Tests.{ltb, if◌then◌else◌}
use ortholog_artifact_store.Base.Texts.{Text, Bytes}

-- The digits `0` to `9` and `a` to `f`.
abbrev pub hex_digit : ℕ → ℕ
hex_digit d = if ltb d 10 then b'0' + d else b'a' + (d - 10)

unfoldable pub hex_encode : Bytes → Text
hex_encode [] = []
hex_encode (b ∷ bs) = hex_digit (b / 16) ∷ hex_digit (b % 16) ∷ hex_encode bs
