-- ===== src/Base/Texts.antt =====
-- Go strings and byte slices: lists of byte values. A literal is written `text "…"` (ASCII only).
use Prim.Native.Nat.{ℕ, zero, suc, ◌+◌, ◌/◌, ◌%◌}
use Prim.Native.Char.{code}
use Prim.Native.String.{String}
use mathlib.Core.Path.{◌≡◌, refl}
use mathlib.Core.Logic.{◌↔◌}
use mathlib.Core.Bool.{Bool, true, false, ◌&&◌, ◌||◌}
use mathlib.Core.Option.{Option, none, some}
use mathlib.Core.List.{List, [], ◌∷◌, ◌++◌, reverse}
use native.Mathlib.Omega.{arith}
use ortholog_artifact_store.Base.Tests.{ltb, leb, ◌==◌, if◌then◌else◌}
use ortholog_artifact_store.Base.Lists.{length, All}

abbrev pub Bytes : Type 0
Bytes = List ℕ

abbrev pub Text : Type 0
Text = List ℕ

abbrev pub text : String → Text
text String.[] = []
text (String.◌∷◌ c s) = code c ∷ text s

-- `s == t`
unfoldable pub text_eq : Text → Text → Bool
text_eq [] [] = true
text_eq [] (b ∷ t) = false
text_eq (a ∷ s) [] = false
text_eq (a ∷ s) (b ∷ t) = (a == b) && text_eq s t

pub text_eq_iff : (s t : Text) → (text_eq s t ≡ true) ↔ (s ≡ t)
unfolding text_eq
text_eq_iff [] [] = (λ h. refl, λ h. refl)
text_eq_iff [] (b ∷ t) = (λ h. cc, λ h. cc)
text_eq_iff (a ∷ s) [] = (λ h. cc, λ h. cc)
text_eq_iff (a ∷ s) (b ∷ t) = ground (arith, text_eq_iff s t)

-- Texts that are told apart are not equal.
pub text_apart : (s t : Text) → text_eq s t ≡ false → s ≡ t → ⊥
text_apart s t apart same = let found = (text_eq_iff s t).1 same in cc

-- `s == ""`
abbrev pub is_empty : Text → Bool
is_empty [] = true
is_empty (c ∷ s) = false

-- `strings.IndexByte`, with `none` for -1
unfoldable pub index_byte : Text → ℕ → Option ℕ
index_byte [] b = none
index_byte (c ∷ s) b =
    let rest = index_byte s b in
    if c == b then some 0 else elim rest [ none ↦ none | some i ↦ some (suc i) ]

-- `strings.HasPrefix`
unfoldable pub has_prefix : Text → Text → Bool
has_prefix s [] = true
has_prefix [] (b ∷ t) = false
has_prefix (a ∷ s) (b ∷ t) = (a == b) && has_prefix s t

-- `strings.Contains`
unfoldable pub contains : Text → Text → Bool
unfolding has_prefix
contains [] t = is_empty t
contains (a ∷ s) t = has_prefix (a ∷ s) t || contains s t

-- ASCII white space, as `strings.TrimSpace` sees it in a text of ASCII bytes.
abbrev pub is_space : ℕ → Bool
is_space c = (leb 9 c && leb c 13) || (c == 32)

unfoldable pub trim_left : Text → Text
trim_left [] = []
trim_left (c ∷ s) = let rest = trim_left s in if is_space c then rest else c ∷ s

unfoldable pub trim_space : Text → Text
unfolding trim_left
trim_space s = reverse (trim_left (reverse (trim_left s)))

-- `strconv.Itoa` of a number that is not negative. The fuel is the number itself: each round
-- divides by ten.
unfoldable pub decimal_fuel : ℕ → ℕ → Text
decimal_fuel zero n = (48 + n % 10) ∷ []
decimal_fuel (suc f) n =
    let rest = decimal_fuel f (n / 10) ++ ((48 + n % 10) ∷ []) in
    if ltb n 10 then (48 + n) ∷ [] else rest

unfoldable pub decimal : ℕ → Text
unfolding decimal_fuel
decimal n = decimal_fuel n n

-- `%q` of a printable text: quotes and backslashes are escaped.
abbrev pub escape_quotes : Text → Text
escape_quotes [] = []
escape_quotes (c ∷ s) =
    let rest = escape_quotes s in if (c == b'"') || (c == 92) then 92 ∷ c ∷ rest else c ∷ rest

unfoldable pub quote : Text → Text
quote s = b'"' ∷ (escape_quotes s ++ (b'"' ∷ []))

-- No byte of the text is `b`.
abbrev pub Lacks : ℕ → Text → Type 0
Lacks b = All (λ c. (c == b) ≡ false)

-- The first `b` is found where the text before it ends.
pub index_byte-append :
    (b : ℕ) (s t : Text) → Lacks b s → index_byte (s ++ b ∷ t) b ≡ some (length s)
unfolding index_byte
index_byte-append b [] t h = ground arith
index_byte-append b (c ∷ s) t (h, hs) = ground (arith, index_byte-append b s t hs)

-- A text with a `b` in it is found to have one.
pub index_byte-found : (b : ℕ) (s t : Text) → index_byte (s ++ b ∷ t) b ≡ none → ⊥
unfolding index_byte
index_byte-found b [] t h = ground arith
index_byte-found b (c ∷ s) t h = ground (arith, index_byte-found b s t)
