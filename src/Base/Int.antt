-- ===== src/Base/Int.antt =====
-- Go's `int64`: integers with the wrap-around of its sums and products written out.
use Prim.Native.Nat.{ℕ, suc, ◌+◌, ◌-◌, ◌*◌, ◌%◌, ◌≤◌, ◌<◌}
use mathlib.Core.Path.{◌≡◌}
use mathlib.Core.Bool.{Bool, ◌&&◌}
use mathlib.Core.Option.{Option, none, some}
use mathlib.Core.List.{[], ◌∷◌}
use native.Mathlib.Omega.{arith}
use ortholog_artifact_store.Base.Tests.{ltb, leb, ◌==◌, if◌then◌else◌}
use ortholog_artifact_store.Base.Texts.{Text, decimal}

-- `negsuc n` is -(n + 1).
pub data ℤ : Type 0 where
  pos : ℕ → ℤ
  negsuc : ℕ → ℤ

abbrev pub pos_part : ℤ → ℕ
pos_part (pos n) = n
pos_part (negsuc n) = 0

abbrev pub neg_part : ℤ → ℕ
neg_part (pos n) = 0
neg_part (negsuc n) = suc n

abbrev pub sub_ℕ : ℕ → ℕ → ℤ
sub_ℕ a b = if leb b a then pos (a - b) else negsuc (b - a - 1)

infixl 65 ◌+ℤ◌
infixl 70 ◌*ℤ◌
infix 50 ◌≤ℤ◌ ◌<ℤ◌
unfoldable pub ◌+ℤ◌ : ℤ → ℤ → ℤ
a +ℤ b = sub_ℕ (pos_part a + pos_part b) (neg_part a + neg_part b)

unfoldable pub ◌*ℤ◌ : ℤ → ℤ → ℤ
a *ℤ b =
    sub_ℕ (pos_part a * pos_part b + neg_part a * neg_part b)
      (pos_part a * neg_part b + neg_part a * pos_part b)

abbrev pub ◌≤ℤ◌ : ℤ → ℤ → Type 0
a ≤ℤ b = pos_part a + neg_part b ≤ pos_part b + neg_part a

abbrev pub ◌<ℤ◌ : ℤ → ℤ → Type 0
a <ℤ b = pos_part a + neg_part b < pos_part b + neg_part a

abbrev pub ltb_ℤ : ℤ → ℤ → Bool
ltb_ℤ a b = ltb (pos_part a + neg_part b) (pos_part b + neg_part a)

abbrev pub eq_ℤ : ℤ → ℤ → Bool
eq_ℤ a b = (pos_part a + neg_part b) == (pos_part b + neg_part a)

abbrev pub two63 : ℕ
two63 = 9223372036854775808

abbrev pub two64 : ℕ
two64 = 18446744073709551616

-- A 64-bit pattern read as a signed number.
unfoldable pub signed64 : ℕ → ℤ
signed64 r = if ltb r two63 then pos r else negsuc (two64 - 1 - r)

-- The value that an `int64` holds after a computation whose true result is the argument.
unfoldable pub wrap64 : ℤ → ℤ
unfolding signed64
wrap64 (pos n) = signed64 (n % two64)
wrap64 (negsuc n) = signed64 (two64 - 1 - n % two64)

-- `a + b` and `a * b` of type `int64`
unfoldable pub add64 : ℤ → ℤ → ℤ
unfolding wrap64 ◌+ℤ◌
add64 a b = wrap64 (a +ℤ b)

unfoldable pub mul64 : ℤ → ℤ → ℤ
unfolding wrap64 ◌*ℤ◌
mul64 a b = wrap64 (a *ℤ b)

-- `strconv.Itoa` and `%d`
unfoldable pub format_int : ℤ → Text
unfolding decimal
format_int (pos n) = decimal n
format_int (negsuc n) = b'-' ∷ decimal (suc n)

abbrev pub is_digit : ℕ → Bool
is_digit c = leb b'0' c && leb c b'9'

-- The digits of `strconv.ParseInt(s, 10, 64)`, read from the left.
unfoldable pub parse_digits : ℕ → Text → Option ℕ
parse_digits n [] = some n
parse_digits n (c ∷ s) =
    let rest = parse_digits (n * 10 + (c - b'0')) s in if is_digit c then rest else none

unfoldable pub parse_magnitude : Text → Option ℕ
unfolding parse_digits
parse_magnitude [] = none
parse_magnitude (c ∷ s) = parse_digits 0 (c ∷ s)

-- Out of range is an error of `ParseInt`, like a character that is no digit.
abbrev pub in_range_pos : Option ℕ → Option ℤ
in_range_pos none = none
in_range_pos (some n) = if ltb n two63 then some (pos n) else none

abbrev pub in_range_neg : Option ℕ → Option ℤ
in_range_neg none = none
in_range_neg (some n) =
    if n == 0 then some (pos 0) else if leb n two63 then some (negsuc (n - 1)) else none

-- `strconv.ParseInt(s, 10, 64)`, with `none` for an error
unfoldable pub parse_int : Text → Option ℤ
unfolding parse_magnitude
parse_int [] = none
parse_int (c ∷ s) =
    if c == b'+'
    then in_range_pos (parse_magnitude s)
    else if c == b'-'
    then in_range_neg (parse_magnitude s)
    else in_range_pos (parse_magnitude (c ∷ s))

-- What `ParseInt` accepts fits an `int64`.
pub parse_int_range :
    (s : Text) (n : ℤ) → parse_int s ≡ some n → (pos_part n < two63) × (neg_part n ≤ two63)
unfolding parse_int
parse_int_range [] n h = ground arith
parse_int_range (c ∷ s) n h = ground arith

-- A sum or a product that fits is not changed.
pub wrap64_fits : (n : ℕ) → n < two63 → wrap64 (pos n) ≡ pos n
unfolding wrap64
wrap64_fits n h = ground arith
