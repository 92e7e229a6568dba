-- ===== src/Base/Results.antt =====
-- A Go function that returns `(value, error)`, as a value. An error of type `E` ends the chain.
use mathlib.Core.Path.{◌≡◌, refl, ap}
use mathlib.Core.Logic.{◌⊎◌, inl, inr}

pub data Result {ℓ κ} (E : Type ℓ) (A : Type κ) : Type (ℓ ⊔ κ) where
  ok : A → Result E A
  err : E → Result E A

pub Result-cases {ℓ κ} :
    {E : Type ℓ} {A : Type κ} (r : Result E A) → ((a : A) × (r ≡ ok a)) ⊎ ((e : E) × (r ≡ err e))
Result-cases (ok a) = inl (a, refl)
Result-cases (err e) = inr (e, refl)

abbrev pub ◌>>=◌ {ℓ κ μ} :
    {D : Type ℓ} {E : Type κ} {F : Type μ} → Result D E → (E → Result D F) → Result D F
err z >>= rest = err z
ok x >>= rest = rest x

infixl 5 ◌>>=◌
abbrev pub map_ok {ℓ κ μ} :
    {E : Type ℓ} {A : Type κ} {B : Type μ} → (A → B) → Result E A → Result E B
map_ok f (ok a) = ok (f a)
map_ok f (err e) = err e

-- The error of a Go call, translated on the way out.
abbrev pub map_err {ℓ κ μ} :
    {D : Type ℓ} {E : Type κ} {A : Type μ} → (D → E) → Result D A → Result E A
map_err f (ok a) = ok a
map_err f (err e) = err (f e)

-- A disjunction, side by side.
abbrev pub map_either {ℓ κ μ ν} :
    {A : Type ℓ} {B : Type κ} {C : Type μ} {D : Type ν} → (A → C) → (B → D) → A ⊎ B → C ⊎ D
map_either f g (inl a) = inl (f a)
map_either f g (inr b) = inr (g b)

-- The parts of a chain that has succeeded.
pub >>=-eq-ok {ℓ κ μ} :
    {D : Type ℓ} {E : Type κ} {F : Type μ} (first : Result D E) (rest : E → Result D F) {result : F}
    → (first >>= rest) ≡ ok result
    → (x : E) × (first ≡ ok x) × (rest x ≡ ok result)
>>=-eq-ok (err z) rest e = cc
>>=-eq-ok (ok x) rest e = (x, refl, e)

pub map_err-eq-ok {ℓ κ μ} :
    {D : Type ℓ} {E : Type κ} {A : Type μ} (f : D → E) (r : Result D A) {a : A}
    → map_err f r ≡ ok a
    → r ≡ ok a
map_err-eq-ok f (ok a) h = cc
map_err-eq-ok f (err e) h = cc

abbrev value_or {ℓ κ} : {E : Type ℓ} {A : Type κ} → A → Result E A → A
value_or d (ok a) = a
value_or d (err e) = d

pub ok-injective {ℓ κ} :
    {E : Type ℓ} {A : Type κ} {a b : A} → ◌≡◌ {A = Result E A} (ok a) (ok b) → a ≡ b
ok-injective {a} h = ap (value_or a) h

pub >>=_ok {ℓ κ μ} :
    {E : Type ℓ} {A : Type κ} {B : Type μ} (m : Result E A) (f : A → Result E B) {a : A} {b : B}
    → m ≡ ok a
    → f a ≡ ok b
    → (m >>= f) ≡ ok b
>>=_ok (ok a) f h k = rw (ok-injective h) k
>>=_ok (err e) f h k = cc
