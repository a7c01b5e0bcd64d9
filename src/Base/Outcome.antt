-- ===== src/Base/Outcome.antt =====
-- Rust's `Result`, with a third outcome for a panic (`expect`, `panic!`, `todo!`).
use mathlib.Core.Path.{◌≡◌, refl}
use mathlib.Core.Bool.{Bool, true, false}
use mathlib.Core.Option.{Option, none, some}

pub data Result {ℓ κ} (E : Type ℓ) (A : Type κ) : Type (ℓ ⊔ κ) where
  ok : A → Result E A
  err : E → Result E A
  panic : Result E A

infixl 5 ◌>>=◌ ◌>>◌
-- `?`: an error or a panic of the first ends the whole
abbrev pub ◌>>=◌ {ℓ κ μ} :
    {E : Type ℓ} {A : Type κ} {B : Type μ} → Result E A → (A → Result E B) → Result E B
panic >>= next = panic
err cause >>= next = err cause
ok value >>= next = next value

abbrev pub ◌>>◌ {ℓ μ} : {E : Type ℓ} {B : Type μ} → Result E (Unit {0}) → Result E B → Result E B
first >> second = first >>= λ done. second

-- `Option::ok_or`
abbrev pub ok_or {ℓ κ} : {E : Type ℓ} {A : Type κ} → Option A → E → Result E A
ok_or none e = err e
ok_or (some a) e = ok a

-- `Result::map_err`, which `?` uses too where it converts an error
abbrev pub map_err {ℓ κ μ} :
    {E : Type ℓ} {F : Type κ} {A : Type μ} → Result E A → (E → F) → Result F A
map_err (ok a) f = ok a
map_err (err e) f = err (f e)
map_err panic f = panic

-- `Option::expect`, `Result::expect`
abbrev pub expect_some {ℓ κ} : {E : Type ℓ} {A : Type κ} → Option A → Result E A
expect_some none = panic
expect_some (some a) = ok a

abbrev pub expect_ok {ℓ κ μ} : {E : Type ℓ} {F : Type κ} {A : Type μ} → Result F A → Result E A
expect_ok (ok a) = ok a
expect_ok (err e) = panic
expect_ok panic = panic

abbrev pub is_ok {ℓ κ} : {E : Type ℓ} {A : Type κ} → Result E A → Bool
is_ok (ok a) = true
is_ok (err e) = false
is_ok panic = false

-- A chain that succeeds has a first step that does.
pub >>=-eq-ok {ℓ κ μ} :
    {E : Type ℓ} {A : Type κ} {B : Type μ} (r : Result E A) (next : A → Result E B) {last : B}
    → (r >>= next) ≡ ok last
    → (first : A) × (r ≡ ok first) × (next first ≡ ok last)
>>=-eq-ok panic next e = cc
>>=-eq-ok (err cause) next e = cc
>>=-eq-ok (ok first) next e = (first, refl, e)

-- The same for a first step that unwraps an option, or that converts its error.
pub expect-bind :
    {E A B : Type 0} (found : Option A) (next : A → Result E B) (b : B)
    → (expect_some found >>= next) ≡ ok b
    → (a : A) × (found ≡ some a) × (next a ≡ ok b)
expect-bind none next b h = cc
expect-bind (some a) next b h = (a, refl, h)

pub expect-ok :
    {E A : Type 0} (found : Option A) (a : A) → expect_some {E = E} found ≡ ok a → found ≡ some a
expect-ok none a h = cc
expect-ok (some b) a h = cc

pub or-bind :
    {E A B : Type 0} (found : Option A) (e : E) (next : A → Result E B) (b : B)
    → (ok_or found e >>= next) ≡ ok b
    → (a : A) × (found ≡ some a) × (next a ≡ ok b)
or-bind none e next b h = cc
or-bind (some a) e next b h = (a, refl, h)

pub convert-bind :
    {E F A B : Type 0} (r : Result E A) (convert : E → F) (next : A → Result F B) (b : B)
    → (map_err r convert >>= next) ≡ ok b
    → (a : A) × (r ≡ ok a) × (next a ≡ ok b)
convert-bind (ok a) convert next b h = (a, refl, h)
convert-bind (err e) convert next b h = cc
convert-bind panic convert next b h = cc
