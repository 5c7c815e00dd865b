-- ===== src/Base/Result.antt =====
-- A value or the error that the source throws.
use mathlib.Core.Logic.{◌⊎◌, inl, inr}
use mathlib.Core.Bool.{Bool, true, false}
use penny_protocol.Base.{refl, ◌≡◌}

pub data Result {ℓ κ} (E : Type ℓ) (A : Type κ) : Type (ℓ ⊔ κ) where
  ok : A → Result E A
  err : E → Result E A

infixl 5 ◌>>=◌ ◌>>◌
abbrev pub ◌>>=◌ {ℓ κ μ} :
    {E : Type ℓ} {A : Type κ} {B : Type μ} → Result E A → (A → Result E B) → Result E B
ok a >>= f = f a
err e >>= f = err e

abbrev pub ◌>>◌ {ℓ κ} : {E : Type ℓ} {B : Type κ} → Result E (Unit {0}) → Result E B → Result E B
m >> k = m >>= λ _. k

-- `if (c) throw e`
abbrev pub throw_if {ℓ} : {E : Type ℓ} → Bool → E → Result E (Unit {0})
throw_if true e = err e
throw_if false e = ok tt

pub Result-cases {ℓ κ} :
    {E : Type ℓ} {A : Type κ} (r : Result E A) → ((a : A) × (r ≡ ok a)) ⊎ ((e : E) × (r ≡ err e))
Result-cases (ok a) = inl (a, refl)
Result-cases (err e) = inr (e, refl)

-- A chain that returns has a first step that returned.
pub ok_of_bind {ℓ κ μ} :
    {E : Type ℓ} {A : Type κ} {B : Type μ} (first : Result E A) (next : A → Result E B) (last : B)
    → (first >>= next) ≡ ok last
    → (a : A) × (next a ≡ ok last) × (first ≡ ok a)
ok_of_bind (ok a) next last h = (a, h, refl)
ok_of_bind (err e) next last h = absurd (cc h)

pub ok_of_throw {ℓ κ} :
    {E : Type ℓ} {B : Type κ} (c : Bool) (e : E) (next : Result E B) (last : B)
    → (throw_if c e >> next) ≡ ok last
    → (c ≡ false) × (next ≡ ok last)
ok_of_throw true e next last h = absurd (cc h)
ok_of_throw false e next last h = (refl, h)

pub ok_of_guard {ℓ} :
    {E : Type ℓ} (c : Bool) (e : E) (u : Unit {0}) → throw_if c e ≡ ok u → c ≡ false
ok_of_guard true e u h = absurd (cc h)
ok_of_guard false e u h = refl
