-- ===== src/Common/Raising.antt =====
-- The result of code that raises: a value, or the exception that left the function.
use mathlib.Core.Path.{◌≡◌, refl, ap}
use mathlib.Core.Logic.{◌⊎◌, inl, inr}
use mathlib.Core.Bool.{Bool, true, false}

pub data Result {ℓ κ} (E : Type κ) (A : Type ℓ) : Type (ℓ ⊔ κ) where
  err : E → Result E A
  ok : A → Result E A

module _ {ℓ κ μ} {E : Type μ} {A : Type ℓ} {B : Type κ} where
  -- the statements after a call that returned
  infixl 5 ◌>>=◌
  abbrev pub ◌>>=◌ : Result E A → (A → Result E B) → Result E B
  err raised >>= rest = err raised
  ok value >>= rest = rest value

module _ {ℓ μ} {E : Type μ} {B : Type ℓ} where
  infixl 5 ◌>>◌
  abbrev pub ◌>>◌ : Result E (Unit {0}) → Result E B → Result E B
  check >> rest = check >>= λ _. rest

-- `if b: raise e`
abbrev pub raise_if {μ} : {E : Type μ} → Bool → E → Result E (Unit {0})
raise_if true e = err e
raise_if false e = ok tt

pub Result-cases {ℓ κ} :
    {E : Type κ} {A : Type ℓ} (r : Result E A) → ((a : A) × (r ≡ ok a)) ⊎ ((e : E) × (r ≡ err e))
Result-cases (ok a) = inl (a, refl)
Result-cases (err e) = inr (e, refl)

-- A call that returned did so in each of its parts.
pub bind_ok {ℓ κ μ} :
    {E : Type μ} {A : Type ℓ} {B : Type κ} (r : Result E A) {k : A → Result E B} {b : B}
    → (r >>= k) ≡ ok b
    → (a : A) × (r ≡ ok a) × (k a ≡ ok b)
bind_ok (err e) h = cc
bind_ok (ok a) h = (a, refl, h)

-- A test that did not raise, and what follows it.
pub check_ok {ℓ μ} :
    {E : Type μ} {B : Type ℓ} (b : Bool) (e : E) {rest : Result E B} {r : B}
    → (raise_if b e >> rest) ≡ ok r
    → (b ≡ false) × (rest ≡ ok r)
check_ok true e h = cc
check_ok false e h = (refl, h)

abbrev value_or {ℓ μ} : {E : Type μ} {A : Type ℓ} → A → Result E A → A
value_or d (err e) = d
value_or d (ok a) = a

pub ok_inj {ℓ μ} : {E : Type μ} {A : Type ℓ} {a b : A} → ◌≡◌ {A = Result E A} (ok a) (ok b) → a ≡ b
ok_inj {a = a} h = ap (value_or a) h
