-- ===== src/Prelude/Outcome.antt =====
-- The outcome of code that may raise: a value, or the exception.
use mathlib.Core.Path.{◌≡◌, refl}
use mathlib.Core.Logic.{◌⊎◌, inl, inr}
use mathlib.Core.Bool.{Bool, true, false}

pub data Result (E A : Type 0) : Type 0 where
  ok : A → Result E A
  err : E → Result E A

module _ {E B : Type 0} where
  infixl 5 ◌>>=◌ ◌>>◌
  abbrev pub ◌>>=◌ : {A : Type 0} → Result E A → (A → Result E B) → Result E B
  err raised >>= then_do = err raised
  ok value >>= then_do = then_do value

  abbrev pub ◌>>◌ : {A : Type 0} → Result E A → Result E B → Result E B
  err raised >> then_do = err raised
  ok _ >> then_do = then_do

-- `if not test: raise e`
abbrev pub guard : {E : Type 0} → Bool → E → Result E (Unit {0})
guard test raised = elim test [ true ↦ ok tt | false ↦ err raised ]

pub Result-cases :
    {E A : Type 0} (r : Result E A) → ((e : E) × (r ≡ err e)) ⊎ ((a : A) × (r ≡ ok a))
Result-cases (ok a) = inr (a, refl)
Result-cases (err e) = inl (e, refl)

pub inj_ok : {E A : Type 0} {x y : A} → ◌≡◌ {A = Result E A} (ok x) (ok y) → x ≡ y
inj_ok h = cc

pub inj_err : {E A : Type 0} {x y : E} → ◌≡◌ {A = Result E A} (err x) (err y) → x ≡ y
inj_err h = cc

pub err_ok {ℓ} :
    {E A : Type 0} {P : Type ℓ} {r : E} {x : A} → ◌≡◌ {A = Result E A} (err r) (ok x) → P
err_ok h = absurd (cc)
