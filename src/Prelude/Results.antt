-- ===== src/Prelude/Results.antt =====
-- Go's pair of a value and an error, of which exactly one is set.
use mathlib.Core.Path.{◌≡◌, refl}
use mathlib.Core.Logic.{◌⊎◌, inl, inr}
use mathlib.Core.Bool.{Bool, true, false}
use bramble_gate.Prelude.Tests.{if◌then◌else◌}

pub data Result {ℓ κ} (Failure : Type ℓ) (Value : Type κ) : Type (ℓ ⊔ κ) where
  err : Failure → Result Failure Value
  ok : Value → Result Failure Value

module _ {ℓ κ μ} {Failure : Type ℓ} {Value : Type κ} {Next : Type μ} where
  -- `if err != nil { return err }` between two steps.
  infixl 5 ◌>>=◌
  abbrev pub ◌>>=◌ : Result Failure Value → (Value → Result Failure Next) → Result Failure Next
  err failure >>= next = err failure
  ok value >>= next = next value

  pub >>=-eq-ok :
      (first : Result Failure Value) (next : Value → Result Failure Next) {y : Next}
      → (first >>= next) ≡ ok y
      → (value : Value) × (first ≡ ok value) × (next value ≡ ok y)
  >>=-eq-ok (err failure) next same = cc
  >>=-eq-ok (ok value) next same = (value, refl, same)

pub ok-injective {ℓ κ} :
    {Failure : Type ℓ} {Value : Type κ} {x y : Value}
    → ◌≡◌ {A = Result Failure Value} (ok x) (ok y)
    → x ≡ y
ok-injective same = cc

module _ {ℓ κ} {Failure : Type ℓ} {Value : Type κ} where
  -- What a guard that lets a value through says: its test failed, and the value is that of the rest.
  pub guard-eq-ok :
      (test : Bool) (failure : Failure) (rest : Result Failure Value) {value : Value}
      → (if test then err failure else rest) ≡ ok value
      → (test ≡ false) × (rest ≡ ok value)
  guard-eq-ok true failure rest same = cc
  guard-eq-ok false failure rest same = (refl, same)

pub Result-cases {ℓ κ} :
    {Failure : Type ℓ} {Value : Type κ} (r : Result Failure Value)
    → ((failure : Failure) × (r ≡ err failure)) ⊎ ((value : Value) × (r ≡ ok value))
Result-cases (err failure) = inl (failure, refl)
Result-cases (ok value) = inr (value, refl)
