-- ===== src/Prelude/Results.antt =====
-- A Go function with an `error` result: the error is its text.
use mathlib.Core.Path.{◌≡◌, refl}
use environment_operator.Prelude.Strings.{Text}

pub data Result {ℓ} (Value : Type ℓ) : Type ℓ where
  err : Text → Result Value
  ok : Value → Result Value

-- `if err != nil { return err }`
infixl 5 ◌>>=◌
abbrev pub ◌>>=◌ {ℓ κ} :
    {Value : Type ℓ} {Next : Type κ} → Result Value → (Value → Result Next) → Result Next
err text >>= next = err text
ok value >>= next = next value

-- What succeeds has run both steps.
pub bind_ok {ℓ κ} :
    {Value : Type ℓ} {Next : Type κ} (first : Result Value) (next : Value → Result Next) {b : Next}
    → (first >>= next) ≡ ok b
    → (a : Value) × (first ≡ ok a) × (next a ≡ ok b)
bind_ok (err text) next h = cc
bind_ok (ok value) next h = (value, refl, h)
