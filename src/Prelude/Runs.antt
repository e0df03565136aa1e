-- ===== src/Prelude/Runs.antt =====
-- What a run of C++ code comes to: a value, undefined behaviour, or rounds of a loop that go on
-- when the fuel is used up.
use mathlib.Core.Path.{◌≡◌, refl}
use mathlib.Core.Bool.{Bool, true, false}

pub data Outcome {ℓ} (A : Type ℓ) : Type ℓ where
  ok : A → Outcome A
  fault : Outcome A
  out_of_fuel : Outcome A

infixl 5 ◌>>=◌
-- The rest of the code runs on the value; undefined behaviour and an endless loop have no rest.
abbrev pub ◌>>=◌ {ℓ κ} :
    {A : Type ℓ} {B : Type κ} (run : Outcome A) (next : A → Outcome B) → Outcome B
fault >>= next = fault
out_of_fuel >>= next = out_of_fuel
ok value >>= next = next value

-- Behaviour is defined only if the test holds.
abbrev pub require : (test : Bool) → Outcome (Unit {0})
require false = fault
require true = ok tt

infixl 5 ◌>>◌
abbrev pub ◌>>◌ {ℓ} : {B : Type ℓ} (run : Outcome (Unit {0})) (rest : Outcome B) → Outcome B
run >> rest = run >>= λ nothing. rest

-- The run gives a value.
abbrev pub is_ok {ℓ} : {A : Type ℓ} → Outcome A → Bool
is_ok (ok a) = true
is_ok fault = false
is_ok out_of_fuel = false

pub is_ok_lem {ℓ} : {A : Type ℓ} (r : Outcome A) → is_ok r ≡ true → (a : A) × (r ≡ ok a)
is_ok_lem (ok a) h = (a, refl)
is_ok_lem fault h = cc
is_ok_lem out_of_fuel h = cc
