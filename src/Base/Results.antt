-- ===== src/Base/Results.antt =====
-- The outcome of code that may stop the process: a value, or the way in which it stopped.
use mathlib.Core.Path.{◌≡◌, refl}
use mathlib.Core.Bool.{Bool, true, false}
use native.Mathlib.Omega.{arith}

-- A failed `assert`, a call of `abort`, and an access that C leaves undefined.
pub data Fault : Type 0 where
  assertion aborted undefined : Fault

pub data Outcome {ℓ} (A : Type ℓ) : Type ℓ where
  ok : A → Outcome A
  fail : Fault → Outcome A

-- What follows a step that stopped the process does not happen.
infixl 5 ◌>>=◌
abbrev pub ◌>>=◌ {ℓ κ} : {X : Type ℓ} {Y : Type κ} → Outcome X → (X → Outcome Y) → Outcome Y
fail why >>= next = fail why
ok x >>= next = next x

infixl 5 ◌>>◌
abbrev pub ◌>>◌ {ℓ} : {X : Type ℓ} → Outcome (Unit {0}) → Outcome X → Outcome X
fail why >> next = fail why
ok done >> next = next

-- `assert(b)`; the code is not built with `NDEBUG`.
abbrev pub assert : Bool → Outcome (Unit {0})
assert true = ok tt
assert false = fail Fault.assertion

-- The functions that return `bool` return one of these.
abbrev pub exit_success : Bool
exit_success = false

abbrev pub exit_failure : Bool
exit_failure = true

pub assert-ok : {b : Bool} → assert b ≡ ok tt → b ≡ true
assert-ok {b} h = ground arith

-- Two steps that return: the first has returned, and the second on its result.
pub >>=-eq-ok {ℓ κ} :
    {X : Type ℓ} {Y : Type κ} (first : Outcome X) (next : X → Outcome Y) {y : Y}
    → (first >>= next) ≡ ok y
    → (x : X) × (first ≡ ok x) × (next x ≡ ok y)
>>=-eq-ok (fail why) next done = cc
>>=-eq-ok (ok x) next done = (x, refl, done)

pub ok-injective {ℓ} : {A : Type ℓ} {a b : A} → ok a ≡ ok b → a ≡ b
ok-injective h = cc

-- Code that goes on behind an `assert` and returns, returns without it.
pub assert->>-eq-ok {ℓ} :
    {A : Type ℓ} (b : Bool) (k : Outcome A) {a : A} → (assert b >> k) ≡ ok a → k ≡ ok a
assert->>-eq-ok true k h = h
assert->>-eq-ok false k h = cc
