-- ===== src/Prelude/Outcome.antt =====
-- What a C call comes to, and chains of such calls.
use advanced_oslab.Prelude.Tests.{if◌then◌else◌}
use mathlib.Core.Bool.{Bool}
use mathlib.Core.Option.{Option, none, some}

-- `aborted`: an `assert` failed, or an exception was not caught. `undefined`: an index out of bounds, or
-- a NULL pointer followed.
-- `spins`: it waits for a lock that it holds itself. `exited`: it called `exit`.
pub data Outcome {ℓ} (A : Type ℓ) : Type ℓ where
  ok : A → Outcome A
  aborted : Outcome A
  undefined : Outcome A
  spins : Outcome A
  exited : Outcome A

infixl 5 ◌>>=◌ ◌>>◌
abbrev pub ◌>>=◌ {ℓ κ} : {A : Type ℓ} {B : Type κ} → Outcome A → (A → Outcome B) → Outcome B
ok a >>= f = f a
aborted >>= f = aborted
undefined >>= f = undefined
spins >>= f = spins
exited >>= f = exited

abbrev pub ◌>>◌ {ℓ} : {B : Type ℓ} → Outcome (Unit {0}) → Outcome B → Outcome B
m >> k = m >>= λ _. k

-- `assert (b)`, and the condition under which an access is defined.
abbrev pub assert : Bool → Outcome (Unit {0})
assert b = if b then ok tt else aborted

abbrev pub defined : Bool → Outcome (Unit {0})
defined b = if b then ok tt else undefined

-- A pointer that may be NULL, followed.
abbrev pub deref {ℓ} : {A : Type ℓ} → Option A → Outcome A
deref none = undefined
deref (some a) = ok a
