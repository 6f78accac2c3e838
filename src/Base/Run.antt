-- ===== src/Base/Run.antt =====
-- What a run of C code comes to: a value, a failed `assert`, undefined behaviour such as an
-- access outside its block, or a wait that never ends.
use mathlib.Core.Bool.{Bool, true, false}

pub data Outcome {ℓ} (A : Type ℓ) : Type ℓ where
  ret : A → Outcome A
  aborts faults blocks exits : Outcome A

infixl 5 ◌>>=◌ ◌>>◌
abbrev pub ◌>>=◌ {ℓ κ} : {A : Type ℓ} {B : Type κ} → Outcome A → (A → Outcome B) → Outcome B
ret a >>= f = f a
aborts >>= f = aborts
faults >>= f = faults
blocks >>= f = blocks
exits >>= f = exits

abbrev pub ◌>>◌ {ℓ} : {B : Type ℓ} → Outcome (Unit {0}) → Outcome B → Outcome B
m >> k = m >>= λ _. k

-- `assert`
abbrev pub check : Bool → Outcome (Unit {0})
check true = ret tt
check false = aborts

-- `assert` in a build that has it, without NDEBUG, or not.
unfoldable pub assert_in : Bool → Bool → Outcome (Unit {0})
assert_in true b = check b
assert_in false b = ret tt
