-- ===== src/Outcome.antt =====
-- How a call of the library ends. `err` and `errx` end the process; a call that waits for a lock
-- which is never released is blocked; undefined behaviour of C is a fault, with its reason.
use plcstub.Base.{◌≡◌, refl, Bool, true, false}

pub data Fault : Type 0 where
  null_pointer : Fault
  out_of_bounds : Fault
  dangling : Fault
  not_locked : Fault
  overflow : Fault

pub data Outcome {ℓ} (A : Type ℓ) : Type ℓ where
  done : A → Outcome A
  exit : Outcome A
  blocked : Outcome A
  fault : Fault → Outcome A

infixl 5 ◌>>=◌ ◌>>◌
abbrev pub ◌>>=◌ {ℓ κ} : {A : Type ℓ} {B : Type κ} → Outcome A → (A → Outcome B) → Outcome B
done a >>= f = f a
exit >>= f = exit
blocked >>= f = blocked
fault e >>= f = fault e

abbrev pub ◌>>◌ {ℓ κ} : {A : Type ℓ} {B : Type κ} → Outcome A → Outcome B → Outcome B
m >> n = m >>= λ _. n

-- What must not be false, or the process ends.
abbrev pub unless_exit : Bool → Outcome (Unit {0})
unless_exit true = done tt
unless_exit false = exit

-- A memory access that must lie in its block.
abbrev pub in_bounds : Bool → Outcome (Unit {0})
in_bounds true = done tt
in_bounds false = fault out_of_bounds

-- Inversion of a bind that ends well.
pub >>=-eq-done {ℓ κ} :
    {A : Type ℓ} {B : Type κ} (m : Outcome A) (f : A → Outcome B) {b : B}
    → (m >>= f) ≡ done b
    → (a : A) × (m ≡ done a) × (f a ≡ done b)
>>=-eq-done (done a) f h = (a, refl, h)
>>=-eq-done exit f h = cc
>>=-eq-done blocked f h = cc
>>=-eq-done (fault e) f h = cc
