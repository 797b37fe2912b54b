-- ===== src/Base/Outcome.antt =====
-- What a call of the code can come to: a value and the new state, or a fault that ends the program.
use Prim.Native.Nat.{ℕ}

-- Undefined behaviour of C++ and calls of `exit` are values; `out_of_fuel` marks a loop of the model
-- that was given too few rounds.
pub data Fault : Type 0 where
  -- a write past the end of an array
  out_of_bounds : Fault
  -- a use of a null pointer
  null_pointer : Fault
  -- a use of an object that is not allocated
  dead_pointer : Fault
  -- `DebugBreak`
  breaks : Fault
  out_of_fuel : Fault
  exits : ℕ → Fault

pub data Outcome {ℓ} (A : Type ℓ) : Type ℓ where
  ok : A → Outcome A
  fault : Fault → Outcome A

-- A stateful computation that may fault.
abbrev pub Prog : Type 0 → Type 0 → Type 0
Prog S A = S → Outcome (A × S)

abbrev pub pure : {S A : Type 0} → A → Prog S A
pure a s = ok (a, s)

abbrev pub abort : {S A : Type 0} → Fault → Prog S A
abort e s = fault e

abbrev pub chain : {S A B : Type 0} → Outcome (A × S) → (A → Prog S B) → Outcome (B × S)
chain (ok (a, s)) f = f a s
chain (fault e) f = fault e

infixl 5 ◌>>=◌ ◌>>◌
abbrev pub ◌>>=◌ : {S A B : Type 0} → Prog S A → (A → Prog S B) → Prog S B
◌>>=◌ m f s = chain (m s) f

abbrev pub ◌>>◌ : {S B : Type 0} → Prog S (Unit {0}) → Prog S B → Prog S B
m >> k = m >>= λ _. k
