-- ===== src/Common/Calls.antt =====
-- What a C++ call can do: return, throw std::out_of_range, run into undefined behaviour (a null node
-- dereferenced, a write past a stack buffer), or fail an assertion and end the process.

pub data Outcome {ℓ} (A : Type ℓ) : Type ℓ where
  ok : A → Outcome A
  out_of_range : Outcome A
  fault : Outcome A
  aborted : Outcome A

infixl 5 ◌>>=◌
abbrev pub ◌>>=◌ {ℓ κ} : {A : Type ℓ} {B : Type κ} → Outcome A → (A → Outcome B) → Outcome B
ok a >>= f = f a
out_of_range >>= f = out_of_range
fault >>= f = fault
aborted >>= f = aborted
