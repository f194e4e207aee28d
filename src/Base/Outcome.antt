-- ===== src/Base/Outcome.antt =====
-- The result of running C code: a value, an access that C leaves undefined, a loop that has used
-- up its fuel, or a wait for a lock that nobody gives back.

pub data Outcome {ℓ} (A : Type ℓ) : Type ℓ where
  ok : A → Outcome A
  fault : Outcome A
  out_of_fuel : Outcome A
  blocked : Outcome A

infixl 5 ◌>>=◌ ◌>>◌
abbrev pub ◌>>=◌ {ℓ κ} : {A : Type ℓ} {B : Type κ} → Outcome A → (A → Outcome B) → Outcome B
ok a >>= k = k a
fault >>= k = fault
out_of_fuel >>= k = out_of_fuel
blocked >>= k = blocked

abbrev pub ◌>>◌ {ℓ κ} : {A : Type ℓ} {B : Type κ} → Outcome A → Outcome B → Outcome B
m >> n = m >>= λ _. n
