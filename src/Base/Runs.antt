-- ===== src/Base/Runs.antt =====
-- What a run of kernel code ends in: a result with the new state, or a panic, which stops the
-- machine. A call that waits for another process is `blocked` where the model has one
-- thread, and `out_of_fuel` is the bound of a loop that the model cut short.

pub data Outcome {ℓ} (A : Type ℓ) : Type ℓ where
  ok : A → Outcome A
  panic : Outcome A
  blocked : Outcome A
  out_of_fuel : Outcome A

infixl 5 ◌>>=◌
abbrev pub ◌>>=◌ {ℓ κ} : {A : Type ℓ} {B : Type κ} → Outcome A → (A → Outcome B) → Outcome B
ok a >>= f = f a
panic >>= f = panic
blocked >>= f = blocked
out_of_fuel >>= f = out_of_fuel
