-- ===== src/Outcome.antt =====
-- What a Go call gives back: a value, an error value, or a run-time panic (an index or a slice
-- bound out of range); `deadlock` is a call that waits for a mutex its own goroutine holds.

pub data Error : Type 0 where
  too_long no_space no_slot deleted : Error
  io all_pinned : Error
  column_count short_data bad_value : Error
  short_node : Error

pub data Outcome {ℓ} (A : Type ℓ) : Type ℓ where
  ok : A → Outcome A
  err : Error → Outcome A
  panic : Outcome A
  deadlock : Outcome A

infixl 5 ◌>>=◌
abbrev pub ◌>>=◌ {ℓ κ} : {A : Type ℓ} {B : Type κ} → Outcome A → (A → Outcome B) → Outcome B
ok a >>= f = f a
err e >>= f = err e
panic >>= f = panic
deadlock >>= f = deadlock
