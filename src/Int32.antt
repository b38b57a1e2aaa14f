-- ===== src/Int32.antt =====
-- Go's int32: `uint32(k)`, `int32(w)` and the conversion of an int.
use agent_db.Prelude.{ℕ, ◌-◌, ◌^◌, ◌%◌, ◌<◌, ◌≡◌, arith, ltb, if◌then◌else◌}
use agent_db.Int64.{ℤ, pos, negsuc}

-- uint32(k)
unfoldable pub to_word32 : ℤ → ℕ
to_word32 (pos n) = n % 2 ^ 32
to_word32 (negsuc n) = 2 ^ 32 - 1 - n % 2 ^ 32

-- int32(w)
unfoldable pub of_word32 : ℕ → ℤ
of_word32 w = if ltb w (2 ^ 31) then pos w else negsuc (2 ^ 32 - 1 - w)

-- int32(k) of an int
unfoldable pub to_int32 : ℤ → ℤ
unfolding of_word32 to_word32
to_int32 k = of_word32 (to_word32 k)

abbrev pub InRange32 : ℤ → Type 0
InRange32 (pos n) = n < 2 ^ 31
InRange32 (negsuc n) = n < 2 ^ 31

pub of_word32-to_word32 : (k : ℤ) → InRange32 k → of_word32 (to_word32 k) ≡ k
unfolding of_word32 to_word32
of_word32-to_word32 (pos n) h = ground arith
of_word32-to_word32 (negsuc n) h = ground arith

pub to_word32-lt : (k : ℤ) → to_word32 k < 2 ^ 32
unfolding to_word32
to_word32-lt (pos n) = omega arith
to_word32-lt (negsuc n) = omega arith
