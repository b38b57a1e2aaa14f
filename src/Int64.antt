-- ===== src/Int64.antt =====
-- Go's int64: integers, their order, and `uint64(k)` and `int64(w)`.
use agent_db.Prelude.{
  ℕ, suc, ◌+◌, ◌-◌, ◌^◌, ◌%◌, ◌≤◌, ◌<◌, ◌≡◌, Bool, arith, ltb, ◌==◌, if◌then◌else◌,
}

-- `negsuc n` is -(n + 1)
pub data ℤ : Type 0 where
  pos : ℕ → ℤ
  negsuc : ℕ → ℤ

abbrev pub pos_part : ℤ → ℕ
pos_part (pos n) = n
pos_part (negsuc n) = 0

abbrev pub neg_part : ℤ → ℕ
neg_part (pos n) = 0
neg_part (negsuc n) = suc n

infix 50 ◌<ℤ◌ ◌≤ℤ◌
abbrev pub ◌<ℤ◌ : ℤ → ℤ → Type 0
a <ℤ b = pos_part a + neg_part b < pos_part b + neg_part a

abbrev pub ◌≤ℤ◌ : ℤ → ℤ → Type 0
a ≤ℤ b = pos_part a + neg_part b ≤ pos_part b + neg_part a

-- a < b and a == b
abbrev pub ltz : ℤ → ℤ → Bool
ltz a b = ltb (pos_part a + neg_part b) (pos_part b + neg_part a)

abbrev pub eqz : ℤ → ℤ → Bool
eqz a b = (pos_part a + neg_part b) == (pos_part b + neg_part a)

pub eq_of_eqz : (a b : ℤ) → pos_part a + neg_part b ≡ pos_part b + neg_part a → a ≡ b
eq_of_eqz (pos m) (pos n) h = ground arith
eq_of_eqz (pos m) (negsuc n) h = absurd (omega arith)
eq_of_eqz (negsuc m) (pos n) h = absurd (omega arith)
eq_of_eqz (negsuc m) (negsuc n) h = ground arith

-- uint64(k): two's complement
unfoldable pub to_word : ℤ → ℕ
to_word (pos n) = n % 2 ^ 64
to_word (negsuc n) = 2 ^ 64 - 1 - n % 2 ^ 64

-- int64(w)
unfoldable pub of_word : ℕ → ℤ
of_word w = if ltb w (2 ^ 63) then pos w else negsuc (2 ^ 64 - 1 - w)

abbrev pub InRange : ℤ → Type 0
InRange (pos n) = n < 2 ^ 63
InRange (negsuc n) = n < 2 ^ 63

pub of_word-to_word : (k : ℤ) → InRange k → of_word (to_word k) ≡ k
unfolding of_word to_word
of_word-to_word (pos n) h = ground arith
of_word-to_word (negsuc n) h = ground arith

pub to_word-lt : (k : ℤ) → to_word k < 2 ^ 64
unfolding to_word
to_word-lt (pos n) = omega arith
to_word-lt (negsuc n) = omega arith

-- a + b, which wraps
unfoldable pub add64 : ℤ → ℤ → ℤ
add64 a b = of_word ((to_word a + to_word b) % 2 ^ 64)

pub add64-small : (m n : ℕ) → m + n < 2 ^ 63 → add64 (pos m) (pos n) ≡ pos (m + n)
unfolding add64 to_word of_word
add64-small m n h = ground arith

pub add64-wraps :
    (m n : ℕ)
    → m < 2 ^ 63
    → n < 2 ^ 63
    → 2 ^ 63 ≤ m + n
    → add64 (pos m) (pos n) ≡ negsuc (2 ^ 64 - 1 - (m + n))
unfolding add64 to_word of_word
add64-wraps m n hm hn h = ground arith
