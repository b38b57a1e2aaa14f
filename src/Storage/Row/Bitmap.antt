-- ===== src/Storage/Row/Bitmap.antt =====
-- The null bitmap of a row.
use agent_db.Prelude.{
  ℕ, zero, suc, ◌+◌, ◌*◌, ◌/◌, ◌%◌, ◌^◌, ◌≤◌, ◌<◌, ◌≡◌, refl, ap, ◌∙◌, Bool, true, false, arith,
  length, get_or, ltb, ◌==◌,
}
use agent_db.Storage.Row.{bit, bitmap_byte, bitmap, null_bit}

pub length-bitmap : (f : ℕ → Bool) (k n : ℕ) → length (bitmap f k n) ≡ n
unfolding bitmap
length-bitmap f k zero = refl
length-bitmap f k (suc n) = ap suc (length-bitmap f (suc k) n)

get_or-bitmap :
    (f : ℕ → Bool) (k n j : ℕ) → j < n → get_or (bitmap f k n) j 0 ≡ bitmap_byte f (k + j)
unfolding bitmap
get_or-bitmap f k zero j h = absurd (omega arith)
get_or-bitmap f k (suc n) zero h = ap (bitmap_byte f) (omega arith)
get_or-bitmap f k (suc n) (suc j) h =
    get_or-bitmap f (suc k) n j (omega arith) ∙ ap (bitmap_byte f) (omega arith)

bit-le-one : (b : Bool) → bit b ≤ 1
bit-le-one true = omega arith
bit-le-one false = omega arith

bit_back : (b : Bool) → (bit b == 1) ≡ b
bit_back true = refl
bit_back false = refl

abbrev AllBits : (ℕ → Bool) → ℕ → Type 0
AllBits f k =
    (bit (f (8 * k)) ≤ 1)
    × (bit (f (8 * k + 1)) ≤ 1)
    × (bit (f (8 * k + 2)) ≤ 1)
    × (bit (f (8 * k + 3)) ≤ 1)
    × (bit (f (8 * k + 4)) ≤ 1)
    × (bit (f (8 * k + 5)) ≤ 1)
    × (bit (f (8 * k + 6)) ≤ 1)
    × (bit (f (8 * k + 7)) ≤ 1)

bits : (f : ℕ → Bool) (k : ℕ) → AllBits f k
bits f k = (
  bit-le-one (f (8 * k)),
  bit-le-one (f (8 * k + 1)),
  bit-le-one (f (8 * k + 2)),
  bit-le-one (f (8 * k + 3)),
  bit-le-one (f (8 * k + 4)),
  bit-le-one (f (8 * k + 5)),
  bit-le-one (f (8 * k + 6)),
  bit-le-one (f (8 * k + 7)),
)

-- the bit `j` of a byte
byte_bit : (f : ℕ → Bool) (k j : ℕ) → j < 8 → (bitmap_byte f k / 2 ^ j) % 2 ≡ bit (f (8 * k + j))
unfolding bitmap_byte
byte_bit f k zero h =
    omega (arith, bits f k, ap (λ (m : ℕ). bit (f m)) {x = 8 * k + 0} {y = 8 * k} (omega arith))
byte_bit f k (suc zero) h = omega (arith, bits f k)
byte_bit f k (suc (suc zero)) h = omega (arith, bits f k)
byte_bit f k (suc (suc (suc zero))) h = omega (arith, bits f k)
byte_bit f k (suc (suc (suc (suc zero)))) h = omega (arith, bits f k)
byte_bit f k (suc (suc (suc (suc (suc zero))))) h = omega (arith, bits f k)
byte_bit f k (suc (suc (suc (suc (suc (suc zero)))))) h = omega (arith, bits f k)
byte_bit f k (suc (suc (suc (suc (suc (suc (suc zero))))))) h = omega (arith, bits f k)
byte_bit f k (suc (suc (suc (suc (suc (suc (suc (suc m)))))))) h = absurd (omega arith)

-- The bit of a column in the bitmap says whether the column is null.
pub null_bit-bitmap : (f : ℕ → Bool) (n i : ℕ) → i < 8 * n → null_bit (bitmap f 0 n) i ≡ f i
unfolding null_bit
null_bit-bitmap f n i h =
    let there : i / 8 < n = omega arith in
    let at : get_or (bitmap f 0 n) (i / 8) 0 ≡ bitmap_byte f (i / 8) =
      get_or-bitmap f 0 n (i / 8) there ∙ ap (bitmap_byte f) (omega arith) in
    let found : (get_or (bitmap f 0 n) (i / 8) 0 / 2 ^ (i % 8)) % 2 ≡ bit (f i) =
      ap (λ (b : ℕ). (b / 2 ^ (i % 8)) % 2) at
      ∙ byte_bit f (i / 8) (i % 8) (omega arith)
      ∙ ap (λ (m : ℕ). bit (f m)) (omega arith) in
    let long : ltb (i / 8) (length (bitmap f 0 n)) ≡ true =
      rw (length-bitmap f 0 n) (ground arith) in
    rw (long, found) (bit_back (f i))
