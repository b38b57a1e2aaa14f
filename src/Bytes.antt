-- ===== src/Bytes.antt =====
-- Byte arrays of fixed size, and `encoding/binary`'s little-endian numbers in them. An array is
-- the function from an index to its byte; the code that reads and writes it checks the bounds.
use native.Mathlib.Nat.{pow-suc}
use agent_db.Prelude.{
  ℕ, zero, suc, ◌+◌, ◌*◌, ◌/◌, ◌%◌, ◌^◌, ◌≤◌, ◌<◌, ◌≡◌, refl, ap, sym, ◌∙◌, ◌⊎◌, inl, inr, List, [],
  ◌∷◌, arith, length, ◌==◌, if◌then◌else◌,
}

abbrev pub Buf : Type 0
Buf = ℕ → ℕ

abbrev pub zeros : Buf
zeros i = 0

-- copy(d[off:], bs)
pub write : Buf → ℕ → List ℕ → Buf
write d off [] = d
write d off (b ∷ bs) = λ i. if i == off then b else write d (suc off) bs i

-- d[off:off+n], copied out
pub read : Buf → ℕ → ℕ → List ℕ
read d off zero = []
read d off (suc n) = d off ∷ read d (suc off) n

-- the `k` bytes of a number, the lowest first
unfoldable pub le_bytes : ℕ → ℕ → List ℕ
le_bytes zero v = []
le_bytes (suc k) v = (v % 256) ∷ le_bytes k (v / 256)

unfoldable pub le_value : List ℕ → ℕ
le_value [] = 0
le_value (b ∷ bs) = b + 256 * le_value bs

-- binary.LittleEndian.UintN(d[off:]) and PutUintN(d[off:], v), for k bytes
unfoldable pub get_uint : Buf → ℕ → ℕ → ℕ
unfolding read le_value
get_uint d off k = le_value (read d off k)

unfoldable pub put_uint : Buf → ℕ → ℕ → ℕ → Buf
unfolding write le_bytes
put_uint d off k v = write d off (le_bytes k v)

pub length-read : (d : Buf) (off n : ℕ) → length (read d off n) ≡ n
unfolding read
length-read d off zero = refl
length-read d off (suc n) = ap suc (length-read d (suc off) n)

pub length-le_bytes : (k v : ℕ) → length (le_bytes k v) ≡ k
unfolding le_bytes
length-le_bytes zero v = refl
length-le_bytes (suc k) v = ap suc (length-le_bytes k (v / 256))

pub write_below : (d : Buf) (off i : ℕ) (bs : List ℕ) → i < off → write d off bs i ≡ d i
unfolding write
write_below d off i [] h = refl
write_below d off i (b ∷ bs) h = ground (arith, write_below d (suc off) i bs)

pub write_above : (d : Buf) (off i : ℕ) (bs : List ℕ) → off + length bs ≤ i → write d off bs i ≡ d i
unfolding write
write_above d off i [] h = refl
write_above d off i (b ∷ bs) h = ground (arith, write_above d (suc off) i bs)

-- Two arrays that agree on a range read alike there.
pub read_congr :
    (d e : Buf) (off n : ℕ)
    → ((i : ℕ) → off ≤ i → i < off + n → d i ≡ e i)
    → read d off n ≡ read e off n
unfolding read
read_congr d e off zero h = refl
read_congr d e off (suc n) h = cc (
  h off (omega arith) (omega arith),
  read_congr d e (suc off) n (λ i p q. h i (omega arith) (omega arith)),
)

pub read-write_self : (d : Buf) (off : ℕ) (bs : List ℕ) → read (write d off bs) off (length bs) ≡ bs
unfolding read write
read-write_self d off [] = refl
read-write_self d off (b ∷ bs) = cc (
  here,
  read_congr (write d off (b ∷ bs)) (write d (suc off) bs) (suc off) (length bs)
      (λ i p q. ground arith),
  read-write_self d (suc off) bs,
)
  where
    here : write d off (b ∷ bs) off ≡ b
    here = ground arith

pub read-write_ne :
    (d : Buf) (off : ℕ) (bs : List ℕ) (o n : ℕ)
    → (o + n ≤ off) ⊎ (off + length bs ≤ o)
    → read (write d off bs) o n ≡ read d o n
read-write_ne d off bs o n (inl h) =
    read_congr (write d off bs) d o n (λ i p q. write_below d off i bs (omega arith))
read-write_ne d off bs o n (inr h) =
    read_congr (write d off bs) d o n (λ i p q. write_above d off i bs (omega arith))

pub le_value-le_bytes : (k v : ℕ) → v < 256 ^ k → le_value (le_bytes k v) ≡ v
unfolding le_value le_bytes
le_value-le_bytes zero v h = omega arith
le_value-le_bytes (suc k) v h =
    let below : v < 256 ^ k * 256 = simp pow-suc at h in
    omega (arith, le_value-le_bytes k (v / 256) (omega arith))

-- A number that fits is read back.
pub get-put_self : (d : Buf) (off k v : ℕ) → v < 256 ^ k → get_uint (put_uint d off k v) off k ≡ v
unfolding get_uint put_uint
get-put_self d off k v h =
    ap le_value (
      sym (ap (read (write d off (le_bytes k v)) off) (length-le_bytes k v))
      ∙ read-write_self d off (le_bytes k v))
    ∙ le_value-le_bytes k v h

pub put_apart : (d : Buf) (off k v i : ℕ) → (i < off) ⊎ (off + k ≤ i) → put_uint d off k v i ≡ d i
unfolding put_uint
put_apart d off k v i (inl h) = write_below d off i (le_bytes k v) h
put_apart d off k v i (inr h) = write_above d off i (le_bytes k v) (rw (length-le_bytes k v) h)

-- A number elsewhere is not disturbed.
pub get-put_ne :
    (d : Buf) (off k v o n : ℕ)
    → (o + n ≤ off) ⊎ (off + k ≤ o)
    → get_uint (put_uint d off k v) o n ≡ get_uint d o n
unfolding get_uint put_uint
get-put_ne d off k v o n h =
    ap le_value (read-write_ne d off (le_bytes k v) o n (rw (length-le_bytes k v) h))

pub get-write_ne :
    (d : Buf) (off : ℕ) (bs : List ℕ) (o n : ℕ)
    → (o + n ≤ off) ⊎ (off + length bs ≤ o)
    → get_uint (write d off bs) o n ≡ get_uint d o n
unfolding get_uint
get-write_ne d off bs o n h = ap le_value (read-write_ne d off bs o n h)

pub read-put_ne :
    (d : Buf) (off k v o n : ℕ)
    → (o + n ≤ off) ⊎ (off + k ≤ o)
    → read (put_uint d off k v) o n ≡ read d o n
unfolding put_uint
read-put_ne d off k v o n h = read-write_ne d off (le_bytes k v) o n (rw (length-le_bytes k v) h)

pub get_congr :
    (d e : Buf) (off n : ℕ)
    → ((i : ℕ) → off ≤ i → i < off + n → d i ≡ e i)
    → get_uint d off n ≡ get_uint e off n
unfolding get_uint
get_congr d e off n h = ap le_value (read_congr d e off n h)
