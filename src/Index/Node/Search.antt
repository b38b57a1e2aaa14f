-- ===== src/Index/Node/Search.antt =====
-- FindKey: the binary search finds the first key that is not below the sought one.
use agent_db.Prelude.{
  ℕ, zero, suc, ◌+◌, ◌-◌, ◌/◌, ◌≤◌, ◌<◌, ◌≡◌, inl, inr, List, [], ◌∷◌, arith, length, ltb,
  if◌then◌else◌, Bool-cases,
}
use agent_db.Int64.{ℤ, pos_part, neg_part, ltz, ◌<ℤ◌, ◌≤ℤ◌}
use agent_db.Index.Node.{Node, key_at, find_loop, find_key}

abbrev pub All {ℓ κ} : {A : Type ℓ} → (A → Type κ) → List A → Type κ
All P [] = Unit
All P (x ∷ xs) = P x × All P xs

-- strictly ascending keys
abbrev pub IsSorted : List ℤ → Type 0
IsSorted [] = Unit
IsSorted (k ∷ ks) = All (λ j. k <ℤ j) ks × IsSorted ks

-- the number of keys below `key` at the front
unfoldable pub rank : List ℤ → ℤ → ℕ
rank [] key = 0
rank (k ∷ ks) key = let rest = suc (rank ks key) in if ltz k key then rest else 0

pub rank-le : (ks : List ℤ) (key : ℤ) → rank ks key ≤ length ks
unfolding rank
rank-le [] key = omega arith
rank-le (k ∷ ks) key = ground (arith, rank-le ks key)

All-key_at : (ks : List ℤ) (k : ℤ) (i : ℕ) → All (λ j. k <ℤ j) ks → i < length ks → k <ℤ key_at ks i
All-key_at [] k i h l = elim l [ ]
All-key_at (j ∷ ks) k zero h l = h.0
All-key_at (j ∷ ks) k (suc i) h l = All-key_at ks k i h.1 (omega arith)

-- a key below the sought one stands in front of its place
lt-rank :
    (ks : List ℤ) (key : ℤ) (i : ℕ)
    → IsSorted ks
    → i < length ks
    → key_at ks i <ℤ key
    → i < rank ks key
unfolding rank
lt-rank [] key i s l h = elim l [ ]
lt-rank (k ∷ ks) key zero s l h = ground arith
lt-rank (k ∷ ks) key (suc i) s l h =
    ground (arith, lt-rank ks key i s.1 (omega arith) h, All-key_at ks k i s.0 (omega arith))

-- any other key does not
rank-le_of_le :
    (ks : List ℤ) (key : ℤ) (i : ℕ) → i < length ks → key ≤ℤ key_at ks i → rank ks key ≤ i
unfolding rank
rank-le_of_le [] key i l h = elim l [ ]
rank-le_of_le (k ∷ ks) key zero l h = ground arith
rank-le_of_le (k ∷ ks) key (suc i) l h = ground (arith, rank-le_of_le ks key i (omega arith) h)

-- the place of a key that is there
rank-eq :
    (ks : List ℤ) (key : ℤ) (i : ℕ)
    → IsSorted ks
    → i < length ks
    → pos_part (key_at ks i) + neg_part key ≡ pos_part key + neg_part (key_at ks i)
    → rank ks key ≡ i
unfolding rank
rank-eq [] key i s l h = elim l [ ]
rank-eq (k ∷ ks) key zero s l h = ground arith
rank-eq (k ∷ ks) key (suc i) s l h =
    ground (arith, rank-eq ks key i s.1 (omega arith) h, All-key_at ks k i s.0 (omega arith))

find_loop-rank :
    (fuel : ℕ) (ks : List ℤ) (key : ℤ) (left hi : ℕ)
    → IsSorted ks
    → hi ≤ length ks
    → left ≤ rank ks key
    → rank ks key ≤ hi
    → hi - left < fuel
    → find_loop fuel ks key left hi ≡ rank ks key
unfolding find_loop
find_loop-rank zero ks key left hi s l a b f = absurd (omega arith)
find_loop-rank (suc fuel) ks key left hi s l a b f = elim (Bool-cases (ltb left hi)) [
  | inr empty ↦ rw empty (ground arith)
  | inl more ↦
      let in_range : (left ≤ mid) × (mid < hi) = ground arith in
      rw more (
        ground (
          arith,
          rank-eq ks key mid s (omega arith),
          lt-rank ks key mid s (omega arith),
          rank-le_of_le ks key mid (omega arith),
          find_loop-rank fuel ks key (mid + 1) hi s l,
          find_loop-rank fuel ks key left mid s,
        ))
]
  where
    mid : ℕ
    mid = (left + (hi - 1)) / 2

pub find_key-rank : (n : Node) (key : ℤ) → IsSorted n.keys → find_key n key ≡ rank n.keys key
unfolding find_key
find_key-rank n key s =
    find_loop-rank (length n.keys + 1) n.keys key 0 (length n.keys) s (omega arith) (omega arith)
      (rank-le n.keys key) (omega arith)

pub before-rank : (ks : List ℤ) (key : ℤ) (i : ℕ) → i < rank ks key → key_at ks i <ℤ key
unfolding rank
before-rank [] key i h = elim h [ ]
before-rank (k ∷ ks) key zero h = ground arith
before-rank (k ∷ ks) key (suc i) h = before-rank ks key i (ground arith)

pub from-rank :
    (ks : List ℤ) (key : ℤ) (i : ℕ)
    → IsSorted ks
    → rank ks key ≤ i
    → i < length ks
    → key ≤ℤ key_at ks i
from-rank ks key i s h l = ground (arith, lt-rank ks key i s l)

-- On strictly ascending keys FindKey returns the place of the first key that is not below the
-- sought one: every earlier key is below it, and no later one is.
pub find_key_places :
    (n : Node) (key : ℤ)
    → IsSorted n.keys
    → (find_key n key ≤ length n.keys)
      × ((i : ℕ) → i < find_key n key → key_at n.keys i <ℤ key)
      × ((i : ℕ) → find_key n key ≤ i → i < length n.keys → key ≤ℤ key_at n.keys i)
find_key_places n key s =
    rw (find_key-rank n key s)
      (rank-le n.keys key, before-rank n.keys key, λ i. from-rank n.keys key i s)
