-- ===== src/Index/Node/Split.antt =====
-- SplitNode at a leaf: the two halves partition the entries at the separator.
use agent_db.Prelude.{
  ℕ, zero, suc, ◌+◌, ◌/◌, ◌<◌, ◌≡◌, refl, ◌∙◌, some, List, [], ◌∷◌, arith, length, length-take,
  length-drop, get_elem?, get_elem?_of_lt, take, drop, if◌then◌else◌,
}
use agent_db.Outcome.{ok}
use agent_db.Int64.{ℤ, ltz, ◌<ℤ◌, ◌≤ℤ◌}
use agent_db.Index.Node.{Node, is_leaf, split_node, new_node}
use agent_db.Index.Node.Search.{IsSorted, All}
use agent_db.Index.Node.Insert.{assoc, leaf_get, leaf_get-assoc, IsLeaf, assoc-above, All-take}

All-get : (P : ℤ → Type 0) (ks : List ℤ) (m : ℕ) (k : ℤ) → All P ks → get_elem? ks m ≡ some k → P k
All-get P [] m k h at = absurd (ground arith)
All-get P (j ∷ ks) zero k h at = let e : j ≡ k = ground arith in rw (← e) h.0
All-get P (j ∷ ks) (suc m) k h at = All-get P ks m k h.1 at

module _ {V : Type 0} where
  -- a lookup below the separator is a lookup in the left half, and the other way round
  assoc-split :
      (m : ℕ) (ks : List ℤ) (vs : List V) (k j : ℤ)
      → IsSorted ks
      → get_elem? ks m ≡ some k
      → length vs ≡ length ks
      → assoc ks vs j
        ≡ (if ltz j k then assoc (take m ks) (take m vs) j else assoc (drop m ks) (drop m vs) j)
  unfolding assoc
  assoc-split m [] vs k j s at l = absurd (ground arith)
  assoc-split m (i ∷ ks) [] k j s at l = absurd (omega arith)
  assoc-split zero (i ∷ ks) (v ∷ vs) k j s at l =
      let e : i ≡ k = ground arith in rw (← e) (ground (arith, assoc-above ks vs i j s.0))
  assoc-split (suc m) (i ∷ ks) (v ∷ vs) k j s at l =
      let below = All-get (λ x. i <ℤ x) ks m k s.0 at in
      ground (arith, below, assoc-split m ks vs k j s.1 at)

take-IsSorted : (m : ℕ) (ks : List ℤ) → IsSorted ks → IsSorted (take m ks)
take-IsSorted zero ks s = tt
take-IsSorted (suc m) [] s = tt
take-IsSorted (suc m) (k ∷ ks) s = (All-take (λ j. k <ℤ j) m ks s.0, take-IsSorted m ks s.1)

drop-IsSorted : (m : ℕ) (ks : List ℤ) → IsSorted ks → IsSorted (drop m ks)
drop-IsSorted zero ks s = s
drop-IsSorted (suc m) [] s = tt
drop-IsSorted (suc m) (k ∷ ks) s = drop-IsSorted m ks s.1

take-below :
    (m : ℕ) (ks : List ℤ) (k : ℤ)
    → IsSorted ks
    → get_elem? ks m ≡ some k
    → All (λ j. j <ℤ k) (take m ks)
take-below zero ks k s at = tt
take-below (suc m) [] k s at = tt
take-below (suc m) (j ∷ ks) k s at = (All-get (λ x. j <ℤ x) ks m k s.0 at, take-below m ks k s.1 at)

above-le : (ks : List ℤ) (a b : ℤ) → a ≤ℤ b → All (λ j. b <ℤ j) ks → All (λ j. a ≤ℤ j) ks
above-le [] a b l h = tt
above-le (k ∷ ks) a b l h = (omega arith, above-le ks a b l h.1)

drop-above :
    (m : ℕ) (ks : List ℤ) (k : ℤ)
    → IsSorted ks
    → get_elem? ks m ≡ some k
    → All (λ j. k ≤ℤ j) (drop m ks)
drop-above m [] k s at = absurd (ground arith)
drop-above zero (j ∷ ks) k s at =
    let e : j ≡ k = ground arith in
    let l : k ≤ℤ j = rw e (omega arith) in (l, above-le ks k j l s.0)
drop-above (suc m) (j ∷ ks) k s at = drop-above m ks k s.1 at

-- what a split of a leaf gives: the left node, the new node and the separator
pub record LeafSplit (n l r : Node) (k : ℤ) (new_page : ℕ) : Type 0 where
  pub left : IsLeaf l
  pub right : IsLeaf r
  pub left_keys : All (λ j. j <ℤ k) l.keys
  pub right_keys : All (λ j. k ≤ℤ j) r.keys
  pub sizes : (length l.keys ≡ length n.keys / 2) × (length l.keys + length r.keys ≡ length n.keys)
  pub links : (l.next ≡ new_page) × (r.next ≡ n.next) × (r.page_id ≡ new_page)
  pub lookup : (j : ℤ) → leaf_get n j ≡ (if ltz j k then leaf_get l j else leaf_get r j)

module _ (n : Node) (page : ℕ) (h : IsLeaf n) (k : ℤ)
    (at : get_elem? n.keys (length n.keys / 2) ≡ some k) where
  abbrev half : ℕ
  half = length n.keys / 2

  abbrev left_half : Node
  left_half = record n { keys = take half n.keys; values = take half n.values; next = page }

  abbrev right_half : Node
  right_half = record {
    node_type = n.node_type;
    keys = drop half n.keys;
    children = [];
    values = drop half n.values;
    next = n.next;
    page_id = page;
  }

  split_node-halves : split_node n page ≡ ok (left_half, right_half, k)
  unfolding split_node new_node
  split_node-halves = rw (at, split_node) (rw h.leaf (ground (arith, h.paired)))

  left-IsLeaf : IsLeaf left_half
  unfolding is_leaf
  left-IsLeaf = record {
    leaf = h.leaf;
    sorted = take-IsSorted half n.keys h.sorted;
    paired = omega (arith, length-take half n.values, length-take half n.keys, h.paired);
  }

  right-IsLeaf : IsLeaf right_half
  unfolding is_leaf
  right-IsLeaf = record {
    leaf = h.leaf;
    sorted = drop-IsSorted half n.keys h.sorted;
    paired = omega (arith, length-drop half n.values, length-drop half n.keys, h.paired);
  }

  halves-LeafSplit : LeafSplit n left_half right_half k page
  halves-LeafSplit = record {
    left = left-IsLeaf;
    right = right-IsLeaf;
    left_keys = take-below half n.keys k h.sorted at;
    right_keys = drop-above half n.keys k h.sorted at;
    sizes = (
      omega (arith, length-take half n.keys),
      omega (arith, length-take half n.keys, length-drop half n.keys),
    );
    links = (refl, refl, refl);
    lookup = λ j.
        leaf_get-assoc n j h
        ∙ assoc-split half n.keys n.values k j h.sorted at h.paired
        ∙ ground (
          arith,
          leaf_get-assoc left_half j left-IsLeaf,
          leaf_get-assoc right_half j right-IsLeaf,
        );
  }

-- Splitting a leaf that is not empty succeeds: both halves are leaves in order, the left one has
-- half of the entries (rounded down) with the keys below the separator, the new one the rest,
-- they are linked left to right, and each lookup is the lookup in its half.
pub split_node-leaf :
    (n : Node) (page : ℕ)
    → IsLeaf n
    → 0 < length n.keys
    → (l : Node) × (r : Node) × (k : ℤ) × (split_node n page ≡ ok (l, r, k))
      × LeafSplit n l r k page
split_node-leaf n page h some_keys =
    let (k, at) = get_elem?_of_lt n.keys (length n.keys / 2) (omega arith) in
    (
      left_half n page h k at,
      right_half n page h k at,
      k,
      split_node-halves n page h k at,
      halves-LeafSplit n page h k at,
    )
