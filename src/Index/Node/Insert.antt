-- ===== src/Index/Node/Insert.antt =====
-- InsertKey at a leaf, and the lookup in a leaf, against an association list.
use agent_db.Prelude.{
  ℕ, zero, suc, ◌+◌, ◌≤◌, ◌≡◌, refl, sym, ap, ◌∙◌, inl, inr, Bool, true, false, Option, none, some,
  List, [], ◌∷◌, ◌++◌, arith, length, length-append, length-take, length-drop, get_elem?,
  get_elem?_of_lt, take, drop, ltb, ◌&&◌, if◌then◌else◌, Bool-cases,
}
use agent_db.Outcome.{ok}
use agent_db.Int64.{ℤ, ltz, eqz, ◌<ℤ◌, ◌≤ℤ◌}
use agent_db.Index.Node.{Node, key_at, find_key, is_leaf, insert_at, insert_key}
use agent_db.Index.Node.Search.{IsSorted, All, rank, rank-le, find_key-rank}

-- the leaf branch of searchRecursive
unfoldable pub leaf_get : Node → ℤ → Option (List ℕ)
leaf_get n key =
    let i = find_key n key in
    if ltb i (length n.keys) && eqz (key_at n.keys i) key then get_elem? n.values i else none

-- the value of a key, from the front
module _ {V : Type 0} where
  unfoldable pub assoc : List ℤ → List V → ℤ → Option V
  assoc (k ∷ ks) (v ∷ vs) key = if eqz k key then some v else assoc ks vs key
  assoc _ _ key = none

  -- keys above the sought one do not have it
  pub assoc-above :
      (ks : List ℤ) (vs : List V) (k key : ℤ)
      → All (λ j. k <ℤ j) ks
      → key ≤ℤ k
      → assoc ks vs key ≡ none
  unfolding assoc
  assoc-above [] vs k key h l = refl
  assoc-above (j ∷ ks) [] k key h l = refl
  assoc-above (j ∷ ks) (v ∷ vs) k key h l = ground (arith, assoc-above ks vs k key h.1 l)

  -- in ascending keys only the place of the key can hold it
  pub assoc-rank :
      (ks : List ℤ) (vs : List V) (key : ℤ)
      → IsSorted ks
      → length vs ≡ length ks
      → assoc ks vs key ≡ (
          if ltb (rank ks key) (length ks) && eqz (key_at ks (rank ks key)) key
          then get_elem? vs (rank ks key)
          else none)
  unfolding assoc rank
  assoc-rank [] [] key s l = refl
  assoc-rank [] (v ∷ vs) key s l = absurd (omega arith)
  assoc-rank (k ∷ ks) [] key s l = absurd (omega arith)
  assoc-rank (k ∷ ks) (v ∷ vs) key s l = elim (Bool-cases (ltz k key)) [
    | inl below ↦ rw below (ground (arith, assoc-rank ks vs key s.1 (omega arith)))
    | inr here ↦ rw here (ground (arith, assoc-above ks vs k key s.0))
  ]

  -- inserting at the place of the key
  pub assoc-insert :
      (ks : List ℤ) (vs : List V) (key j : ℤ) (v : V)
      → length vs ≡ length ks
      → IsSorted ks
      → assoc
          (take (rank ks key) ks ++ key ∷ drop (rank ks key) ks)
          (take (rank ks key) vs ++ v ∷ drop (rank ks key) vs)
          j
        ≡ (if eqz key j then some v else assoc ks vs j)
  unfolding assoc rank
  assoc-insert [] [] key j v l s = ground arith
  assoc-insert [] (w ∷ vs) key j v l s = absurd (omega arith)
  assoc-insert (k ∷ ks) [] key j v l s = absurd (omega arith)
  assoc-insert (k ∷ ks) (w ∷ vs) key j v l s = elim (Bool-cases (ltz k key)) [
    | inl below ↦ rw below (ground (arith, assoc-insert ks vs key j v (omega arith) s.1))
    | inr here ↦ rw here (ground arith)
  ]

pub All-take : (P : ℤ → Type 0) (n : ℕ) (ks : List ℤ) → All P ks → All P (take n ks)
All-take P zero ks h = tt
All-take P (suc n) [] h = tt
All-take P (suc n) (k ∷ ks) h = (h.0, All-take P n ks h.1)

pub All-drop : (P : ℤ → Type 0) (n : ℕ) (ks : List ℤ) → All P ks → All P (drop n ks)
All-drop P zero ks h = h
All-drop P (suc n) [] h = tt
All-drop P (suc n) (k ∷ ks) h = All-drop P n ks h.1

All-append : (P : ℤ → Type 0) (xs ys : List ℤ) → All P xs → All P ys → All P (xs ++ ys)
All-append P [] ys h k = k
All-append P (x ∷ xs) ys h k = (h.0, All-append P xs ys h.1 k)

All-below : (ks : List ℤ) (a b : ℤ) → a <ℤ b → All (λ j. b <ℤ j) ks → All (λ j. a <ℤ j) ks
All-below [] a b l h = tt
All-below (k ∷ ks) a b l h = (omega arith, All-below ks a b l h.1)

-- keys with a new one at its place
insert-IsSorted :
    (ks : List ℤ) (key : ℤ)
    → IsSorted ks
    → (ltb (rank ks key) (length ks) && eqz (key_at ks (rank ks key)) key) ≡ false
    → IsSorted (take (rank ks key) ks ++ key ∷ drop (rank ks key) ks)
unfolding rank
insert-IsSorted [] key s new = (tt, tt)
insert-IsSorted (k ∷ ks) key s new = elim (Bool-cases (ltz k key)) [
  | inl below ↦ rw below (
    All-append (λ j. k <ℤ j) (take (rank ks key) ks) (key ∷ drop (rank ks key) ks)
        (All-take (λ j. k <ℤ j) (rank ks key) ks s.0)
        (ground arith, All-drop (λ j. k <ℤ j) (rank ks key) ks s.0),
    insert-IsSorted ks key s.1 (ground arith),
  )
  | inr here ↦
      let above : key <ℤ k = ground arith in rw here ((above, All-below ks key k above s.0), s)
]

-- a leaf with ascending keys and a value for each
pub record IsLeaf (n : Node) : Type 0 where
  pub leaf : is_leaf n ≡ true
  pub sorted : IsSorted n.keys
  pub paired : length n.values ≡ length n.keys

-- In a leaf with ascending keys the lookup by binary search is the lookup in the association
-- list of its keys and values.
pub leaf_get-assoc : (n : Node) (key : ℤ) → IsLeaf n → leaf_get n key ≡ assoc n.keys n.values key
unfolding leaf_get
leaf_get-assoc n key h =
    rw (find_key-rank n key h.sorted) (sym (assoc-rank n.keys n.values key h.sorted h.paired))

length-placed {ℓ} :
    {A : Type ℓ} (xs : List A) (i : ℕ) (v : A)
    → i ≤ length xs
    → length (take i xs ++ v ∷ drop i xs) ≡ length xs + 1
length-placed xs i v h =
    length-append (take i xs) (v ∷ drop i xs) ∙ omega (arith, length-take i xs, length-drop i xs)

module _ (n : Node) (key : ℤ) (h : IsLeaf n) where
  abbrev place : ℕ
  place = rank n.keys key

  abbrev found : Bool
  found = ltb place (length n.keys) && eqz (key_at n.keys place) key

  new_key : leaf_get n key ≡ none → found ≡ false
  unfolding leaf_get
  new_key new = elim (Bool-cases found) [
    | inr e ↦ e
    | inl e ↦
        let (v, at) = get_elem?_of_lt n.values place (ground (arith, h.paired)) in
        absurd (ground (arith, find_key-rank n key h.sorted, at))
  ]

  module _ (value : List ℕ) where
    abbrev inserted : Node
    inserted = record n {
      keys = take place n.keys ++ key ∷ drop place n.keys;
      values = take place n.values ++ value ∷ drop place n.values;
    }

    insert_key-inserted : (child : ℕ) → insert_key n key child value ≡ ok inserted
    unfolding insert_key insert_at
    insert_key-inserted child =
        rw (find_key-rank n key h.sorted, h.leaf) (ground (arith, rank-le n.keys key, h.paired))

    inserted-IsLeaf : leaf_get n key ≡ none → IsLeaf inserted
    unfolding is_leaf
    inserted-IsLeaf new = record {
      leaf = h.leaf;
      sorted = insert-IsSorted n.keys key h.sorted (new_key new);
      paired =
          length-placed n.values place value (omega (arith, rank-le n.keys key, h.paired))
          ∙ ap (λ (l : ℕ). l + 1) h.paired
          ∙ sym (length-placed n.keys place key (rank-le n.keys key));
    }

-- Inserting a new key into a leaf succeeds: the keys stay ascending and paired with values, there
-- is one more, a lookup of the key finds the value, and every other lookup is as before.
pub insert_key-leaf :
    (n : Node) (key : ℤ) (child : ℕ) (value : List ℕ)
    → IsLeaf n
    → leaf_get n key ≡ none
    → (n' : Node) × (insert_key n key child value ≡ ok n')
      × IsLeaf n'
      × (length n'.keys ≡ length n.keys + 1)
      × ((j : ℤ) → leaf_get n' j ≡ (if eqz key j then some value else leaf_get n j))
insert_key-leaf n key child value h new =
    let leaf = inserted-IsLeaf n key h value new in
    (
      inserted n key h value,
      insert_key-inserted n key h value child,
      leaf,
      length-placed n.keys (rank n.keys key) key (rank-le n.keys key),
      λ j.
          leaf_get-assoc (inserted n key h value) j leaf
          ∙ assoc-insert n.keys n.values key j value h.paired h.sorted
          ∙ ap (λ (o : Option (List ℕ)). if eqz key j then some value else o)
              (sym (leaf_get-assoc n j h)),
    )

pub insert_key-page_id :
    (n n' : Node) (key : ℤ) (child : ℕ) (value : List ℕ)
    → insert_key n key child value ≡ ok n'
    → (n'.page_id ≡ n.page_id) × (n'.node_type ≡ n.node_type)
unfolding insert_key insert_at
insert_key-page_id n n' key child value h = ground arith
