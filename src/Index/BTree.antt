-- ===== src/Index/BTree.antt =====
-- pkg/index/btree.go: the tree over a disk of pages, with the cache of nodes. A method is an
-- action on the tree: what it changed before an error or a panic stays changed. Nodes are held by
-- pointer, so that a change to a node is a change to its entry in the cache (`mutate`). The
-- recursions take fuel, which stands for the stack: they panic without it. The mutex and the
-- printing are left out.
pub mod Leaf
pub mod Separator
use agent_db.Prelude.{
  ℕ, zero, suc, ◌+◌, ◌-◌, Bool, true, false, not, ◌&&◌, ◌||◌, drop, Option, none, some, List, [],
  ◌∷◌, ◌++◌, length, get_elem?, get_or, set, ltb, leb, ◌==◌, if◌then◌else◌,
}
use agent_db.Outcome.{Outcome, ok, err, panic, deadlock}
use agent_db.Bytes.{Buf}
use agent_db.Int64.{ℤ, pos, ltz, eqz}
use agent_db.Index.Node.{
  Node, new_node, is_full, is_leaf, find_key, key_at, insert_key, split_node, internal_node,
  leaf_node,
}
use agent_db.Index.Codec.{serialize, deserialize}

-- the interface DiskManager of the package, over a state
pub record NodeDisk : Type 1 where
  pub State : Type 0
  pub allocate_page : State → ℕ × State
  pub read_page : State → ℕ → Outcome Buf
  pub write_page : State → ℕ → Buf → Outcome State

pub record BTree (S : Type 0) : Type 0 where
  pub root : ℕ
  pub disk : S
  pub node_pool : ℕ → Option Node

abbrev pub Action : Type 0 → Type 0 → Type 0
Action S A = BTree S → Outcome A × BTree S

abbrev pub continue : {S A B : Type 0} → Outcome A → (A → Action S B) → Action S B
continue (ok a) f bt = f a bt
continue (err e) f bt = (err e, bt)
continue panic f bt = (panic, bt)
continue deadlock f bt = (deadlock, bt)

infixl 5 ◌>>=◌ ◌>>◌
abbrev pub ◌>>=◌ : {S A B : Type 0} → Action S A → (A → Action S B) → Action S B
◌>>=◌ m f bt = let (r, bt') = m bt in continue r f bt'

abbrev pub ◌>>◌ : {S A B : Type 0} → Action S A → Action S B → Action S B
m >> n = m >>= λ _. n

abbrev pub pure : {S A : Type 0} → A → Action S A
pure a bt = (ok a, bt)

abbrev pub lift : {S A : Type 0} → Outcome A → Action S A
lift r bt = (r, bt)

-- an index into a slice
abbrev pub at_index {ℓ} : {A : Type ℓ} → List A → ℕ → Outcome A
at_index xs i = elim (get_elem? xs i) [ none ↦ panic | some x ↦ ok x ]

abbrev pub pool_set : (ℕ → Option Node) → Node → ℕ → Option Node
pool_set pool n j = if j == n.page_id then some n else pool j

-- a call whose error is dropped
ignore : {S A : Type 0} → Action S A → Action S (Unit {0})
ignore m bt =
    let (r, bt') = m bt in
    elim r [
      | ok _ ↦ (ok tt, bt')
      | err _ ↦ (ok tt, bt')
      | panic ↦ (panic, bt')
      | deadlock ↦ (deadlock, bt')
    ]

module _ (D : NodeDisk) where
  open D use {State, allocate_page, read_page, write_page}

  -- the pointer's target changes
  unfoldable pub mutate : Node → Action State (Unit {0})
  mutate n bt = (ok tt, record bt { node_pool = pool_set bt.node_pool n })

  unfoldable pub allocate : Action State ℕ
  allocate bt = let (p, disk) = allocate_page bt.disk in (ok p, record bt { disk = disk })

  -- behind the cache of getNode
  load_node : ℕ → Action State Node
  load_node page_id bt =
      let node : Outcome Node = elim (read_page bt.disk page_id) [
        | ok bytes ↦ deserialize bytes page_id
        | err e ↦ err e
        | panic ↦ panic
        | deadlock ↦ deadlock
      ] in
      elim node [
        | ok n ↦ (ok n, record bt { node_pool = pool_set bt.node_pool n })
        | err e ↦ (err e, bt)
        | panic ↦ (panic, bt)
        | deadlock ↦ (deadlock, bt)
      ]

  unfoldable pub get_node : ℕ → Action State Node
  unfolding load_node
  get_node page_id bt = elim (bt.node_pool page_id) [
    | some n ↦ (ok n, bt)
    | none ↦ load_node page_id bt
  ]

  -- WritePage, and the node into the cache if that succeeds
  store_node : Node → Buf → Action State (Unit {0})
  store_node n bytes bt = elim (write_page bt.disk n.page_id bytes) [
    | ok disk ↦ (ok tt, record bt { disk = disk; node_pool = pool_set bt.node_pool n })
    | err e ↦ (err e, bt)
    | panic ↦ (panic, bt)
    | deadlock ↦ (deadlock, bt)
  ]

  unfoldable pub save_node : Node → Action State (Unit {0})
  unfolding store_node
  save_node n = do bytes ← lift (serialize n); store_node n bytes

  unfoldable pub new_btree : State → Outcome (Unit {0}) × BTree State
  unfolding ignore save_node
  new_btree disk =
      let (root_page, disk1) = allocate_page disk in
      let bt : BTree State = record { root = 0; disk = disk1; node_pool = λ _. none } in
      let (r, bt') = ignore (save_node (new_node root_page leaf_node)) bt in
      (r, record bt' { root = root_page })

  split_full : Node → Action State (ℕ × ℤ)
  unfolding ignore
  split_full n = do
    page ← allocate
    (left, right, split_key) ← lift (split_node n page)
    mutate left
    ignore (save_node left)
    ignore (save_node right)
    pure (page, split_key)

  -- the end of insertRecursive, at a leaf and at an internal node: save the node, split first if
  -- it is full
  unfoldable pub save_or_split : Node → Action State (ℕ × ℤ)
  unfolding split_full
  save_or_split n = do
    mutate n
    if is_full n then split_full n else (do save_node n; pure (0, pos 0))

  -- the test of a leaf for a key
  abbrev has_key : Node → ℕ → ℤ → Bool
  has_key n i key = ltb i (length n.keys) && eqz (key_at n.keys i) key

  unfoldable pub insert_leaf : Node → ℤ → List ℕ → Action State (ℕ × ℤ)
  insert_leaf n key value =
      let i = find_key n key in
      if has_key n i key
      then (do
        at_value ← lift (at_index n.values i)
        let n' = record n { values = set n.values i value }
        mutate n'
        save_node n'
        pure (0, pos 0))
      else (do n' ← lift (insert_key n key 0 value); save_or_split n')

  -- the index of the child for a key; with no child the source's -1 is as out of range as 0
  abbrev pub child_index : Node → ℤ → ℕ
  child_index n key =
      let i = find_key n key in if ltb i (length n.children) then i else length n.children - 1

  unfoldable pub insert_recursive : ℕ → ℕ → ℤ → List ℕ → Action State (ℕ × ℤ)
  unfolding insert_leaf
  insert_recursive zero page_id key value = lift panic
  insert_recursive (suc fuel) page_id key value =
      let below = insert_recursive fuel in
      do
        n ← get_node page_id
        if is_leaf n then insert_leaf n key value else (do
          child ← lift (at_index n.children (child_index n key))
          (new_child, split_key) ← below child key value
          if new_child == 0
              then (do save_node n; pure (0, pos 0))
              else (do n' ← lift (insert_key n split_key new_child []); save_or_split n'))

  abbrev set_root : ℕ → Action State (Unit {0})
  set_root page bt = (ok tt, record bt { root = page })

  -- the first root of an empty tree
  first_root : ℤ → List ℕ → Action State (Unit {0})
  first_root key value = do
    page ← allocate
    n ← lift (insert_key (new_node page leaf_node) key 0 value)
    set_root page
    save_node n

  -- a new root above the old one and its new sibling
  grow_root : ℕ → ℤ → Action State (Unit {0})
  unfolding ignore
  grow_root new_child split_key bt =
      (do
        page ← allocate
        let n = record (new_node page internal_node) {
          keys = split_key ∷ [];
          children = bt.root ∷ new_child ∷ [];
        }
        set_root page
        ignore (save_node n))
        bt

  unfoldable pub insert : ℕ → ℤ → List ℕ → Action State (Unit {0})
  unfolding first_root grow_root
  insert fuel key value bt =
      if bt.root == 0
      then first_root key value bt
      else (do
        (new_child, split_key) ← insert_recursive fuel bt.root key value
        if new_child == 0 then pure tt else grow_root new_child split_key)
          bt

  -- the child that searchRecursive goes on with: right of a separator that the key reaches
  abbrev pub search_index : Node → ℤ → ℕ
  search_index n key =
      let i0 = find_key n key in
      let i = if leb (length n.children) i0 then length n.children - 1 else i0 in
      if ltb i (length n.keys)
        && (not (ltz key (key_at n.keys i)) && ltb (i + 1) (length n.children))
      then i + 1
      else i

  unfoldable pub search_recursive : ℕ → ℕ → ℤ → Action State (Option (List ℕ))
  search_recursive zero page_id key = lift panic
  search_recursive (suc fuel) page_id key =
      let below = search_recursive fuel in
      if page_id == 0 then pure none else (do
        n ← get_node page_id
        let i = find_key n key
        if is_leaf n
            then (if has_key n i key
                then (do v ← lift (at_index n.values i); pure (some v))
                else pure none)
            else (do child ← lift (at_index n.children (search_index n key)); below child key))

  unfoldable pub search : ℕ → ℤ → Action State (Option (List ℕ))
  search fuel key bt = search_recursive fuel bt.root key bt

  unfoldable pub find_leaf : ℕ → ℕ → ℤ → Action State (Option Node)
  find_leaf zero page_id key = lift panic
  find_leaf (suc fuel) page_id key =
      let below = find_leaf fuel in
      if page_id == 0 then pure none else (do
        n ← get_node page_id
        if is_leaf n
            then pure (some n)
            else (do child ← lift (at_index n.children (child_index n key)); below child key))

  -- the inner loop of Scan over one leaf: whether a key past the end stopped it, and the values
  unfoldable pub scan_keys : List ℤ → List (List ℕ) → ℤ → ℤ → Outcome (Bool × List (List ℕ))
  scan_keys [] vs start_key end_key = ok (false, [])
  scan_keys (k ∷ ks) vs start_key end_key =
      let rest = scan_keys ks (drop 1 vs) start_key end_key in
      if ltz end_key k
      then ok (true, [])
      else if ltz k start_key
      then rest
      else elim (at_index vs 0) [
        | ok v ↦ elim rest [
          | ok (stop, out) ↦ ok (stop, v ∷ out)
          | err e ↦ err e
          | panic ↦ panic
          | deadlock ↦ deadlock
        ]
        | err e ↦ err e
        | panic ↦ panic
        | deadlock ↦ deadlock
      ]

  -- the outer loop, along the `next` links
  unfoldable pub scan_leaves : ℕ → Node → ℤ → ℤ → Action State (List (List ℕ))
  scan_leaves zero n start_key end_key = lift panic
  scan_leaves (suc fuel) n start_key end_key =
      let follow = scan_leaves fuel in
      do
        (stop, out) ← lift (scan_keys n.keys n.values start_key end_key)
        if stop || (n.next == 0)
            then pure out
            else (do m ← get_node n.next; more ← follow m start_key end_key; pure (out ++ more))

  unfoldable pub scan : ℕ → ℤ → ℤ → Action State (List (List ℕ))
  scan fuel start_key end_key bt =
      (do
        found ← find_leaf fuel bt.root start_key
        elim found [ none ↦ pure [] | some n ↦ scan_leaves fuel n start_key end_key ])
        bt
