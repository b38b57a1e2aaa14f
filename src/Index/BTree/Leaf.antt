-- ===== src/Index/BTree/Leaf.antt =====
-- A tree of one leaf: Insert and Search.
use agent_db.Prelude.{
  ℕ, suc, ◌<◌, ◌≡◌, refl, sym, ap, ◌∙◌, inl, inr, true, false, Option, none, some, List, arith,
  length, get_elem?_of_lt, ltb, ◌==◌, ◌&&◌, if◌then◌else◌, Bool-cases,
}
use agent_db.Outcome.{Outcome, ok}
use agent_db.Bytes.{Buf}
use agent_db.Int64.{ℤ, pos, eqz}
use agent_db.Index.Node.{Node, is_full, is_leaf, find_key, key_at, insert_key}
use agent_db.Index.Node.Insert.{IsLeaf, leaf_get, insert_key-leaf, insert_key-page_id}
use agent_db.Index.Codec.{serialize}
use agent_db.Index.BTree.{
  NodeDisk, BTree, pool_set, mutate, get_node, save_node, save_or_split, insert_leaf,
  insert_recursive, insert, search, search_recursive, has_key, store_node,
}

-- what the test of a leaf for a key says
pub no_key :
    (n : Node) (key : ℤ)
    → IsLeaf n
    → leaf_get n key ≡ none
    → (ltb (find_key n key) (length n.keys) && eqz (key_at n.keys (find_key n key)) key) ≡ false
unfolding leaf_get
no_key n key leaf new = elim (Bool-cases (ltb i (length n.keys) && eqz (key_at n.keys i) key)) [
  | inr e ↦ e
  | inl e ↦
      let (v, at) = get_elem?_of_lt n.values i (ground (arith, leaf.paired)) in
      absurd (ground (arith, at))
]
  where
    i : ℕ
    i = find_key n key

module _ (D : NodeDisk) where
  open D use {State}

  -- a node can be serialised, and the disk takes its bytes
  pub record Saves (bt : BTree State) (n : Node) : Type 0 where
    pub bytes : Buf
    pub serialized : serialize n ≡ ok bytes
    pub disk : State
    pub written : D.write_page bt.disk n.page_id bytes ≡ ok disk

  pub save_node-Saves :
      (bt : BTree State) (n : Node) (s : Saves bt n)
      → save_node D n bt ≡ (ok tt, record bt { disk = s.disk; node_pool = pool_set bt.node_pool n })
  unfolding save_node
  save_node-Saves bt n s = rw s.serialized (rw (s.written, store_node) refl)

  pub get_node_cached :
      (bt : BTree State) (page : ℕ) (n : Node)
      → bt.node_pool page ≡ some n
      → get_node D page bt ≡ (ok n, bt)
  unfolding get_node
  get_node_cached bt page n h = rw (h, get_node) refl

  -- a search at a cached leaf
  pub search_leaf :
      (bt : BTree State) (fuel page : ℕ) (n : Node) (key : ℤ)
      → 0 < page
      → bt.node_pool page ≡ some n
      → IsLeaf n
      → search_recursive D (suc fuel) page key bt ≡ (ok (leaf_get n key), bt)
  unfolding search_recursive leaf_get
  search_leaf bt fuel page n key p h leaf =
      let nonzero : (page == 0) ≡ false = ground arith in
      let i = find_key n key in
      rw nonzero (
        rw (get_node_cached bt page n h) (
          rw leaf.leaf (elim (Bool-cases (ltb i (length n.keys) && eqz (key_at n.keys i) key)) [
            | inr no_key ↦ rw no_key refl
            | inl here ↦
                let (v, at) = get_elem?_of_lt n.values i (ground (arith, leaf.paired)) in
                rw here (ground (arith, at))
          ])))

  -- an insert of a new key at a leaf that it does not fill
  pub insert_leaf_new :
      (bt : BTree State) (n n' : Node) (key : ℤ) (value : List ℕ)
      → IsLeaf n
      → leaf_get n key ≡ none
      → insert_key n key 0 value ≡ ok n'
      → length n'.keys < 200
      → (s : Saves bt n')
      → insert_leaf D n key value bt ≡ (
        ok (0, pos 0),
        record bt { disk = s.disk; node_pool = pool_set (pool_set bt.node_pool n') n' },
      )
  unfolding insert_leaf save_or_split mutate
  insert_leaf_new bt n n' key value leaf new ins room s =
      let absent : has_key D n (find_key n key) key ≡ false = no_key n key leaf new in
      let part : is_full n' ≡ false = unfold is_full in ground arith in
      let saved =
        save_node-Saves (record bt { node_pool = pool_set bt.node_pool n' }) n'
          (record {
            bytes = s.bytes;
            serialized = s.serialized;
            disk = s.disk;
            written = s.written;
          }) in
      rw absent (rw ins (rw part (rw saved refl)))

  insert_leaf-search :
      (bt bt' : BTree State) (f : ℕ) (n n' : Node) (key : ℤ) (value : List ℕ)
      → 0 < bt.root
      → bt.node_pool bt.root ≡ some n
      → is_leaf n ≡ true
      → insert_leaf D n key value bt ≡ (ok (0, pos 0), bt')
      → insert D (suc f) key value bt ≡ (ok tt, bt')
  unfolding insert insert_recursive
  insert_leaf-search bt bt' f n n' key value p h leaf run =
      let nonzero : (bt.root == 0) ≡ false = ground arith in
      rw nonzero (rw (get_node_cached bt bt.root n h) (rw leaf (rw run refl)))

  -- In a tree whose root is a leaf of fewer than 199 keys, with the key not among them: if the
  -- changed leaf can be saved, Insert succeeds, and then Search finds the value under the key, and
  -- under every other key what it found before.
  pub search-insert_leaf :
      (bt : BTree State) (f g : ℕ) (n : Node) (key : ℤ) (value : List ℕ)
      → 0 < bt.root
      → bt.node_pool bt.root ≡ some n
      → n.page_id ≡ bt.root
      → IsLeaf n
      → leaf_get n key ≡ none
      → length n.keys < 199
      → ((n' : Node) → insert_key n key 0 value ≡ ok n' → Saves bt n')
      → (bt' : BTree State) × (insert D (suc f) key value bt ≡ (ok tt, bt'))
        × ((j : ℤ)
            → (search D (suc g) j bt').0
              ≡ (if eqz key j then ok (some value) else (search D (suc g) j bt).0))
  unfolding search
  search-insert_leaf bt f g n key value p h own leaf new room saves =
      let (n', ins, leaf', count, gets) = insert_key-leaf n key 0 value leaf new in
      let s = saves n' ins in
      let run = insert_leaf_new bt n n' key value leaf new ins (omega (arith, count)) s in
      (
        _,
        insert_leaf-search bt _ f n n' key value p h leaf.leaf run,
        λ j.
            ap (λ (r : Outcome (Option (List ℕ)) × BTree State). r.0)
              (search_leaf
                (record bt { disk = s.disk; node_pool = pool_set (pool_set bt.node_pool n') n' }) g
                bt.root n' j p (there n' ((insert_key-page_id n n' key 0 value ins).0 ∙ own)) leaf')
            ∙ ap ok (gets j)
            ∙ pick j
            ∙ ap
                (λ (r : Outcome (Option (List ℕ)) × BTree State).
                  if eqz key j then ok (some value) else r.0)
                (sym (search_leaf bt g bt.root n j p h leaf)),
      )
    where
      there :
          (n' : Node)
          → n'.page_id ≡ bt.root
          → pool_set (pool_set bt.node_pool n') n' bt.root ≡ some n'
      there n' e = ground arith

      pick :
          (j : ℤ)
          → ok (if eqz key j then some value else leaf_get n j)
            ≡ (if eqz key j then ok (some value) else ok (leaf_get n j))
      pick j = ground arith
