-- ===== src/Index/BTree/Separator.antt =====
-- A key equal to a separator: Insert goes to the left of it, Search to the right.
use agent_db.Prelude.{
  ℕ, suc, ◌<◌, ◌≡◌, ◌≢◌, refl, ap, ◌∙◌, false, Option, none, some, List, [], ◌∷◌, arith, length,
  ◌==◌,
}
use agent_db.Outcome.{Outcome, ok}
use agent_db.Int64.{ℤ, pos}
use agent_db.Index.Node.{Node, is_leaf, find_key, find_keys, find_loop, insert_key}
use agent_db.Index.Node.Insert.{IsLeaf, leaf_get, insert_key-leaf, insert_key-page_id}
use agent_db.Index.BTree.{
  NodeDisk, BTree, pool_set, insert_recursive, insert, insert_leaf, search, search_recursive,
  search_index, child_index, at_index,
}
use agent_db.Index.BTree.Leaf.{
  Saves, save_node-Saves, get_node_cached, search_leaf, insert_leaf_new,
}

-- the place of a separator in a node that has only it
find_separator : (m : Node) (k : ℤ) → m.keys ≡ k ∷ [] → find_key m k ≡ 0
unfolding find_key find_keys find_loop
find_separator m k h = rw h (ground arith)

-- a root with one separator above two leaves, all in the cache
pub record TwoLeaves (D : NodeDisk) (bt : BTree D.State) (m a b : Node) (k : ℤ) : Type 0 where
  pub root : bt.node_pool bt.root ≡ some m
  pub pages : (0 < bt.root) × (0 < a.page_id) × (0 < b.page_id)
  pub apart : (a.page_id ≢ bt.root) × (b.page_id ≢ bt.root) × (a.page_id ≢ b.page_id)
  pub own : m.page_id ≡ bt.root
  pub internal : is_leaf m ≡ false
  pub keys : m.keys ≡ k ∷ []
  pub children : m.children ≡ a.page_id ∷ b.page_id ∷ []
  pub left : bt.node_pool a.page_id ≡ some a
  pub right : bt.node_pool b.page_id ≡ some b
  pub left_leaf : IsLeaf a
  pub right_leaf : IsLeaf b

module _ (D : NodeDisk) where
  module _ (m a b : Node) (k : ℤ) (keys : m.keys ≡ k ∷ [])
      (children : m.children ≡ a.page_id ∷ b.page_id ∷ []) where
    goes_right : at_index m.children (search_index D m k) ≡ ok b.page_id
    goes_right = rw (find_separator m k keys) (rw children (rw keys (ground arith)))

    goes_left : at_index m.children (child_index D m k) ≡ ok a.page_id
    goes_left = rw (find_separator m k keys) (rw children (ground arith))

  search_right :
      (bt : BTree D.State) (g : ℕ) (m a b : Node) (k : ℤ)
      → bt.node_pool bt.root ≡ some m
      → 0 < bt.root
      → is_leaf m ≡ false
      → m.keys ≡ k ∷ []
      → m.children ≡ a.page_id ∷ b.page_id ∷ []
      → search D (suc g) k bt ≡ search_recursive D g b.page_id k bt
  unfolding search search_recursive
  search_right bt g m a b k root p internal keys children =
      let nonzero : (bt.root == 0) ≡ false = ground arith in
      rw nonzero (
        rw (get_node_cached D bt bt.root m root)
          (rw internal (rw (goes_right m a b k keys children) refl)))

  -- what Insert does below a root with one separator, for the key of that separator
  insert_left :
      (bt bt' : BTree D.State) (f : ℕ) (m a b : Node) (k : ℤ) (value : List ℕ)
      → TwoLeaves D bt m a b k
      → insert_leaf D a k value bt ≡ (ok (0, pos 0), bt')
      → (s : Saves D bt' m)
      → insert D (suc (suc f)) k value bt
        ≡ (ok tt, record bt' { disk = s.disk; node_pool = pool_set bt'.node_pool m })
  unfolding insert insert_recursive
  insert_left bt bt' f m a b k value t run s =
      let nonzero : (bt.root == 0) ≡ false = ground (arith, t.pages) in
      rw nonzero (
        rw (get_node_cached D bt bt.root m t.root) (
          rw t.internal (
            rw (goes_left m a b k t.keys t.children) (
              rw (get_node_cached D bt a.page_id a t.left)
                (rw t.left_leaf.leaf (rw run (rw (save_node-Saves D bt' m s) refl)))))))

  search_separator :
      (bt : BTree D.State) (g : ℕ) (m a b : Node) (k : ℤ)
      → bt.node_pool bt.root ≡ some m
      → bt.node_pool b.page_id ≡ some b
      → 0 < bt.root
      → 0 < b.page_id
      → is_leaf m ≡ false
      → m.keys ≡ k ∷ []
      → m.children ≡ a.page_id ∷ b.page_id ∷ []
      → IsLeaf b
      → (search D (suc (suc g)) k bt).0 ≡ ok (leaf_get b k)
  search_separator bt g m a b k root right p q internal keys children leaf =
      ap (λ (r : Outcome (Option (List ℕ)) × BTree D.State). r.0)
        (search_right bt (suc g) m a b k root p internal keys children
          ∙ search_leaf D bt g b.page_id b k q right leaf)

  -- In a tree of a root with one separator over two leaves, Insert of the separator's own key,
  -- which SplitNode puts into the right leaf, goes to the left leaf: it succeeds, and Search of
  -- that key still finds what it found before, not the inserted value.
  pub search-insert_separator :
      (bt : BTree D.State) (f g : ℕ) (m a b : Node) (k : ℤ) (value : List ℕ)
      → TwoLeaves D bt m a b k
      → leaf_get a k ≡ none
      → length a.keys < 199
      → ((a' : Node) → insert_key a k 0 value ≡ ok a' → Saves D bt a')
      → ((bt1 : BTree D.State) → Saves D bt1 m)
      → (bt' : BTree D.State) × (insert D (suc (suc f)) k value bt ≡ (ok tt, bt'))
        × ((search D (suc (suc g)) k bt').0 ≡ ok (leaf_get b k))
        × ((search D (suc (suc g)) k bt).0 ≡ ok (leaf_get b k))
  search-insert_separator bt f g m a b k value t new room saves saves_root =
      let (a', ins, leaf', count, gets) = insert_key-leaf a k 0 value t.left_leaf new in
      let same = (insert_key-page_id a a' k 0 value ins).0 in
      let s = saves a' ins in
      let run = insert_leaf_new D bt a a' k value t.left_leaf new ins (omega (arith, count)) s in
      let mid : BTree D.State = record bt {
        disk = s.disk;
        node_pool = pool_set (pool_set bt.node_pool a') a';
      } in
      let s' = saves_root mid in
      (
        _,
        insert_left bt mid f m a b k value t run s',
        search_separator (record mid { disk = s'.disk; node_pool = pool_set mid.node_pool m }) g m a
            b k (ground (arith, t.own)) (ground (arith, t.own, t.apart, same, t.right)) t.pages.0
            t.pages.2 t.internal t.keys t.children t.right_leaf,
        search_separator bt g m a b k t.root t.right t.pages.0 t.pages.2 t.internal t.keys
            t.children t.right_leaf,
      )
