-- ===== src/Tests/Nodes.antt =====
-- The nodes of the index and its tree at concrete inputs.
use agent_db.Prelude.{
  ℕ, ◌+◌, ◌==◌, ◌≡◌, ◌≢◌, ◌<◌, ◌≤◌, refl, sym, ap, ◌∙◌, false, none, some, [], ◌∷◌, length, arith,
  inl, inr, if◌then◌else◌,
}
use agent_db.Outcome.{ok}
use agent_db.Bytes.{Buf, zeros}
use agent_db.Int64.{ℤ, pos, eqz, ◌<ℤ◌, ◌≤ℤ◌}
use agent_db.Storage.Page.{new_page}
use agent_db.Storage.Disk.{DbFile, DiskManager, adapter_read, adapter_write}
use agent_db.Index.Node.{
  Node, leaf_node, internal_node, find_key, find_keys, find_loop, key_at, insert_key, split_node,
  is_leaf, insert_at,
}
use agent_db.Index.Node.Search.{find_key_places}
use agent_db.Index.Node.Insert.{IsLeaf, leaf_get, insert_key-leaf}
use agent_db.Index.Node.Split.{LeafSplit, split_node-leaf}
use agent_db.Index.Codec.{serialize, deserialize}
use agent_db.Index.Codec.RoundTrip.{Storable, prefix, deserialize-serialize}
use agent_db.Index.BTree.{NodeDisk, BTree, insert, search}
use agent_db.Index.BTree.Leaf.{Saves, search-insert_leaf}
use agent_db.Index.BTree.Separator.{TwoLeaves, search-insert_separator}
use agent_db.Index.Adapter.{adapter_loses_node}

abbrev leaf : Node
leaf = record {
  node_type = leaf_node;
  keys = pos 3 ∷ pos 5 ∷ [];
  children = [];
  values = (30 ∷ []) ∷ (50 ∷ []) ∷ [];
  next = 0;
  page_id = 7;
}

leaf-IsLeaf : IsLeaf leaf
unfolding is_leaf
leaf-IsLeaf = record { leaf = refl; sorted = ((omega arith, tt), (tt, tt)); paired = refl }

find_key_places_example :
    (find_key leaf (pos 4) ≤ length leaf.keys)
    × ((i : ℕ) → i < find_key leaf (pos 4) → key_at leaf.keys i <ℤ pos 4)
    × ((i : ℕ) → find_key leaf (pos 4) ≤ i → i < length leaf.keys → pos 4 ≤ℤ key_at leaf.keys i)
find_key_places_example = find_key_places leaf (pos 4) leaf-IsLeaf.sorted

no_four : leaf_get leaf (pos 4) ≡ none
unfolding leaf_get find_key find_keys find_loop
no_four = refl

split_node-leaf_example :
    (l : Node) × (r : Node) × (k : ℤ) × (split_node leaf 9 ≡ ok (l, r, k)) × LeafSplit leaf l r k 9
split_node-leaf_example = split_node-leaf leaf 9 leaf-IsLeaf (omega arith)

leaf-Storable : Storable leaf
leaf-Storable = record {
  keys = (omega arith, (omega arith, tt));
  next = omega arith;
  children = tt;
  fits = omega arith;
  shape = inl (refl, refl, refl);
}

deserialize-serialize_example :
    (d : Buf) × (serialize leaf ≡ ok d) × (deserialize d leaf.page_id ≡ ok leaf)
deserialize-serialize_example = deserialize-serialize leaf leaf-Storable

insert_key-leaf_example :
    (n' : Node) × (insert_key leaf (pos 4) 0 (40 ∷ []) ≡ ok n')
    × IsLeaf n'
    × (length n'.keys ≡ length leaf.keys + 1)
    × ((j : ℤ) → leaf_get n' j ≡ (if eqz (pos 4) j then some (40 ∷ []) else leaf_get leaf j))
insert_key-leaf_example = insert_key-leaf leaf (pos 4) 0 (40 ∷ []) leaf-IsLeaf no_four

abbrev file : DbFile
file = record { content = zeros; size = 0; read_fails = λ _. false; write_fails = λ _. false }

abbrev disk : DiskManager
disk = record { file = file; page_count = 9 }

prefix_other : prefix leaf ≢ leaf.page_id
unfolding prefix
prefix_other = λ e. omega (arith, e)

adapter_loses_node_example :
    (d : Buf) × (dm' : DiskManager) × (serialize leaf ≡ ok d)
    × (adapter_write disk leaf.page_id d ≡ ok dm')
    × (adapter_read dm' leaf.page_id ≡ ok (new_page leaf.page_id).bytes)
adapter_loses_node_example =
    adapter_loses_node disk leaf leaf-Storable (omega arith) (λ i. refl) refl prefix_other

-- a disk whose writes all succeed; its state is the number of its pages
abbrev memory : NodeDisk
memory = record {
  State = ℕ;
  allocate_page = λ s. (s, s + 1);
  read_page = λ s i. ok zeros;
  write_page = λ s i d. ok s;
}

abbrev one_leaf : BTree ℕ
one_leaf = record { root = 7; disk = 9; node_pool = λ i. if i == 7 then some leaf else none }

abbrev more : Node
more = record leaf {
  keys = pos 3 ∷ pos 4 ∷ pos 5 ∷ [];
  values = (30 ∷ []) ∷ (40 ∷ []) ∷ (50 ∷ []) ∷ [];
}

abbrev last : Node
last = record leaf {
  keys = pos 3 ∷ pos 5 ∷ pos 9 ∷ [];
  values = (30 ∷ []) ∷ (50 ∷ []) ∷ (40 ∷ []) ∷ [];
}

more-Storable : Storable more
more-Storable = record {
  keys = (omega arith, (omega arith, (omega arith, tt)));
  next = omega arith;
  children = tt;
  fits = omega arith;
  shape = inl (refl, refl, refl);
}

last-Storable : Storable last
last-Storable = record {
  keys = (omega arith, (omega arith, (omega arith, tt)));
  next = omega arith;
  children = tt;
  fits = omega arith;
  shape = inl (refl, refl, refl);
}

node-Saves : (bt : BTree ℕ) (n n' : Node) → Storable n → n ≡ n' → Saves memory bt n'
node-Saves bt n n' s e =
    let (d, run, back) = deserialize-serialize n s in
    record { bytes = d; serialized = ap serialize (sym e) ∙ run; disk = bt.disk; written = refl }

four : insert_key leaf (pos 4) 0 (40 ∷ []) ≡ ok more
unfolding insert_key insert_at find_key find_keys find_loop is_leaf
four = refl

nine : insert_key leaf (pos 9) 0 (40 ∷ []) ≡ ok last
unfolding insert_key insert_at find_key find_keys find_loop is_leaf
nine = refl

search-insert_leaf_example :
    (bt' : BTree ℕ) × (insert memory 1 (pos 4) (40 ∷ []) one_leaf ≡ (ok tt, bt'))
    × ((j : ℤ)
        → (search memory 1 j bt').0
          ≡ (if eqz (pos 4) j then ok (some (40 ∷ [])) else (search memory 1 j one_leaf).0))
search-insert_leaf_example =
    search-insert_leaf memory one_leaf 0 0 leaf (pos 4) (40 ∷ []) (omega arith) refl refl
      leaf-IsLeaf no_four (omega arith)
      (λ n' h. node-Saves one_leaf more n' more-Storable (ground (arith, sym four ∙ h)))

abbrev right_leaf : Node
right_leaf = record leaf { keys = pos 9 ∷ []; values = (90 ∷ []) ∷ []; page_id = 8 }

abbrev top : Node
top = record {
  node_type = internal_node;
  keys = pos 9 ∷ [];
  children = 7 ∷ 8 ∷ [];
  values = [];
  next = 0;
  page_id = 6;
}

top-Storable : Storable top
top-Storable = record {
  keys = (omega arith, tt);
  next = omega arith;
  children = (omega arith, (omega arith, tt));
  fits = omega arith;
  shape = inr (refl, refl, refl);
}

abbrev two_leaves : BTree ℕ
two_leaves = record {
  root = 6;
  disk = 9;
  node_pool = λ i.
      if i == 6
      then some top
      else if i == 7
      then some leaf
      else if i == 8
      then some right_leaf
      else none;
}

right_leaf-IsLeaf : IsLeaf right_leaf
unfolding is_leaf
right_leaf-IsLeaf = record { leaf = refl; sorted = (tt, tt); paired = refl }

two_leaves-TwoLeaves : TwoLeaves memory two_leaves top leaf right_leaf (pos 9)
unfolding is_leaf
two_leaves-TwoLeaves = record {
  root = refl;
  pages = (omega arith, omega arith, omega arith);
  apart = ((λ e. omega (arith, e)), (λ e. omega (arith, e)), (λ e. omega (arith, e)));
  own = refl;
  internal = refl;
  keys = refl;
  children = refl;
  left = refl;
  right = refl;
  left_leaf = leaf-IsLeaf;
  right_leaf = right_leaf-IsLeaf;
}

no_nine : leaf_get leaf (pos 9) ≡ none
unfolding leaf_get find_key find_keys find_loop
no_nine = refl

-- the right leaf holds 90 under the separator; 40 is inserted under it and not found
search-insert_separator_example :
    (bt' : BTree ℕ) × (insert memory 2 (pos 9) (40 ∷ []) two_leaves ≡ (ok tt, bt'))
    × ((search memory 2 (pos 9) bt').0 ≡ ok (leaf_get right_leaf (pos 9)))
    × ((search memory 2 (pos 9) two_leaves).0 ≡ ok (leaf_get right_leaf (pos 9)))
search-insert_separator_example =
    search-insert_separator memory two_leaves 0 0 top leaf right_leaf (pos 9) (40 ∷ [])
      two_leaves-TwoLeaves no_nine (omega arith)
      (λ n' h. node-Saves two_leaves last n' last-Storable (ground (arith, sym nine ∙ h)))
      (λ bt. node-Saves bt top top top-Storable refl)
