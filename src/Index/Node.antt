-- ===== src/Index/Node.antt =====
-- pkg/index/node.go: a node of the B+ tree. A slice bound out of range is a panic.
pub mod Search
pub mod Insert
pub mod Split
use agent_db.Prelude.{
  ℕ, zero, suc, ◌+◌, ◌-◌, ◌*◌, ◌/◌, ◌%◌, Bool, true, false, Option, none, some, List, [], ◌∷◌, ◌++◌,
  length, get_elem?, get_or, take, drop, ltb, leb, ◌==◌, if◌then◌else◌,
}
use agent_db.Outcome.{Outcome, ok, err, panic, ◌>>=◌}
use agent_db.Int64.{ℤ, pos, ltz, eqz}

abbrev pub max_keys : ℕ
max_keys = 200

-- a NodeType is a byte: 0 is InternalNode, 1 is LeafNode
abbrev pub internal_node : ℕ
internal_node = 0

abbrev pub leaf_node : ℕ
leaf_node = 1

pub record Node : Type 0 where
  pub node_type : ℕ
  pub keys : List ℤ
  pub children : List ℕ
  pub values : List (List ℕ)
  pub next : ℕ
  pub page_id : ℕ

unfoldable pub new_node : ℕ → ℕ → Node
new_node page_id node_type = record {
  node_type = node_type;
  keys = [];
  children = [];
  values = [];
  next = 0;
  page_id = page_id;
}

unfoldable pub is_full : Node → Bool
is_full n = leb max_keys (length n.keys)

unfoldable pub is_leaf : Node → Bool
is_leaf n = n.node_type == leaf_node

-- n.Keys[i], for an index that is in range
abbrev pub key_at : List ℤ → ℕ → ℤ
key_at ks i = get_or ks i (pos 0)

-- The loop of FindKey. `right` of the source is -1 for an empty range, so that `hi` is
-- `right + 1` here: the test `left <= right` is `left < hi`, and `mid` is the same.
unfoldable pub find_loop : ℕ → List ℤ → ℤ → ℕ → ℕ → ℕ
find_loop zero ks key left hi = left
find_loop (suc fuel) ks key left hi =
    let mid = (left + (hi - 1)) / 2 in
    let right_half = find_loop fuel ks key (mid + 1) hi in
    let left_half = find_loop fuel ks key left mid in
    if ltb left hi
    then if eqz (key_at ks mid) key
      then mid
      else if ltz (key_at ks mid) key
      then right_half
      else left_half
    else left

-- a round shrinks the range, so its length plus one is enough fuel
unfoldable pub find_keys : List ℤ → ℤ → ℕ
find_keys ks key = find_loop (length ks + 1) ks key 0 (length ks)

unfoldable pub find_key : Node → ℤ → ℕ
unfolding find_keys
find_key n key = find_keys n.keys key

-- append(xs, zero), copy(xs[i+1:], xs[i:]), xs[i] = v
module _ {ℓ} {A : Type ℓ} where
  unfoldable pub insert_at : List A → ℕ → A → Outcome (List A)
  insert_at xs i v = if leb i (length xs) then ok (take i xs ++ v ∷ drop i xs) else panic

unfoldable pub insert_key : Node → ℤ → ℕ → List ℕ → Outcome Node
insert_key n key child value = do
  let i = find_key n key
  keys ← insert_at n.keys i key
  if is_leaf n
      then (do values ← insert_at n.values i value; ok (record n { keys = keys; values = values }))
      else (do
        children ← insert_at n.children (i + 1) child
        ok (record n { keys = keys; children = children }))

-- the left node, the new node, and the separator for the parent
unfoldable pub split_node : Node → ℕ → Outcome (Node × Node × ℤ)
split_node n new_page_id =
    let mid = length n.keys / 2 in
    elim (get_elem? n.keys mid) [
      | none ↦ panic
      | some split_key ↦
          if is_leaf n
          then if leb mid (length n.values)
            then ok (
              record n { keys = take mid n.keys; values = take mid n.values; next = new_page_id },
              record (new_node new_page_id n.node_type) {
                keys = drop mid n.keys;
                values = drop mid n.values;
                next = n.next;
              },
              split_key,
            )
            else panic
          else if leb (mid + 1) (length n.children)
          then ok (
            record n { keys = take mid n.keys; children = take (mid + 1) n.children },
            record (new_node new_page_id n.node_type) {
              keys = drop (mid + 1) n.keys;
              children = drop (mid + 1) n.children;
            },
            split_key,
          )
          else panic
    ]
