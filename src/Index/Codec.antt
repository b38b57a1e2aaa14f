-- ===== src/Index/Codec.antt =====
-- pkg/index/node.go: Serialize and DeserializeNode, for the 4096 bytes of a page. The test
-- `len(data) < 3` never holds for those. A bound past the page is a panic; the values are copied
-- by `copy(buf[pos:], v)`, which drops what does not fit.
pub mod RoundTrip
use agent_db.Prelude.{
  ℕ, zero, suc, ◌+◌, ◌-◌, ◌*◌, ◌%◌, ◌^◌, Bool, true, false, List, [], ◌∷◌, map, length, take, leb,
  ◌==◌, if◌then◌else◌,
}
use agent_db.Outcome.{Outcome, ok, err, panic, ◌>>=◌}
use agent_db.Bytes.{Buf, zeros, write, read, get_uint, put_uint}
use agent_db.Int64.{ℤ, to_word, of_word}
use agent_db.Index.Node.{Node, internal_node, leaf_node, is_leaf}

-- PageSize of the package
abbrev pub page_size : ℕ
page_size = 4096

-- the loops over the keys and the children
unfoldable pub put_words : Buf → ℕ → List ℕ → Outcome (Buf × ℕ)
put_words d p [] = ok (d, p)
put_words d p (w ∷ ws) =
    let rest = put_words (put_uint d p 8 w) (p + 8) ws in
    if leb (p + 8) page_size then rest else panic

-- the loop over the values
unfoldable pub put_values : Buf → ℕ → List (List ℕ) → Outcome (Buf × ℕ)
put_values d p [] = ok (d, p)
put_values d p (v ∷ vs) =
    let rest =
      put_values (write (put_uint d p 2 (length v % 2 ^ 16)) (p + 2) (take (page_size - (p + 2)) v))
        (p + 2 + length v) vs in
    if leb (p + 2) page_size then rest else panic

unfoldable pub serialize : Node → Outcome Buf
serialize n = do
  let d0 = put_uint zeros 0 1 n.node_type
  let d1 = put_uint d0 1 2 (length n.keys % 2 ^ 16)
  let d2 = put_uint d1 3 8 n.next
  (d3, p3) ← put_words d2 11 (map to_word n.keys)
  (d4, p4) ← (if is_leaf n then ok (d3, p3) else put_words d3 p3 n.children)
  (d5, p5) ← (if is_leaf n then put_values d4 p4 n.values else ok (d4, p4))
  ok d5

unfoldable pub get_words : Buf → ℕ → ℕ → Outcome (List ℕ × ℕ)
get_words d p zero = ok ([], p)
get_words d p (suc n) =
    let rest = get_words d (p + 8) n in
    if leb (p + 8) page_size then (do (ws, q) ← rest; ok (get_uint d p 8 ∷ ws, q)) else panic

unfoldable pub get_values : Buf → ℕ → ℕ → Outcome (List (List ℕ) × ℕ)
get_values d p zero = ok ([], p)
get_values d p (suc n) =
    let len = get_uint d p 2 in
    let rest = get_values d (p + 2 + len) n in
    if leb (p + 2) page_size
    then if leb (p + 2 + len) page_size
      then (do (vs, q) ← rest; ok (read d (p + 2) len ∷ vs, q))
      else panic
    else panic

unfoldable pub deserialize : Buf → ℕ → Outcome Node
deserialize d page_id = do
  let node_type = get_uint d 0 1
  let key_count = get_uint d 1 2
  let next = get_uint d 3 8
  (ws, p1) ← get_words d 11 key_count
  (cs, p2) ← (if node_type == internal_node then get_words d p1 (key_count + 1) else ok ([], p1))
  (vs, p3) ← (if node_type == leaf_node then get_values d p2 key_count else ok ([], p2))
  ok (record {
    node_type = node_type;
    keys = map of_word ws;
    children = cs;
    values = vs;
    next = next;
    page_id = page_id;
  })
