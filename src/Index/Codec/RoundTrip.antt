-- ===== src/Index/Codec/RoundTrip.antt =====
-- A node that fits its page is read back from its bytes.
use agent_db.Prelude.{
  ℕ, ◌+◌, ◌-◌, ◌*◌, ◌%◌, ◌^◌, ◌≤◌, ◌<◌, ◌≡◌, refl, ◌∙◌, ◌⊎◌, inl, inr, List, [], ◌∷◌, map, arith,
  length, take_of_length-le, length-map,
}
use agent_db.Outcome.{Outcome, ok}
use agent_db.Bytes.{
  Buf, zeros, write, read, get_uint, put_uint, put_apart, get-put_self, get-put_ne, get-write_ne,
  get_congr, read_congr, write_below, read-write_self,
}
use agent_db.Int64.{ℤ, InRange, to_word, of_word, of_word-to_word, to_word-lt}
use agent_db.Index.Node.{Node, is_leaf, internal_node, leaf_node}
use agent_db.Index.Node.Search.{All}
use agent_db.Index.Codec.{put_words, put_values, serialize, get_words, get_values, deserialize}

-- what a writer did to an array from `p` up to `q`: nothing below `p`, and `reads` is what the
-- reader gives on every array with the same bytes there
record Wrote {ℓ} {A : Type ℓ} (reads : Buf → Outcome (A × ℕ)) (a : A) (d : Buf) (p : ℕ) (d' : Buf)
    (q : ℕ) : Type ℓ where
  below : (i : ℕ) → i < p → d' i ≡ d i
  back : (e : Buf) → ((i : ℕ) → i < q → e i ≡ d' i) → reads e ≡ ok (a, q)

put_words-Wrote :
    (ws : List ℕ) (d : Buf) (p q : ℕ)
    → All (λ w. w < 2 ^ 64) ws
    → q ≡ p + 8 * length ws
    → q ≤ 4096
    → (d' : Buf) × (put_words d p ws ≡ ok (d', q))
      × Wrote (λ e. get_words e p (length ws)) ws d p d' q
unfolding put_words get_words
put_words-Wrote [] d p q small end fit =
    let e : p ≡ q = omega arith in
    (d, ground (arith, e), record { below = λ i h. refl; back = λ b h. ground (arith, e) })
put_words-Wrote (w ∷ ws) d p q small end fit =
    let (d', run, wrote) =
      put_words-Wrote ws (put_uint d p 8 w) (p + 8) q small.1 (omega arith) fit in
    (
      d',
      ground (arith, run),
      record {
        below = λ i h. wrote.below i (omega arith) ∙ put_apart d p 8 w i (inl h);
        back = λ e h.
            let first : get_uint e p 8 ≡ w =
              get_congr e (put_uint d p 8 w) p 8
                (λ i a b. h i (omega arith) ∙ wrote.below i (omega arith))
              ∙ get-put_self d p 8 w small.0 in
            ground (arith, first, wrote.back e h);
      },
    )

-- the bytes that a list of values takes
abbrev pub values_size : List (List ℕ) → ℕ
values_size [] = 0
values_size (v ∷ vs) = 2 + length v + values_size vs

put_values-Wrote :
    (vs : List (List ℕ)) (d : Buf) (p q : ℕ)
    → q ≡ p + values_size vs
    → q ≤ 4096
    → (d' : Buf) × (put_values d p vs ≡ ok (d', q))
      × Wrote (λ e. get_values e p (length vs)) vs d p d' q
unfolding put_values get_values
put_values-Wrote [] d p q end fit =
    let e : p ≡ q = omega arith in
    (d, ground (arith, e), record { below = λ i h. refl; back = λ b h. ground (arith, e) })
put_values-Wrote (v ∷ vs) d p q end fit =
    let d1 = put_uint d p 2 (length v % 2 ^ 16) in
    let d2 = write d1 (p + 2) v in
    let whole = take_of_length-le (4096 - (p + 2)) v (omega arith) in
    let (d', run, wrote) = put_values-Wrote vs d2 (p + 2 + length v) q (omega arith) fit in
    (
      d',
      rw whole (ground (arith, run)),
      record {
        below = λ i h.
            wrote.below i (omega arith)
            ∙ write_below d1 (p + 2) i v (omega arith)
            ∙ put_apart d p 2 (length v % 2 ^ 16) i (inl h);
        back = λ e h.
            let same = λ (i : ℕ) (b : i < p + 2 + length v). h i (omega arith) ∙ wrote.below i b in
            let first : get_uint e p 2 ≡ length v =
              get_congr e d2 p 2 (λ i a b. same i (omega arith))
              ∙ get-write_ne d1 (p + 2) v p 2 (inl (omega arith))
              ∙ get-put_self d p 2 (length v % 2 ^ 16) (omega arith)
              ∙ omega arith in
            let row : read e (p + 2) (length v) ≡ v =
              read_congr e d2 (p + 2) (length v) (λ i a b. same i b)
              ∙ read-write_self d1 (p + 2) v in
            rw first (ground (arith, row, wrote.back e h));
      },
    )

-- the bytes of a node, and the limits of its fields
abbrev pub node_size : Node → ℕ
node_size n = 11 + 8 * length n.keys + 8 * length n.children + values_size n.values

pub record Storable (n : Node) : Type 0 where
  pub keys : All InRange n.keys
  pub next : n.next < 2 ^ 64
  pub children : All (λ c. c < 2 ^ 64) n.children
  pub fits : node_size n ≤ 4096
  pub shape :
      ((n.node_type ≡ leaf_node) × (n.children ≡ []) × (length n.values ≡ length n.keys))
      ⊎ ((n.node_type ≡ internal_node) × (n.values ≡ []) × (length n.children ≡ length n.keys + 1))

words_small : (ks : List ℤ) → All (λ w. w < 2 ^ 64) (map to_word ks)
words_small [] = tt
words_small (k ∷ ks) = (to_word-lt k, words_small ks)

words_back : (ks : List ℤ) → All InRange ks → map of_word (map to_word ks) ≡ ks
words_back [] h = refl
words_back (k ∷ ks) h = ground (arith, of_word-to_word k h.0, words_back ks h.1)

module _ (n : Node) where
  abbrev header : Buf
  header =
      put_uint (put_uint (put_uint zeros 0 1 n.node_type) 1 2 (length n.keys % 2 ^ 16)) 3 8 n.next

  module _ (e : Buf) (same : (i : ℕ) → i < 11 → e i ≡ header i) where
    type_field : n.node_type < 256 → get_uint e 0 1 ≡ n.node_type
    type_field h =
        get_congr e header 0 1 (λ i a b. same i (omega arith))
        ∙ get-put_ne _ 3 8 n.next 0 1 (inl (omega arith))
        ∙ get-put_ne _ 1 2 (length n.keys % 2 ^ 16) 0 1 (inl (omega arith))
        ∙ get-put_self zeros 0 1 n.node_type (omega arith)

    count_field : length n.keys < 65536 → get_uint e 1 2 ≡ length n.keys
    count_field h =
        get_congr e header 1 2 (λ i a b. same i (omega arith))
        ∙ get-put_ne _ 3 8 n.next 1 2 (inl (omega arith))
        ∙ get-put_self _ 1 2 (length n.keys % 2 ^ 16) (omega arith)
        ∙ omega arith

    next_field : n.next < 2 ^ 64 → get_uint e 3 8 ≡ n.next
    next_field h =
        get_congr e header 3 8 (λ i a b. same i (omega arith))
        ∙ get-put_self _ 3 8 n.next (omega arith)

  module _ (s : Storable n) where
    keys-Wrote :
        (d' : Buf) × (put_words header 11 (map to_word n.keys) ≡ ok (d', 11 + 8 * length n.keys))
        × Wrote
            (λ e. get_words e 11 (length n.keys))
            (map to_word n.keys)
            header
            11
            d'
            (11 + 8 * length n.keys)
    keys-Wrote =
        let count = length-map to_word n.keys in
        let (d, run, w) =
          put_words-Wrote (map to_word n.keys) header 11 (11 + 8 * length n.keys)
            (words_small n.keys) (omega (arith, count)) (omega (arith, s.fits)) in
        (d, run, record { below = w.below; back = λ e h. rw count at (w.back e h) })

    leaf_trip :
        n.node_type ≡ leaf_node
        → n.children ≡ []
        → length n.values ≡ length n.keys
        → (d : Buf) × (serialize n ≡ ok d)
          × (deserialize d n.page_id ≡ ok n)
          × ((i : ℕ) → i < 11 → d i ≡ header i)
    unfolding serialize deserialize is_leaf
    leaf_trip leaf no_children paired =
        let (d3, run3, w3) = keys-Wrote in
        let (d5, run5, w5) =
          put_values-Wrote n.values d3 (11 + 8 * length n.keys)
            (11 + 8 * length n.keys + values_size n.values) refl (omega (arith, s.fits)) in
        let same = λ (i : ℕ) (h : i < 11). w5.below i (omega arith) ∙ w3.below i h in
        let back3 = w3.back d5 w5.below in
        let back5 = w5.back d5 (λ i _. refl) in
        (
          d5,
          ground (arith, run3, run5),
          ground (
            arith,
            type_field d5 same (omega arith),
            count_field d5 same (omega (arith, s.fits)),
            next_field d5 same s.next,
            back3,
            back5,
            words_back n.keys s.keys,
          ),
          same,
        )

    internal_trip :
        n.node_type ≡ internal_node
        → n.values ≡ []
        → length n.children ≡ length n.keys + 1
        → (d : Buf) × (serialize n ≡ ok d)
          × (deserialize d n.page_id ≡ ok n)
          × ((i : ℕ) → i < 11 → d i ≡ header i)
    unfolding serialize deserialize is_leaf
    internal_trip internal no_values paired =
        let (d3, run3, w3) = keys-Wrote in
        let (d4, run4, w4) =
          put_words-Wrote n.children d3 (11 + 8 * length n.keys)
            (11 + 8 * length n.keys + 8 * length n.children) s.children refl
            (omega (arith, s.fits)) in
        let same = λ (i : ℕ) (h : i < 11). w4.below i (omega arith) ∙ w3.below i h in
        (
          d4,
          ground (arith, run3, run4),
          ground (
            arith,
            type_field d4 same (omega arith),
            count_field d4 same (omega (arith, s.fits)),
            next_field d4 same s.next,
            w3.back d4 w4.below,
            w4.back d4 (λ i _. refl),
            words_back n.keys s.keys,
          ),
          same,
        )

trip :
    (n : Node)
    → Storable n
    → (d : Buf) × (serialize n ≡ ok d)
      × (deserialize d n.page_id ≡ ok n)
      × ((i : ℕ) → i < 11 → d i ≡ header n i)
trip n s = elim s.shape [
  | inl (leaf, none_below, paired) ↦ leaf_trip n s leaf none_below paired
  | inr (internal, no_values, paired) ↦ internal_trip n s internal no_values paired
]

-- A leaf or an internal node whose fields fit and whose bytes fit the page is written without a
-- panic, and reading its bytes gives the node back.
pub deserialize-serialize :
    (n : Node) → Storable n → (d : Buf) × (serialize n ≡ ok d) × (deserialize d n.page_id ≡ ok n)
deserialize-serialize n s = let (d, run, back, _) = trip n s in (d, run, back)

-- the first eight bytes of a node, as a number
unfoldable pub prefix : Node → ℕ
prefix n = n.node_type + 256 * length n.keys + 2 ^ 24 * (n.next % 2 ^ 40)

prefix-header :
    (n : Node) → n.node_type < 256 → length n.keys < 65536 → get_uint (header n) 0 8 ≡ prefix n
unfolding prefix get_uint put_uint
prefix-header n t k = omega arith

pub serialize-prefix :
    (n : Node) → Storable n → (d : Buf) × (serialize n ≡ ok d) × (get_uint d 0 8 ≡ prefix n)
serialize-prefix n s =
    let (d, run, back, same) = trip n s in
    (
      d,
      run,
      get_congr d (header n) 0 8 (λ i a b. same i (omega arith))
          ∙ prefix-header n (type_byte s.shape) (omega (arith, s.fits)),
    )
  where
    type_byte :
        ((n.node_type ≡ leaf_node) × (n.children ≡ []) × (length n.values ≡ length n.keys))
          ⊎ ((n.node_type ≡ internal_node)
              × (n.values ≡ [])
              × (length n.children ≡ length n.keys + 1))
        → n.node_type < 256
    type_byte (inl (a, b, c)) = omega arith
    type_byte (inr (a, b, c)) = omega arith
