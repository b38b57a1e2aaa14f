-- ===== src/Graph/Edges.antt =====
-- The indexes of the edges agree with the edges, and the ends of an edge are nodes.
use agent_db.Prelude.{
  ℕ, ◌<◌, ◌≡◌, ◌≢◌, refl, sym, ap, ◌∙◌, ◌⊎◌, inl, inr, Bool, true, false, none, some, some_inj,
  Option-cases, List, [], ◌∷◌, ◌++◌, arith, ◌==◌,
}
use mathlib.Core.Path.{subst}
use native.Mathlib.Decide.{ℕ_discrete}
use agent_db.Storage.BufferPool.Frames.{In}
use agent_db.Graph.{
  Node, Edge, Graph, new_graph, assign, remove_id, with_edge, without_edge, delete_edge,
  delete_edges,
}

pub record IsValid (g : Graph) : Type 0 where
  pub own : (i : ℕ) (e : Edge) → g.edge_by_id i ≡ some e → e.id ≡ i
  pub fresh : (i : ℕ) (e : Edge) → g.edge_by_id i ≡ some e → i < g.next_edge_id
  pub from_listed : (i : ℕ) (e : Edge) → g.edge_by_id i ≡ some e → In i (g.edge_by_from e.from_id)
  pub to_listed : (i : ℕ) (e : Edge) → g.edge_by_id i ≡ some e → In i (g.edge_by_to e.to_id)
  pub from_there :
      (n i : ℕ) → In i (g.edge_by_from n) → (e : Edge) × (g.edge_by_id i ≡ some e) × (e.from_id ≡ n)
  pub to_there :
      (n i : ℕ) → In i (g.edge_by_to n) → (e : Edge) × (g.edge_by_id i ≡ some e) × (e.to_id ≡ n)
  pub from_node :
      (i : ℕ) (e : Edge) → g.edge_by_id i ≡ some e → (n : Node) × (g.node_by_id e.from_id ≡ some n)
  pub to_node :
      (i : ℕ) (e : Edge) → g.edge_by_id i ≡ some e → (n : Node) × (g.node_by_id e.to_id ≡ some n)
  pub fresh_node : (i : ℕ) (n : Node) → g.node_by_id i ≡ some n → i < g.next_node_id

pub new_graph-IsValid : (write_fails : ℕ → Bool) → IsValid (new_graph write_fails)
unfolding new_graph
new_graph-IsValid w = record {
  own = λ i e h. absurd (ground (arith, h));
  fresh = λ i e h. absurd (ground (arith, h));
  from_listed = λ i e h. absurd (ground (arith, h));
  to_listed = λ i e h. absurd (ground (arith, h));
  from_there = λ n i h. absurd h;
  to_there = λ n i h. absurd h;
  from_node = λ i e h. absurd (ground (arith, h));
  to_node = λ i e h. absurd (ground (arith, h));
  fresh_node = λ i n h. absurd (ground (arith, h));
}

pub In-append_left : (i : ℕ) (xs ys : List ℕ) → In i xs → In i (xs ++ ys)
In-append_left i [] ys h = absurd h
In-append_left i (x ∷ xs) ys (inl e) = inl e
In-append_left i (x ∷ xs) ys (inr h) = inr (In-append_left i xs ys h)

In-append_last : (i : ℕ) (xs : List ℕ) → In i (xs ++ i ∷ [])
In-append_last i [] = inl refl
In-append_last i (x ∷ xs) = inr (In-append_last i xs)

In-append_one : (i j : ℕ) (xs : List ℕ) → In i (xs ++ j ∷ []) → In i xs ⊎ (i ≡ j)
In-append_one i j [] (inl e) = inr e
In-append_one i j [] (inr h) = absurd h
In-append_one i j (x ∷ xs) (inl e) = inl (inl e)
In-append_one i j (x ∷ xs) (inr h) = elim (In-append_one i j xs h) [
  | inl k ↦ inl (inr k)
  | inr e ↦ inr e
]

pub In-append_right : (i : ℕ) (xs ys : List ℕ) → In i ys → In i (xs ++ ys)
In-append_right i [] ys h = h
In-append_right i (x ∷ xs) ys h = inr (In-append_right i xs ys h)

remove_id_same : (x t : ℕ) (l : List ℕ) → x ≡ t → remove_id (x ∷ l) t ≡ remove_id l t
unfolding remove_id
remove_id_same x t l e = let same : (x == t) ≡ true = ground (arith, e) in rw same refl

remove_id_ne : (x t : ℕ) (l : List ℕ) → x ≢ t → remove_id (x ∷ l) t ≡ x ∷ remove_id l t
unfolding remove_id
remove_id_ne x t l ne = let apart : (x == t) ≡ false = ground (arith, ne) in rw apart refl

In-remove_id : (i t : ℕ) (l : List ℕ) → In i (remove_id l t) → In i l × (i ≢ t)
In-remove_id i t [] h = absurd (unfold remove_id in h)
In-remove_id i t (x ∷ l) h = elim (ℕ_discrete x t) [
  | yes e ↦
      let (old, ne) = In-remove_id i t l (subst (In i) (remove_id_same x t l e) h) in (inr old, ne)
  | no ne ↦ elim (subst (In i) (remove_id_ne x t l ne) h) [
    | inl e ↦ (inl e, λ k. ne (sym e ∙ k))
    | inr k ↦ let (old, apart) = In-remove_id i t l k in (inr old, apart)
  ]
]

In-remove_id_ne : (i t : ℕ) (l : List ℕ) → i ≢ t → In i l → In i (remove_id l t)
In-remove_id_ne i t [] ne h = absurd h
In-remove_id_ne i t (x ∷ l) ne h = elim (ℕ_discrete x t) [
  | yes e ↦
      subst (In i) (sym (remove_id_same x t l e))
        (elim h [ inl k ↦ absurd (ne (k ∙ e)) | inr k ↦ In-remove_id_ne i t l ne k ])
  | no apart ↦
      subst (In i) (sym (remove_id_ne x t l apart))
        (elim h [ inl k ↦ inl k | inr k ↦ inr (In-remove_id_ne i t l ne k) ])
]

pub assign_self : {A : Type 0} (m : ℕ → A) (k : ℕ) (v : A) (j : ℕ) → j ≡ k → assign m k v j ≡ v
assign_self m k v j e = let same : (j == k) ≡ true = ground (arith, e) in rw same refl

pub assign_ne : {A : Type 0} (m : ℕ → A) (k : ℕ) (v : A) (j : ℕ) → j ≢ k → assign m k v j ≡ m j
assign_ne m k v j ne = let apart : (j == k) ≡ false = ground (arith, ne) in rw apart refl

-- an id behind the end of one list of an index
pub listed_add : (m : ℕ → List ℕ) (k id n i : ℕ) → In i (m n) → In i (assign m k (m k ++ id ∷ []) n)
listed_add m k id n i h = elim (ℕ_discrete n k) [
  | yes e ↦
      subst (In i) (sym (assign_self m k (m k ++ id ∷ []) n e))
        (In-append_left i (m k) (id ∷ []) (subst (λ j. In i (m j)) e h))
  | no ne ↦ subst (In i) (sym (assign_ne m k (m k ++ id ∷ []) n ne)) h
]

pub listed_new : (m : ℕ → List ℕ) (k id : ℕ) → In id (assign m k (m k ++ id ∷ []) k)
listed_new m k id =
    subst (In id) (sym (assign_self m k (m k ++ id ∷ []) k refl)) (In-append_last id (m k))

pub listed_added :
    (m : ℕ → List ℕ) (k id n i : ℕ)
    → In i (assign m k (m k ++ id ∷ []) n)
    → In i (m n) ⊎ ((i ≡ id) × (n ≡ k))
listed_added m k id n i h = elim (ℕ_discrete n k) [
  | yes e ↦
      elim (In-append_one i id (m k) (subst (In i) (assign_self m k (m k ++ id ∷ []) n e) h)) [
        | inl old ↦ inl (subst (λ j. In i (m j)) (sym e) old)
        | inr new ↦ inr (new, e)
      ]
  | no ne ↦ inl (subst (In i) (assign_ne m k (m k ++ id ∷ []) n ne) h)
]

-- an id out of one list of an index
listed_keep :
    (m : ℕ → List ℕ) (k id n i : ℕ) → i ≢ id → In i (m n) → In i (assign m k (remove_id (m k) id) n)
listed_keep m k id n i ne h = elim (ℕ_discrete n k) [
  | yes e ↦
      subst (In i) (sym (assign_self m k (remove_id (m k) id) n e))
        (In-remove_id_ne i id (m k) ne (subst (λ j. In i (m j)) e h))
  | no apart ↦ subst (In i) (sym (assign_ne m k (remove_id (m k) id) n apart)) h
]

listed_kept :
    (m : ℕ → List ℕ) (k id n i : ℕ)
    → In i (assign m k (remove_id (m k) id) n)
    → In i (m n) × ((i ≡ id) → n ≢ k)
listed_kept m k id n i h = elim (ℕ_discrete n k) [
  | yes e ↦
      let (old, ne) =
        In-remove_id i id (m k) (subst (In i) (assign_self m k (remove_id (m k) id) n e) h) in
      (subst (λ j. In i (m j)) (sym e) old, λ same. absurd (ne same))
  | no apart ↦ (subst (In i) (assign_ne m k (remove_id (m k) id) n apart) h, λ same. apart)
]

module _ (g : Graph) (v : IsValid g) (edge : Edge) (new : edge.id ≡ g.next_edge_id) (f t : Node)
    (has_from : g.node_by_id edge.from_id ≡ some f)
    (has_to : g.node_by_id edge.to_id ≡ some t) where
  abbrev bigger : Graph
  bigger = with_edge g edge

  -- an edge of the bigger graph is the new one or an old one
  which :
      (i : ℕ) (e : Edge)
      → bigger.edge_by_id i ≡ some e
      → ((i ≡ edge.id) × (edge ≡ e)) ⊎ ((i ≢ edge.id) × (g.edge_by_id i ≡ some e))
  which i e h = elim (ℕ_discrete i edge.id) [
    | yes same ↦
        inl (same, some_inj (sym (assign_self g.edge_by_id edge.id (some edge) i same) ∙ h))
    | no ne ↦ inr (ne, sym (assign_ne g.edge_by_id edge.id (some edge) i ne) ∙ h)
  ]

  old_there : (i : ℕ) (e : Edge) → g.edge_by_id i ≡ some e → bigger.edge_by_id i ≡ some e
  old_there i e h =
      assign_ne g.edge_by_id edge.id (some edge) i (λ same. omega (arith, v.fresh i e h, same, new))
      ∙ h

  pub with_edge-IsValid : IsValid bigger
  with_edge-IsValid = record {
    own = λ i e h. elim (which i e h) [
      | inl (same, is_e) ↦ ap (λ (x : Edge). x.id) (sym is_e) ∙ sym same
      | inr (ne, old) ↦ v.own i e old
    ];
    fresh = λ i e h. elim (which i e h) [
      | inl (same, is_e) ↦ omega (arith, same, new)
      | inr (ne, old) ↦ omega (arith, v.fresh i e old)
    ];
    from_listed = λ i e h. elim (which i e h) [
      | inl (same, is_e) ↦
          subst (λ j. In j (bigger.edge_by_from e.from_id)) (sym same)
            (subst (λ (x : Edge). In edge.id (bigger.edge_by_from x.from_id)) is_e
              (listed_new g.edge_by_from edge.from_id edge.id))
      | inr (ne, old) ↦
          listed_add g.edge_by_from edge.from_id edge.id e.from_id i (v.from_listed i e old)
    ];
    to_listed = λ i e h. elim (which i e h) [
      | inl (same, is_e) ↦
          subst (λ j. In j (bigger.edge_by_to e.to_id)) (sym same)
            (subst (λ (x : Edge). In edge.id (bigger.edge_by_to x.to_id)) is_e
              (listed_new g.edge_by_to edge.to_id edge.id))
      | inr (ne, old) ↦ listed_add g.edge_by_to edge.to_id edge.id e.to_id i (v.to_listed i e old)
    ];
    from_there = λ n i h. elim (listed_added g.edge_by_from edge.from_id edge.id n i h) [
      | inl old ↦ let (e, at, own) = v.from_there n i old in (e, old_there i e at, own)
      | inr (is_id, is_k) ↦ (edge, assign_self g.edge_by_id edge.id (some edge) i is_id, sym is_k)
    ];
    to_there = λ n i h. elim (listed_added g.edge_by_to edge.to_id edge.id n i h) [
      | inl old ↦ let (e, at, own) = v.to_there n i old in (e, old_there i e at, own)
      | inr (is_id, is_k) ↦ (edge, assign_self g.edge_by_id edge.id (some edge) i is_id, sym is_k)
    ];
    from_node = λ i e h. elim (which i e h) [
      | inl (same, is_e) ↦ (f, ap (λ (x : Edge). g.node_by_id x.from_id) (sym is_e) ∙ has_from)
      | inr (ne, old) ↦ v.from_node i e old
    ];
    to_node = λ i e h. elim (which i e h) [
      | inl (same, is_e) ↦ (t, ap (λ (x : Edge). g.node_by_id x.to_id) (sym is_e) ∙ has_to)
      | inr (ne, old) ↦ v.to_node i e old
    ];
    fresh_node = v.fresh_node;
  }

module _ (g : Graph) (v : IsValid g) (id : ℕ) (edge : Edge) (at : g.edge_by_id id ≡ some edge) where
  abbrev smaller : Graph
  smaller = without_edge g id edge

  pub left_over :
      (i : ℕ) (e : Edge) → smaller.edge_by_id i ≡ some e → (i ≢ id) × (g.edge_by_id i ≡ some e)
  left_over i e h = elim (ℕ_discrete i id) [
    | yes same ↦
        let gone : none ≡ some e = sym (assign_self g.edge_by_id id none i same) ∙ h in
        absurd (ground (arith, gone))
    | no ne ↦ (ne, sym (assign_ne g.edge_by_id id none i ne) ∙ h)
  ]

  still_there :
      (i : ℕ) (e : Edge) → i ≢ id → g.edge_by_id i ≡ some e → smaller.edge_by_id i ≡ some e
  still_there i e ne h = assign_ne g.edge_by_id id none i ne ∙ h

  -- a listed id is not the removed one, whose only list is that of its end
  other_from : (n i : ℕ) → In i (smaller.edge_by_from n) → In i (g.edge_by_from n) × (i ≢ id)
  other_from n i h =
      let (old, apart) = listed_kept g.edge_by_from edge.from_id id n i h in
      (
        old,
        λ same.
            let (e, is_e, ends) = v.from_there n i old in
            apart same (
              sym ends
              ∙ ap (λ (x : Edge). x.from_id) (some_inj (sym is_e ∙ ap g.edge_by_id same ∙ at))),
      )

  other_to : (n i : ℕ) → In i (smaller.edge_by_to n) → In i (g.edge_by_to n) × (i ≢ id)
  other_to n i h =
      let (old, apart) = listed_kept g.edge_by_to edge.to_id id n i h in
      (
        old,
        λ same.
            let (e, is_e, ends) = v.to_there n i old in
            apart same (
              sym ends
              ∙ ap (λ (x : Edge). x.to_id) (some_inj (sym is_e ∙ ap g.edge_by_id same ∙ at))),
      )

  pub without_edge-IsValid : IsValid smaller
  without_edge-IsValid = record {
    own = λ i e h. v.own i e (left_over i e h).1;
    fresh = λ i e h. v.fresh i e (left_over i e h).1;
    from_listed = λ i e h.
        let (ne, old) = left_over i e h in
        listed_keep g.edge_by_from edge.from_id id e.from_id i ne (v.from_listed i e old);
    to_listed = λ i e h.
        let (ne, old) = left_over i e h in
        listed_keep g.edge_by_to edge.to_id id e.to_id i ne (v.to_listed i e old);
    from_there = λ n i h.
        let (old, ne) = other_from n i h in
        let (e, is_e, ends) = v.from_there n i old in (e, still_there i e ne is_e, ends);
    to_there = λ n i h.
        let (old, ne) = other_to n i h in
        let (e, is_e, ends) = v.to_there n i old in (e, still_there i e ne is_e, ends);
    from_node = λ i e h. v.from_node i e (left_over i e h).1;
    to_node = λ i e h. v.to_node i e (left_over i e h).1;
    fresh_node = v.fresh_node;
  }

-- what deletions of edges keep
pub record Fewer (g g' : Graph) : Type 0 where
  pub valid : IsValid g'
  pub nodes : g'.node_by_id ≡ g.node_by_id
  pub edges : (i : ℕ) (e : Edge) → g'.edge_by_id i ≡ some e → g.edge_by_id i ≡ some e

pub delete_edge-Fewer :
    (g : Graph) (id : ℕ)
    → IsValid g
    → Fewer g (delete_edge g id).1 × ((delete_edge g id).1.edge_by_id id ≡ none)
unfolding delete_edge
delete_edge-Fewer g id v = elim (Option-cases (g.edge_by_id id)) [
  | inl e ↦ rw (e, delete_edge) (record { valid = v; nodes = refl; edges = λ i x h. h }, e)
  | inr (edge, e) ↦
      rw (e, delete_edge)
        (
          record {
            valid = without_edge-IsValid g v id edge e;
            nodes = refl;
            edges = λ i x h. (left_over g v id edge e i x h).1;
          },
          assign_self g.edge_by_id id none id refl,
        )
]

pub delete_edges-Fewer :
    (ids : List ℕ) (g : Graph)
    → IsValid g
    → Fewer g (delete_edges ids g) × ((i : ℕ) → In i ids → (delete_edges ids g).edge_by_id i ≡ none)
unfolding delete_edges
delete_edges-Fewer [] g v =
    (record { valid = v; nodes = refl; edges = λ i x h. h }, λ i h. absurd h)
delete_edges-Fewer (id ∷ ids) g v =
    let (one, gone) = delete_edge-Fewer g id v in
    let (rest, all) = delete_edges-Fewer ids (delete_edge g id).1 one.valid in
    (
      record {
        valid = rest.valid;
        nodes = rest.nodes ∙ one.nodes;
        edges = λ i x h. one.edges i x (rest.edges i x h);
      },
      λ i h. elim h [
        | inl e ↦ elim (Option-cases ((delete_edges ids (delete_edge g id).1).edge_by_id i)) [
          | inl none_there ↦ none_there
          | inr (x, there) ↦
              let bad : none ≡ some x =
                sym gone ∙ ap (delete_edge g id).1.edge_by_id (sym e) ∙ rest.edges i x there in
              absurd (ground (arith, bad))
        ]
        | inr k ↦ all i k
      ],
    )
