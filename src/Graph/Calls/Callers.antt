-- ===== src/Graph/Calls/Callers.antt =====
-- The callers and the callees of a function are the other ends of its call references.
use agent_db.Prelude.{
  some_inj, ℕ, ◌≡◌, ◌≢◌, ◌↔◌, refl, sym, ap, ◌∙◌, inl, inr, Bool, true, false, not, ◌&&◌,
  Bool-cases, some, Option-cases, List, [], ◌∷◌, arith, ◌==◌,
}
use mathlib.Core.Path.{subst}
use native.Mathlib.Decide.{ℕ_discrete}
use mathlib.Core.List.{Memᴰ}
use mathlib.Core.List.Memᴰ.{not-nil}
use agent_db.Sql.Text.{codes, same}
use agent_db.Graph.{Node, Graph, seen}
use agent_db.Graph.Calls.Listed.{Made, Made-IsValid, Index, Kept, Index-references_of}
use agent_db.Graph.Calls.{
  Reference, References, calling_nodes, references_of, get_references, get_callers, get_callees,
}

module _ (g : Graph) (end : Reference → ℕ) where
  -- a node at the end of a call reference
  pub record CallEnd (refs : List Reference) (n : Node) : Type 0 where
    pub ref : Reference
    pub listed : Memᴰ ref refs
    pub is_call : same ref.ref_type (codes "call") ≡ true
    pub there : g.node_by_id (end ref) ≡ some n

  later :
      {ref : Reference} {refs : List Reference} {n : Node} → CallEnd refs n → CallEnd (ref ∷ refs) n
  later w = record {
    ref = w.ref;
    listed = Memᴰ.tail w.listed;
    is_call = w.is_call;
    there = w.there;
  }

  abbrev test : Reference → List ℕ → Bool
  test ref ids = same ref.ref_type (codes "call") && not (seen (end ref) ids)

  and_true : (a b : Bool) → (a && b) ≡ true → (a ≡ true) × (b ≡ true)
  and_true true b h = (refl, h)
  and_true false b h = absurd (ground (arith, h))

  first :
      {ref : Reference} {refs : List Reference} (ids : List ℕ) {n m : Node} {ns : List Node}
      → test ref ids ≡ true
      → g.node_by_id (end ref) ≡ some m
      → (Memᴰ n ns → CallEnd refs n)
      → Memᴰ n (m ∷ ns)
      → CallEnd (ref ∷ refs) n
  first {ref = ref} ids e d rest (Memᴰ.head k) = record {
    ref = ref;
    listed = Memᴰ.head refl;
    is_call = (and_true _ _ e).0;
    there = d ∙ ap some (sym k);
  }
  first ids e d rest (Memᴰ.tail k) = later (rest k)

  calling_nodes-CallEnd :
      (refs : List Reference) (ids : List ℕ) (n : Node)
      → Memᴰ n (calling_nodes g end refs ids)
      → CallEnd refs n
  unfolding calling_nodes
  calling_nodes-CallEnd [] ids n h = absurd (not-nil h)
  calling_nodes-CallEnd (ref ∷ refs) ids n h = elim (Bool-cases (test ref ids)) [
    | inr e ↦ later (calling_nodes-CallEnd refs ids n (rw e at h))
    | inl e ↦ elim (Option-cases (g.node_by_id (end ref))) [
      | inl d ↦ later (calling_nodes-CallEnd refs ids n (rw (e, d) at h))
      | inr (m, d) ↦ first ids e d (calling_nodes-CallEnd refs (end ref ∷ ids) n) (rw (e, d) at h)
    ]
  ]

  new_test :
      (ref : Reference) (ids : List ℕ)
      → same ref.ref_type (codes "call") ≡ true
      → seen (end ref) ids ≡ false
      → test ref ids ≡ true
  new_test ref ids c new = rw (c, new) refl

  still_new : (i j : ℕ) (ids : List ℕ) → i ≢ j → seen j ids ≡ false → seen j (i ∷ ids) ≡ false
  unfolding seen
  still_new i j ids ne new =
      let apart : (i == j) ≡ false = ground (arith, ne) in rw (apart, new) refl

  CallEnd-calling_nodes :
      (refs : List Reference) (ids : List ℕ) (n : Node) (r : Reference)
      → Memᴰ r refs
      → same r.ref_type (codes "call") ≡ true
      → g.node_by_id (end r) ≡ some n
      → seen (end r) ids ≡ false
      → Memᴰ n (calling_nodes g end refs ids)
  unfolding calling_nodes
  CallEnd-calling_nodes [] ids n r at c there new = absurd (not-nil at)
  CallEnd-calling_nodes (ref ∷ refs) ids n r (Memᴰ.head k) c there new =
      subst (λ q. Memᴰ n (calling_nodes g end (q ∷ refs) ids)) k
        (rw (new_test r ids c new, there) (Memᴰ.head refl))
  CallEnd-calling_nodes (ref ∷ refs) ids n r (Memᴰ.tail k) c there new =
      let rest = CallEnd-calling_nodes refs ids n r k c there new in
      elim (Bool-cases (test ref ids)) [
        | inr e ↦ rw e rest
        | inl e ↦ elim (Option-cases (g.node_by_id (end ref))) [
          | inl d ↦ rw (e, d) rest
          | inr (m, d) ↦ elim (ℕ_discrete (end ref) (end r)) [
            | yes s ↦ rw (e, d) (Memᴰ.head (some_inj (sym there ∙ ap g.node_by_id (sym s) ∙ d)))
            | no ne ↦
                rw (e, d)
                  (Memᴰ.tail (
                    CallEnd-calling_nodes refs (end ref ∷ ids) n r k c there
                      (still_new (end ref) (end r) ids ne new)))
          ]
        ]
      ]

-- a call reference with one end at a node and a node of the graph at the other
pub record Call (g : Graph) (r : References) (here there : Reference → ℕ) (node_id : ℕ) (n : Node)
    : Type 0 where
  pub ref : Reference
  pub kept : Kept r ref
  pub is_call : same ref.ref_type (codes "call") ≡ true
  pub here_is : here ref ≡ node_id
  pub there_is : g.node_by_id (there ref) ≡ some n

calling_nodes-Call :
    (g : Graph) (r : References) (here there : Reference → ℕ) (m : ℕ → List ℕ) (node_id : ℕ)
    (n : Node)
    → Index r here m
    → Memᴰ n (calling_nodes g there (references_of r (m node_id)) [])
      ↔ Call g r here there node_id n
unfolding seen
calling_nodes-Call g r here there m node_id n w = (
  λ h.
      let c = calling_nodes-CallEnd g there (references_of r (m node_id)) [] n h in
      let (kept, ends) = (Index-references_of r here m node_id c.ref w).0 c.listed in
      record { ref = c.ref; kept = kept; is_call = c.is_call; here_is = ends; there_is = c.there },
  λ c.
      CallEnd-calling_nodes g there (references_of r (m node_id)) [] n c.ref
        ((Index-references_of r here m node_id c.ref w).1 (c.kept, c.here_is)) c.is_call c.there_is
        refl,
)

module _ (g : Graph) (r : References) (made : Made r) (node_id : ℕ) (n : Node) where
  -- Of references that AddReference made, GetCallers of a node gives exactly the nodes of the graph that
  -- are the source of a reference of the type `call` whose target is the node.
  pub get_callers-Call :
      Memᴰ n (get_callers g r node_id)
      ↔ Call g r (λ ref. ref.target_id) (λ ref. ref.source_id) node_id n
  unfolding get_callers get_references
  get_callers-Call =
      calling_nodes-Call g r _ (λ ref. ref.source_id) r.ref_by_target node_id n
        (Made-IsValid r made).by_target

  -- Of references that AddReference made, GetCallees of a node gives exactly the nodes of the graph that
  -- are the target of a reference of the type `call` whose source is the node.
  pub get_callees-Call :
      Memᴰ n (get_callees g r node_id)
      ↔ Call g r (λ ref. ref.source_id) (λ ref. ref.target_id) node_id n
  unfolding get_callees get_references
  get_callees-Call =
      calling_nodes-Call g r _ (λ ref. ref.target_id) r.ref_by_source node_id n
        (Made-IsValid r made).by_source
