-- ===== src/Graph/Calls/Listed.antt =====
-- The references that AddReference makes are listed at their source and at their target, and only there.
use agent_db.Prelude.{
  some_inj, ℕ, ◌<◌, ◌≡◌, ◌≢◌, ◌↔◌, refl, sym, ap, ◌∙◌, ◌⊎◌, inl, inr, some, Option-cases, List, [],
  ◌∷◌, ◌++◌, arith,
}
use mathlib.Core.Path.{subst}
use mathlib.Core.List.{Memᴰ}
use mathlib.Core.List.Memᴰ.{not-nil}
use native.Mathlib.Decide.{ℕ_discrete}
use agent_db.Sql.Text.{Bytes}
use agent_db.Storage.BufferPool.Frames.{In}
use agent_db.Graph.{Graph, assign}
use agent_db.Graph.Edges.{assign_self, assign_ne, listed_add, listed_new, listed_added}
use agent_db.Graph.Calls.{
  Reference, References, no_references, with_reference, add_reference, references_of,
}

-- the references that AddReference makes, successful or not, in graphs that may change between its calls
pub data Made : References → Type 0 where
  none_yet : Made no_references
  added :
      (g : Graph) (r : References) (source_id target_id : ℕ) (ref_type : Bytes)
      → Made r
      → Made (add_reference g r source_id target_id ref_type).1

-- an index by one end of the references
pub record Index (r : References) (end : Reference → ℕ) (m : ℕ → List ℕ) : Type 0 where
  pub listed : (i : ℕ) (ref : Reference) → r.ref_by_id i ≡ some ref → In i (m (end ref))
  pub there :
      (n i : ℕ) → In i (m n) → (ref : Reference) × (r.ref_by_id i ≡ some ref) × (end ref ≡ n)

pub record IsValid (r : References) : Type 0 where
  pub fresh : (i : ℕ) (ref : Reference) → r.ref_by_id i ≡ some ref → i < r.next_ref_id
  pub by_source : Index r (λ ref. ref.source_id) r.ref_by_source
  pub by_target : Index r (λ ref. ref.target_id) r.ref_by_target

no_references-IsValid : IsValid no_references
unfolding no_references
no_references-IsValid = record {
  fresh = λ i ref h. absurd (ground (arith, h));
  by_source = record { listed = λ i ref h. absurd (ground (arith, h)); there = λ n i h. absurd h };
  by_target = record { listed = λ i ref h. absurd (ground (arith, h)); there = λ n i h. absurd h };
}

module _ (r : References) (ref : Reference) (v : IsValid r) (is_new : ref.id ≡ r.next_ref_id) where
  abbrev bigger : References
  bigger = with_reference r ref

  which :
      (i : ℕ) (x : Reference)
      → bigger.ref_by_id i ≡ some x
      → ((i ≡ ref.id) × (ref ≡ x)) ⊎ ((i ≢ ref.id) × (r.ref_by_id i ≡ some x))
  which i x h = elim (ℕ_discrete i ref.id) [
    | yes same ↦ inl (same, some_inj (sym (assign_self r.ref_by_id ref.id (some ref) i same) ∙ h))
    | no ne ↦ inr (ne, sym (assign_ne r.ref_by_id ref.id (some ref) i ne) ∙ h)
  ]

  old_there : (i : ℕ) (x : Reference) → r.ref_by_id i ≡ some x → bigger.ref_by_id i ≡ some x
  old_there i x h =
      assign_ne r.ref_by_id ref.id (some ref) i (λ same. omega (arith, v.fresh i x h, same, is_new))
      ∙ h

  module _ (end : Reference → ℕ) (m : ℕ → List ℕ) where
    abbrev longer : ℕ → List ℕ
    longer = assign m (end ref) (m (end ref) ++ ref.id ∷ [])

    bigger-Index : Index r end m → Index bigger end longer
    bigger-Index w = record {
      listed = λ i x h. elim (which i x h) [
        | inl (same, is_x) ↦
            subst (λ (j : ℕ). In j (longer (end x))) (sym same)
              (subst (λ (y : Reference). In ref.id (longer (end y))) is_x
                (listed_new m (end ref) ref.id))
        | inr (ne, old) ↦ listed_add m (end ref) ref.id (end x) i (w.listed i x old)
      ];
      there = λ n i h. elim (listed_added m (end ref) ref.id n i h) [
        | inl old ↦ let (x, at, own) = w.there n i old in (x, old_there i x at, own)
        | inr (is_id, is_k) ↦ (ref, assign_self r.ref_by_id ref.id (some ref) i is_id, sym is_k)
      ];
    }

  with_reference-IsValid : IsValid bigger
  with_reference-IsValid = record {
    fresh = λ i x h. elim (which i x h) [
      | inl (same, is_x) ↦ omega (arith, same, is_new)
      | inr (ne, old) ↦ omega (arith, v.fresh i x old)
    ];
    by_source = bigger-Index (λ x. x.source_id) r.ref_by_source v.by_source;
    by_target = bigger-Index (λ x. x.target_id) r.ref_by_target v.by_target;
  }

add_reference-IsValid :
    (g : Graph) (r : References) (source_id target_id : ℕ) (ref_type : Bytes)
    → IsValid r
    → IsValid (add_reference g r source_id target_id ref_type).1
unfolding add_reference
add_reference-IsValid g r source_id target_id ref_type v =
    elim (Option-cases (g.node_by_id source_id)) [
      | inl e ↦ rw (e, add_reference) v
      | inr (s, e) ↦ elim (Option-cases (g.node_by_id target_id)) [
        | inl d ↦ rw (e, add_reference) (rw d v)
        | inr (t, d) ↦ rw (e, add_reference) (rw d (with_reference-IsValid r _ v refl))
      ]
    ]

pub Made-IsValid : (r : References) → Made r → IsValid r
Made-IsValid r none_yet = no_references-IsValid
Made-IsValid r (added g r0 source_id target_id ref_type m) =
    add_reference-IsValid g r0 source_id target_id ref_type (Made-IsValid r0 m)

-- references_of gives the references of the listed ids
references_of-there :
    (r : References) (ids : List ℕ) (ref : Reference)
    → Memᴰ ref (references_of r ids)
    → (i : ℕ) × In i ids × (r.ref_by_id i ≡ some ref)
unfolding references_of
references_of-there r [] ref h = absurd (not-nil h)
references_of-there r (i ∷ ids) ref h = elim (Option-cases (r.ref_by_id i)) [
  | inl e ↦
      let (j, at, own) = references_of-there r ids ref (rw (e, references_of) at h) in
      (j, inr at, own)
  | inr (x, e) ↦ first x e (references_of-there r ids ref) (rw (e, references_of) at h)
]
  where
    first :
        (x : Reference)
        → r.ref_by_id i ≡ some x
        → (Memᴰ ref (references_of r ids) → (j : ℕ) × In j ids × (r.ref_by_id j ≡ some ref))
        → Memᴰ ref (x ∷ references_of r ids)
        → (j : ℕ) × In j (i ∷ ids) × (r.ref_by_id j ≡ some ref)
    first x e rest (Memᴰ.head k) = (i, inl refl, e ∙ ap some (sym k))
    first x e rest (Memᴰ.tail k) = let (j, at, own) = rest k in (j, inr at, own)

there-references_of :
    (r : References) (ids : List ℕ) (ref : Reference) (i : ℕ)
    → In i ids
    → r.ref_by_id i ≡ some ref
    → Memᴰ ref (references_of r ids)
unfolding references_of
there-references_of r [] ref i at own = absurd at
there-references_of r (j ∷ ids) ref i (inl e) own =
    rw (sym (ap r.ref_by_id e) ∙ own, references_of) (Memᴰ.head refl)
there-references_of r (j ∷ ids) ref i (inr at) own = elim (Option-cases (r.ref_by_id j)) [
  | inl e ↦ rw (e, references_of) (there-references_of r ids ref i at own)
  | inr (x, e) ↦ rw (e, references_of) (Memᴰ.tail (there-references_of r ids ref i at own))
]

-- a reference that the map of references has, under some id
abbrev pub Kept : References → Reference → Type 0
Kept r ref = (i : ℕ) × (r.ref_by_id i ≡ some ref)

-- an index lists the references with the end that it is asked for
pub Index-references_of :
    (r : References) (end : Reference → ℕ) (m : ℕ → List ℕ) (node_id : ℕ) (ref : Reference)
    → Index r end m
    → Memᴰ ref (references_of r (m node_id)) ↔ (Kept r ref × (end ref ≡ node_id))
Index-references_of r end m node_id ref w = (
  λ h.
      let (i, at, own) = references_of-there r (m node_id) ref h in
      let (x, is_x, ends) = w.there node_id i at in
      ((i, own), ap end (some_inj (sym own ∙ is_x)) ∙ ends),
  λ h.
      there-references_of r (m node_id) ref h.0.0
        (subst (λ n. In h.0.0 (m n)) h.1 (w.listed h.0.0 ref h.0.1)) h.0.1,
)
