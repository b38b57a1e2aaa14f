-- ===== src/Graph/Calls/Paths.antt =====
-- The paths that FindCallPath gives are chains of calls.
use agent_db.Prelude.{
  ℕ, zero, suc, ◌<◌, ◌≡◌, ◌≢◌, refl, sym, ap, ◌∙◌, inl, inr, ◌⊎◌, Bool, true, not, ◌&&◌, Bool-cases,
  List, [], ◌∷◌, ◌++◌, append_assoc, append-nil, arith, length, ◌==◌, if◌then◌else◌,
}
use mathlib.Core.Path.{subst}
use mathlib.Core.List.{Memᴰ}
use mathlib.Core.List.Memᴰ.{not-nil}
use agent_db.Outcome.{Outcome, ok, err, no_slot}
use agent_db.Sql.Text.{Bytes, codes}
use agent_db.Graph.{Node, Graph, outgoing, has_label, get_neighbors}
use agent_db.Graph.Calls.{
  name_text, functions_named, collect, find_call_paths, all_call_paths, if_both_there,
  find_call_path,
}

Memᴰ-append {ℓ} : {A : Type ℓ} (a : A) (xs ys : List A) → Memᴰ a (xs ++ ys) → Memᴰ a xs ⊎ Memᴰ a ys
Memᴰ-append a [] ys h = inr h
Memᴰ-append a (x ∷ xs) ys (Memᴰ.head e) = inl (Memᴰ.head e)
Memᴰ-append a (x ∷ xs) ys (Memᴰ.tail h) = elim (Memᴰ-append a xs ys h) [
  | inl k ↦ inl (Memᴰ.tail k)
  | inr k ↦ inr k
]

-- what the loop collects, one of its rounds gave
Memᴰ-collect {ℓ ℓ' ℓ''} :
    {A : Type ℓ} {B : Type ℓ'} {S : Type ℓ''} (f : A → S → List B × S) (b : B) (xs : List A) (s : S)
    → Memᴰ b (collect f xs s).0
    → (x : A) × (t : S) × (Memᴰ x xs) × Memᴰ b (f x t).0
unfolding collect
Memᴰ-collect f b [] s h = absurd (not-nil h)
Memᴰ-collect f b (x ∷ xs) s h = elim (Memᴰ-append b (f x s).0 (collect f xs (f x s).1).0 h) [
  | inl k ↦ (x, s, Memᴰ.head refl, k)
  | inr k ↦ let (y, t, m, n) = Memᴰ-collect f b xs (f x s).1 k in (y, t, Memᴰ.tail m, n)
]

module _ (g : Graph) (target_id : ℕ) where
  -- The names of the calls from a node to the target: a call is a neighbour with the label `call`, and
  -- goes to a function of its name.
  pub data Chain : ℕ → List Bytes → Type 0 where
    arrived : Chain target_id []
    call :
        (i : ℕ) (child f : Node) (names : List Bytes)
        → Memᴰ child (get_neighbors g i outgoing)
        → has_label child.labels (codes "call") ≡ true
        → Memᴰ f (functions_named g (name_text child))
        → Chain f.id names
        → Chain i (name_text child ∷ names)

  pub record Found (left i : ℕ) (path p : List Bytes) : Type 0 where
    pub names : List Bytes
    pub is_path : p ≡ path ++ names
    pub chain : Chain i names
    pub short : length names < left

  -- a path that a neighbour gives, which is a call
  child_call :
      {p : List Bytes} (child : Node) (v : ℕ → Bool) (some_paths : List (List Bytes) × (ℕ → Bool))
      → Memᴰ p
          (if has_label child.labels (codes "call") && not (v child.id)
            then some_paths
            else ([], v)).0
      → (has_label child.labels (codes "call") ≡ true) × Memᴰ p some_paths.0
  child_call child v some_paths h = elim (Bool-cases (has_label child.labels (codes "call"))) [
    | inr e ↦ absurd (not-nil (rw e at h))
    | inl e ↦ elim (Bool-cases (v child.id)) [
      | inl d ↦ absurd (not-nil (rw (e, d) at h))
      | inr d ↦ (e, rw (e, d) at h)
    ]
  ]

  longer :
      {left i : ℕ} {path p : List Bytes} (child f : Node)
      → Memᴰ child (get_neighbors g i outgoing)
      → has_label child.labels (codes "call") ≡ true
      → Memᴰ f (functions_named g (name_text child))
      → Found left f.id (path ++ name_text child ∷ []) p
      → Found (suc left) i path p
  longer {i = i} {path = path} child f near is_call named w = record {
    names = name_text child ∷ w.names;
    is_path = w.is_path ∙ append_assoc path (name_text child ∷ []) w.names;
    chain = call i child f w.names near is_call named w.chain;
    short = omega (arith, w.short);
  }

  find_call_paths-Found :
      (left i : ℕ) (path p : List Bytes) (visited : ℕ → Bool)
      → Memᴰ p (find_call_paths g target_id left i path visited).0
      → Found left i path p
  unfolding find_call_paths
  find_call_paths-Found zero i path p visited h = absurd (not-nil h)
  find_call_paths-Found (suc left) i path p visited h = elim (Bool-cases (i == target_id)) [
    | inl e ↦ hit (ground arith) (rw e at h)
    | inr e ↦
        let (child, v, near, k) = Memᴰ-collect _ p _ _ (rw e at h) in
        let (is_call, k') = child_call child v _ k in
        let (f, w, named, found) = Memᴰ-collect _ p _ _ k' in
        longer child f near is_call named
          (find_call_paths-Found left f.id (path ++ name_text child ∷ []) p w found)
  ]
    where
      hit : i ≡ target_id → Memᴰ p (path ∷ []) → Found (suc left) i path p
      hit same (Memᴰ.tail k) = absurd (not-nil k)
      hit same (Memᴰ.head k) = record {
        names = [];
        is_path = k ∙ sym (append-nil path);
        chain = subst (λ j. Chain j []) (sym same) arrived;
        short = omega arith;
      }

-- A path of calls between functions of two names.
pub record CallPath (g : Graph) (from_name to_name : Bytes) (p : List Bytes) : Type 0 where
  pub from : Node
  pub to : Node
  pub starts : Memᴰ from (functions_named g from_name)
  pub ends : Memᴰ to (functions_named g to_name)
  pub names : List Bytes
  pub is_path : p ≡ from_name ∷ names
  pub chain : Chain g to.id from.id names
  pub short : length p < 11

all_call_paths-CallPath :
    (g : Graph) (from_name to_name : Bytes) (p : List Bytes)
    → Memᴰ p (all_call_paths g from_name (functions_named g from_name) (functions_named g to_name))
    → CallPath g from_name to_name p
unfolding all_call_paths
all_call_paths-CallPath g from_name to_name p h =
    let (from, v, starts, k) = Memᴰ-collect _ p _ _ h in
    let (to, w, ends, found) = Memᴰ-collect _ p _ _ k in
    let r = find_call_paths-Found g to.id 10 from.id (from_name ∷ []) p w found in
    record {
      from = from;
      to = to;
      starts = starts;
      ends = ends;
      names = r.names;
      is_path = r.is_path;
      chain = r.chain;
      short = omega (arith, r.short, ap (length {A = Bytes}) r.is_path);
    }

-- What FindCallPath gives for two names.
pub data Answer (g : Graph) (from_name to_name : Bytes) : Outcome (List (List Bytes)) → Type 0 where
  unknown :
      (functions_named g from_name ≡ []) ⊎ (functions_named g to_name ≡ [])
      → Answer g from_name to_name (err no_slot)
  found :
      (ps : List (List Bytes))
      → functions_named g from_name ≢ []
      → functions_named g to_name ≢ []
      → ((p : List Bytes) → Memᴰ p ps → CallPath g from_name to_name p)
      → Answer g from_name to_name (ok ps)

if_both_there-Answer :
    (g : Graph) (from_name to_name : Bytes) (fs ts : List Node) (ps : List (List Bytes))
    → functions_named g from_name ≡ fs
    → functions_named g to_name ≡ ts
    → ((p : List Bytes) → Memᴰ p ps → CallPath g from_name to_name p)
    → Answer g from_name to_name (if_both_there fs ts ps)
unfolding if_both_there
if_both_there-Answer g from_name to_name [] ts ps e d all = unknown (inl e)
if_both_there-Answer g from_name to_name (f ∷ fs) [] ps e d all = unknown (inr d)
if_both_there-Answer g from_name to_name (f ∷ fs) (t ∷ ts) ps e d all =
    found ps (λ bad. absurd (ground (arith, sym e ∙ bad)))
      (λ bad. absurd (ground (arith, sym d ∙ bad))) all

-- FindCallPath of any two names in any graph returns: an error exactly when one of the names has no
-- function, or paths of at most ten names. Every such path begins with the first name, each further
-- name is that of a call next to the node before, which goes on at a function of that name, and the
-- last node is a function of the second name.
pub find_call_path-Answer :
    (g : Graph) (from_name to_name : Bytes)
    → Answer g from_name to_name (find_call_path g from_name to_name)
unfolding find_call_path
find_call_path-Answer g from_name to_name =
    if_both_there-Answer g from_name to_name _ _ _ refl refl
      (all_call_paths-CallPath g from_name to_name)
