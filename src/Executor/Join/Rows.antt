-- ===== src/Executor/Join/Rows.antt =====
-- What the nested loops join.
use agent_db.Prelude.{
  ℕ, zero, suc, ◌<◌, ◌≡◌, refl, sym, ap, ◌∙◌, Bool, true, false, not, ◌&&◌, ◌||◌, Option, none,
  some, List, [], ◌∷◌, ◌++◌, append_assoc, append-nil, arith, length, get_or, if◌then◌else◌,
  Bool-cases, inl, inr,
}
use agent_db.Outcome.{Outcome, ok}
use agent_db.Sql.Text.{Bytes}
use agent_db.Sql.Ast.{JoinType, BinaryOp, Expression}
use agent_db.Sql.Ast
use agent_db.Index.Node.Search.{All}
use agent_db.Executor.Join.{
  Cells, Row, JoinedRow, Tables, find_name, equal_cells, both, same_cells, join_columns,
  evaluate_join_condition, joined_row, join_right, null_right, is_left, join_left, at_index,
}

abbrev Below : ℕ → Option ℕ → Type 0
Below n none = Unit
Below n (some i) = i < n

Below-shift :
    (n : ℕ) (o : Option ℕ)
    → Below n o
    → Below (suc n) (elim o [ none ↦ none | some i ↦ some (suc i) ])
Below-shift n none h = tt
Below-shift n (some i) h = omega arith

find_name-Below : (p : Bytes → Bool) (ns : List Bytes) → Below (length ns) (find_name p ns)
unfolding find_name
find_name-Below p [] = tt
find_name-Below p (n ∷ ns) = elim (Bool-cases (p n)) [
  | inl e ↦ rw e (omega arith)
  | inr e ↦ rw e (Below-shift (length ns) (find_name p ns) (find_name-Below p ns))
]

or_false : (b : Bool) → (b || false) ≡ b
or_false true = refl
or_false false = refl

or_true : (b : Bool) → (b || true) ≡ true
or_true true = refl
or_true false = refl

at_index-get_or {ℓ} :
    {A : Type ℓ} (xs : List A) (i : ℕ) (a : A) → i < length xs → at_index xs i ≡ ok (get_or xs i a)
at_index-get_or [] i a h = absurd (omega arith)
at_index-get_or (x ∷ xs) zero a h = refl
at_index-get_or (x ∷ xs) (suc i) a h = at_index-get_or xs i a (omega arith)

module _ (K : Cells) (t : Tables K) (cond : BinaryOp) where
  open K use {Cell, sprint}

  -- whether the condition holds of two rows
  unfoldable pub fits : Row K → Row K → Bool
  fits l r = elim (join_columns K t cond.left cond.right) [
    | none ↦ false
    | some (i, j) ↦ equal_cells K (get_or l i none) (get_or r j none)
  ]

  abbrev pub Full : List Bytes → Row K → Type 0
  Full columns r = length r ≡ length columns

  abbrev BelowBoth : Option (ℕ × ℕ) → Type 0
  BelowBoth none = Unit
  BelowBoth (some (i, j)) = (i < length t.left_columns) × (j < length t.right_columns)

  both-BelowBoth :
      (o p : Option ℕ)
      → Below (length t.left_columns) o
      → Below (length t.right_columns) p
      → BelowBoth (both K o p)
  both-BelowBoth none p h k = tt
  both-BelowBoth (some i) none h k = tt
  both-BelowBoth (some i) (some j) h k = (h, k)

  join_columns-BelowBoth : (l r : Expression) → BelowBoth (join_columns K t l r)
  unfolding join_columns
  join_columns-BelowBoth (Ast.identifier l) (Ast.identifier r) =
      both-BelowBoth _ _ (find_name-Below _ t.left_columns) (find_name-Below _ t.right_columns)
  join_columns-BelowBoth (Ast.identifier l) (Ast.literal r) = tt
  join_columns-BelowBoth (Ast.literal l) r = tt

  cells-fits :
      (l r : Row K) (o : Option (ℕ × ℕ))
      → BelowBoth o
      → Full t.left_columns l
      → Full t.right_columns r
      → elim o as (λ _. Outcome Bool) [ none ↦ ok false | some (i, j) ↦ same_cells K l r i j ]
        ≡ ok (elim o [
          | none ↦ false
          | some (i, j) ↦ equal_cells K (get_or l i none) (get_or r j none)
        ])
  unfolding same_cells
  cells-fits l r none b hl hr = refl
  cells-fits l r (some (i, j)) b hl hr =
      rw (at_index-get_or l i none (omega (arith, b, hl)))
        (rw (at_index-get_or r j none (omega (arith, b, hr))) refl)

  evaluate-fits :
      (l r : Row K)
      → Full t.left_columns l
      → Full t.right_columns r
      → evaluate_join_condition K l r t cond ≡ ok (fits l r)
  unfolding evaluate_join_condition fits
  evaluate-fits l r =
      cells-fits l r (join_columns K t cond.left cond.right)
        (join_columns-BelowBoth cond.left cond.right)

  ap2_ok :
      {x y : List (JoinedRow K)} {b c : Bool}
      → x ≡ y
      → b ≡ c
      → ◌≡◌ {A = Outcome (List (JoinedRow K) × Bool)} (ok (x, b)) (ok (y, c))
  ap2_ok p q = cc (p, q)

  -- the pairs of a left row, in the order of the right rows
  unfoldable pub pairs : Row K → List (Row K) → List (JoinedRow K)
  pairs l [] = []
  pairs l (r ∷ rs) = if fits l r then joined_row K t l r ∷ pairs l rs else pairs l rs

  unfoldable pub some_fits : Row K → List (Row K) → Bool
  some_fits l [] = false
  some_fits l (r ∷ rs) = if fits l r then true else some_fits l rs

  join_right-pairs :
      (l : Row K) (rs : List (Row K)) (joined : List (JoinedRow K)) (matched : Bool)
      → Full t.left_columns l
      → All (Full t.right_columns) rs
      → join_right K t cond l rs (joined, matched)
        ≡ ok (joined ++ pairs l rs, matched || some_fits l rs)
  unfolding join_right pairs some_fits
  join_right-pairs l [] joined matched hl hr =
      ap2_ok (sym (append-nil joined)) (sym (or_false matched))
  join_right-pairs l (r ∷ rs) joined matched hl hr =
      rw (evaluate-fits l r hl hr.0) (elim (Bool-cases (fits l r)) [
        | inl e ↦ rw e (
            join_right-pairs l rs (joined ++ joined_row K t l r ∷ []) true hl hr.1
            ∙ ap2_ok (append_assoc joined (joined_row K t l r ∷ []) (pairs l rs))
                (sym (or_true matched)))
        | inr e ↦ rw e (join_right-pairs l rs joined matched hl hr.1)
      ])

  -- the rows of one left row: its pairs, or one with an empty right side
  unfoldable pub joins : JoinType → Row K → List (Row K) → List (JoinedRow K)
  joins kind l rs =
      if not (some_fits l rs) && is_left K kind
      then joined_row K t l (null_right K t) ∷ []
      else pairs l rs

  unfoldable pub all_joins : JoinType → List (Row K) → List (Row K) → List (JoinedRow K)
  all_joins kind [] rs = []
  all_joins kind (l ∷ ls) rs = joins kind l rs ++ all_joins kind ls rs

  pairs_none : (l : Row K) (rs : List (Row K)) → some_fits l rs ≡ false → pairs l rs ≡ []
  unfolding some_fits pairs
  pairs_none l [] h = refl
  pairs_none l (r ∷ rs) h = ground (arith, pairs_none l rs)

  join_one :
      (kind : JoinType) (l : Row K) (rs : List (Row K)) (joined : List (JoinedRow K))
      → (if not (some_fits l rs) && is_left K kind
          then (joined ++ pairs l rs) ++ joined_row K t l (null_right K t) ∷ []
          else joined ++ pairs l rs)
        ≡ joined ++ joins kind l rs
  unfolding joins
  join_one kind l rs joined = elim (Bool-cases (some_fits l rs)) [
    | inl e ↦ rw e refl
    | inr e ↦ rw e (
        rw (pairs_none l rs e) (
          rw (append-nil joined) (elim (Bool-cases (is_left K kind)) [
            | inl e' ↦ rw e' refl
            | inr e' ↦ rw e' (sym (append-nil joined))
          ])))
  ]

  -- On rows that have a cell for each column the nested loops return, for each left row in turn, its
  -- pairs with the right rows that fit it, in their order; a left join has one row with an empty
  -- right side for a left row that no right row fits.
  pub join_left-all_joins :
      (kind : JoinType) (ls rs : List (Row K)) (joined : List (JoinedRow K))
      → All (Full t.left_columns) ls
      → All (Full t.right_columns) rs
      → join_left K t cond kind rs ls joined ≡ ok (joined ++ all_joins kind ls rs)
  unfolding join_left all_joins
  join_left-all_joins kind [] rs joined hl hr = ap ok (sym (append-nil joined))
  join_left-all_joins kind (l ∷ ls) rs joined hl hr =
      rw (join_right-pairs l rs joined false hl.0 hr) (
        rw (join_one kind l rs joined) (
          join_left-all_joins kind ls rs (joined ++ joins kind l rs) hl.1 hr
          ∙ ap ok (append_assoc joined (joins kind l rs) (all_joins kind ls rs))))
