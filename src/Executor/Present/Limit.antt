-- ===== src/Executor/Present/Limit.antt =====
-- LIMIT and OFFSET of a join.
use agent_db.Prelude.{
  ℕ, ◌+◌, ◌-◌, ◌^◌, ◌≤◌, ◌<◌, ◌≡◌, refl, ap, List, [], ◌∷◌, length, take, drop, length-drop,
  length-take, take_of_length-le, arith, leb, ltb, Bool-cases, inl, inr,
}
use agent_db.Outcome.{ok, panic}
use agent_db.Int64.{pos, add64-small, add64-wraps}
use agent_db.Executor.Join.{Cells, JoinedRow}
use agent_db.Executor.Present.{limit_joined_rows}

empty {ℓ} : {A : Type ℓ} (xs : List A) → length xs ≤ 0 → xs ≡ []
empty [] h = refl
empty (x ∷ xs) h = absurd (omega arith)

module _ (K : Cells) (rows : List (JoinedRow K)) (limit offset : ℕ) where
  abbrev behind : List (JoinedRow K)
  behind = drop offset rows

  past : length rows ≤ offset → take limit behind ≡ []
  past h =
      empty (take limit behind) (omega (arith, length-take limit behind, length-drop offset rows))

  some_left : length rows ≤ offset + limit → take limit behind ≡ behind
  some_left h = take_of_length-le limit behind (omega (arith, length-drop offset rows))

  all_left : take (length rows - offset) behind ≡ behind
  all_left =
      take_of_length-le (length rows - offset) behind (omega (arith, length-drop offset rows))

  whole : take (offset + limit - offset) behind ≡ take limit behind
  whole = ap (λ n. take n behind) (omega arith)

  -- With an end below 2^63 the rows are those behind the offset, at most the limit.
  pub limit_joined_rows-window :
      offset + limit < 2 ^ 63
      → limit_joined_rows K rows (pos limit) (pos offset) ≡ ok (take limit (drop offset rows))
  unfolding limit_joined_rows
  limit_joined_rows-window h =
      let sum = add64-small offset limit h in
      rw sum (elim (Bool-cases (leb (length rows) offset)) [
        | inl e ↦ ground (arith, e, past (ground (arith, e)))
        | inr e ↦ elim (Bool-cases (ltb (offset + limit) (length rows))) [
          | inl e' ↦ ground (arith, e, e', whole)
          | inr e' ↦ ground (arith, e, e', all_left, some_left)
        ]
      ])

  -- A limit and an offset in the range of int, with an offset before the last row, whose sum passes the
  -- largest int: the sum wraps below zero, so that the slice of the rows panics, where all rows behind
  -- the offset are meant.
  pub limit_joined_rows-wraps :
      offset < length rows
      → offset < 2 ^ 63
      → limit < 2 ^ 63
      → 2 ^ 63 ≤ offset + limit
      → limit_joined_rows K rows (pos limit) (pos offset) ≡ panic
  unfolding limit_joined_rows
  limit_joined_rows-wraps h ho hl k =
      let sum = add64-wraps offset limit ho hl k in rw sum (ground arith)
