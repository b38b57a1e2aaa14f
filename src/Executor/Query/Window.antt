-- ===== src/Executor/Query/Window.antt =====
-- LIMIT and OFFSET.
use agent_db.Prelude.{
  ℕ, zero, suc, ◌≤◌, ◌≡◌, refl, sym, ap, ◌∙◌, inl, inr, true, Bool-cases, List, [], ◌∷◌, length,
  take, drop, take_of_length-le, arith, ltb, leb, if◌then◌else◌,
}
use agent_db.Int64.{ℤ, pos, negsuc}
use agent_db.Executor.Query.{apply_limit, apply_limit_offset}

-- the rows from an offset on, as many as the limit says, all for a limit below zero
abbrev pub window : {A : Type 0} → List A → ℤ → ℤ → List A
window rows (pos limit) (pos offset) = take limit (drop offset rows)
window rows (pos limit) (negsuc _) = take limit rows
window rows (negsuc _) (pos offset) = drop offset rows
window rows (negsuc _) (negsuc _) = rows

take_all :
    {A : Type 0} (n : ℕ) (xs : List A) → (if ltb n (length xs) then take n xs else xs) ≡ take n xs
take_all n xs = elim (Bool-cases (ltb n (length xs))) [
  | inl e ↦ rw e refl
  | inr e ↦ rw e (sym (take_of_length-le n xs (ground arith)))
]

drop_all : {A : Type 0} (n : ℕ) (xs : List A) → length xs ≤ n → drop n xs ≡ []
drop_all zero [] h = refl
drop_all (suc n) [] h = refl
drop_all zero (x ∷ xs) h = absurd (omega arith)
drop_all (suc n) (x ∷ xs) h = drop_all n xs (omega arith)

apply_limit-window :
    {A : Type 0} (xs : List A) (limit : ℤ) → apply_limit xs limit ≡ window xs limit (negsuc 0)
unfolding apply_limit
apply_limit-window xs (pos n) = take_all n xs
apply_limit-window xs (negsuc n) = refl

window_none :
    {A : Type 0} (xs : List A) (limit : ℤ) (n : ℕ) → length xs ≤ n → window xs limit (pos n) ≡ []
window_none {A} xs (pos zero) n h = ap (take {A = A} 0) (drop_all n xs h)
window_none {A} xs (pos (suc k)) n h = ap (take {A = A} (suc k)) (drop_all n xs h)
window_none xs (negsuc k) n h = drop_all n xs h

window-drop :
    {A : Type 0} (xs : List A) (limit : ℤ) (n : ℕ)
    → window (drop n xs) limit (negsuc 0) ≡ window xs limit (pos n)
window-drop xs (pos k) n = refl
window-drop xs (negsuc k) n = refl

skipped : {A : Type 0} (n : ℕ) (xs : List A) → (if ltb 0 n then drop n xs else xs) ≡ drop n xs
skipped zero xs = refl
skipped (suc n) xs = let more : ltb 0 (suc n) ≡ true = ground arith in rw more refl

-- For every limit and offset, also below zero, applyLimitOffset gives the rows from the offset on,
-- at most as many as the limit, with no bound out of range.
pub apply_limit_offset-window :
    {A : Type 0} (rows : List A) (limit offset : ℤ)
    → apply_limit_offset rows limit offset ≡ window rows limit offset
unfolding apply_limit_offset
apply_limit_offset-window rows limit (pos n) = elim (Bool-cases (leb (length rows) n)) [
  | inl e ↦ rw e (sym (window_none rows limit n (ground arith)))
  | inr e ↦ rw e (
      ap (λ l. apply_limit l limit) (skipped n rows)
      ∙ apply_limit-window (drop n rows) limit
      ∙ window-drop rows limit n)
]
apply_limit_offset-window rows (pos k) (negsuc n) = apply_limit-window rows (pos k)
apply_limit_offset-window rows (negsuc k) (negsuc n) = apply_limit-window rows (negsuc k)
