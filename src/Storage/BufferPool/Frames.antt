-- ===== src/Storage/BufferPool/Frames.antt =====
-- The pages of the frames, and the search for a free frame.
use agent_db.Prelude.{
  ℕ, zero, suc, ◌+◌, ◌≡◌, ◌≢◌, refl, ◌⊎◌, inl, inr, Option, none, some, List, [], ◌∷◌, ◌++◌, arith,
  get_elem?, set, get_elem?-set_self, get_elem?-set_ne, lt_of_get_elem?, ◌==◌, if◌then◌else◌,
  Option-cases,
}
use mathlib.Core.List.{reverse, reverse-cons}
use native.Mathlib.Decide.{ℕ_discrete}
use agent_db.Storage.Page.{Page}
use agent_db.Storage.BufferPool.{Frame, find_free, without}

abbrev pub frame_page : Option Frame → Option Page
frame_page none = none
frame_page (some f) = f.page

-- the page in the frame `i`
unfoldable pub page_at : List Frame → ℕ → Option Page
page_at fs i = frame_page (get_elem? fs i)

pub page_at-some :
    (fs : List Frame) (i : ℕ) (f : Frame) → get_elem? fs i ≡ some f → page_at fs i ≡ f.page
unfolding page_at
page_at-some fs i f h = rw h

-- a frame that holds a page
pub frame_of_page :
    (fs : List Frame) (i : ℕ) (p : Page)
    → page_at fs i ≡ some p
    → (f : Frame) × (get_elem? fs i ≡ some f) × (f.page ≡ some p)
unfolding page_at
frame_of_page fs i p h = elim (Option-cases (get_elem? fs i)) [
  | inl e ↦ absurd (ground arith)
  | inr (f, e) ↦ (f, e, ground arith)
]

pub page_at-set :
    (fs : List Frame) (i : ℕ) (f g : Frame) (j : ℕ)
    → get_elem? fs i ≡ some g
    → page_at (set fs i f) j ≡ (if i == j then f.page else page_at fs j)
unfolding page_at
page_at-set fs i f g j h = elim (ℕ_discrete i j) [
  | yes e ↦ ground (arith, get_elem?-set_self fs i f (lt_of_get_elem? fs i h))
  | no ne ↦ rw (get_elem?-set_ne fs i j f ne) (ground arith)
]

pub find_free-some :
    (fs : List Frame) (k i : ℕ)
    → find_free fs k ≡ some i
    → (j : ℕ) × (i ≡ k + j) × (f : Frame) × (get_elem? fs j ≡ some f) × (f.page ≡ none)
unfolding find_free
find_free-some [] k i h = absurd (ground arith)
find_free-some (f ∷ fs) k i h = elim (Option-cases f.page) [
  | inl e ↦ (0, ground arith, f, refl, e)
  | inr (p, e) ↦
      let (j, at, g, here, free) = find_free-some fs (suc k) i (ground arith) in
      (suc j, omega arith, g, here, free)
]

pub find_free-none :
    (fs : List Frame) (k : ℕ)
    → find_free fs k ≡ none
    → (j : ℕ) (f : Frame) → get_elem? fs j ≡ some f
    → f.page ≢ none
unfolding find_free
find_free-none [] k h j f at = λ e. ground arith
find_free-none (g ∷ fs) k h zero f at = λ e. ground arith
find_free-none (g ∷ fs) k h (suc j) f at = elim (Option-cases g.page) [
  | inl e ↦ λ _. ground arith
  | inr (p, e) ↦ find_free-none fs (suc k) (ground arith) j f at
]

-- membership in the LRU list
abbrev pub In : ℕ → List ℕ → Type 0
In i [] = ⊥
In i (j ∷ l) = (i ≡ j) ⊎ In i l

pub In-without : (i j : ℕ) (l : List ℕ) → In j (without i l) → In j l × (j ≢ i)
unfolding without
In-without i j [] h = absurd h
In-without i j (k ∷ l) h = elim (ℕ_discrete i k) [
  | yes e ↦ let (a, b) = In-without i j l (ground arith) in (inr a, b)
  | no ne ↦ skip ne (In-without i j l) (ground arith)
]
  where
    skip :
        i ≢ k
        → (In j (without i l) → In j l × (j ≢ i))
        → (j ≡ k) ⊎ In j (without i l)
        → ((j ≡ k) ⊎ In j l) × (j ≢ i)
    skip ne ih (inl e) = (inl e, omega arith)
    skip ne ih (inr t) = let (a, b) = ih t in (inr a, b)

pub In-append : (i : ℕ) (xs ys : List ℕ) → In i (xs ++ ys) → In i xs ⊎ In i ys
In-append i [] ys h = inr h
In-append i (x ∷ xs) ys (inl e) = inl (inl e)
In-append i (x ∷ xs) ys (inr h) = elim (In-append i xs ys h) [ inl a ↦ inl (inr a) | inr b ↦ inr b ]

pub In-reverse : (i : ℕ) (l : List ℕ) → In i (reverse l) → In i l
In-reverse i [] h = h
In-reverse i (x ∷ l) h = elim (In-append i (reverse l) (x ∷ []) (rw (reverse-cons x l) at h)) [
  | inl a ↦ inr (In-reverse i l a)
  | inr (inl e) ↦ inl e
  | inr (inr b) ↦ absurd b
]
