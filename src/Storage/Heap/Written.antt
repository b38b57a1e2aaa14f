-- ===== src/Storage/Heap/Written.antt =====
-- A client of the pool writes to a page that it holds, and lets it go.
use agent_db.Prelude.{
  ℕ, ◌≤◌, ◌<◌, ◌≡◌, ◌≢◌, refl, sym, ap, ◌∙◌, inl, inr, Bool, true, Option, some, Option-cases, List,
  arith, get_elem?, set, set-set, get_elem?-set_self, lt_of_get_elem?,
}
use mathlib.Core.Path.{subst}
use native.Mathlib.Decide.{ℕ_discrete}
use agent_db.Outcome.{Outcome, ok, ◌>>=◌}
use agent_db.Bytes.{Buf}
use agent_db.Storage.Page.{Page, get_row, free_space}
use agent_db.Storage.Page.Layout.{IsValid}
use agent_db.Storage.Disk.{DiskManager}
use agent_db.Storage.Disk.ReadBack.{clip, IsPlain, Counted}
use agent_db.Storage.BufferPool.{BufferPool, Frame, unpin_page, update_page}
use agent_db.Storage.BufferPool.Invariant.{view}
use agent_db.Storage.BufferPool.Invariant
use agent_db.Storage.BufferPool.Change.{unpin_page-IsValid, update_page-view}
use agent_db.Storage.Row.{Rid}
use agent_db.Storage.Heap.View.{as_page, WellFormed, row_at, same-IsValid, get_row_same}
use agent_db.Storage.Heap.Search.{Held, disk-unpin_page}

-- A pool whose pages are well-formed, and whose pages behind the end of the file are new.
pub record Sane (bp : BufferPool) : Type 0 where
  pub valid : Invariant.IsValid bp
  pub well_formed : WellFormed bp
  pub fresh :
      (id : ℕ)
      → IsPlain id
      → bp.disk.page_count ≤ id
      → (b : Buf) → view bp id ≡ ok b
      → free_space (as_page id b) ≡ 4072
  pub counted : Counted bp.disk

pub ok_inj : {A : Type 0} {a b : A} → ok a ≡ ok b → a ≡ b
ok_inj {a} h = ap (λ o. elim o [ ok x ↦ x | _ ↦ a ]) h

pub row_at_congr :
    (a b : BufferPool) (r : Rid) → view a r.page_id ≡ view b r.page_id → row_at a r ≡ row_at b r
unfolding row_at
row_at_congr a b r h =
    ap (λ (o : Outcome Buf). o >>= λ d. get_row (as_page r.page_id d) r.slot_id) h

pub clip_same :
    (id : ℕ) (p : Page) (j : ℕ) → j < 4096 → (as_page id (clip p.bytes)).bytes j ≡ p.bytes j
clip_same id p j h = ground arith

-- a page as the client sees it
pub row_at_page :
    (bp : BufferPool) (id : ℕ) (p : Page) (slot : ℕ)
    → view bp id ≡ ok (clip p.bytes)
    → p.id ≡ id
    → IsValid (as_page id (clip p.bytes))
    → row_at bp (record { page_id = id; slot_id = slot }) ≡ get_row p slot
unfolding row_at
row_at_page bp id p slot seen own v =
    rw (seen, row_at) (get_row_same (as_page id (clip p.bytes)) p (sym own) (clip_same id p) v slot)

disk-update_page : (bp : BufferPool) (id : ℕ) (p : Page) → (update_page bp id p).disk ≡ bp.disk
unfolding update_page
disk-update_page bp id p = elim (Option-cases (bp.page_map id)) [
  | inl e ↦ rw (e, update_page) refl
  | inr (i, e) ↦
      rw (e, update_page)
        (elim (Option-cases (get_elem? bp.frames i)) [
          | inl none_there ↦ rw none_there refl
          | inr (f, there) ↦ rw there refl
        ])
]

map-update_page :
    (bp : BufferPool) (id : ℕ) (p : Page) → (update_page bp id p).page_map ≡ bp.page_map
unfolding update_page
map-update_page bp id p = elim (Option-cases (bp.page_map id)) [
  | inl e ↦ rw (e, update_page) refl
  | inr (i, e) ↦
      rw (e, update_page)
        (elim (Option-cases (get_elem? bp.frames i)) [
          | inl none_there ↦ rw none_there refl
          | inr (f, there) ↦ rw there refl
        ])
]

map-unpin_page : (bp : BufferPool) (id : ℕ) (d : Bool) → (unpin_page bp id d).page_map ≡ bp.page_map
unfolding unpin_page
map-unpin_page bp id d = elim (Option-cases (bp.page_map id)) [
  | inl e ↦ rw (e, unpin_page) refl
  | inr (i, e) ↦
      rw (e, unpin_page)
        (elim (Option-cases (get_elem? bp.frames i)) [
          | inl none_there ↦ rw none_there refl
          | inr (f, there) ↦ rw there refl
        ])
]

-- a write to a page in the frame `i`
update_page_framed :
    (bp : BufferPool) (id i : ℕ) (p : Page) (f : Frame)
    → bp.page_map id ≡ some i
    → get_elem? bp.frames i ≡ some f
    → update_page bp id p ≡ record bp { frames = set bp.frames i (record f { page = some p }) }
unfolding update_page
update_page_framed bp id i p f m at = rw (m, update_page) (rw at refl)

-- of two writes to a page the second counts
pub update-update_page :
    (bp : BufferPool) (id i : ℕ) (p q : Page) (f : Frame)
    → bp.page_map id ≡ some i
    → get_elem? bp.frames i ≡ some f
    → update_page (update_page bp id p) id q ≡ update_page bp id q
update-update_page bp id i p q f m at =
    let g : Frame = record f { page = some p } in
    let here = get_elem?-set_self bp.frames i g (lt_of_get_elem? bp.frames i at) in
    ap (λ (b : BufferPool). update_page b id q) (update_page_framed bp id i p f m at)
    ∙ update_page_framed (record bp { frames = set bp.frames i g }) id i q g m here
    ∙ ap (λ (fs : List Frame). record bp { frames = fs })
        (set-set bp.frames i g (record f { page = some q }))
    ∙ sym (update_page_framed bp id i q f m at)

module _ (bp : BufferPool) (sane : Sane bp) (pid : ℕ) (plain : IsPlain pid) (p : Page)
    (held : Held bp pid p) where
  pub page-IsValid : IsValid p
  page-IsValid =
      same-IsValid (as_page pid (clip p.bytes)) p (sym held.own) (clip_same pid p)
        (sane.well_formed pid plain (clip p.bytes) held.seen)

  pub row_before :
      (slot : ℕ) → row_at bp (record { page_id = pid; slot_id = slot }) ≡ get_row p slot
  row_before slot =
      row_at_page bp pid p slot held.seen held.own
        (sane.well_formed pid plain (clip p.bytes) held.seen)

  module _ (p2 : Page) (v2 : IsValid p2) (same_id : p2.id ≡ p.id) (dirty : p2.dirty ≡ true) where
    abbrev pub written : BufferPool
    written = unpin_page (update_page bp pid p2) pid true

    own : p2.id ≡ pid
    own = same_id ∙ held.own

    updated :
        Invariant.IsValid (update_page bp pid p2)
        × (view (update_page bp pid p2) pid ≡ ok (clip p2.bytes))
        × ((j : ℕ) → j ≢ pid → view (update_page bp pid p2) j ≡ view bp j)
    updated =
        update_page-view bp sane.valid pid held.frame held.mapped p2 own (v2.page_id ∙ own) dirty

    unpinned :
        Invariant.IsValid written × ((j : ℕ) → view written j ≡ view (update_page bp pid p2) j)
    unpinned = unpin_page-IsValid (update_page bp pid p2) pid true updated.0

    here : view written pid ≡ ok (clip p2.bytes)
    here = unpinned.1 pid ∙ updated.1

    others : (j : ℕ) → j ≢ pid → view written j ≡ view bp j
    others j ne = unpinned.1 j ∙ updated.2 j ne

    same_disk : written.disk ≡ bp.disk
    same_disk = disk-unpin_page (update_page bp pid p2) pid true ∙ disk-update_page bp pid p2

    here-IsValid : IsValid (as_page pid (clip p2.bytes))
    here-IsValid =
        same-IsValid p2 (as_page pid (clip p2.bytes)) own (λ j h. sym (clip_same pid p2 j h)) v2

    written-WellFormed : WellFormed written
    written-WellFormed id plain' b seen = elim (ℕ_discrete id pid) [
      | yes is_pid ↦
          let same : clip p2.bytes ≡ b =
            ok_inj (sym here ∙ ap (view written) (sym is_pid) ∙ seen) in
          subst (λ k. IsValid (as_page k b)) (sym is_pid)
            (subst (λ c. IsValid (as_page pid c)) same here-IsValid)
      | no ne ↦ sane.well_formed id plain' b (sym (others id ne) ∙ seen)
    ]

    pub row_after :
        (slot : ℕ) → row_at written (record { page_id = pid; slot_id = slot }) ≡ get_row p2 slot
    row_after slot = row_at_page written pid p2 slot here own here-IsValid

    pub row_other : (r : Rid) → r.page_id ≢ pid → row_at written r ≡ row_at bp r
    row_other r ne = row_at_congr written bp r (others r.page_id ne)

    pub written_mapped : written.page_map pid ≡ some held.frame
    written_mapped =
        ap (λ (m : ℕ → Option ℕ). m pid)
          (map-unpin_page (update_page bp pid p2) pid true ∙ map-update_page bp pid p2)
        ∙ held.mapped

    pub written-Sane : pid < bp.disk.page_count → Sane written
    written-Sane used = record {
      valid = unpinned.0;
      well_formed = written-WellFormed;
      fresh = λ id plain' l b seen.
          sane.fresh id plain' (omega (arith, ap (λ (d : DiskManager). d.page_count) same_disk, l))
            b
            (sym (
                others id (λ is_pid.
                  omega (arith, is_pid, ap (λ (d : DiskManager). d.page_count) same_disk, l, used)))
              ∙ seen);
      counted = subst Counted (sym same_disk) sane.counted;
    }
