-- ===== src/Storage/BufferPool/Change.antt =====
-- What a client does to a cached page: a change through its pointer, and UnpinPage.
use agent_db.Prelude.{
  ℕ, ◌-◌, ◌*◌, ◌≡◌, ◌≢◌, refl, sym, ap, ◌∙◌, inl, inr, Bool, true, false, Option, none, some, arith,
  get_elem?, set, ◌==◌, if◌then◌else◌, Option-cases,
}
use mathlib.Core.Path.{subst}
use native.Mathlib.Decide.{ℕ_discrete}
use agent_db.Outcome.{ok}
use agent_db.Storage.Page.{Page, read_header}
use agent_db.Storage.Disk.ReadBack.{clip, IsPlain}
use agent_db.Storage.BufferPool.{BufferPool, Frame, mark, unpin_page, update_page}
use agent_db.Storage.BufferPool.Frames.{page_at, page_at-some, page_at-set, frame_of_page}
use agent_db.Storage.BufferPool.Invariant.{
  IsValid, Sound, view, view-none, view-some, view_cached, cached_bytes,
}

module _ (bp : BufferPool) (i : ℕ) (f g : Frame) (p q : Page) (v : IsValid bp)
    (at : get_elem? bp.frames i ≡ some f) (has : f.page ≡ some p) (now : g.page ≡ some q)
    (same_id : q.id ≡ p.id) (s : Sound bp.disk q) where
  abbrev changed : BufferPool
  changed = record bp { frames = set bp.frames i g }

  here : page_at bp.frames i ≡ some p
  here = page_at-some bp.frames i f at ∙ has

  pages : (j : ℕ) → page_at changed.frames j ≡ (if i == j then some q else page_at bp.frames j)
  pages j =
      page_at-set bp.frames i g f j at
      ∙ ap (λ (o : Option Page). if i == j then o else page_at bp.frames j) now

  at_self : page_at changed.frames i ≡ some q
  at_self = ground (arith, pages i)

  at_other : (j : ℕ) → i ≢ j → page_at changed.frames j ≡ page_at bp.frames j
  at_other j ne = ground (arith, pages j)

  same_page : (j : ℕ) (r : Page) → i ≡ j → page_at changed.frames j ≡ some r → q ≡ r
  same_page j r e h = ground (arith, sym at_self ∙ ap (page_at changed.frames) e ∙ h)

  old_page : (j : ℕ) (r : Page) → i ≡ j → page_at bp.frames j ≡ some r → p ≡ r
  old_page j r e h = ground (arith, sym here ∙ ap (page_at bp.frames) e ∙ h)

  changed_mapped :
      (id j : ℕ)
      → bp.page_map id ≡ some j
      → (r : Page) × (page_at changed.frames j ≡ some r) × (r.id ≡ id)
  changed_mapped id j h =
      let (r, old, own) = v.mapped id j h in
      elim (ℕ_discrete i j) [
        | yes e ↦ (
          q,
          ap (page_at changed.frames) (sym e) ∙ at_self,
          same_id ∙ ap (λ (x : Page). x.id) (old_page j r e old) ∙ own,
        )
        | no ne ↦ (r, at_other j ne ∙ old, own)
      ]

  changed_cached :
      (j : ℕ) (r : Page) → page_at changed.frames j ≡ some r → bp.page_map r.id ≡ some j
  changed_cached j r h = elim (ℕ_discrete i j) [
    | yes e ↦
        ap bp.page_map (ap (λ (x : Page). x.id) (sym (same_page j r e h)) ∙ same_id)
        ∙ v.cached i p here
        ∙ ap some e
    | no ne ↦ v.cached j r (sym (at_other j ne) ∙ h)
  ]

  changed-Sound : (j : ℕ) (r : Page) → page_at changed.frames j ≡ some r → Sound bp.disk r
  changed-Sound j r h = elim (ℕ_discrete i j) [
    | yes e ↦ subst (Sound bp.disk) (same_page j r e h) s
    | no ne ↦ v.sound j r (sym (at_other j ne) ∙ h)
  ]

  changed-IsValid : IsValid changed
  changed-IsValid = record {
    mapped = changed_mapped;
    cached = changed_cached;
    sound = changed-Sound;
    listed = λ j h.
        let (r, old) = v.listed j h in
        let (k, e, own) = changed_mapped r.id j (v.cached j r old) in (k, e);
  }

  changed-view : view changed p.id ≡ ok (clip q.bytes)
  changed-view = view-some changed p.id i (v.cached i p here) ∙ ap cached_bytes at_self

  changed_others : (id : ℕ) → id ≢ p.id → view changed id ≡ view bp id
  changed_others id ne = elim (Option-cases (bp.page_map id)) [
    | inl e ↦ view-none changed id e ∙ sym (view-none bp id e)
    | inr (j, e) ↦
        let (r, old, own) = v.mapped id j e in
        let apart : i ≢ j =
          λ e'. ne (sym own ∙ ap (λ (x : Page). x.id) (sym (old_page j r e' old))) in
        view-some changed id j e ∙ ap cached_bytes (at_other j apart) ∙ sym (view-some bp id j e)
  ]

-- the frame and the page of a cached id
module _ (bp : BufferPool) (v : IsValid bp) (id i : ℕ) (m : bp.page_map id ≡ some i) where
  cached_frame :
      (f : Frame) × (p : Page) × (get_elem? bp.frames i ≡ some f) × (f.page ≡ some p) × (p.id ≡ id)
  cached_frame =
      let (p, at, own) = v.mapped id i m in
      let (f, where_, has) = frame_of_page bp.frames i p at in (f, p, where_, has, own)

  update_page-changed :
      (f : Frame) (q : Page)
      → get_elem? bp.frames i ≡ some f
      → update_page bp id q ≡ record bp { frames = set bp.frames i (record f { page = some q }) }
  unfolding update_page
  update_page-changed f q at = rw (m, update_page) (rw at refl)

  unpin_page-changed :
      (f : Frame) (dirty : Bool)
      → get_elem? bp.frames i ≡ some f
      → unpin_page bp id dirty ≡ record bp {
        frames = set bp.frames i (record { page = mark dirty f.page; pin_count = f.pin_count - 1 });
      }
  unfolding unpin_page
  unpin_page-changed f dirty at = rw (m, unpin_page) (rw at refl)

  marked-Sound :
      (p : Page) (dirty : Bool)
      → Sound bp.disk p
      → Sound bp.disk (if dirty then record p { dirty = true } else p)
  unfolding read_header
  marked-Sound p true s = record {
    plain = s.plain;
    header = s.header;
    readable = s.readable;
    clean = λ c. absurd (ground (arith, c));
  }
  marked-Sound p false s = s

  marked_id : (p : Page) (dirty : Bool) → (if dirty then record p { dirty = true } else p).id ≡ p.id
  marked_id p true = refl
  marked_id p false = refl

  marked_bytes :
      (p : Page) (dirty : Bool) → (if dirty then record p { dirty = true } else p).bytes ≡ p.bytes
  marked_bytes p true = refl
  marked_bytes p false = refl

  -- A client changes a cached page through its pointer, marks it dirty and keeps its id, also in the
  -- header: the pool stays valid, the page is seen as changed and all others as before.
  pub update_page-view :
      (q : Page)
      → q.id ≡ id
      → (read_header q).page_id ≡ id
      → q.dirty ≡ true
      → IsValid (update_page bp id q)
        × (view (update_page bp id q) id ≡ ok (clip q.bytes))
        × ((j : ℕ) → j ≢ id → view (update_page bp id q) j ≡ view bp j)
  update_page-view q own header dirty =
      let (f, p, at, has, old_id) = cached_frame in
      let g : Frame = record f { page = some q } in
      let old = v.sound i p (page_at-some bp.frames i f at ∙ has) in
      let e : q.id ≡ p.id = own ∙ sym old_id in
      let s : Sound bp.disk q = record {
        plain = subst IsPlain (sym e) old.plain;
        header = header ∙ sym own;
        readable = ap (λ (n : ℕ). bp.disk.file.read_fails (n * 4096)) e ∙ old.readable;
        clean = λ c. absurd (ground (arith, c, dirty));
      } in
      subst
        (λ b.
          IsValid b × (view b id ≡ ok (clip q.bytes)) × ((j : ℕ) → j ≢ id → view b j ≡ view bp j))
        (sym (update_page-changed f q at))
        (
          changed-IsValid bp i f g p q v at has refl e s,
          ap (view (changed bp i f g p q v at has refl e s)) (sym old_id)
              ∙ changed-view bp i f g p q v at has refl e s,
          λ j ne. changed_others bp i f g p q v at has refl e s j (λ e'. ne (e' ∙ old_id)),
        )

  -- UnpinPage of a cached page keeps the pool valid and what a client sees.
  unpin_cached :
      (dirty : Bool)
      → IsValid (unpin_page bp id dirty) × ((j : ℕ) → view (unpin_page bp id dirty) j ≡ view bp j)
  unpin_cached dirty =
      let (f, p, at, has, own) = cached_frame in
      let q : Page = if dirty then record p { dirty = true } else p in
      let g : Frame = record { page = mark dirty f.page; pin_count = f.pin_count - 1 } in
      let here = page_at-some bp.frames i f at ∙ has in
      let now : g.page ≡ some q = ap (mark dirty) has in
      let e = marked_id p dirty in
      let s = marked-Sound p dirty (v.sound i p here) in
      subst (λ b. IsValid b × ((j : ℕ) → view b j ≡ view bp j))
        (sym (unpin_page-changed f dirty at))
        (
          changed-IsValid bp i f g p q v at has now e s,
          λ j. elim (ℕ_discrete j p.id) [
            | yes e' ↦
                ap (view (changed bp i f g p q v at has now e s)) e'
                ∙ changed-view bp i f g p q v at has now e s
                ∙ ap (λ (b : ℕ → ℕ). ok (clip b)) (marked_bytes p dirty)
                ∙ sym (view_cached bp i p v here)
                ∙ ap (view bp) (sym e')
            | no ne ↦ changed_others bp i f g p q v at has now e s j ne
          ],
        )

unpin_absent :
    (bp : BufferPool) (id : ℕ) (dirty : Bool) → bp.page_map id ≡ none → unpin_page bp id dirty ≡ bp
unfolding unpin_page
unpin_absent bp id dirty e = rw (e, unpin_page) refl

-- UnpinPage, of any page and with any mark, keeps the pool valid and what a client sees.
pub unpin_page-IsValid :
    (bp : BufferPool) (id : ℕ) (dirty : Bool)
    → IsValid bp
    → IsValid (unpin_page bp id dirty) × ((j : ℕ) → view (unpin_page bp id dirty) j ≡ view bp j)
unpin_page-IsValid bp id dirty v = elim (Option-cases (bp.page_map id)) [
  | inl e ↦
      subst (λ b. IsValid b × ((j : ℕ) → view b j ≡ view bp j)) (sym (unpin_absent bp id dirty e))
        (v, λ j. refl)
  | inr (i, e) ↦ unpin_cached bp v id i e dirty
]
