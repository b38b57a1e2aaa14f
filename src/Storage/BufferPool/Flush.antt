-- ===== src/Storage/BufferPool/Flush.antt =====
-- `FlushAll`: what a client sees is on the disk.
use agent_db.Prelude.{
  ℕ, zero, suc, ◌≡◌, ◌≢◌, refl, sym, ap, ◌∙◌, inl, inr, true, false, none, some, List, [], ◌∷◌,
  arith, Option-cases, Bool-cases,
}
use agent_db.Outcome.{ok}
use agent_db.Storage.Page.{Page}
use agent_db.Storage.Disk.{DiskManager, write_page}
use agent_db.Storage.Disk.ReadBack.{clip, IsPlain, Writable, write_page-Writable}
use agent_db.Storage.BufferPool.{BufferPool, Frame, flush_frames, flush_all}
use agent_db.Storage.BufferPool.Frames.{page_at}
use agent_db.Storage.BufferPool.Invariant.{
  disk_bytes, cached_bytes, view, view-none, view-some, Sound, IsValid, Settled,
}
use agent_db.Storage.BufferPool.Evict.{clean-Settled, written-Settled}

-- the frames hold pages of different ids, each sound
record Tidy (dm : DiskManager) (fs : List Frame) : Type 0 where
  distinct :
      (i j : ℕ) (p q : Page) → page_at fs i ≡ some p → page_at fs j ≡ some q → p.id ≡ q.id → i ≡ j
  sound : (i : ℕ) (p : Page) → page_at fs i ≡ some p → Sound dm p

record Flushed (dm : DiskManager) (fs : List Frame) (dm' : DiskManager) : Type 0 where
  stored : (i : ℕ) (p : Page) → page_at fs i ≡ some p → disk_bytes dm' p.id ≡ ok (clip p.bytes)
  others :
      (id : ℕ)
      → IsPlain id
      → ((i : ℕ) (p : Page) → page_at fs i ≡ some p → p.id ≢ id)
      → disk_bytes dm' id ≡ disk_bytes dm id

Tidy-tail : (dm : DiskManager) (f : Frame) (fs : List Frame) → Tidy dm (f ∷ fs) → Tidy dm fs
unfolding page_at
Tidy-tail dm f fs t = record {
  distinct = λ i j p q h k e. omega (arith, t.distinct (suc i) (suc j) p q h k e);
  sound = λ i p h. t.sound (suc i) p h;
}

-- the page of the first frame is in no other
first_only :
    (dm : DiskManager) (f : Frame) (fs : List Frame) (p : Page)
    → Tidy dm (f ∷ fs)
    → f.page ≡ some p
    → (i : ℕ) (q : Page) → page_at fs i ≡ some q
    → q.id ≢ p.id
unfolding page_at
first_only dm f fs p t has i q h =
    λ e. absurd (omega (arith, t.distinct zero (suc i) p q has h (sym e)))

Tidy-Settled :
    (dm dm' : DiskManager) (fs : List Frame) (p : Page)
    → Tidy dm fs
    → ((i : ℕ) (q : Page) → page_at fs i ≡ some q → q.id ≢ p.id)
    → Settled dm p dm'
    → Tidy dm' fs
Tidy-Settled dm dm' fs p t fresh s = record {
  distinct = t.distinct;
  sound = λ i q h.
      let old = t.sound i q h in
      record {
        plain = old.plain;
        header = old.header;
        readable = s.faults _ ∙ old.readable;
        clean = λ c. s.others q.id old.plain (fresh i q h) ∙ old.clean c;
      };
}

Flushed-skip :
    (dm dm' : DiskManager) (f : Frame) (fs : List Frame)
    → f.page ≡ none
    → Flushed dm fs dm'
    → Flushed dm (f ∷ fs) dm'
Flushed-skip dm dm' f fs e fl = record {
  stored = at;
  others = λ id plain fresh. fl.others id plain (λ i p h. fresh (suc i) p (unfold page_at in h));
}
  where
    at : (i : ℕ) (p : Page) → page_at (f ∷ fs) i ≡ some p → disk_bytes dm' p.id ≡ ok (clip p.bytes)
    at zero p h = absurd (unfold page_at in ground arith)
    at (suc i) p h = fl.stored i p (unfold page_at in h)

module _ (dm dm1 dm' : DiskManager) (f : Frame) (fs : List Frame) (p : Page) (t : Tidy dm (f ∷ fs))
    (has : f.page ≡ some p) (settled : Settled dm p dm1) (fl : Flushed dm1 fs dm') where
  first_page : page_at (f ∷ fs) zero ≡ some p
  unfolding page_at
  first_page = has

  first_stored : disk_bytes dm' p.id ≡ ok (clip p.bytes)
  first_stored =
      fl.others p.id (t.sound zero p first_page).plain (first_only dm f fs p t has) ∙ settled.back

  cons_stored :
      (i : ℕ) (q : Page) → page_at (f ∷ fs) i ≡ some q → disk_bytes dm' q.id ≡ ok (clip q.bytes)
  unfolding page_at
  cons_stored zero q h = let e : p ≡ q = ground arith in rw (← e) first_stored
  cons_stored (suc i) q h = fl.stored i q h

  Flushed-cons : Flushed dm (f ∷ fs) dm'
  unfolding page_at
  Flushed-cons = record {
    stored = cons_stored;
    others = λ id plain fresh.
        fl.others id plain (λ i q h. fresh (suc i) q h)
        ∙ settled.others id plain (λ e. fresh zero p has (sym e));
  }

module _ (dm : DiskManager) (f : Frame) (fs : List Frame) (dm' : DiskManager)
    (fs' : List Frame) where
  flush_none :
      f.page ≡ none
      → flush_frames dm fs ≡ (ok tt, dm', fs')
      → flush_frames dm (f ∷ fs) ≡ (ok tt, dm', f ∷ fs')
  unfolding flush_frames
  flush_none e run = ground arith

  flush_clean :
      (p : Page)
      → f.page ≡ some p
      → p.dirty ≡ false
      → flush_frames dm fs ≡ (ok tt, dm', fs')
      → flush_frames dm (f ∷ fs) ≡ (ok tt, dm', f ∷ fs')
  unfolding flush_frames
  flush_clean p e c run = ground arith

  flush_dirty :
      (p p' : Page) (dm1 : DiskManager)
      → f.page ≡ some p
      → p.dirty ≡ true
      → write_page dm p ≡ ok (dm1, p')
      → flush_frames dm1 fs ≡ (ok tt, dm', fs')
      → flush_frames dm (f ∷ fs) ≡ (ok tt, dm', record f { page = some p' } ∷ fs')
  unfolding flush_frames
  flush_dirty p p' dm1 e d wrote run = ground arith

flush_frames-Flushed :
    (dm : DiskManager) (fs : List Frame)
    → Tidy dm fs
    → Writable dm
    → (dm' : DiskManager) × (fs' : List Frame) × (flush_frames dm fs ≡ (ok tt, dm', fs'))
      × Flushed dm fs dm'
unfolding flush_frames
flush_frames-Flushed dm [] t w = (
  dm,
  [],
  refl,
  record { stored = λ i p h. absurd (unfold page_at in ground arith); others = λ _ _ _. refl },
)
flush_frames-Flushed dm (f ∷ fs) t w = elim (Option-cases f.page) [
  | inl e ↦
      let (dm', fs', run, fl) = flush_frames-Flushed dm fs (Tidy-tail dm f fs t) w in
      (dm', f ∷ fs', flush_none dm f fs dm' fs' e run, Flushed-skip dm dm' f fs e fl)
  | inr (p, e) ↦
      let s = t.sound zero p (unfold page_at in e) in
      let fresh = first_only dm f fs p t e in
      elim (Bool-cases p.dirty) [
        | inl d ↦
            let (dm1, p', wrote, w1) = write_page-Writable dm p s.plain w in
            let settled = written-Settled dm dm1 p p' s wrote in
            let (dm', fs', run, fl) =
              flush_frames-Flushed dm1 fs
                (Tidy-Settled dm dm1 fs p (Tidy-tail dm f fs t) fresh settled) w1 in
            (
              dm',
              record f { page = some p' } ∷ fs',
              flush_dirty dm f fs dm' fs' p p' dm1 e d wrote run,
              Flushed-cons dm dm1 dm' f fs p t e settled fl,
            )
        | inr c ↦
            let (dm', fs', run, fl) = flush_frames-Flushed dm fs (Tidy-tail dm f fs t) w in
            (
              dm',
              f ∷ fs',
              flush_clean dm f fs dm' fs' p e c run,
              Flushed-cons dm dm dm' f fs p t e (clean-Settled dm p s c) fl,
            )
      ]
]

IsValid-Tidy : (bp : BufferPool) → IsValid bp → Tidy bp.disk bp.frames
IsValid-Tidy bp v = record {
  distinct = λ i j p q h k e. ground (arith, v.cached i p h, v.cached j q k, ap bp.page_map e);
  sound = v.sound;
}

-- If no write to the file fails, flushing a valid pool succeeds, and then a read of any page from
-- the disk gives the bytes that a client of the pool saw before.
pub flush_all_durable :
    (bp : BufferPool)
    → IsValid bp
    → Writable bp.disk
    → (bp' : BufferPool) × (flush_all bp ≡ (ok tt, bp'))
      × ((id : ℕ) → IsPlain id → disk_bytes bp'.disk id ≡ view bp id)
unfolding flush_all
flush_all_durable bp v w =
    let (dm', fs', run, fl) = flush_frames-Flushed bp.disk bp.frames (IsValid-Tidy bp v) w in
    (record bp { disk = dm'; frames = fs' }, rw run refl, λ id plain. seen dm' fl id plain)
  where
    seen :
        (dm' : DiskManager)
        → Flushed bp.disk bp.frames dm'
        → (id : ℕ) → IsPlain id
        → disk_bytes dm' id ≡ view bp id
    seen dm' fl id plain = elim (Option-cases (bp.page_map id)) [
      | inl e ↦
          fl.others id plain (λ i p h k. ground (arith, v.cached i p h, ap bp.page_map k))
          ∙ sym (view-none bp id e)
      | inr (i, e) ↦
          let (p, here, same) = v.mapped id i e in
          ap (disk_bytes dm') (sym same)
          ∙ fl.stored i p here
          ∙ sym (ap cached_bytes here)
          ∙ sym (view-some bp id i e)
    ]
