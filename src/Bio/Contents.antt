-- ===== src/Bio/Contents.antt =====
-- The calls that read and write the contents of a buffer keep the invariant of the buffer cache.
use os_playground.Base.{
  ℕ, ◌<◌, ◌≡◌, ◌≢◌, inl, inr, refl, sym, ap, ap₂, ◌∙◌, subst, fun_ext, true, false, false≢true, not,
  none, List, update, update_self, update_ne, arith, ℕ_discrete, ==_refl, ==_ne,
}
use os_playground.Bio.{nbuf, Block, Buf, Bcache, set_buf, bread_locked, bwrite}
use os_playground.Bio.Inv.{IsPinned, IsSound, IsStored-update}
use os_playground.Bio.System.{IfSome, IfSome-if, iderw-IfSome, filled, kept, changed, touched}

module _ (c : Bcache) (w : List ℕ) (v : ℕ → Block) (sound : IsSound c w v) where
  -- What the disk has for a buffer that is not dirty.
  pub on_disk :
      (i : ℕ)
      → i < nbuf
      → (c.buf i).dev ≡ 1
      → (c.buf i).dirty ≡ false
      → c.disk (c.buf i).blockno ≡ v (c.buf i).blockno
  on_disk i l d clean = elim (sound.stored (c.buf i).blockno) [
    | inl e ↦ e
    | inr (j, h, p) ↦ absurd (
        false≢true (
          sym clean
          ∙ ap (λ k. (c.buf k).dirty) (sound.unique i j l h d p.device (sym p.block))
          ∙ p.pinned))
  ]

  pub bread_locked-IsSound : (i : ℕ) → i < nbuf → IfSome (λ c'. IsSound c' w v) (bread_locked i c)
  unfolding bread_locked
  bread_locked-IsSound i l =
      IfSome-if (λ c'. IsSound c' w v) (not (c.buf i).valid) _ _
        (λ empty.
          iderw-IfSome (λ c'. IsSound c' w v) i c
            (λ _ dirty _. absurd (ground (arith, (sound.good i l).full dirty)))
            (λ _ clean d.
              let b' = record (c.buf i) { bytes = c.disk (c.buf i).blockno; valid = true } in
              touched c w w v v sound i b' (kept c.buf i b' sound.unique l refl refl)
                (record {
                  same = λ dev _. on_disk i l dev clean;
                  full = λ _. refl;
                  refs = (sound.good i l).refs;
                })
                (λ _ _ _. refl)
                (λ k p. record {
                  device = p.device;
                  block = p.block;
                  full = refl;
                  pinned = p.pinned;
                })
                sound.few))
        (λ _. sound)

  -- The contents of the other blocks, when block `(c.buf i).blockno` changes.
  other_views :
      (i : ℕ) (x : Block)
      → i < nbuf
      → (c.buf i).dev ≡ 1
      → (j : ℕ) → j < nbuf
      → j ≢ i
      → (c.buf j).dev ≡ 1
      → update v (c.buf i).blockno x (c.buf j).blockno ≡ v (c.buf j).blockno
  other_views i x l d j h ne dj =
      update_ne v (c.buf i).blockno (c.buf j).blockno x (λ e. ne (sound.unique j i h l dj d e))

  pub change-IsSound :
      (i : ℕ) (x : Block)
      → i < nbuf
      → (c.buf i).valid ≡ true
      → (c.buf i).dev ≡ 1
      → IsSound
          (set_buf i (record (c.buf i) { bytes = x; dirty = true }) c)
          w
          (update v (c.buf i).blockno x)
  change-IsSound i x l full d =
      let b' = record (c.buf i) { bytes = x; dirty = true } in
      changed c w w v (update v (c.buf i).blockno x) sound i b' c.order c.disk sound.all_in
        sound.bounds (kept c.buf i b' sound.unique l refl refl)
        (record {
          same = λ _ _. sym (update_self v (c.buf i).blockno x);
          full = λ _. full;
          refs = (sound.good i l).refs;
        })
        (λ _ _ _. refl) (other_views i x l d)
        (λ k. elim (ℕ_discrete k (c.buf i).blockno) [
          | yes e ↦ inr (
            i,
            l,
            subst (λ y. IsPinned y k) (sym (update_self c.buf i b'))
                (record { device = d; block = sym e; full = full; pinned = refl }),
          )
          | no ne ↦ rw (update_ne v (c.buf i).blockno k x ne) (
              IsStored-update c.buf i b' (c.disk k) (v k) k (sound.stored k)
                (λ p. absurd (ne (sym p.block))))
        ])
        sound.few

  -- `bwrite` after the contents have become `x`, or the write of a pinned buffer as it is.
  write-IsSound :
      (i : ℕ) (x : Block)
      → i < nbuf
      → (c.buf i).dev ≡ 1
      → IsSound
          (record c {
            buf = update c.buf i (record (c.buf i) { bytes = x; dirty = false; valid = true });
            disk = update c.disk (c.buf i).blockno x;
          })
          w
          (update v (c.buf i).blockno x)
  write-IsSound i x l d =
      let b' = record (c.buf i) { bytes = x; dirty = false; valid = true } in
      changed c w w v (update v (c.buf i).blockno x) sound i b' c.order
        (update c.disk (c.buf i).blockno x) sound.all_in sound.bounds
        (kept c.buf i b' sound.unique l refl refl)
        (record {
          same = λ _ _. sym (update_self v (c.buf i).blockno x);
          full = λ _. refl;
          refs = (sound.good i l).refs;
        })
        (λ _ _ _. refl) (other_views i x l d)
        (λ k. elim (ℕ_discrete k (c.buf i).blockno) [
          | yes e ↦ inl (rw e (rw (==_refl (c.buf i).blockno) refl))
          | no ne ↦ rw (update_ne v (c.buf i).blockno k x ne) (
              rw (update_ne c.disk (c.buf i).blockno k x ne) (
                IsStored-update c.buf i b' (c.disk k) (v k) k (sound.stored k)
                  (λ p. absurd (ne (sym p.block)))))
        ])
        sound.few

  -- The buffer after the change of its contents and the mark of `bwrite`.
  marked : ℕ → Block → Bcache
  marked i x =
      let c1 = set_buf i (filled x (c.buf i)) c in set_buf i (record (c1.buf i) { dirty = true }) c1

  marked_at :
      (i : ℕ) (x : Block) → (marked i x).buf i ≡ record (c.buf i) { bytes = x; dirty = true }
  unfolding marked
  marked_at i x = rw (==_refl i) refl

  marked_written :
      (i : ℕ) (x : Block)
      → record (marked i x) {
        buf =
            update (marked i x).buf i (record ((marked i x).buf i) { dirty = false; valid = true });
        disk = update (marked i x).disk ((marked i x).buf i).blockno ((marked i x).buf i).bytes;
      }
        ≡ record c {
          buf = update c.buf i (record (c.buf i) { bytes = x; dirty = false; valid = true });
          disk = update c.disk (c.buf i).blockno x;
        }
  unfolding marked
  marked_written i x =
      ap₂ (λ (f : ℕ → Buf) (d : ℕ → Block). record c { buf = f; disk = d })
        (fun_ext (λ j. elim (ℕ_discrete j i) [
          | yes e ↦ rw e (rw (==_refl i) refl)
          | no ne ↦ rw (==_ne j i ne) refl
        ]))
        (ap₂ (update c.disk) (ap (λ b. b.blockno) (marked_at i x))
          (ap (λ b. b.bytes) (marked_at i x)))

  pub bwrite-IsSound :
      (i : ℕ) (x : Block)
      → i < nbuf
      → IfSome
          (λ c'. IsSound c' w (update v (c.buf i).blockno x))
          (bwrite i (set_buf i (filled x (c.buf i)) c))
  unfolding bwrite marked
  bwrite-IsSound i x l =
      IfSome-if (λ c'. IsSound c' w (update v (c.buf i).blockno x))
        (not ((set_buf i (filled x (c.buf i)) c).buf i).locked) none _ (λ _. tt)
        (λ _.
          iderw-IfSome (λ c'. IsSound c' w (update v (c.buf i).blockno x)) i (marked i x)
            (λ _ _ d.
              subst (λ c'. IsSound c' w (update v (c.buf i).blockno x)) (sym (marked_written i x))
                (write-IsSound i x l (ap (λ b. b.dev) (sym (marked_at i x)) ∙ d)))
            (λ _ clean _. absurd (false≢true (sym clean ∙ ap (λ b. b.dirty) (marked_at i x)))))
