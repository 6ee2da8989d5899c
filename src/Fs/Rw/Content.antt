-- ===== src/Fs/Rw/Content.antt =====
-- What a file contains, and what mapping and writing its blocks does to that.
use os_playground.Base.{
  ℕ, ◌-◌, ◌/◌, ◌%◌, ◌≤◌, ◌<◌, ◌≡◌, ◌≢◌, refl, sym, ap, subst, ◌∙◌, ◌==◌, if◌then◌else◌, update_self,
  update_ne, arith, ℕ_discrete, dec_lt, ==_ne, ==_iff,
}
use os_playground.Bio.{Block}
use os_playground.Fs.{Fs, bsize, put_block, get_word}
use os_playground.Fs.Bitmap.{is_used, meta_end, IsFormatted, used_other}
use os_playground.Fs.Map.{slot, nslots, IsFile, with_disk, IsMapped}
use os_playground.Fs.Map.Direct.{slot_direct, slot_entry, slot_none}
use os_playground.Fs.Map.Bmap.{position}
use os_playground.Fs.Rw.{maxfile}

-- The byte of a file at `off`; where it has no block, it is zero.
abbrev pub content : (ℕ → ℕ) → (ℕ → Block) → ℕ → ℕ
content f disk off =
    let a = slot f disk (position (off / bsize)) in if a == 0 then 0 else disk a (off % bsize)

pub content_at :
    (f : ℕ → ℕ) (disk : ℕ → Block) (off a : ℕ)
    → slot f disk (position (off / bsize)) ≡ a
    → a ≢ 0
    → content f disk off ≡ disk a (off % bsize)
content_at f disk off a e ne =
    ap (λ x. if x == 0 then 0 else disk x (off % bsize)) e
    ∙ ap (λ b. if b then 0 else disk a (off % bsize)) (==_ne a 0 ne)

pub content_none :
    (f : ℕ → ℕ) (disk : ℕ → Block) (off : ℕ)
    → slot f disk (position (off / bsize)) ≡ 0
    → content f disk off ≡ 0
content_none f disk off e = ap (λ x. if x == 0 then 0 else disk x (off % bsize)) e

pub position_lt : (bn : ℕ) → bn < maxfile → position bn < nslots
position_lt bn l = ground arith

pub position_ne : (bn : ℕ) → position bn ≢ 12
position_ne bn = ground arith

pub position_inj : (i j : ℕ) → position i ≡ position j → i ≡ j
position_inj i j = ground arith

-- The block of a slot of a file is not its indirect block.
pub not_indirect :
    (f : ℕ → ℕ) (s : Fs) (k : ℕ)
    → IsFile f s
    → k < nslots
    → k ≢ 12
    → slot f s.disk k ≢ 0
    → slot f s.disk k ≢ f 12
not_indirect f s k file l ne has e =
    ne (file.apart k 12 l (omega arith) has (e ∙ sym (slot_direct f s.disk 12 (omega arith))))

-- Mapping a block of a file changes nothing of its contents.
pub content-IsMapped :
    (f : ℕ → ℕ) (s : Fs) (k a : ℕ) (f' : ℕ → ℕ) (disk : ℕ → Block)
    → IsFile f s
    → IsMapped f s k a f' disk
    → (off : ℕ) → off / bsize < maxfile
    → content f' disk off ≡ content f s.disk off
content-IsMapped f s k a f' disk file m off l = elim (ℕ_discrete (slot f s.disk p) 0) [
  | yes z ↦
      elim (ℕ_discrete p k) [
        | yes e ↦
            content_at f' disk off a (ap (slot f' disk) e ∙ m.here) m.nonzero
            ∙ m.zeroed (ap (slot f s.disk) (sym e) ∙ z) (off % bsize)
        | no ne ↦
            content_none f' disk off
              (m.rest p (position_lt (off / bsize) l) ne (position_ne (off / bsize)) ∙ z)
      ]
      ∙ sym (content_none f s.disk off z)
  | no ne ↦
      let same = m.kept p (position_lt (off / bsize) l) ne in
      content_at f' disk off (slot f s.disk p) same ne
      ∙ ap (λ d. d (off % bsize))
          (m.frame (slot f s.disk p) (file.inside p (position_lt (off / bsize) l) ne)
            (file.data_block p (position_lt (off / bsize) l) ne)
            (file.in_use p (position_lt (off / bsize) l) ne)
            (λ e.
              not_indirect f' (with_disk disk s) p m.file (position_lt (off / bsize) l)
                (position_ne (off / bsize)) (λ z. ne (sym same ∙ z)) (same ∙ e)))
      ∙ sym (content_at f s.disk off (slot f s.disk p) refl ne)
]
  where
    p : ℕ
    p = position (off / bsize)

-- A write to block `bn` of a file.
module _ (f : ℕ → ℕ) (s : Fs) (bn : ℕ) (d : Block) (file : IsFile f s) (l : bn < maxfile)
    (has : slot f s.disk (position bn) ≢ 0) where
  abbrev pub target : ℕ
  target = slot f s.disk (position bn)

  pub target_data : meta_end s ≤ target
  target_data = file.data_block (position bn) (position_lt bn l) has

  pub written_slot : (k : ℕ) → slot f (put_block target d s).disk k ≡ slot f s.disk k
  written_slot k = elim (dec_lt 12 k) [
    | no direct ↦
        slot_direct f (put_block target d s).disk k (omega arith)
        ∙ sym (slot_direct f s.disk k (omega arith))
    | yes far ↦ elim (ℕ_discrete (f 12) 0) [
      | yes z ↦ slot_none f (put_block target d s).disk k far z ∙ sym (slot_none f s.disk k far z)
      | no ne ↦
          slot_entry f (put_block target d s).disk k far ne
          ∙ ap (λ x. get_word x (k - 13))
              (update_ne s.disk target (f 12) d (λ e.
                not_indirect f s (position bn) file (position_lt bn l) (position_ne bn) has
                  (sym e)))
          ∙ sym (slot_entry f s.disk k far ne)
    ]
  ]

  pub written_used :
      IsFormatted s → (j : ℕ) → j < s.sb.size → is_used (put_block target d s) j ≡ is_used s j
  written_used formatted j h =
      used_other s target d j (λ e. below (formatted.maps j h) target_data e)
    where
      below : {m x y : ℕ} → x < m → m ≤ y → x ≡ y → ⊥
      below p q e = omega arith

  pub written-IsFile : IsFormatted s → IsFile f (put_block target d s)
  written-IsFile formatted = record {
    data_block = λ k h ne.
        subst (λ b. meta_end s ≤ b) (sym (written_slot k)) (file.data_block k h (old k ne));
    inside =
        λ k h ne. subst (λ b. b < s.sb.size) (sym (written_slot k)) (file.inside k h (old k ne));
    in_use = λ k h ne.
        ap (is_used (put_block target d s)) (written_slot k)
        ∙ written_used formatted (slot f s.disk k) (file.inside k h (old k ne))
        ∙ file.in_use k h (old k ne);
    apart =
        λ i j g h ne e. file.apart i j g h (old i ne) (sym (written_slot i) ∙ e ∙ written_slot j);
  }
    where
      old : (k : ℕ) → slot f (put_block target d s).disk k ≢ 0 → slot f s.disk k ≢ 0
      old k ne z = ne (written_slot k ∙ z)

  -- In block `bn` the file has now the bytes `d`, and elsewhere what it had.
  pub written_content :
      (off : ℕ)
      → off / bsize < maxfile
      → content f (put_block target d s).disk off
        ≡ (if off / bsize == bn then d (off % bsize) else content f s.disk off)
  written_content off h = elim (ℕ_discrete (off / bsize) bn) [
    | yes e ↦
        content_at f (put_block target d s).disk off target
          (written_slot (position (off / bsize)) ∙ ap (λ n. slot f s.disk (position n)) e) has
        ∙ ap (λ x. x (off % bsize)) (update_self s.disk target d)
        ∙ sym (
            ap (λ b. if b then d (off % bsize) else content f s.disk off)
              ((==_iff (off / bsize) bn).1 e))
    | no ne ↦
        elim (ℕ_discrete (slot f s.disk (position (off / bsize))) 0) [
          | yes z ↦
              content_none f (put_block target d s).disk off
                (written_slot (position (off / bsize)) ∙ z)
              ∙ sym (content_none f s.disk off z)
          | no has' ↦
              content_at f (put_block target d s).disk off (slot f s.disk (position (off / bsize)))
                (written_slot (position (off / bsize))) has'
              ∙ ap (λ x. x (off % bsize))
                  (update_ne s.disk target (slot f s.disk (position (off / bsize))) d (λ e. ne (
                    position_inj (off / bsize) bn (
                      file.apart (position (off / bsize)) (position bn)
                        (position_lt (off / bsize) h) (position_lt bn l) has' e))))
              ∙ sym (content_at f s.disk off (slot f s.disk (position (off / bsize))) refl has')
        ]
        ∙ sym (
            ap (λ b. if b then d (off % bsize) else content f s.disk off)
              (==_ne (off / bsize) bn ne))
  ]
