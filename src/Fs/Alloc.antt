-- ===== src/Fs/Alloc.antt =====
-- `ialloc` of xv6-l/fs.c: a new inode on the disk.
use os_playground.Base.{
  ℕ, zero, suc, ◌+◌, ◌-◌, ◌*◌, ◌/◌, ◌%◌, ◌^◌, ◌≤◌, ◌<◌, ◌≡◌, ◌≢◌, refl, sym, ap, subst, ◌⊎◌, ◌∙◌,
  Option, none, some, ltb, leb, ◌==◌, ◌&&◌, if◌then◌else◌, update_self, update_ne, arith,
  ℕ_discrete, dec_lt, ==_ne, ==_iff, inl, inr,
}
use os_playground.Bio.{Block}
use os_playground.Fs.{ipb, Fs, iblock, put_block}
use os_playground.Fs.Rw.{store16}
use os_playground.Fs.Cache.{Itable, iget, half}

-- `(struct dinode*)bp->data + inum%IPB`
abbrev pub dinode_place : ℕ → ℕ
dinode_place inum = 64 * (inum % ipb)

-- `dip->type` of inode `inum` on the disk
abbrev pub disk_type : ℕ → Fs → ℕ
disk_type inum fs = half (fs.disk (iblock inum fs.sb)) (dinode_place inum)

-- The loop of `ialloc` from `inum` on, with `r` inodes to go.
unfoldable pub find_inode : ℕ → ℕ → Fs → Option ℕ
find_inode inum zero fs = none
find_inode inum (suc r) fs =
    let rest = find_inode (inum + 1) r fs in if disk_type inum fs == 0 then some inum else rest

-- `memset(dip, 0, sizeof(*dip))` and `dip->type = type`
abbrev pub new_dinode : ℕ → ℕ → Block → Block
new_dinode p type d = store16 p type (λ i. if leb p i && ltb i (p + 64) then 0 else d i)

abbrev pub mark_inode : ℕ → ℕ → Fs → Fs
mark_inode inum type fs =
    put_block (iblock inum fs.sb)
      (new_dinode (dinode_place inum) type (fs.disk (iblock inum fs.sb))) fs

abbrev pub take_inode : ℕ → ℕ → Option ℕ → Itable → Option (ℕ × Itable)
take_inode dev type none s = none
take_inode dev type (some inum) s = iget dev inum (record s { fs = mark_inode inum type s.fs })

-- `none` is one of the panics "ialloc: no inodes" and "iget: no inodes".
unfoldable pub ialloc : ℕ → ℕ → Itable → Option (ℕ × Itable)
unfolding find_inode iget
ialloc dev type s = take_inode dev type (find_inode 1 (s.fs.sb.ninodes - 1) s.fs) s

-- What `ialloc` has made of the disk for inode `inum`: it has the type and is zero elsewhere, and no byte of
-- another inode or of another block has changed.
pub record IsNew (inum type : ℕ) (old fs : Fs) : Type 0 where
  pub type_set : disk_type inum fs ≡ type
  pub zeroed : (i : ℕ) → 2 ≤ i → i < 64 → fs.disk (iblock inum old.sb) (dinode_place inum + i) ≡ 0
  pub others :
      (j i : ℕ)
      → j ≢ inum
      → i < 64
      → fs.disk (iblock j old.sb) (dinode_place j + i)
        ≡ old.disk (iblock j old.sb) (dinode_place j + i)
  pub blocks : (b : ℕ) → b ≢ iblock inum old.sb → fs.disk b ≡ old.disk b

pub data Chosen (dev type : ℕ) (s : Itable) : Option (ℕ × Itable) → Type 0 where
  chosen :
      (inum : ℕ)
      → 1 ≤ inum
      → inum < s.fs.sb.ninodes
      → disk_type inum s.fs ≡ 0
      → ((j : ℕ) → 1 ≤ j → j < inum → disk_type j s.fs ≢ 0)
      → IsNew inum type s.fs (mark_inode inum type s.fs)
      → Chosen dev type s (iget dev inum (record s { fs = mark_inode inum type s.fs }))
  no_inodes :
      ((j : ℕ) → 1 ≤ j → j < s.fs.sb.ninodes → disk_type j s.fs ≢ 0) → Chosen dev type s none

mark_inode-IsNew :
    (inum type : ℕ) (fs : Fs) → type < 2 ^ 16 → IsNew inum type fs (mark_inode inum type fs)
mark_inode-IsNew inum type fs l = record {
  type_set =
      ap (λ d. half d (dinode_place inum)) here
      ∙ new_type (dinode_place inum) (fs.disk (iblock inum fs.sb));
  zeroed = λ i lo hi.
      ap (λ d. d (dinode_place inum + i)) here
      ∙ new_zero (dinode_place inum) (fs.disk (iblock inum fs.sb)) i lo hi;
  others = λ j i ne hi. elim (ℕ_discrete (iblock j fs.sb) (iblock inum fs.sb)) [
    | no other ↦ ap (λ d. d (dinode_place j + i)) (away (iblock j fs.sb) other)
    | yes same ↦
        ap (λ b. (mark_inode inum type fs).disk b (dinode_place j + i)) same
        ∙ ap (λ d. d (dinode_place j + i)) here
        ∙ new_other (dinode_place inum) (fs.disk (iblock inum fs.sb)) (dinode_place j + i)
            (apart j i ne hi same)
        ∙ ap (λ b. fs.disk b (dinode_place j + i)) (sym same)
  ];
  blocks = away;
}
  where
    here :
        (mark_inode inum type fs).disk (iblock inum fs.sb)
        ≡ new_dinode (dinode_place inum) type (fs.disk (iblock inum fs.sb))
    here =
        update_self fs.disk (iblock inum fs.sb)
          (new_dinode (dinode_place inum) type (fs.disk (iblock inum fs.sb)))

    away : (b : ℕ) → b ≢ iblock inum fs.sb → (mark_inode inum type fs).disk b ≡ fs.disk b
    away b ne =
        update_ne fs.disk (iblock inum fs.sb) b
          (new_dinode (dinode_place inum) type (fs.disk (iblock inum fs.sb))) ne

    new_type : (p : ℕ) (d : Block) → half (new_dinode p type d) p ≡ type
    new_type p d =
        let low : new_dinode p type d p ≡ type % 256 = ground arith in
        let high : new_dinode p type d (p + 1) ≡ type / 2 ^ 8 % 256 = ground arith in
        omega (arith, low, high)

    new_zero : (p : ℕ) (d : Block) (i : ℕ) → 2 ≤ i → i < 64 → new_dinode p type d (p + i) ≡ 0
    new_zero p d i lo hi = ground arith

    new_other : (p : ℕ) (d : Block) (q : ℕ) → (q < p) ⊎ (p + 64 ≤ q) → new_dinode p type d q ≡ d q
    new_other p d q (inl h) = ground arith
    new_other p d q (inr h) = ground arith

    apart :
        (j i : ℕ)
        → j ≢ inum
        → i < 64
        → iblock j fs.sb ≡ iblock inum fs.sb
        → (dinode_place j + i < dinode_place inum) ⊎ (dinode_place inum + 64 ≤ dinode_place j + i)
    apart j i ne hi same = elim (dec_lt (j % ipb) (inum % ipb)) [
      | yes h ↦ inl (omega arith)
      | no h ↦ inr (omega arith)
    ]

search-Chosen :
    (dev type : ℕ) (s : Itable) (inum r : ℕ)
    → type < 2 ^ 16
    → 1 ≤ inum
    → (s.fs.sb.ninodes - inum ≡ r)
    → ((j : ℕ) → 1 ≤ j → j < inum → disk_type j s.fs ≢ 0)
    → Chosen dev type s (take_inode dev type (find_inode inum r s.fs) s)
unfolding find_inode
search-Chosen dev type s inum zero l lo e before = no_inodes (λ j h m. before j h (omega arith))
search-Chosen dev type s inum (suc r) l lo e before = elim (ℕ_discrete (disk_type inum s.fs) 0) [
  | yes z ↦
      subst (λ o. Chosen dev type s (take_inode dev type o s))
        (sym (
          ap (λ b. if b then some inum else find_inode (inum + 1) r s.fs)
            ((==_iff (disk_type inum s.fs) 0).1 z)))
        (chosen inum lo (omega arith) z before (mark_inode-IsNew inum type s.fs l))
  | no ne ↦
      subst (λ o. Chosen dev type s (take_inode dev type o s))
        (sym (
          ap (λ b. if b then some inum else find_inode (inum + 1) r s.fs)
            (==_ne (disk_type inum s.fs) 0 ne)))
        (search-Chosen dev type s (inum + 1) r l (omega arith) (omega arith) (λ j h m.
          elim (ℕ_discrete j inum) [
            | yes q ↦ λ z. ne (sym (ap (λ n. disk_type n s.fs) q) ∙ z)
            | no other ↦ before j h (omega arith)
          ]))
]

-- `ialloc` takes the first inode whose type on the disk is 0, sets its type, clears the rest of it, changes no
-- other inode and no other block, and returns what `iget` of it returns; it panics only if no inode is free or
-- `iget` panics.
pub ialloc_lem : (dev type : ℕ) (s : Itable) → type < 2 ^ 16 → Chosen dev type s (ialloc dev type s)
unfolding ialloc
ialloc_lem dev type s l =
    search-Chosen dev type s 1 (s.fs.sb.ninodes - 1) l (omega arith) refl
      (λ j lo hi. absurd (omega arith))
