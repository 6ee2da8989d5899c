-- ===== src/Fs/Trunc/Whole.antt =====
-- `itrunc`: all its loops together are one loop over the slots of the file.
use os_playground.Base.{
  ℕ, ◌+◌, ◌-◌, ◌≤◌, ◌<◌, ◌≡◌, ◌≢◌, refl, sym, ap, ap₂, subst, ◌∙◌, true, false, Option, none, some,
  ltb, leb, ◌==◌, ◌&&◌, if◌then◌else◌, update, update_self, update_ne, arith, ℕ_discrete, ==_ne,
  ==_iff, fun_ext,
}
use os_playground.Bio.{Block}
use os_playground.Fs.{Fs, Inode, put_block, iblock, get_word, nindirect, bfree}
use os_playground.Fs.Bitmap.{is_used, meta_end, IsFormatted}
use os_playground.Fs.Map.{slot, nslots, IsFile, with_disk}
use os_playground.Fs.Map.Direct.{slot_direct, slot_entry, slot_none}
use os_playground.Fs.Rw.{put_dinode, dinode_at, iupdate}
use os_playground.Fs.Rw.Meta.{put_dinode-bytes, meta_used, meta-IsFormatted, data_ne}
use os_playground.Fs.Trunc.{
  then_free, free_range, free_direct, no_indirect, free_indirect, emptied, itrunc,
}
use os_playground.Fs.Trunc.Range.{IsRange, IsRangeFreed, free_range_lem}
use os_playground.Fs.Trunc.Loops.{
  free_range_shift, free_range_add, free_range_none, attach, clear, free_direct_lem,
}

-- The slots in the order in which `itrunc` frees them: the indirect block comes last.
abbrev place : ℕ → ℕ
place k = if ltb k 12 then k else if ltb k 140 then k + 1 else 12

place_lt : (k : ℕ) → k < nslots → place k < nslots
place_lt k l = ground arith

place_inj : (i j : ℕ) → i < nslots → j < nslots → place i ≡ place j → i ≡ j
place_inj i j l m e = ground arith

-- Where slot `k` stands in this order.
abbrev turn : ℕ → ℕ
turn k = if ltb k 12 then k else if k == 12 then 140 else k - 1

turn_lt : (k : ℕ) → k < nslots → turn k < nslots
turn_lt k l = ground arith

place-turn : (k : ℕ) → k < nslots → place (turn k) ≡ k
place-turn k l = ground arith

-- What `itrunc` makes of a file: its addresses are cleared, its blocks and no others have become free, and
-- no block of data has changed.
pub record IsTruncated (ip : Inode) (s : Fs) (f : ℕ → ℕ) (t : Fs) : Type 0 where
  pub no_blocks : (k : ℕ) → k ≤ 12 → f k ≡ 0
  pub formatted : IsFormatted t
  pub freed :
      (k : ℕ) → k < nslots → slot ip.addrs s.disk k ≢ 0 → is_used t (slot ip.addrs s.disk k) ≡ false
  pub others :
      (b : ℕ) → ((k : ℕ) → k < nslots → slot ip.addrs s.disk k ≢ b) → is_used t b ≡ is_used s b
  pub data_kept : (b : ℕ) → b < s.sb.size → meta_end s ≤ b → t.disk b ≡ s.disk b

module _ (ip : Inode) (s : Fs) (formatted : IsFormatted s) (file : IsFile ip.addrs s) where
  abbrev ordered : ℕ → ℕ
  ordered k = slot ip.addrs s.disk (place k)

  -- The first `n` slots of the order.
  ordered-IsRange : (n : ℕ) → n ≤ nslots → IsRange ordered 0 (0 + n) s
  ordered-IsRange n m = record {
    data_block = λ j _ l ne. file.data_block (place j) (place_lt j (omega arith)) ne;
    inside = λ j _ l ne. file.inside (place j) (place_lt j (omega arith)) ne;
    in_use = λ j _ l ne. file.in_use (place j) (place_lt j (omega arith)) ne;
    apart = λ i j _ l _ h ne e.
        place_inj i j (omega arith) (omega arith) (
          file.apart (place i) (place j) (place_lt i (omega arith)) (place_lt j (omega arith)) ne
            e);
  }

  ordered_direct : (k : ℕ) → k < 12 → ip.addrs k ≡ ordered k
  ordered_direct k l =
      sym (ap (slot ip.addrs s.disk) (at k l) ∙ slot_direct ip.addrs s.disk k (omega arith))
    where
      at : (k : ℕ) → k < 12 → place k ≡ k
      at k l = ground arith

  ordered_entry : (k : ℕ) → k < 128 → ordered (12 + k) ≡ slot ip.addrs s.disk (k + 13)
  ordered_entry k l = ap (slot ip.addrs s.disk) (at k l)
    where
      at : (k : ℕ) → k < 128 → place (12 + k) ≡ k + 13
      at k l = ground arith

  direct_disk :
      (disk : ℕ → Block) × (free_range ordered 0 12 s ≡ some (with_disk disk s))
      × IsRangeFreed ordered 0 12 s disk
  direct_disk = free_range_lem ordered 0 12 s formatted (ordered-IsRange 12 (omega arith))

  all_disk :
      (disk : ℕ → Block) × (free_range ordered 0 141 s ≡ some (with_disk disk s))
      × IsRangeFreed ordered 0 141 s disk
  all_disk = free_range_lem ordered 0 141 s formatted (ordered-IsRange 141 (omega arith))

  -- After the direct blocks, the rest of the order is left.
  rest_lem : free_range ordered 12 129 (with_disk direct_disk.0 s) ≡ some (with_disk all_disk.0 s)
  rest_lem =
      sym (ap (then_free (free_range ordered 12 129)) direct_disk.1)
      ∙ sym (free_range_add ordered 0 12 129 s)
      ∙ all_disk.1

  cleared_low : (k : ℕ) → k < 12 → clear 0 12 ip.addrs k ≡ 0
  cleared_low k l =
      let e : leb 0 k && ltb k (0 + 12) ≡ true = ground arith in
      ap (λ b. if b then 0 else ip.addrs k) e

  direct_lem :
      free_direct 0 12 ip s
      ≡ some (record ip { addrs = clear 0 12 ip.addrs }, with_disk direct_disk.0 s)
  direct_lem =
      free_direct_lem 0 12 ip s
      ∙ ap (attach ip (clear 0 12 ip.addrs))
          (free_range_shift ip.addrs ordered 0 0 12 (λ k l. direct_same k l) s ∙ direct_disk.1)
    where
      direct_same : (k : ℕ) → k < 12 → ip.addrs (0 + k) ≡ ordered (0 + k)
      direct_same k l =
          let e : 0 + k ≡ k = omega arith in ap ip.addrs e ∙ ordered_direct k l ∙ ap ordered (sym e)

  -- The indirect block, if there is one, still has its entries.
  entries_kept : ip.addrs 12 ≢ 0 → direct_disk.0 (ip.addrs 12) ≡ s.disk (ip.addrs 12)
  entries_kept ne =
      direct_disk.2.data_kept (ip.addrs 12)
        (subst (λ b. b < s.sb.size) here (file.inside 12 (omega arith) has))
        (subst (λ b. meta_end s ≤ b) here (file.data_block 12 (omega arith) has))
    where
      here : slot ip.addrs s.disk 12 ≡ ip.addrs 12
      here = slot_direct ip.addrs s.disk 12 (omega arith)

      has : slot ip.addrs s.disk 12 ≢ 0
      has z = ne (sym (slot_direct ip.addrs s.disk 12 (omega arith)) ∙ z)

  entries_lem :
      ip.addrs 12 ≢ 0
      → free_range ordered 12 128 (with_disk direct_disk.0 s)
        ≡ free_range (get_word (direct_disk.0 (ip.addrs 12))) 0 128 (with_disk direct_disk.0 s)
  entries_lem ne =
      free_range_shift ordered (get_word (direct_disk.0 (ip.addrs 12))) 12 0 128
        (λ k l.
          ordered_entry k l
          ∙ slot_entry ip.addrs s.disk (k + 13) (omega arith) ne
          ∙ ap₂ get_word (sym (entries_kept ne)) (omega arith))
        (with_disk direct_disk.0 s)

  last_lem : ip.addrs 12 ≢ 0 → (t : Fs) → free_range ordered 140 1 t ≡ bfree (ip.addrs 12) t
  unfolding free_range
  last_lem ne t =
      ap (λ x. if x == 0 then some t else then_free (λ u. some u) (bfree x t))
        (slot_direct ip.addrs s.disk 12 (omega arith))
      ∙ ap (λ b. if b then some t else then_free (λ u. some u) (bfree (ip.addrs 12) t))
          (==_ne (ip.addrs 12) 0 ne)
      ∙ same (bfree (ip.addrs 12) t)
    where
      same : (o : Option Fs) → then_free (λ u. some u) o ≡ o
      same none = refl
      same (some u) = refl

  indirect_lem :
      (f : ℕ → ℕ) × (free_indirect (free_direct 0 12 ip s)
        ≡ some (record ip { addrs = f }, with_disk all_disk.0 s))
      × ((k : ℕ) → k ≤ 12 → f k ≡ 0)
  unfolding free_indirect
  indirect_lem = elim (ℕ_discrete (ip.addrs 12) 0) [
    | yes z ↦ (
      clear 0 12 ip.addrs,
      ap free_indirect direct_lem
          ∙ ap
              (λ b.
                if b
                then some (record ip { addrs = clear 0 12 ip.addrs }, with_disk direct_disk.0 s)
                else no_indirect (record ip { addrs = clear 0 12 ip.addrs })
                    (then_free (bfree (ip.addrs 12)) (
                      free_range (get_word (direct_disk.0 (ip.addrs 12))) 0 nindirect
                        (with_disk direct_disk.0 s))))
              ((==_iff (ip.addrs 12) 0).1 z)
          ∙ ap (attach ip (clear 0 12 ip.addrs)) (
              sym (
                free_range_none ordered 12 129 (with_disk direct_disk.0 s)
                  (λ k l h. nothing z k l h))
              ∙ rest_lem),
      λ k l. elim (ℕ_discrete k 12) [
        | yes e ↦ ap (clear 0 12 ip.addrs) e ∙ z
        | no other ↦ cleared_low k (omega arith)
      ],
    )
    | no ne ↦ (
      update (clear 0 12 ip.addrs) 12 0,
      ap free_indirect direct_lem
          ∙ ap
              (λ b.
                if b
                then some (record ip { addrs = clear 0 12 ip.addrs }, with_disk direct_disk.0 s)
                else no_indirect (record ip { addrs = clear 0 12 ip.addrs })
                    (then_free (bfree (ip.addrs 12)) (
                      free_range (get_word (direct_disk.0 (ip.addrs 12))) 0 nindirect
                        (with_disk direct_disk.0 s))))
              (==_ne (ip.addrs 12) 0 ne)
          ∙ ap (no_indirect (record ip { addrs = clear 0 12 ip.addrs })) (chain ne),
      λ k l. elim (ℕ_discrete k 12) [
        | yes e ↦ ap (update (clear 0 12 ip.addrs) 12 0) e ∙ update_self (clear 0 12 ip.addrs) 12 0
        | no other ↦ update_ne (clear 0 12 ip.addrs) 12 k 0 other ∙ cleared_low k (omega arith)
      ],
    )
  ]
    where
      nothing : ip.addrs 12 ≡ 0 → (k : ℕ) → 12 ≤ k → k < 12 + 129 → ordered k ≡ 0
      nothing z k l h = elim (ℕ_discrete k 140) [
        | yes e ↦ ap ordered e ∙ slot_direct ip.addrs s.disk 12 (omega arith) ∙ z
        | no other ↦
            ap (slot ip.addrs s.disk) (next k l (omega arith))
            ∙ slot_none ip.addrs s.disk (k + 1) (omega arith) z
      ]
        where
          next : (k : ℕ) → 12 ≤ k → k < 140 → place k ≡ k + 1
          next k l h = ground arith

      chain :
          ip.addrs 12 ≢ 0
          → then_free (bfree (ip.addrs 12)) (
              free_range (get_word (direct_disk.0 (ip.addrs 12))) 0 128 (with_disk direct_disk.0 s))
            ≡ some (with_disk all_disk.0 s)
      chain ne =
          ap₂ then_free (sym (fun_ext (last_lem ne))) (sym (entries_lem ne))
          ∙ sym (free_range_add ordered 12 128 1 (with_disk direct_disk.0 s))
          ∙ rest_lem

-- `itrunc` of a sound file on a formatted disk frees no block that is free, so that `bfree` never panics: it
-- clears all addresses and the size, frees every block of the file and no other block, and leaves all blocks
-- of data and the format alone.
pub itrunc_lem :
    (ip : Inode) (s : Fs)
    → IsFormatted s
    → IsFile ip.addrs s
    → ip.inum < s.sb.ninodes
    → (f : ℕ → ℕ) × (t : Fs) × (itrunc ip s ≡ some (record ip { addrs = f; size = 0 }, t))
      × IsTruncated ip s f t
unfolding itrunc iupdate
itrunc_lem ip s formatted file small =
    let all = all_disk ip s formatted file in
    let done = indirect_lem ip s formatted file in
    let mid = with_disk all.0 s in
    let gone = record ip { addrs = done.0; size = 0 } in
    let inodes = put_dinode (dinode_at gone) gone (mid.disk (iblock ip.inum s.sb)) in
    let plain =
      put_dinode-bytes (dinode_at gone) gone (mid.disk (iblock ip.inum s.sb))
        (all.2.formatted.bytes (iblock ip.inum s.sb)) in
    let before = formatted.inodes ip.inum small in
    (
      done.0,
      put_block (iblock ip.inum s.sb) inodes mid,
      ap emptied done.1,
      record {
        no_blocks = done.2;
        formatted = meta-IsFormatted mid (iblock ip.inum s.sb) inodes all.2.formatted before plain;
        freed = λ k l ne.
            meta_used mid (iblock ip.inum s.sb) inodes all.2.formatted before plain
              (slot ip.addrs s.disk k)
            ∙ subst (λ j. slot ip.addrs s.disk j ≢ 0 → is_used mid (slot ip.addrs s.disk j) ≡ false)
                (place-turn k l) (all.2.gone (turn k) (omega arith) (turn_lt k l)) ne;
        others = λ b apart.
            meta_used mid (iblock ip.inum s.sb) inodes all.2.formatted before plain b
            ∙ all.2.rest b (λ j _ l. apart (place j) (place_lt j l));
        data_kept = λ b l m.
            update_ne mid.disk (iblock ip.inum s.sb) b inodes
              (data_ne mid (iblock ip.inum s.sb) inodes all.2.formatted before plain b m l)
            ∙ all.2.data_kept b l m;
      },
    )
