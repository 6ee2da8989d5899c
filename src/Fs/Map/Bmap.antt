-- ===== src/Fs/Map/Bmap.antt =====
-- `bmap`: it finds the block of a file, or allocates it, and loses nothing.
use os_playground.Base.{
  ℕ, ◌+◌, ◌-◌, ◌<◌, ◌≡◌, ◌≢◌, refl, sym, ap, subst, ◌∙◌, true, false, Option, none, some, ltb,
  if◌then◌else◌, arith, ℕ_discrete, Bool-cases, ==_ne, ==_iff, inl, inr,
}
use os_playground.Bio.{Block}
use os_playground.Fs.{
  Fs, get_word, ndirect, nindirect, Inode, Mapping, load_addr, new_entry, load_entry, balloc, bmap,
}
use os_playground.Fs.Count.{frees_none}
use os_playground.Fs.Bitmap.{is_used, IsFormatted, Allocated, allocated, out_of_blocks, balloc_lem}
use os_playground.Fs.Map.{slot, nslots, IsFile, with_disk, IsMapped}
use os_playground.Fs.Map.Direct.{
  Mapped, mapped, no_space, slot_direct, slot_entry, slot_none, same-IsMapped, load_addr-Mapped,
}
use os_playground.Fs.Map.Entry.{with_entry, entered, entered-IsMapped, entered_cost}

load_entry-Mapped :
    (ip : Inode) (s : Fs) (j : ℕ)
    → IsFile ip.addrs s
    → IsFormatted s
    → ip.addrs 12 ≢ 0
    → j < 128
    → Mapped ip s (j + 13) 1 (load_entry j (some (ip.addrs 12, ip, s)))
unfolding load_entry entered with_entry
load_entry-Mapped ip s j file formatted has small =
    elim (ℕ_discrete (get_word (s.disk (ip.addrs 12)) j) 0) [
      | no ne ↦ rw (==_ne (get_word (s.disk (ip.addrs 12)) j) 0 ne) (
          mapped (get_word (s.disk (ip.addrs 12)) j) ip.addrs s.disk
            (same-IsMapped ip.addrs s (j + 13) (get_word (s.disk (ip.addrs 12)) j) file formatted
              (slot_entry ip.addrs s.disk (j + 13) (omega arith) has
                ∙ ap (get_word (s.disk (ip.addrs 12))) (omega arith))
              ne)
            (omega arith))
      | yes z ↦
          subst (Mapped ip s (j + 13) 1)
            (sym (
              ap
                (λ b.
                  if b
                  then new_entry (ip.addrs 12) j ip (balloc s)
                  else some (get_word (s.disk (ip.addrs 12)) j, ip, s))
                ((==_iff (get_word (s.disk (ip.addrs 12)) j) 0).1 z)))
            (new z (balloc_lem s formatted))
    ]
  where
    new :
        get_word (s.disk (ip.addrs 12)) j ≡ 0
        → {o : Option (ℕ × Fs)} → Allocated s o
        → Mapped ip s (j + 13) 1 (new_entry (ip.addrs 12) j ip o)
    new z (out_of_blocks full) =
        no_space (let e = frees_none (is_used s) s.sb.size full in omega arith)
    new z (allocated a inside clear _ made) =
        mapped a ip.addrs (entered ip.addrs s j a file formatted has small inside clear made)
          (entered-IsMapped ip.addrs s j a file formatted has small inside clear made z)
          (let e = entered_cost ip.addrs s j a file formatted has small inside clear made in
            omega arith)

-- Mapping slot `k` after the indirect block is loaded.
compose :
    (f0 : ℕ → ℕ) (s : Fs) (block : ℕ) (f : ℕ → ℕ) (disk : ℕ → Block) (k a : ℕ) (f' : ℕ → ℕ)
    (disk' : ℕ → Block)
    → k < nslots
    → k ≢ 12
    → IsMapped f0 s 12 block f disk
    → IsMapped f (with_disk disk s) k a f' disk'
    → IsMapped f0 s k a f' disk'
compose f0 s block f disk k a f' disk' l ne m n = record {
  file = n.file;
  formatted = n.formatted;
  here = n.here;
  nonzero = n.nonzero;
  kept = λ j h z. n.kept j h (λ q. z (sym (m.kept j h z) ∙ q)) ∙ m.kept j h z;
  rest = λ j h p q. n.rest j h p q ∙ m.rest j h q q;
  zeroed = λ z. n.zeroed (m.rest k l ne ne ∙ z);
  frame = λ b h meta used z.
      n.frame b h meta (m.stays b h used) z ∙ m.frame b h meta used (λ q. z (q ∙ sym same));
  stays = λ b h used. n.stays b h (m.stays b h used);
}
  where
    block_slot : slot f disk 12 ≢ 0
    block_slot z = m.nonzero (sym m.here ∙ z)

    same : f' 12 ≡ f 12
    same =
        sym (slot_direct f' disk' 12 (omega arith))
        ∙ n.kept 12 (omega arith) block_slot
        ∙ slot_direct f disk 12 (omega arith)

-- The slot of block `bn` of a file.
abbrev pub position : ℕ → ℕ
position bn = if ltb bn ndirect then bn else bn + 1

cheaper : {ip : Inode} {s : Fs} {k : ℕ} {o : Mapping} → Mapped ip s k 1 o → Mapped ip s k 2 o
cheaper (mapped a f disk m c) = mapped a f disk m (omega arith)
cheaper (no_space c) = no_space (omega arith)

entry_after :
    (ip : Inode) (s : Fs) (j : ℕ) {o : Mapping}
    → j < 128
    → Mapped ip s 12 1 o
    → Mapped ip s (j + 13) 2 (load_entry j o)
unfolding load_entry
entry_after ip s j small (no_space c) = no_space (omega arith)
entry_after ip s j small (mapped block f disk m c) =
    let at : f 12 ≡ block = sym (slot_direct f disk 12 (omega arith)) ∙ m.here in
    let ip1 = record ip { addrs = f } in
    subst (λ b. Mapped ip s (j + 13) 2 (load_entry j (some (b, ip1, with_disk disk s)))) at
      (both (
        load_entry-Mapped ip1 (with_disk disk s) j m.file m.formatted (λ z. m.nonzero (sym at ∙ z))
          small))
  where
    both :
        {o : Mapping}
        → Mapped (record ip { addrs = f }) (with_disk disk s) (j + 13) 1 o
        → Mapped ip s (j + 13) 2 o
    both (no_space c') = no_space (omega arith)
    both (mapped a f' disk' n c') =
        mapped a f' disk'
          (compose ip.addrs s block f disk (j + 13) a f' disk' (omega arith) (λ e. omega arith) m n)
          (omega arith)

-- On a formatted disk, `bmap` of one of the blocks that a file can have returns the block in its slot, or
-- a zeroed block that it has put there; it loses no block of the file and touches no other data block in
-- use but the indirect block. It panics only if fewer than two blocks are free.
pub bmap_lem :
    (ip : Inode) (s : Fs) (bn : ℕ)
    → IsFile ip.addrs s
    → IsFormatted s
    → bn < 140
    → Mapped ip s (position bn) 2 (bmap bn ip s)
unfolding bmap
bmap_lem ip s bn file formatted l = elim (Bool-cases (ltb bn ndirect)) [
  | inl e ↦ rw e (cheaper (load_addr-Mapped ip s bn file formatted (ground arith)))
  | inr e ↦
      let in_block : ltb (bn - ndirect) nindirect ≡ true = ground arith in
      rw e (
        rw in_block (
          subst (λ k. Mapped ip s k 2 (load_entry (bn - ndirect) (load_addr ndirect ip s)))
            (ground arith)
            (entry_after ip s (bn - 12) (ground arith)
              (load_addr-Mapped ip s 12 file formatted (omega arith)))))
]

-- A block that the file has is found without a change.
pub bmap_found :
    (ip : Inode) (s : Fs) (bn : ℕ)
    → bn < 140
    → slot ip.addrs s.disk (position bn) ≢ 0
    → bmap bn ip s ≡ some (slot ip.addrs s.disk (position bn), ip, s)
unfolding bmap load_addr load_entry
bmap_found ip s bn l ne = elim (Bool-cases (ltb bn ndirect)) [
  | inl e ↦
      let at : slot ip.addrs s.disk (position bn) ≡ ip.addrs bn =
        ap (λ b. slot ip.addrs s.disk (if b then bn else bn + 1)) e
        ∙ slot_direct ip.addrs s.disk bn (ground arith) in
      rw e (
        loaded bn (λ z. ne (at ∙ z))
        ∙ ap (λ a. some (a, ip, s)) (sym (slot_direct ip.addrs s.disk bn (ground arith))))
  | inr e ↦ entry e
]
  where
    loaded : (k : ℕ) → ip.addrs k ≢ 0 → load_addr k ip s ≡ some (ip.addrs k, ip, s)
    loaded k h = rw (==_ne (ip.addrs k) 0 h) refl

    choose :
        ltb bn ndirect ≡ false
        → ltb (bn - ndirect) nindirect ≡ true
        → bmap bn ip s ≡ load_entry (bn - ndirect) (load_addr ndirect ip s)
    choose e f =
        ap
          (λ b.
            if b
            then load_addr bn ip s
            else if ltb (bn - ndirect) nindirect
            then load_entry (bn - ndirect) (load_addr ndirect ip s)
            else none)
          e
        ∙ ap (λ b. if b then load_entry (bn - ndirect) (load_addr ndirect ip s) else none) f

    entry : ltb bn ndirect ≡ false → bmap bn ip s ≡ some (slot ip.addrs s.disk (position bn), ip, s)
    entry e =
        let late : 12 < bn + 1 = ground arith in
        let place : slot ip.addrs s.disk (position bn) ≡ slot ip.addrs s.disk (bn + 1) =
          ap (λ b. slot ip.addrs s.disk (if b then bn else bn + 1)) e in
        let has : ip.addrs 12 ≢ 0 = λ z. ne (place ∙ slot_none ip.addrs s.disk (bn + 1) late z) in
        let word_at : slot ip.addrs s.disk (position bn)
            ≡ get_word (s.disk (ip.addrs 12)) (bn - 12) =
          place
          ∙ slot_entry ip.addrs s.disk (bn + 1) late has
          ∙ ap (get_word (s.disk (ip.addrs 12))) (omega arith) in
        choose e (ground arith)
        ∙ ap (load_entry (bn - 12)) (loaded 12 has)
        ∙ ap
            (λ b.
              if b
              then new_entry (ip.addrs 12) (bn - 12) ip (balloc s)
              else some (get_word (s.disk (ip.addrs 12)) (bn - 12), ip, s))
            (==_ne (get_word (s.disk (ip.addrs 12)) (bn - 12)) 0 (λ z. ne (word_at ∙ z)))
        ∙ ap (λ a. some (a, ip, s)) (sym word_at)
