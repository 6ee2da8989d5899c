-- ===== src/Fs/Rw/Write.antt =====
-- `writei`: it changes the bytes that it writes, and lengthens the file.
use os_playground.Base.{
  ℕ, suc, ◌+◌, ◌*◌, ◌/◌, ◌%◌, ◌^◌, ◌≤◌, ◌<◌, ◌≡◌, ◌≢◌, ◌⊎◌, refl, sym, ap, subst, ◌∙◌, Bool, true,
  false, Option, some, ltb, leb, ◌&&◌, ◌||◌, if◌then◌else◌, update_ne, arith, dec_lt, Bool-cases,
  ==_ne, inl, inr, [], ◌∷◌,
}
use os_playground.Bio.{Block}
use os_playground.Str.{Memory}
use os_playground.Fs.{Fs, bsize, Inode, put_block, iblock}
use os_playground.Fs.Count.{room}
use os_playground.Fs.Bitmap.{is_used, meta_end, IsFormatted}
use os_playground.Fs.Map.{slot, nslots, IsFile, with_disk}
use os_playground.Fs.Map.Bmap.{position}
use os_playground.Log.{Log}
use os_playground.Fs.Rw.{
  t_dev, maxfile, minus_one, paste, Device, on_device, WriteResult, beside_log, logged, log_blocks,
  put_dinode, dinode_at, iupdate, written, write_loop, writei,
}
use os_playground.Fs.Rw.Logged.{
  HasRoom, IsFuller, HasRoom-less, HasRoom-after, IsFuller-add, IsFuller-weaken, log_blocks_lem,
}
use os_playground.Fs.Rw.Content.{content, position_lt}
use os_playground.Fs.Rw.Read.{IsWhole}
use os_playground.Fs.Rw.Round.{IsWritten, rounds}
use os_playground.Fs.Rw.Loop.{entries, entries_le, write_loop_lem}
use os_playground.Fs.Rw.Meta.{
  put_dinode-bytes, meta-IsFormatted, data_ne, meta_slot, meta-IsFile, meta_content,
}

-- What `writei` of `n` bytes makes of a file: it has these bytes at `off` and no others have changed, it
-- reaches to their end, it has no missing block, and other files keep their data.
pub record IsRewritten (ip : Inode) (s : Fs) (src off n : ℕ) (mem : Memory) (ip' : Inode) (t : Fs)
    : Type 0 where
  pub file : IsFile ip'.addrs t
  pub formatted : IsFormatted t
  pub whole : IsWhole ip' t.disk
  pub type : ip'.type ≡ ip.type
  pub size : ip'.size ≡ (if ltb ip.size (off + n) then off + n else ip.size)
  pub bytes :
      (j : ℕ)
      → j / bsize < maxfile
      → content ip'.addrs t.disk j ≡ paste (content ip.addrs s.disk) off mem src n j
  pub others :
      (b : ℕ)
      → b < s.sb.size
      → meta_end s ≤ b
      → is_used s b ≡ true
      → ((k : ℕ) → k < nslots → slot ip'.addrs t.disk k ≢ b)
      → t.disk b ≡ s.disk b

-- From behind the end of the file, past the largest file, or with a sum that overflows.
abbrev pub is_refused : Inode → ℕ → ℕ → Bool
is_refused ip off n = ltb ip.size off || leb (2 ^ 32) (off + n) || ltb (maxfile * bsize) (off + n)

pub data Writing (ip : Inode) (s : Fs) (src off n : ℕ) (mem : Memory) (log : Log)
    : WriteResult → Type 0 where
  refused :
      is_refused ip off n ≡ true
      → Writing ip s src off n mem log (some (minus_one, mem, ip, s, log))
  done :
      (ip' : Inode) (t : Fs) (log' : Log)
      → is_refused ip off n ≡ false
      → IsRewritten ip s src off n mem ip' t
      → IsFuller log (6 * rounds off n + 1) log'
      → Writing ip s src off n mem log (some (n, mem, ip', t, log'))

module _ (ip : Inode) (s : Fs) (src off n : ℕ) (mem : Memory) (f : ℕ → ℕ) (disk : ℕ → Block)
    (small : ip.inum < s.sb.ninodes) (whole : IsWhole ip s.disk) (starts : off ≤ ip.size)
    (fits : ip.size ≤ bsize * maxfile) (ends : off + n ≤ bsize * maxfile)
    (w : IsWritten ip.addrs s src off n mem f disk) (log log' : Log)
    (logfree : HasRoom log (6 * rounds off n + 1))
    (fuller : IsFuller log (entries off n) log') where
  -- No block below the old or the new end is missing.
  still_whole :
      (bn : ℕ) → (bsize * bn < ip.size) ⊎ (bsize * bn < off + n) → slot f disk (position bn) ≢ 0
  still_whole bn (inl l) =
      λ z. whole bn l (sym (w.kept (position bn) (position_lt bn (omega arith)) (whole bn l)) ∙ z)
  still_whole bn (inr l) = elim (dec_lt (bsize * bn) ip.size) [
    | yes old ↦ λ z.
        whole bn old (sym (w.kept (position bn) (position_lt bn (omega arith)) (whole bn old)) ∙ z)
    | no new ↦ w.covered bn (omega arith) (omega arith) l
  ]

  written-Writing :
      is_refused ip off n ≡ false
      → Writing ip s src off n mem log
          (written off n (some (mem, record ip { addrs = f }, with_disk disk s, log')))
  unfolding iupdate
  written-Writing fine = elim (Bool-cases (ltb 0 n && ltb ip.size (off + n))) [
    | inl e ↦
        let longer : ltb ip.size (off + n) ≡ true = ground arith in
        subst (Writing ip s src off n mem log)
          (sym (
            ap
              (λ b.
                if b
                then logged n mem grown (iupdate grown mid) (log_blocks (inode_block ∷ []) log')
                else some (n, mem, record ip { addrs = f }, mid, log'))
              e
            ∙ ap (logged n mem grown (iupdate grown mid)) last.1))
          (done grown (put_block inode_block inodes mid) last.0 fine
            (record {
              file = meta-IsFile mid inode_block inodes w.formatted before plain f w.file;
              formatted = meta-IsFormatted mid inode_block inodes w.formatted before plain;
              whole = λ bn l z. still_whole bn (inr l) (
                  sym (
                    meta_slot mid inode_block inodes w.formatted before plain f w.file
                      (position bn))
                  ∙ z);
              type = refl;
              size = sym (ap (λ b. if b then off + n else ip.size) longer);
              bytes = λ j l.
                  meta_content mid inode_block inodes w.formatted before plain f w.file j l
                  ∙ w.bytes j l;
              others = λ b l meta used apart.
                  update_ne disk inode_block b inodes
                    (data_ne mid inode_block inodes w.formatted before plain b meta l)
                  ∙ w.frame b l meta used (λ k h z.
                    apart k h
                      (meta_slot mid inode_block inodes w.formatted before plain f w.file k ∙ z));
            })
            (IsFuller-weaken log last.0 (entries off n + 1) (6 * rounds off n + 1)
              (omega (arith, entries_le off n))
              (IsFuller-add log log' last.0 (entries off n) 1 fuller last.2)))
    | inr e ↦
        let same : ltb ip.size (off + n) ≡ false = ground arith in
        subst (Writing ip s src off n mem log)
          (sym (
            ap
              (λ b.
                if b
                then logged n mem grown (iupdate grown mid) (log_blocks (inode_block ∷ []) log')
                else some (n, mem, record ip { addrs = f }, mid, log'))
              e))
          (done (record ip { addrs = f }) mid log' fine
            (record {
              file = w.file;
              formatted = w.formatted;
              whole = λ bn l. still_whole bn (inl l);
              type = refl;
              size = sym (ap (λ b. if b then off + n else ip.size) same);
              bytes = w.bytes;
              others = w.frame;
            })
            (IsFuller-weaken log log' (entries off n) (6 * rounds off n + 1)
              (omega (arith, entries_le off n)) fuller))
  ]
    where
      mid : Fs
      mid = with_disk disk s

      grown : Inode
      grown = record ip { addrs = f; size = off + n }

      inode_block : ℕ
      inode_block = iblock ip.inum s.sb

      last :
          (log'' : Log) × (log_blocks (iblock ip.inum s.sb ∷ []) log' ≡ some log'')
          × IsFuller log' 1 log''
      last = log_blocks_lem (iblock ip.inum s.sb ∷ []) log' 1 (omega arith) (
          HasRoom-after log log' (entries off n) 1 fuller (
            HasRoom-less log (6 * rounds off n + 1) (entries off n + 1)
              (omega (arith, entries_le off n)) logfree))

      before : iblock ip.inum s.sb < s.sb.bmapstart
      before = w.formatted.inodes ip.inum small

      inodes : Block
      inodes =
          put_dinode (dinode_at ip) (record ip { addrs = f; size = off + n })
            (disk (iblock ip.inum s.sb))

      plain :
          (i : ℕ)
          → put_dinode
              (dinode_at ip)
              (record ip { addrs = f; size = off + n })
              (disk (iblock ip.inum s.sb))
              i
            < 256
      plain =
          put_dinode-bytes (dinode_at ip) (record ip { addrs = f; size = off + n })
            (disk (iblock ip.inum s.sb)) (w.formatted.bytes (iblock ip.inum s.sb))

pub writei_lem :
    (devsw : ℕ → Option Device) (src off n : ℕ) (mem : Memory) (ip : Inode) (s : Fs) (log : Log)
    → ip.type ≢ t_dev
    → ip.inum < s.sb.ninodes
    → ip.size ≤ bsize * maxfile
    → off < 2 ^ 32
    → n < 2 ^ 32
    → IsFormatted s
    → IsFile ip.addrs s
    → IsWhole ip s.disk
    → ((i : ℕ) → mem i < 256)
    → 2 * rounds off n ≤ room s
    → HasRoom log (6 * rounds off n + 1)
    → Writing ip s src off n mem log (writei devsw src off n mem ip s log)
unfolding writei
writei_lem devsw src off n mem ip s log file_type small fits off_small n_small formatted file whole
      plain free logfree =
    subst (Writing ip s src off n mem log)
      (sym (
        ap (λ b. if b then beside_log log (on_device devsw src n mem ip s) else rest)
          (==_ne ip.type t_dev file_type)))
      (elim (Bool-cases (is_refused ip off n)) [
        | inl bad ↦ subst (Writing ip s src off n mem log) (sym (turned_down bad)) (refused bad)
        | inr fine ↦
            let r =
              write_loop_lem (suc n) src off n mem ip s log (omega arith) (ground arith) formatted
                file plain (λ _. free)
                (λ _.
                  HasRoom-less log (6 * rounds off n + 1) (6 * rounds off n) (omega arith)
                    logfree) in
            subst (Writing ip s src off n mem log)
              (sym (accepted fine ∙ ap (written off n) r.result))
              (written-Writing ip s src off n mem r.addrs r.disk small whole (ground arith) fits
                (ground arith) r.bytes log r.log logfree r.fuller fine)
      ])
  where
    failed : WriteResult
    failed = some (minus_one, mem, ip, s, log)

    loop : WriteResult
    loop = written off n (write_loop (suc n) src off n mem ip s log)

    rest : WriteResult
    rest =
        if ltb ip.size off || ltb ((off + n) % 2 ^ 32) off
        then some (minus_one, mem, ip, s, log)
        else if ltb (maxfile * bsize) ((off + n) % 2 ^ 32)
        then some (minus_one, mem, ip, s, log)
        else written off n (write_loop (suc n) src off n mem ip s log)

    choose :
        (a b : Bool) → a || b ≡ true → (if a then failed else if b then failed else loop) ≡ failed
    choose true b e = refl
    choose false true e = refl
    choose false false e = absurd (ground arith)

    turned_down : is_refused ip off n ≡ true → rest ≡ some (minus_one, mem, ip, s, log)
    turned_down bad =
        choose (ltb ip.size off || ltb ((off + n) % 2 ^ 32) off)
          (ltb (maxfile * bsize) ((off + n) % 2 ^ 32)) (ground arith)

    accepted : is_refused ip off n ≡ false → rest ≡ loop
    accepted fine =
        let e : ltb ip.size off || ltb ((off + n) % 2 ^ 32) off ≡ false = ground arith in
        let g : ltb (maxfile * bsize) ((off + n) % 2 ^ 32) ≡ false = ground arith in
        ap
          (λ b.
            if b
            then failed
            else if ltb (maxfile * bsize) ((off + n) % 2 ^ 32)
            then failed
            else loop)
          e
        ∙ ap (λ b. if b then failed else loop) g
