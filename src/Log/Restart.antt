-- ===== src/Log/Restart.antt =====
-- The end of `commit` and of `recover_from_log`, and what a start does with the disk that it finds.
use os_playground.Base.{ℕ, ◌+◌, ◌≤◌, ◌<◌, ◌≡◌, sym, ap, subst, ◌∙◌, ◌≢◌, arith}
use os_playground.Log.{
  Block, Log, Machine, logsize, bread, install_trans, write_log, header, write_head, read_head,
  clear, initlog, boot,
}
use os_playground.Log.Loops.{
  disk-bwrite_self, disk-bwrite_ne, disk-bwrite_off, Misses, Copied, copy-Copied, disk-copy_off,
  install-copies, log-copies,
}

-- The block `b` is neither the header of the log nor one of the blocks behind it.
abbrev pub IsHome : ℕ → ℕ → Type 0
IsHome start b = (j : ℕ) → j ≤ logsize → b ≢ start + j

-- A header as a transaction leaves it: it fits, and names different blocks outside the log.
pub record IsHeader (l : Log) : Type 0 where
  pub fits : l.n ≤ logsize
  pub homes : (j : ℕ) → j < l.n → IsHome l.start (l.block j)
  pub distinct : (i j : ℕ) → i < l.n → j < l.n → l.block i ≡ l.block j → i ≡ j

module _ (m : Machine) (h : IsHeader m.log) where
  abbrev pub slot : ℕ → ℕ
  slot j = m.log.start + j + 1

  pub slot-ne-block : (j k : ℕ) → j < m.log.n → k < m.log.n → slot k ≢ m.log.block j
  slot-ne-block j k a b e = h.homes j a (k + 1) (omega (arith, h.fits)) (omega arith)

  pub install-Copied : Copied m.log.block slot 0 m.log.n m (install_trans m)
  unfolding install_trans
  install-Copied = rw (install-copies 0 m.log.n m) (
      copy-Copied m.log.block slot 0 m.log.n m (record {
        dsts = λ j k a b c d. h.distinct j k (omega arith) (omega arith);
        srcs = λ j k a b c d. slot-ne-block k j (omega arith) (omega arith);
      }))

  pub log-Copied : Copied slot m.log.block 0 m.log.n m (write_log m)
  unfolding write_log
  log-Copied = rw (log-copies 0 m.log.n m) (
      copy-Copied slot m.log.block 0 m.log.n m (record {
        dsts = λ j k a b c d e. omega arith;
        srcs = λ j k a b c d e. slot-ne-block j k (omega arith) (omega arith) (sym e);
      }))

  -- The end of `commit` and of `recover_from_log`: the header's blocks are installed, and the header
  -- is cleared.
  unfoldable pub finish : Machine
  finish = write_head (clear (install_trans m))

  pub head-ne-block : (j : ℕ) → j < m.log.n → m.log.block j ≢ m.log.start
  head-ne-block j l e = h.homes j l 0 (omega arith) (omega arith)

  -- The header block is written last.
  disk-finish : (b : ℕ) → b ≢ m.log.start → finish.disk b ≡ (install_trans m).disk b
  unfolding finish write_head
  disk-finish b ne =
      disk-bwrite_ne _ b _ (clear (install_trans m)) (rw (ap (λ l. l.start) install-Copied.log) ne)

  pub finish_installed :
      (j : ℕ) → j < m.log.n → j < m.power → finish.disk (m.log.block j) ≡ bread m (slot j)
  finish_installed j l p =
      disk-finish (m.log.block j) (head-ne-block j l)
      ∙ install-Copied.written j (omega arith) (omega arith) (omega arith)

  pub finish_other :
      (b : ℕ) → IsHome m.log.start b → Misses m.log.block 0 m.log.n b → finish.disk b ≡ m.disk b
  finish_other b home out =
      disk-finish b (λ e. home 0 (omega arith) (omega arith)) ∙ install-Copied.other b out

  pub finish_clean : m.log.n < m.power → finish.disk m.log.start 0 ≡ 0
  unfolding finish write_head
  finish_clean p =
      let w = clear (install_trans m) in
      let same : w.log.start ≡ m.log.start = ap (λ l. l.start) install-Copied.log in
      let on : w.power ≢ 0 = λ z. absurd (omega (arith, install-Copied.power)) in
      subst (λ x. (write_head w).disk x 0 ≡ 0) same
        (ap (λ v. v 0) (disk-bwrite_self w.log.start (header w.log (bread w w.log.start)) w on))

  -- With no power left after the installation the header stays.
  pub finish_off : m.power ≤ m.log.n → finish.disk ≡ (install_trans m).disk
  unfolding finish write_head
  finish_off p = disk-bwrite_off _ _ (clear (install_trans m)) (install-Copied.power ∙ omega arith)

  pub install_off : m.power ≡ 0 → (install_trans m).disk ≡ m.disk
  unfolding install_trans
  install_off e = rw (install-copies 0 m.log.n m) (disk-copy_off m.log.block slot 0 m.log.n m e)

-- What a start leaves of the disk `d`, with the transaction that its header names.
pub record IsRecovered (d : ℕ → Block) (named : Log) (u : ℕ → Block) : Type 0 where
  pub installed : (j : ℕ) → j < named.n → u (named.block j) ≡ d (named.start + j + 1)
  pub others : (b : ℕ) → IsHome named.start b → Misses named.block 0 named.n b → u b ≡ d b
  pub clean : u named.start 0 ≡ 0

abbrev pub started : ℕ → ℕ → (ℕ → Block) → ℕ → Machine
started start size d power = record (boot d power) {
  log = record ((boot d power).log) { start = start; size = size };
}

-- The header that a start reads from the disk.
unfoldable pub named : ℕ → ℕ → (ℕ → Block) → Log
unfolding read_head
named start size d = (read_head (started start size d 0)).log

module _ (start size : ℕ) (d : ℕ → Block) (power : ℕ) where
  pub initlog-IsRecovered :
      IsHeader (named start size d)
      → d start 0 < power
      → IsRecovered d (named start size d) (initlog start size (boot d power)).disk
  unfolding initlog named read_head finish
  initlog-IsRecovered h enough =
      let m = read_head (started start size d power) in
      record {
        installed = λ j l. finish_installed m h j l (omega arith);
        others = λ b home out. finish_other m h b home out;
        clean = finish_clean m h enough;
      }
