-- ===== src/Log/Crash.antt =====
-- Crashes: wherever the power fails in `commit`, the next start finds all of the transaction or none.
use os_playground.Base.{
  ℕ, ◌+◌, ◌-◌, ◌≤◌, ◌<◌, ◌≡◌, refl, sym, ap, subst, ◌∙◌, ◌≢◌, arith, if◌then◌else◌, ltb, Bool,
  false, ◌*◌, inl, inr, Bool-cases, ltb→lt,
}
use native.Mathlib.Decide.{dec_lt}
use os_playground.Log.{
  Block, Log, Machine, bread, bwrite, install_trans, write_log, header, read_head, write_head,
  commit, initlog, boot,
}
use os_playground.Log.Loops.{
  disk-bwrite_self, disk-bwrite_ne, disk-bwrite_off, bread-bwrite_ne, Misses, Copied,
}
use os_playground.Log.Restart.{
  IsHome, IsHeader, slot, slot-ne-block, head-ne-block, log-Copied, install-Copied, finish,
  finish_installed, finish_other, finish_clean, finish_off, install_off, named, started,
  initlog-IsRecovered,
}

-- What the disk holds after a start: `news j` in the `j`-th block of the log `l`, and the contents
-- `old` in every other block outside the log; the log on the disk is empty.
pub record Holds (l : Log) (old : ℕ → Block) (news : ℕ → Block) (d : ℕ → Block) : Type 0 where
  pub blocks : (j : ℕ) → j < l.n → d (l.block j) ≡ news j
  pub others : (b : ℕ) → IsHome l.start b → Misses l.block 0 l.n b → d b ≡ old b
  pub clean : d l.start 0 ≡ 0

-- A disk whose log names a transaction that is not yet installed.
record Pending (l : Log) (old : ℕ → Block) (news : ℕ → Block) (d : ℕ → Block) : Type 0 where
  length : d l.start 0 ≡ l.n
  names : (j : ℕ) → j < l.n → d l.start (j + 1) ≡ l.block j
  logged : (j : ℕ) → j < l.n → d (l.start + j + 1) ≡ news j
  others : (b : ℕ) → IsHome l.start b → Misses l.block 0 l.n b → d b ≡ old b

module _ (l : Log) (h : IsHeader l) (size power : ℕ) (old news : ℕ → Block) (d : ℕ → Block)
    (enough : l.n < power) where
  -- A start with an empty log changes nothing.
  start_clean : Holds l old news d → Holds l old news (initlog l.start size (boot d power)).disk
  unfolding named
  start_clean c =
      let r =
        initlog-IsRecovered l.start size d power
          (record {
            fits = omega (arith, c.clean);
            homes = λ j e. absurd (omega (arith, c.clean));
            distinct = λ i j e. absurd (omega (arith, c.clean));
          })
          (omega (arith, c.clean)) in
      record {
        blocks = λ j e.
            r.others (l.block j) (h.homes j e) (λ i a b. absurd (omega (arith, c.clean)))
            ∙ c.blocks j e;
        others = λ b home out.
            r.others b home (λ i a b. absurd (omega (arith, c.clean))) ∙ c.others b home out;
        clean = r.clean;
      }

  module _ (p : Pending l old news d) where
    named_length : (named l.start size d).n ≡ l.n
    unfolding named
    named_length = p.length

    named_block : (j : ℕ) → j < l.n → (named l.start size d).block j ≡ l.block j
    unfolding named
    named_block j e = ground (arith, p.length, p.names j e)

    named-IsHeader : IsHeader (named l.start size d)
    named-IsHeader = record {
      fits = omega (arith, named_length, h.fits);
      homes = λ j e.
          let e' : j < l.n = omega (arith, named_length) in
          unfold named in rw (named_block j e') (h.homes j e');
      distinct = λ i j e f k.
          let e' : i < l.n = omega (arith, named_length) in
          let f' : j < l.n = omega (arith, named_length) in
          h.distinct i j e' f' (sym (named_block i e') ∙ k ∙ named_block j f');
    }

    -- A start with a transaction in the log installs it.
    start_pending : Holds l old news (initlog l.start size (boot d power)).disk
    unfolding named
    start_pending =
        let enough' : d l.start 0 < power = omega (arith, p.length) in
        let r = initlog-IsRecovered l.start size d power named-IsHeader enough' in
        let u = (initlog l.start size (boot d power)).disk in
        record {
          blocks = λ j e.
              subst (λ b. u b ≡ d (l.start + j + 1)) (named_block j e)
                (r.installed j (omega (arith, named_length)))
              ∙ p.logged j e;
          others = λ b home out.
              (r.others b home (λ j a c.
                rw (named_block j (omega (arith, named_length)))
                  (out j a (omega (arith, named_length)))))
              ∙ p.others b home out;
          clean = r.clean;
        }

-- After the header has been written: the header names the transaction, and the log has its blocks.
record IsSealed (s : Machine) (old news : ℕ → Block) : Type 0 where
  header : IsHeader s.log
  length : s.disk s.log.start 0 ≡ s.log.n
  names : (j : ℕ) → j < s.log.n → s.disk s.log.start (j + 1) ≡ s.log.block j
  logged : (j : ℕ) → j < s.log.n → s.disk (s.log.start + j + 1) ≡ news j
  reads : (j : ℕ) → j < s.log.n → bread s (s.log.start + j + 1) ≡ news j
  others : (b : ℕ) → IsHome s.log.start b → s.disk b ≡ old b

module _ (s : Machine) (old news : ℕ → Block) (v : IsSealed s old news) where
  -- The installation is not finished: the log still names the transaction.
  sealed-Pending : s.power ≤ s.log.n → Pending s.log old news (finish s v.header).disk
  sealed-Pending p = rw (finish_off s v.header p) (record {
    length = ap (λ w. w 0) head ∙ v.length;
    names = λ j e. ap (λ w. w (j + 1)) head ∙ v.names j e;
    logged = λ j e.
        c.other (s.log.start + j + 1) (λ i a b k. slot-ne-block s v.header i j (omega arith) e k)
        ∙ v.logged j e;
    others = λ b home out. c.other b out ∙ v.others b home;
  })
    where
      c : Copied s.log.block (slot s v.header) 0 s.log.n s (install_trans s)
      c = install-Copied s v.header

      head : (install_trans s).disk s.log.start ≡ s.disk s.log.start
      head = c.other s.log.start (λ j a b e. head-ne-block s v.header j (omega arith) (sym e))

  -- It is finished, and the header cleared.
  sealed-Holds : s.log.n < s.power → Holds s.log old news (finish s v.header).disk
  sealed-Holds p = record {
    blocks = λ j e. finish_installed s v.header j e (omega arith) ∙ v.reads j e;
    others = λ b home out. finish_other s v.header b home out ∙ v.others b home;
    clean = finish_clean s v.header p;
  }

  sealed_start :
      (size power : ℕ)
      → s.log.n < power
      → Holds s.log old news (initlog s.log.start size (boot (finish s v.header).disk power)).disk
  sealed_start size power enough = elim (dec_lt s.log.n s.power) [
    | yes p ↦ start_clean s.log v.header size power old news _ enough (sealed-Holds p)
    | no p ↦
        start_pending s.log v.header size power old news _ enough (sealed-Pending (omega arith))
  ]

-- The power may fail in a start as well: whatever the disk, if its header names different blocks
-- outside the log, then after a start with power for any number of writes, a start with power for more
-- than `n` writes leaves the `n` blocks with the contents in the log, the other blocks as they were,
-- and the log empty.
pub restart_crash :
    (start size : ℕ) (d : ℕ → Block) (first second : ℕ)
    → IsHeader (named start size d)
    → d start 0 < second
    → Holds
        (named start size d)
        d
        (λ j. d (start + j + 1))
        (initlog start size (boot (initlog start size (boot d first)).disk second)).disk
unfolding named initlog finish
restart_crash start size d first second h enough =
    sealed_start (read_head (started start size d first)) d (λ j. d (start + j + 1))
      (record {
        header = h;
        length = refl;
        names = λ j e. ground arith;
        logged = λ j e. refl;
        reads = λ j e. refl;
        others = λ b home. refl;
      })
      size second enough

-- A transaction that is about to commit, on a machine whose log on the disk is empty.
pub record IsReady (m : Machine) : Type 0 where
  pub header : IsHeader m.log
  pub some_blocks : 0 < m.log.n
  pub empty : m.disk m.log.start 0 ≡ 0

module _ (m : Machine) (v : IsReady m) where
  logged : Machine
  logged = write_log m

  -- After the header has been written.
  sealed : Machine
  sealed = write_head (write_log m)

  logged-Copied : Copied (slot m v.header) m.log.block 0 m.log.n m logged
  unfolding logged
  logged-Copied = log-Copied m v.header

  log-sealed : sealed.log ≡ m.log
  unfolding sealed logged write_head bwrite
  log-sealed = logged-Copied.log

  power-sealed : sealed.power ≡ m.power - m.log.n - 1
  unfolding sealed logged write_head bwrite
  power-sealed = ap (λ p. p - 1) logged-Copied.power

  sealed-IsHeader : IsHeader sealed.log
  sealed-IsHeader = subst IsHeader (sym log-sealed) v.header

  disk-commit : (commit m).disk ≡ (finish sealed sealed-IsHeader).disk
  unfolding commit sealed finish
  disk-commit = let some_blocks = v.some_blocks in ground arith

  -- Only the header differs between the two.
  disk-sealed : (b : ℕ) → b ≢ m.log.start → sealed.disk b ≡ logged.disk b
  unfolding sealed logged write_head
  disk-sealed b ne =
      disk-bwrite_ne _ b _ (write_log m) (rw (ap (λ l. l.start) logged-Copied.log) ne)

  -- The blocks of the log region are no blocks of the transaction, and the home blocks no log blocks.
  start-Misses : Misses (slot m v.header) 0 m.log.n m.log.start
  start-Misses j a b e = omega arith

  home-Misses : (b : ℕ) → IsHome m.log.start b → Misses (slot m v.header) 0 m.log.n b
  home-Misses b home j a c e = home (j + 1) (omega (arith, v.header.fits)) (omega arith)

  module _ (short : m.power ≤ m.log.n) where
    -- The power ends before the header is written: the disk has only log blocks of no meaning.
    disk_short : (commit m).disk ≡ logged.disk
    unfolding sealed logged write_head
    disk_short =
        let h = sealed-IsHeader in
        let gone : sealed.power ≡ 0 = power-sealed ∙ omega arith in
        disk-commit
        ∙ finish_off sealed h (omega arith)
        ∙ install_off sealed h gone
        ∙ disk-bwrite_off _ _ (write_log m) (logged-Copied.power ∙ omega arith)

    short-Holds : Holds m.log m.disk (λ j. m.disk (m.log.block j)) (commit m).disk
    short-Holds = rw disk_short (record {
      blocks = λ j e. logged-Copied.other (m.log.block j) (home-Misses _ (v.header.homes j e));
      others = λ b home out. logged-Copied.other b (home-Misses b home);
      clean = ap (λ w. w 0) (logged-Copied.other m.log.start start-Misses) ∙ v.empty;
    })

  module _ (long : m.log.n < m.power) where
    head_sealed : sealed.disk m.log.start ≡ header m.log (bread logged m.log.start)
    unfolding sealed logged write_head
    head_sealed =
        let w = write_log m in
        subst (λ l. sealed.disk l.start ≡ header l (bread w l.start)) logged-Copied.log
          (disk-bwrite_self w.log.start (header w.log (bread w w.log.start)) w
            (λ z. absurd (omega (arith, logged-Copied.power))))

    read_slot : (j : ℕ) → j < m.log.n → bread sealed (m.log.start + j + 1) ≡ bread m (m.log.block j)
    unfolding sealed logged write_head
    read_slot j e =
        bread-bwrite_ne _ _ _ (write_log m)
          (rw (ap (λ l. l.start) logged-Copied.log) (λ z. omega arith))
        ∙ logged-Copied.read j (omega arith) (omega arith)

    sealed-IsSealed : IsSealed sealed m.disk (λ j. bread m (m.log.block j))
    sealed-IsSealed = record {
      header = sealed-IsHeader;
      length = rw log-sealed (ap (λ w. w 0) head_sealed);
      names = rw log-sealed (λ j e. ap (λ w. w (j + 1)) head_sealed ∙ ground arith);
      logged = rw log-sealed (λ j e.
          disk-sealed (m.log.start + j + 1) (λ z. omega arith)
          ∙ logged-Copied.written j (omega arith) (omega arith) (omega arith));
      reads = rw log-sealed read_slot;
      others = rw log-sealed (λ b home.
          disk-sealed b (λ z. home 0 (omega arith) (omega arith))
          ∙ logged-Copied.other b (home-Misses b home));
    }

  -- What the blocks of the transaction hold after the next start: the contents in the cache, if the
  -- power lasted for the log's blocks and the header, or else the contents before.
  abbrev pub outcome : ℕ → Block
  outcome j = if ltb m.log.n m.power then bread m (m.log.block j) else m.disk (m.log.block j)

  abbrev chosen : Bool → ℕ → Block
  chosen b j = if b then bread m (m.log.block j) else m.disk (m.log.block j)

  -- `commit` of `n` blocks with power for any number of disk writes, and then a start with power for
  -- more than `n` of them: if more than `n` writes were made before the failure, every block of the
  -- transaction holds its new contents; otherwise every one holds its old contents. All other blocks
  -- outside the log are as before, and the log is empty.
  pub commit_crash :
      (size power : ℕ)
      → m.log.n < power
      → Holds m.log m.disk outcome (initlog m.log.start size (boot (commit m).disk power)).disk
  unfolding sealed-IsHeader sealed-IsSealed
  commit_crash size power enough =
      let recovered = (initlog m.log.start size (boot (commit m).disk power)).disk in
      elim (Bool-cases (ltb m.log.n m.power)) [
        | inl long ↦
            subst (λ b. Holds m.log m.disk (chosen b) recovered) (sym long)
              (rw disk-commit (long_start (ltb→lt _ _ long)))
        | inr short ↦
            subst (λ b. Holds m.log m.disk (chosen b) recovered) (sym short)
              (start_clean m.log v.header size power m.disk _ _ enough (short-Holds (ground arith)))
      ]
    where
      long_start :
          m.log.n < m.power
          → Holds m.log m.disk
              (λ j. bread m (m.log.block j))
              (initlog m.log.start size (boot (finish sealed sealed-IsHeader).disk power)).disk
      long_start long =
          subst
            (λ (l : Log).
              Holds l m.disk (λ j. bread m (m.log.block j))
                (initlog l.start size (boot (finish sealed sealed-IsHeader).disk power)).disk)
            log-sealed
            (sealed_start sealed _ _ (sealed-IsSealed long) size power (rw log-sealed enough))

-- A commit with power for all its writes: the blocks of the transaction hold what was in the cache, and the
-- others are as they were.
pub commit_whole :
    (m : Machine)
    → IsHeader m.log
    → m.disk m.log.start 0 ≡ 0
    → 2 * m.log.n + 1 < m.power
    → Holds m.log m.disk (λ j. bread m (m.log.block j)) (commit m).disk
unfolding sealed-IsHeader sealed-IsSealed commit
commit_whole m h empty power = elim (Bool-cases (ltb 0 m.log.n)) [
  | inl more ↦
      let v : IsReady m = record { header = h; some_blocks = ground arith; empty = empty } in
      subst (Holds m.log m.disk (λ j. bread m (m.log.block j))) (sym (disk-commit m v)) (
        subst
          (λ (l : Log).
            Holds l m.disk (λ j. bread m (m.log.block j))
              (finish (sealed m v) (sealed-IsHeader m v)).disk)
          (log-sealed m v)
          (sealed-Holds (sealed m v) m.disk (λ j. bread m (m.log.block j))
            (sealed-IsSealed m v (omega arith))
            (omega (arith, power-sealed m v, ap (λ l. l.n) (log-sealed m v)))))
  | inr none_left ↦
      subst (λ u. Holds m.log m.disk (λ j. bread m (m.log.block j)) u.disk)
        (sym (nothing none_left))
        (record {
          blocks = λ j e. absurd (ground arith);
          others = λ b home out. refl;
          clean = empty;
        })
]
  where
    nothing : ltb 0 m.log.n ≡ false → commit m ≡ m
    nothing e = rw e refl
