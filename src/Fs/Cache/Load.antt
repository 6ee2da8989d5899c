-- ===== src/Fs/Cache/Load.antt =====
-- What `iupdate` writes, `ilock` reads.
use os_playground.Base.{
  ℕ, zero, suc, ◌+◌, ◌*◌, ◌/◌, ◌%◌, ◌^◌, ◌<◌, ◌≡◌, ◌≢◌, refl, sym, ap, ap₂, ◌∙◌, true, false, not,
  ltb, if◌then◌else◌, update_self, arith, ℕ_discrete, Bool-cases, ==_ne, inl, inr, fun_ext,
}
use os_playground.Bio.{Block}
use os_playground.Str.{store32}
use os_playground.Args.{word}
use os_playground.Fs.{Fs, iblock, Inode}
use os_playground.Fs.Words.{word-store32, store32_far, word_of}
use os_playground.Fs.Rw.{store16, put_addrs, put_dinode, dinode_at, iupdate}
use os_playground.Fs.Cache.{
  Itable, set_inode, panics, sleeps, returns, has_ref, half, get_dinode, check_type, load_inode,
  ilock,
}

-- The addresses do not reach below `p + 12`.
put_addrs_low :
    (p : ℕ) (f : ℕ → ℕ) (n : ℕ) (d : Block) (q : ℕ) → q < p + 12 → put_addrs p f n d q ≡ d q
unfolding put_addrs
put_addrs_low p f zero d q l = refl
put_addrs_low p f (suc n) d q l =
    store32_far (p + 12 + 4 * n) (f n) (put_addrs p f n d) q (λ e. omega arith) (λ e. omega arith)
      (λ e. omega arith) (λ e. omega arith)
    ∙ put_addrs_low p f n d q l

word-put_addrs :
    (p : ℕ) (f : ℕ → ℕ) (n k : ℕ) (d : Block)
    → k < n
    → f k < 2 ^ 32
    → word (put_addrs p f n d) (p + 12 + 4 * k) ≡ f k
unfolding put_addrs
word-put_addrs p f zero k d l h = absurd (omega arith)
word-put_addrs p f (suc n) k d l h = elim (ℕ_discrete k n) [
  | yes e ↦
      ap (λ j. word (store32 (p + 12 + 4 * n) (f n) (put_addrs p f n d)) (p + 12 + 4 * j)) e
      ∙ word-store32 (p + 12 + 4 * n) (f n) (put_addrs p f n d) (last k n e h)
      ∙ sym (ap f e)
  | no ne ↦
      word_of (store32 (p + 12 + 4 * n) (f n) (put_addrs p f n d)) (put_addrs p f n d)
        (p + 12 + 4 * k) (far (p + 12 + 4 * k) (omega arith))
        (far (p + 12 + 4 * k + 1) (omega arith)) (far (p + 12 + 4 * k + 2) (omega arith))
        (far (p + 12 + 4 * k + 3) (omega arith))
      ∙ word-put_addrs p f n k d (omega arith) h
]
  where
    last : (k n : ℕ) → k ≡ n → f k < 2 ^ 32 → f n < 2 ^ 32
    last k n e h = omega (arith, h, ap f e)

    far :
        (q : ℕ)
        → q < p + 12 + 4 * n
        → store32 (p + 12 + 4 * n) (f n) (put_addrs p f n d) q ≡ put_addrs p f n d q
    far q l =
        store32_far (p + 12 + 4 * n) (f n) (put_addrs p f n d) q (λ e. omega arith)
          (λ e. omega arith) (λ e. omega arith) (λ e. omega arith)

half-store16 : (p v : ℕ) (d : Block) → v < 2 ^ 16 → half (store16 p v d) p ≡ v
half-store16 p v d l =
    let low : store16 p v d p ≡ v % 256 = ground arith in
    let high : store16 p v d (p + 1) ≡ v / 2 ^ 8 % 256 = ground arith in omega (arith, low, high)

store16_far : (p v : ℕ) (d : Block) (q : ℕ) → q ≢ p → q ≢ p + 1 → store16 p v d q ≡ d q
store16_far p v d q n m = ground arith

-- The fields in front of the addresses.
module _ (p : ℕ) (ip : Inode) (d : Block) where
  abbrev halves : Block
  halves =
      store16 (p + 6) ip.nlink
        (store16 (p + 4) ip.minor (store16 (p + 2) ip.major (store16 p ip.type d)))

  -- Up to `p + 8`, only the 16-bit fields count.
  front : (q : ℕ) → q < p + 8 → put_dinode p ip d q ≡ halves q
  unfolding put_dinode
  front q l =
      put_addrs_low p ip.addrs 13 (store32 (p + 8) ip.size halves) q (omega arith)
      ∙ store32_far (p + 8) ip.size halves q (λ e. omega arith) (λ e. omega arith)
          (λ e. omega arith) (λ e. omega arith)

  half_front : (q v : ℕ) → q + 1 < p + 8 → half halves q ≡ v → half (put_dinode p ip d) q ≡ v
  half_front q v l e = ap₂ (λ x y. x + y * 2 ^ 8) (front q (omega arith)) (front (q + 1) l) ∙ e

  half_type : ip.type < 2 ^ 16 → half (put_dinode p ip d) p ≡ ip.type
  half_type l =
      half_front p ip.type (omega arith) (let h = half-store16 p ip.type d l in ground arith)

  half_major : ip.major < 2 ^ 16 → half (put_dinode p ip d) (p + 2) ≡ ip.major
  half_major l =
      half_front (p + 2) ip.major (omega arith)
        (let h = half-store16 (p + 2) ip.major (store16 p ip.type d) l in ground arith)

  half_minor : ip.minor < 2 ^ 16 → half (put_dinode p ip d) (p + 4) ≡ ip.minor
  half_minor l = half_front (p + 4) ip.minor (omega arith) (
      let h = half-store16 (p + 4) ip.minor (store16 (p + 2) ip.major (store16 p ip.type d)) l in
      ground arith)

  half_nlink : ip.nlink < 2 ^ 16 → half (put_dinode p ip d) (p + 6) ≡ ip.nlink
  half_nlink l = half_front (p + 6) ip.nlink (omega arith) (
      half-store16 (p + 6) ip.nlink
        (store16 (p + 4) ip.minor (store16 (p + 2) ip.major (store16 p ip.type d))) l)

  word_size : ip.size < 2 ^ 32 → word (put_dinode p ip d) (p + 8) ≡ ip.size
  unfolding put_dinode
  word_size l =
      word_of (put_dinode p ip d) (store32 (p + 8) ip.size halves) (p + 8)
        (low (p + 8) (omega arith)) (low (p + 8 + 1) (omega arith)) (low (p + 8 + 2) (omega arith))
        (low (p + 8 + 3) (omega arith))
      ∙ word-store32 (p + 8) ip.size halves l
    where
      low : (q : ℕ) → q < p + 12 → put_dinode p ip d q ≡ store32 (p + 8) ip.size halves q
      low q l = put_addrs_low p ip.addrs 13 (store32 (p + 8) ip.size halves) q l

  word_addr :
      (k : ℕ)
      → k < 13
      → ip.addrs k < 2 ^ 32
      → word (put_dinode p ip d) (p + 12 + 4 * k) ≡ ip.addrs k
  unfolding put_dinode
  word_addr k l h = word-put_addrs p ip.addrs 13 k (store32 (p + 8) ip.size halves) l h

-- The fields of an inode fit into the fields of a `struct dinode`.
pub record HasWidth (ip : Inode) : Type 0 where
  pub type : ip.type < 2 ^ 16
  pub major : ip.major < 2 ^ 16
  pub minor : ip.minor < 2 ^ 16
  pub nlink : ip.nlink < 2 ^ 16
  pub size : ip.size < 2 ^ 32
  pub addrs : (k : ℕ) → k < 13 → ip.addrs k < 2 ^ 32

-- An entry `e` of the cache that holds what is on the disk of the inode `ip`.
abbrev pub as_loaded : Inode → Inode → Inode
as_loaded ip e = record e {
  type = ip.type;
  major = ip.major;
  minor = ip.minor;
  nlink = ip.nlink;
  size = ip.size;
  addrs = λ k. if ltb k 13 then ip.addrs k else e.addrs k;
}

pub get_dinode-put_dinode :
    (p : ℕ) (ip e : Inode) (d : Block)
    → HasWidth ip
    → get_dinode p (put_dinode p ip d) e ≡ as_loaded ip e
get_dinode-put_dinode p ip e d w = λ i. record e {
  type = half_type p ip d w.type i;
  major = half_major p ip d w.major i;
  minor = half_minor p ip d w.minor i;
  nlink = half_nlink p ip d w.nlink i;
  size = word_size p ip d w.size i;
  addrs = addrs_same i;
}
  where
    addrs_same :
        ◌≡◌ {A = ℕ → ℕ}
          (λ k. if ltb k 13 then word (put_dinode p ip d) (p + 12 + 4 * k) else e.addrs k)
          (λ k. if ltb k 13 then ip.addrs k else e.addrs k)
    addrs_same = fun_ext (λ k. elim (Bool-cases (ltb k 13)) [
      | inl q ↦ rw q (word_addr p ip d k (ground arith) (w.addrs k (ground arith)))
      | inr q ↦ rw q refl
    ])

-- After `iupdate` of an inode that is in use, `ilock` of an entry of the cache for the same inode, which has
-- a reference, is not locked and has not been read, does not panic or sleep: it locks the entry, and its
-- type, device numbers, links, size and addresses are those of the inode.
pub ilock-iupdate :
    (pid i : ℕ) (ip : Inode) (s : Itable) (fs : Fs)
    → HasWidth ip
    → ip.type ≢ 0
    → s.fs ≡ iupdate ip fs
    → (s.icache i).inum ≡ ip.inum
    → has_ref (s.icache i) ≡ true
    → (s.icache i).locked ≡ false
    → (s.icache i).valid ≡ false
    → ilock pid i s
      ≡ returns (
          set_inode i
            (record (as_loaded ip (s.icache i)) { locked = true; pid = pid; valid = true })
            s)
unfolding ilock iupdate
ilock-iupdate pid i ip s fs w used e number has free fresh =
    ap (λ b. if not b then panics else if (s.icache i).locked then sleeps else load_inode i entry s)
      has
    ∙ ap (λ b. if b then sleeps else load_inode i entry s) free
    ∙ ap
        (λ b.
          if b
          then returns (set_inode i entry s)
          else check_type i
              (record (get_dinode (dinode_at entry) (s.fs.disk (iblock (s.icache i).inum s.fs.sb))
                entry) { valid = true })
              s)
        fresh
    ∙ ap₂
        (λ n t.
          check_type i
            (record (get_dinode (dinode_at (record entry { inum = n })) (t.disk (iblock n t.sb))
              entry) { valid = true })
            s)
        number e
    ∙ ap (λ d. check_type i (record (get_dinode (dinode_at ip) d entry) { valid = true }) s)
        (update_self fs.disk (iblock ip.inum fs.sb)
          (put_dinode (dinode_at ip) ip (fs.disk (iblock ip.inum fs.sb))))
    ∙ ap (λ x. check_type i (record x { valid = true }) s)
        (get_dinode-put_dinode (dinode_at ip) ip entry (fs.disk (iblock ip.inum fs.sb)) w)
    ∙ ap
        (λ b.
          if b
          then panics
          else returns (set_inode i (record (as_loaded ip entry) { valid = true }) s))
        (==_ne ip.type 0 used)
  where
    entry : Inode
    entry = record (s.icache i) { locked = true; pid = pid }
