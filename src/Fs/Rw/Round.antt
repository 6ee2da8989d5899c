-- ===== src/Fs/Rw/Round.antt =====
-- One round of the loop of `writei`: which bytes of the file it changes.
use os_playground.Base.{
  ℕ, ◌+◌, ◌-◌, ◌*◌, ◌/◌, ◌%◌, ◌≤◌, ◌<◌, ◌≡◌, ◌≢◌, refl, sym, ap, ◌∙◌, true, false, ltb, leb, ◌&&◌,
  if◌then◌else◌, update_ne, arith, ℕ_discrete, Bool-cases, ==_ne, ==_iff, inl, inr,
}
use os_playground.Bio.{Block}
use os_playground.Str.{Memory}
use os_playground.Fs.{Fs, bsize, put_block}
use os_playground.Fs.Count.{room, frees_same}
use os_playground.Fs.Bitmap.{is_used, meta_end, IsFormatted}
use os_playground.Fs.Map.{slot, nslots, IsFile, with_disk, IsMapped, put_block-IsFormatted}
use os_playground.Fs.Map.Direct.{slot_direct}
use os_playground.Fs.Map.Bmap.{position}
use os_playground.Fs.Rw.{maxfile, paste, chunk}
use os_playground.Fs.Rw.Content.{
  content, content_at, content-IsMapped, position_lt, target_data, written_slot, written_used,
  written-IsFile, written_content,
}
use os_playground.Fs.Rw.Read.{paste-paste}

-- What a write of `left` bytes at `off`, from `src` on, has made of a file and the disk: these bytes have
-- changed and no others, no block of the file is lost, the written ones are there, and the data blocks of
-- other files are as before.
pub record IsWritten (f : ℕ → ℕ) (s : Fs) (src off left : ℕ) (mem : Memory) (f' : ℕ → ℕ)
    (disk : ℕ → Block) : Type 0 where
  pub file : IsFile f' (with_disk disk s)
  pub formatted : IsFormatted (with_disk disk s)
  pub bytes :
      (j : ℕ)
      → j / bsize < maxfile
      → content f' disk j ≡ paste (content f s.disk) off mem src left j
  pub kept : (k : ℕ) → k < nslots → slot f s.disk k ≢ 0 → slot f' disk k ≡ slot f s.disk k
  pub covered :
      (bn : ℕ)
      → 0 < left
      → off / bsize ≤ bn
      → bsize * bn < off + left
      → slot f' disk (position bn) ≢ 0
  pub frame :
      (b : ℕ)
      → b < s.sb.size
      → meta_end s ≤ b
      → is_used s b ≡ true
      → ((k : ℕ) → k < nslots → slot f' disk k ≢ b)
      → disk b ≡ s.disk b
  pub stays : (b : ℕ) → b < s.sb.size → is_used s b ≡ true → is_used (with_disk disk s) b ≡ true

-- How many rounds the loop takes, at most.
abbrev pub rounds : ℕ → ℕ → ℕ
rounds off left = (off % bsize + left + (bsize - 1)) / bsize

paste-bytes :
    (to : Memory) (o : ℕ) (from : Memory) (p m : ℕ)
    → ((i : ℕ) → to i < 256)
    → ((i : ℕ) → from i < 256)
    → (i : ℕ) → paste to o from p m i < 256
paste-bytes to o from p m h g i = elim (Bool-cases (leb o i && ltb i (o + m))) [
  | inl e ↦ rw e (g (p + (i - o)))
  | inr e ↦ rw e (h i)
]

-- One round, in block `off / bsize` of the file, and the rest of the loop.
module _ (f : ℕ → ℕ) (s : Fs) (src off left : ℕ) (mem : Memory) (formatted : IsFormatted s)
    (file : IsFile f s) (plain : (i : ℕ) → mem i < 256) (fits : off + left ≤ bsize * maxfile)
    (pos : 0 < left) (a : ℕ) (f1 : ℕ → ℕ) (d1 : ℕ → Block)
    (m : IsMapped f s (position (off / bsize)) a f1 d1) where
  abbrev bn : ℕ
  bn = off / bsize

  abbrev mid : Fs
  mid = with_disk d1 s

  bn_lt : bn < maxfile
  bn_lt = omega arith

  has : slot f1 d1 (position bn) ≢ 0
  has z = m.nonzero (sym m.here ∙ z)

  abbrev pub piece : Block
  piece = paste (d1 (slot f1 d1 (position bn))) (off % bsize) mem src (chunk off left)

  abbrev pub after : Fs
  after = put_block (slot f1 d1 (position bn)) piece mid

  pub after-IsFile : IsFile f1 after
  after-IsFile = written-IsFile f1 mid bn piece m.file bn_lt has m.formatted

  pub after-IsFormatted : IsFormatted after
  after-IsFormatted =
      put_block-IsFormatted mid (slot f1 d1 (position bn)) piece m.formatted
        (target_data f1 mid bn piece m.file bn_lt has)
        (paste-bytes (d1 (slot f1 d1 (position bn))) (off % bsize) mem src (chunk off left)
          (m.formatted.bytes (slot f1 d1 (position bn))) plain)

  after_used : (j : ℕ) → j < s.sb.size → is_used after j ≡ is_used mid j
  after_used = written_used f1 mid bn piece m.file bn_lt has m.formatted

  pub after_room : room after ≡ room mid
  after_room = frees_same (is_used mid) (is_used after) s.sb.size after_used

  after_slot : (k : ℕ) → slot f1 after.disk k ≡ slot f1 d1 k
  after_slot = written_slot f1 mid bn piece m.file bn_lt has

  after_content :
      (j : ℕ)
      → j / bsize < maxfile
      → content f1 after.disk j ≡ paste (content f s.disk) off mem src (chunk off left) j
  after_content j l =
      written_content f1 mid bn piece m.file bn_lt has j l ∙ elim (ℕ_discrete (j / bsize) bn) [
        | yes e ↦
            ap (λ b. if b then piece (j % bsize) else content f1 d1 j) ((==_iff (j / bsize) bn).1 e)
            ∙ inside e
        | no ne ↦
            let out : leb off j && ltb j (off + chunk off left) ≡ false = ground arith in
            ap (λ b. if b then piece (j % bsize) else content f1 d1 j) (==_ne (j / bsize) bn ne)
            ∙ content-IsMapped f s (position bn) a f1 d1 file m j l
            ∙ sym (ap (λ b. if b then mem (src + (j - off)) else content f s.disk j) out)
      ]
    where
      old : j / bsize ≡ bn → d1 (slot f1 d1 (position bn)) (j % bsize) ≡ content f s.disk j
      old e = sym (content_here e) ∙ content-IsMapped f s (position bn) a f1 d1 file m j l
        where
          content_here :
              j / bsize ≡ bn → content f1 d1 j ≡ d1 (slot f1 d1 (position bn)) (j % bsize)
          content_here e =
              content_at f1 d1 j (slot f1 d1 (position bn)) (ap (λ n. slot f1 d1 (position n)) e)
                has

      inside :
          j / bsize ≡ bn
          → piece (j % bsize) ≡ paste (content f s.disk) off mem src (chunk off left) j
      inside e = elim (Bool-cases (leb off j && ltb j (off + chunk off left))) [
        | inl y ↦
            let x : leb (off % bsize) (j % bsize) && ltb (j % bsize) (off % bsize + chunk off left)
                ≡ true =
              ground arith in
            ap
              (λ b.
                if b
                then mem (src + (j % bsize - off % bsize))
                else d1 (slot f1 d1 (position bn)) (j % bsize))
              x
            ∙ ap (λ n. mem (src + n)) (omega arith)
            ∙ sym (ap (λ b. if b then mem (src + (j - off)) else content f s.disk j) y)
        | inr n ↦
            let x : leb (off % bsize) (j % bsize) && ltb (j % bsize) (off % bsize + chunk off left)
                ≡ false =
              ground arith in
            ap
              (λ b.
                if b
                then mem (src + (j % bsize - off % bsize))
                else d1 (slot f1 d1 (position bn)) (j % bsize))
              x
            ∙ old e
            ∙ sym (ap (λ b. if b then mem (src + (j - off)) else content f s.disk j) n)
      ]

  -- The write of this round and of the rest is one write.
  pub joined :
      (f' : ℕ → ℕ) (disk : ℕ → Block)
      → IsWritten f1 after
          (src + chunk off left)
          (off + chunk off left)
          (left - chunk off left)
          mem
          f'
          disk
      → IsWritten f s src off left mem f' disk
  joined f' disk w = record {
    file = w.file;
    formatted = w.formatted;
    bytes = λ j l.
        w.bytes j l
        ∙ ap
            (λ y.
              if leb (off + chunk off left) j
                && ltb j (off + chunk off left + (left - chunk off left))
              then mem (src + chunk off left + (j - (off + chunk off left)))
              else y)
            (after_content j l)
        ∙ ap (λ g. g j)
            (paste-paste (content f s.disk) off mem src mem src (chunk off left) left (omega arith)
              (λ t h. refl));
    kept = λ k l ne.
        let same = m.kept k l ne in
        w.kept k l (λ z. ne (sym same ∙ sym (after_slot k) ∙ z)) ∙ after_slot k ∙ same;
    covered = λ b _ lo hi. elim (ℕ_discrete b bn) [
      | yes e ↦ λ z. has (
          sym (after_slot (position bn))
          ∙ sym (
              w.kept (position bn) (position_lt bn bn_lt)
                (λ y. has (sym (after_slot (position bn)) ∙ y)))
          ∙ ap (λ n. slot f' disk (position n)) (sym e)
          ∙ z)
      | no ne ↦ w.covered b (omega arith) (omega arith) (omega arith)
    ];
    frame = λ b l meta used apart.
        w.frame b l meta (after_used b l ∙ m.stays b l used) apart
        ∙ update_ne d1 (slot f1 d1 (position bn)) b piece (λ e.
          apart (position bn) (position_lt bn bn_lt)
            (final (position bn) (position_lt bn bn_lt) has ∙ sym e))
        ∙ m.frame b l meta used (λ e.
          apart 12 (omega arith) (
            final 12 (omega arith) (λ z. positive b l meta (e ∙ sym twelve ∙ z)) ∙ twelve ∙ sym e));
    stays = λ b l used. w.stays b l (after_used b l ∙ m.stays b l used);
  }
    where
      twelve : slot f1 d1 12 ≡ f1 12
      twelve = slot_direct f1 d1 12 (omega arith)

      final : (k : ℕ) → k < nslots → slot f1 d1 k ≢ 0 → slot f' disk k ≡ slot f1 d1 k
      final k l ne = w.kept k l (λ z. ne (sym (after_slot k) ∙ z)) ∙ after_slot k

      positive : (b : ℕ) → b < s.sb.size → meta_end s ≤ b → b ≢ 0
      positive b l meta e = let h = formatted.maps b l in omega arith
