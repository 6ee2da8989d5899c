-- ===== src/Fs/Tests.antt =====
-- Runs of the file system, and its theorems at a disk of 20 blocks with one short file.
use os_playground.Base.{
  ℕ, ◌+◌, ◌*◌, ◌%◌, ◌≤◌, ◌<◌, ◌≡◌, ◌≢◌, refl, sym, ap, subst, ◌∙◌, true, false, none, some, List,
  [], ◌∷◌, map, take, leb, ◌==◌, if◌then◌else◌, update, arith, ℕ_discrete, Bool-cases, ==_ne, inl,
  inr,
}
use os_playground.Bio.{Block}
use os_playground.Str.{Memory}
use os_playground.Fs.{bsize, Fs, Inode, find_bit, find_free, balloc, bfree, bmap}
use os_playground.Fs.Bits.{all_below, all_below_sound}
use os_playground.Fs.Bitmap.{is_used, IsFormatted, Allocated, with_block, balloc_lem}
use os_playground.Fs.Free.{bfree-balloc}
use os_playground.Fs.Count.{room}
use os_playground.Fs.Map.{slot, IsFile}
use os_playground.Fs.Map.Direct.{Mapped, slot_direct, slot_none}
use os_playground.Fs.Map.Bmap.{position, bmap_lem}
use os_playground.Log.{Log, log_write}
use os_playground.Fs.Rw.{readi, writei, paste, bmap_logs, log_blocks, write_loop}
use os_playground.Fs.Rw.Logged.{HasRoom}
use os_playground.Fs.Rw.Round.{rounds}
use os_playground.Fs.{load_addr}
use os_playground.Fs.Rw.Read.{IsWhole}
use os_playground.Fs.Rw.RoundTrip.{readi-writei}
use os_playground.Fs.Trunc.{itrunc}
use os_playground.Fs.Trunc.Whole.{IsTruncated, itrunc_lem}
use os_playground.Fs.Path.{dirsiz}
use os_playground.Fs.Path.Split.{names, elements, names_lem}

-- Blocks 0 to 10 are in use, and block 10 is full of the letter A.
abbrev pub small_disk : ℕ → Block
small_disk b i =
    if b == 5 then if i == 0 then 255 else if i == 1 then 7 else 0 else if b == 10 then b'A' else 0

abbrev pub small_fs : Fs
small_fs = record {
  sb = record {
    size = 20;
    nblocks = 10;
    ninodes = 16;
    nlog = 0;
    logstart = 2;
    inodestart = 3;
    bmapstart = 5;
  };
  disk = small_disk;
}

-- The file has 100 bytes in block 10.
abbrev pub small_file : Inode
small_file = record {
  dev = 1;
  inum = 2;
  ref = 1;
  locked = true;
  pid = 3;
  valid = true;
  type = 2;
  major = 0;
  minor = 0;
  nlink = 1;
  size = 100;
  addrs = update (λ _. 0) 0 10;
}

pub small_bytes : (b i : ℕ) → small_disk b i < 256
small_bytes b i = ground arith

meta_bits : all_below 10 (is_used small_fs) ≡ true
unfolding all_below
meta_bits = refl

meta_in_use : (k : ℕ) → k < 10 → is_used small_fs k ≡ true
meta_in_use k l = all_below_sound 10 (is_used small_fs) k meta_bits l

small-IsFormatted : IsFormatted small_fs
small-IsFormatted = record {
  bytes = small_bytes;
  maps = λ k l. omega arith;
  inodes = λ i l. omega arith;
  kept = λ k l m. meta_in_use k (omega arith);
  small = omega arith;
}

small_slot : (k : ℕ) → slot small_file.addrs small_disk k ≡ (if k == 0 then 10 else 0)
small_slot k = elim (Bool-cases (leb k 12)) [
  | inl e ↦ slot_direct small_file.addrs small_disk k (ground arith)
  | inr e ↦
      slot_none small_file.addrs small_disk k (ground arith) refl
      ∙ sym (ap (λ b. if b then 10 else 0) (==_ne k 0 (λ q. ground arith)))
]

at_zero : (k : ℕ) → slot small_file.addrs small_disk k ≢ 0 → k ≡ 0
at_zero k ne = elim (ℕ_discrete k 0) [
  | yes e ↦ e
  | no other ↦ absurd (ne (small_slot k ∙ ap (λ b. if b then 10 else 0) (==_ne k 0 other)))
]

slot_is : (k : ℕ) → slot small_file.addrs small_disk k ≢ 0 → slot small_file.addrs small_disk k ≡ 10
slot_is k ne = ap (slot small_file.addrs small_disk) (at_zero k ne)

small-IsFile : IsFile small_file.addrs small_fs
small-IsFile = record {
  data_block = λ k l ne. subst (λ b. 10 ≤ b) (sym (slot_is k ne)) (omega arith);
  inside = λ k l ne. subst (λ b. b < 20) (sym (slot_is k ne)) (omega arith);
  in_use = λ k l ne. ap (is_used small_fs) (slot_is k ne);
  apart = λ j k l m ne e. at_zero j ne ∙ sym (at_zero k (λ z. ne (e ∙ z)));
}

pub small-IsWhole : IsWhole small_file small_disk
small-IsWhole bn l =
    subst (λ k. slot small_file.addrs small_disk (position k) ≢ 0) (first bn l) (λ e. positive e)
  where
    positive : small_file.addrs 0 ≡ 0 → ⊥
    positive e = omega arith

    first : (bn : ℕ) → bsize * bn < 100 → 0 ≡ bn
    first bn l = omega arith

-- 9 blocks are free, the first of them is block 11.
small_room : room small_fs ≡ 9
small_room = refl

abbrev pub letters : Memory
letters i = b'a' + i % 26

pub letters_bytes : (i : ℕ) → letters i < 256
letters_bytes i = omega arith

not_device : (small_file.type) ≢ 3
not_device e = omega arith

balloc_lem_example : Allocated small_fs (balloc small_fs)
balloc_lem_example = balloc_lem small_fs small-IsFormatted

bmap_lem_example : Mapped small_file small_fs 14 2 (bmap 13 small_file small_fs)
bmap_lem_example = bmap_lem small_file small_fs 13 small-IsFile small-IsFormatted (omega arith)

-- An empty log of the size that `mkfs` makes, in a transaction.
abbrev empty_log : Log
empty_log = record {
  start = 2;
  size = 30;
  outstanding = 1;
  committing = false;
  n = 0;
  block = λ i. 0;
}

empty_log-HasRoom : HasRoom empty_log (6 * rounds 100 600 + 1)
empty_log-HasRoom = record { inside = omega arith; few = omega arith; fits = omega arith }

readi-writei_example :
    (ip : Inode) × (t : Fs) × (log : Log) × (writei
        (λ _. none)
        7
        100
        600
        letters
        small_file
        small_fs
        empty_log
      ≡ some (600, letters, ip, t, log))
    × (readi (λ _. none) 0 100 600 (λ _. 0) ip t
        ≡ some (600, paste (λ _. 0) 0 letters 7 600, ip, t))
readi-writei_example =
    readi-writei (λ _. none) 7 0 100 600 letters (λ _. 0) small_file small_fs empty_log not_device
      (omega arith) (omega arith) small-IsFormatted small-IsFile small-IsWhole letters_bytes
      (omega arith) empty_log-HasRoom (omega arith) (omega arith)

-- Where the log is full already, the first block is the panic of `log_write`.
full_log :
    writei (λ _. none) 7 100 1 letters small_file small_fs (record empty_log { n = 29 }) ≡ none
unfolding writei write_loop log_blocks log_write bmap_logs load_addr bmap
full_log = refl

first_free : balloc small_fs ≡ some (11, with_block 11 small_fs)
unfolding balloc find_bit find_free
first_free = refl

bfree-balloc_example :
    (u : Fs) × (bfree 11 (with_block 11 small_fs) ≡ some u)
    × IsFormatted u
    × ((j : ℕ) → j < 20 → is_used u j ≡ is_used small_fs j)
bfree-balloc_example =
    bfree-balloc small_fs (with_block 11 small_fs) 11 small-IsFormatted first_free

itrunc_lem_example :
    (f : ℕ → ℕ) × (t : Fs) × (itrunc small_file small_fs
      ≡ some (record small_file { addrs = f; size = 0 }, t))
    × IsTruncated small_file small_fs f t
itrunc_lem_example = itrunc_lem small_file small_fs small-IsFormatted small-IsFile (omega arith)

-- "//u/abcdefghijklmnop/x/"
abbrev long_path : List ℕ
long_path =
    b'/' ∷ b'/' ∷ b'u' ∷ b'/' ∷ b'a' ∷ b'b' ∷ b'c' ∷ b'd' ∷ b'e' ∷ b'f' ∷ b'g' ∷ b'h' ∷ b'i' ∷ b'j'
    ∷ b'k' ∷ b'l' ∷ b'm' ∷ b'n' ∷ b'o' ∷ b'p' ∷ b'/' ∷ b'x' ∷ b'/' ∷ []

-- The element of 16 bytes is cut off.
long_element :
    elements long_path
    ≡ (b'u' ∷ [])
      ∷ (b'a' ∷ b'b' ∷ b'c' ∷ b'd' ∷ b'e' ∷ b'f' ∷ b'g' ∷ b'h' ∷ b'i' ∷ b'j' ∷ b'k' ∷ b'l' ∷ b'm'
          ∷ b'n' ∷ b'o' ∷ b'p' ∷ [])
      ∷ (b'x' ∷ [])
      ∷ []
long_element = refl

names_lem_example : names 30 long_path ≡ map (take dirsiz) (elements long_path)
names_lem_example = names_lem 30 long_path (omega arith)
