-- ===== src/Fs.antt =====
-- The file system of xv6-l/fs.c, on the blocks of one disk.
-- `disk` gives the bytes of every block as the last call of `log_write` left them: `bread` returns these
-- (see `Bio`), and every change of a buffer here is followed by `log_write` before `brelse`. Numbers of
-- blocks are far below 2 ^ 31, so that sums of them do not wrap. The panic of `log_write` on a full log is
-- part of `writei` (`Fs.Rw`); the calls here are those of a log with room.
pub mod Bits
pub mod Bitmap
pub mod Free
pub mod Words
pub mod Count
pub mod Map
pub mod Rw
pub mod Path
pub mod Trunc
pub mod Cache
pub mod Alloc
pub mod Dir
mod Tests
use os_playground.Base.{
  ℕ, zero, suc, ◌+◌, ◌-◌, ◌*◌, ◌/◌, ◌^◌, ◌%◌, min, Bool, true, false, not, Option, none, some, ltb,
  leb, ◌==◌, ◌&&◌, if◌then◌else◌, update,
}
use Prim.Native.Nat.{bit_and, bit_or}
use os_playground.Bio.{Block}
use os_playground.Str.{store32}
use os_playground.Args.{word}

-- BSIZE, NDIRECT, NINDIRECT, IPB and BPB of fs.h
abbrev pub bsize : ℕ
bsize = 512

abbrev pub ndirect : ℕ
ndirect = 12

abbrev pub nindirect : ℕ
nindirect = 128

abbrev pub ipb : ℕ
ipb = 8

abbrev pub bpb : ℕ
bpb = 4096

pub record Superblock : Type 0 where
  pub size : ℕ
  pub nblocks : ℕ
  pub ninodes : ℕ
  pub nlog : ℕ
  pub logstart : ℕ
  pub inodestart : ℕ
  pub bmapstart : ℕ

pub record Fs : Type 0 where
  pub sb : Superblock
  pub disk : ℕ → Block

-- IBLOCK and BBLOCK
abbrev pub iblock : ℕ → Superblock → ℕ
iblock i sb = i / ipb + sb.inodestart

abbrev pub bblock : ℕ → Superblock → ℕ
bblock b sb = b / bpb + sb.bmapstart

abbrev pub put_block : ℕ → Block → Fs → Fs
put_block b d s = record s { disk = update s.disk b d }

-- `bp->data[bi/8] & m`, `|= m` and `&= ~m` for `m = 1 << (bi % 8)`
abbrev pub test_bit : Block → ℕ → ℕ
test_bit d bi = bit_and (d (bi / 8)) (2 ^ (bi % 8))

abbrev pub set_bit : Block → ℕ → Block
set_bit d bi = update d (bi / 8) (bit_or (d (bi / 8)) (2 ^ (bi % 8)))

abbrev pub clear_bit : Block → ℕ → Block
clear_bit d bi = update d (bi / 8) (bit_and (d (bi / 8)) (255 - 2 ^ (bi % 8)))

-- `memset` of a whole block, as `bzero` does it
abbrev pub bzero : ℕ → Fs → Fs
bzero b s = put_block b (λ i. 0) s

-- The inner loop of `balloc` from `bi` on, with `r` bits to go.
unfoldable pub find_bit : Block → ℕ → ℕ → Option ℕ
find_bit d bi zero = none
find_bit d bi (suc r) =
    let rest = find_bit d (bi + 1) r in if test_bit d bi == 0 then some bi else rest

abbrev pub found_or : ℕ → Option ℕ → Option ℕ → Option ℕ
found_or b none rest = rest
found_or b (some bi) rest = some (b + bi)

-- The outer loop of `balloc` from `b` on, with `r` blocks of the bit map to go.
unfoldable pub find_free : Fs → ℕ → ℕ → Option ℕ
unfolding find_bit
find_free s b zero = none
find_free s b (suc r) =
    let rest = find_free s (b + bpb) r in
    found_or b (find_bit (s.disk (bblock b s.sb)) 0 (min bpb (s.sb.size - b))) rest

-- "Mark block in use."
abbrev pub mark : ℕ → Fs → Fs
mark b s = put_block (bblock b s.sb) (set_bit (s.disk (bblock b s.sb)) (b % bpb)) s

abbrev pub take_block : Fs → Option ℕ → Option (ℕ × Fs)
take_block s none = none
take_block s (some b) = some (b, bzero b (mark b s))

-- `none` is the panic "balloc: out of blocks".
unfoldable pub balloc : Fs → Option (ℕ × Fs)
unfolding find_free
balloc s = take_block s (find_free s 0 ((s.sb.size + bpb - 1) / bpb))

-- `none` is the panic "freeing free block". Nothing writes the superblock that it reads again.
unfoldable pub bfree : ℕ → Fs → Option Fs
bfree b s =
    if test_bit (s.disk (bblock b s.sb)) (b % bpb) == 0
    then none
    else some (put_block (bblock b s.sb) (clear_bit (s.disk (bblock b s.sb)) (b % bpb)) s)

-- `struct inode`, with `locked` and `pid` of its sleep lock.
pub record Inode : Type 0 where
  pub dev : ℕ
  pub inum : ℕ
  pub ref : ℕ
  pub locked : Bool
  pub pid : ℕ
  pub valid : Bool
  pub type : ℕ
  pub major : ℕ
  pub minor : ℕ
  pub nlink : ℕ
  pub size : ℕ
  pub addrs : ℕ → ℕ

abbrev pub set_addr : ℕ → ℕ → Inode → Inode
set_addr k a ip = record ip { addrs = update ip.addrs k a }

-- `((uint*)bp->data)[j]`, and a write to it
abbrev pub get_word : Block → ℕ → ℕ
get_word d j = word d (4 * j)

abbrev pub put_word : Block → ℕ → ℕ → Block
put_word d j a = store32 (4 * j) a d

-- An address with the inode and the file system; `none` is a panic.
abbrev pub Mapping : Type 0
Mapping = Option (ℕ × Inode × Fs)

abbrev pub new_addr : ℕ → Inode → Option (ℕ × Fs) → Mapping
new_addr k ip none = none
new_addr k ip (some (a, s)) = some (a, set_addr k a ip, s)

-- `if((addr = ip->addrs[k]) == 0) ip->addrs[k] = addr = balloc(ip->dev)`
unfoldable pub load_addr : ℕ → Inode → Fs → Mapping
unfolding balloc
load_addr k ip s =
    let fresh = balloc s in
    if ip.addrs k == 0 then new_addr k ip fresh else some (ip.addrs k, ip, s)

abbrev pub new_entry : ℕ → ℕ → Inode → Option (ℕ × Fs) → Mapping
new_entry block j ip none = none
new_entry block j ip (some (a, s)) = some (a, ip, put_block block (put_word (s.disk block) j a) s)

-- Entry `j` of the indirect block.
unfoldable pub load_entry : ℕ → Mapping → Mapping
unfolding balloc
load_entry j none = none
load_entry j (some (block, ip, s)) =
    let fresh = balloc s in
    if get_word (s.disk block) j == 0
    then new_entry block j ip fresh
    else some (get_word (s.disk block) j, ip, s)

-- `none` is one of the panics "bmap: out of range" and "balloc: out of blocks".
unfoldable pub bmap : ℕ → Inode → Fs → Mapping
unfolding load_addr load_entry
bmap bn ip s =
    if ltb bn ndirect
    then load_addr bn ip s
    else if ltb (bn - ndirect) nindirect
    then load_entry (bn - ndirect) (load_addr ndirect ip s)
    else none
