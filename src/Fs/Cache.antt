-- ===== src/Fs/Cache.antt =====
-- The inode cache of xv6-l/fs.c: `iget`, `idup`, `ilock`, `iunlock` and `iput`.
-- A pointer to a cached inode is its index in the cache; there is no null pointer, at which `ilock` and
-- `iunlock` panic. `ref` is an `int`, given by its bit pattern.
pub mod Load
pub mod Get
pub mod Refs
pub mod Safety
mod Tests
use os_playground.Base.{
  ℕ, zero, suc, ◌+◌, ◌-◌, ◌*◌, ◌^◌, ◌%◌, Bool, true, false, not, Option, none, some, ltb, ◌==◌,
  ◌&&◌, if◌then◌else◌, update,
}
use os_playground.Bio.{Block}
use os_playground.Args.{word}
use os_playground.Fs.{Fs, iblock, Inode}
use os_playground.Fs.Rw.{dinode_at, iupdate}
use os_playground.Fs.Trunc.{itrunc}

-- NINODE of param.h
abbrev pub ninode : ℕ
ninode = 50

-- The cache with the disk under it.
pub record Itable : Type 0 where
  pub icache : ℕ → Inode
  pub fs : Fs

abbrev pub set_inode : ℕ → Inode → Itable → Itable
set_inode i ip s = record s { icache = update s.icache i ip }

-- A call panics, goes to sleep on a lock, or has an effect.
pub data Outcome {ℓ} (A : Type ℓ) : Type ℓ where
  panics : Outcome A
  sleeps : Outcome A
  returns : A → Outcome A

-- `ip->ref > 0`
abbrev pub has_ref : Inode → Bool
has_ref ip = ltb 0 ip.ref && ltb ip.ref (2 ^ 31)

abbrev pub is_inode : ℕ → ℕ → Inode → Bool
is_inode dev inum ip = has_ref ip && (ip.dev == dev && ip.inum == inum)

-- "Remember empty slot."
abbrev pub remember : ℕ → Option ℕ → Inode → Option ℕ
remember i (some e) ip = some e
remember i none ip = if ip.ref == 0 then some i else none

pub data Lookup : Type 0 where
  hit : ℕ → Lookup
  miss : Option ℕ → Lookup

-- The loop of `iget` from entry `i` on, with `r` entries to go.
unfoldable pub look : ℕ → ℕ → ℕ → ℕ → Option ℕ → Itable → Lookup
look dev inum i zero empty s = miss empty
look dev inum i (suc r) empty s =
    let rest = look dev inum (i + 1) r (remember i empty (s.icache i)) s in
    if is_inode dev inum (s.icache i) then hit i else rest

unfoldable pub idup : ℕ → Itable → Itable
idup i s = set_inode i (record (s.icache i) { ref = ((s.icache i).ref + 1) % 2 ^ 32 }) s

abbrev pub take_entry : ℕ → ℕ → Lookup → Itable → Option (ℕ × Itable)
take_entry dev inum (hit i) s =
    some (i, set_inode i (record (s.icache i) { ref = ((s.icache i).ref + 1) % 2 ^ 32 }) s)
take_entry dev inum (miss none) s = none
take_entry dev inum (miss (some i)) s =
    some (i, set_inode i (record (s.icache i) { dev = dev; inum = inum; ref = 1; valid = false }) s)

-- `none` is the panic "iget: no inodes".
unfoldable pub iget : ℕ → ℕ → Itable → Option (ℕ × Itable)
unfolding look
iget dev inum s = take_entry dev inum (look dev inum 0 ninode none s) s

-- A 16-bit load, low byte first.
abbrev pub half : Block → ℕ → ℕ
half d p = d p + d (p + 1) * 2 ^ 8

-- The copy from the `struct dinode` at `p`.
abbrev pub get_dinode : ℕ → Block → Inode → Inode
get_dinode p d ip = record ip {
  type = half d p;
  major = half d (p + 2);
  minor = half d (p + 4);
  nlink = half d (p + 6);
  size = word d (p + 8);
  addrs = λ k. if ltb k 13 then word d (p + 12 + 4 * k) else ip.addrs k;
}

-- "ilock: no type" is a panic.
abbrev pub check_type : ℕ → Inode → Itable → Outcome Itable
check_type i ip s = if ip.type == 0 then panics else returns (set_inode i ip s)

abbrev pub load_inode : ℕ → Inode → Itable → Outcome Itable
load_inode i ip s =
    let d = s.fs.disk (iblock ip.inum s.fs.sb) in
    if ip.valid
    then returns (set_inode i ip s)
    else check_type i (record (get_dinode (dinode_at ip) d ip) { valid = true }) s

unfoldable pub ilock : ℕ → ℕ → Itable → Outcome Itable
ilock pid i s =
    let ip = s.icache i in
    if not (has_ref ip)
    then panics
    else if ip.locked
    then sleeps
    else load_inode i (record ip { locked = true; pid = pid }) s

abbrev pub releasesleep : ℕ → Itable → Itable
releasesleep i s = set_inode i (record (s.icache i) { locked = false; pid = 0 }) s

-- `none` is the panic.
unfoldable pub iunlock : ℕ → Itable → Option Itable
iunlock i s = if (s.icache i).locked && has_ref (s.icache i) then some (releasesleep i s) else none

abbrev pub free_inode : ℕ → Option (Inode × Fs) → Itable → Outcome Itable
free_inode i none s = panics
free_inode i (some (ip, fs)) s =
    let e = record ip { type = 0 } in
    returns
      (releasesleep i (record (set_inode i (record e { valid = false }) s) { fs = iupdate e fs }))

-- `iput` up to `releasesleep`: the inode is freed if it has no links and this is the last reference.
unfoldable pub iput_locked : ℕ → ℕ → Itable → Outcome Itable
unfolding itrunc iupdate
iput_locked pid i s =
    let ip = record (s.icache i) { locked = true; pid = pid } in
    if (s.icache i).locked
    then sleeps
    else if ip.valid && (ip.nlink == 0 && ip.ref == 1)
    then free_inode i (itrunc ip s.fs) s
    else returns (releasesleep i s)

-- The end of `iput`, under the lock of the cache.
unfoldable pub drop_ref : ℕ → Itable → Itable
drop_ref i s =
    set_inode i (record (s.icache i) { ref = ((s.icache i).ref + 2 ^ 32 - 1) % 2 ^ 32 }) s

abbrev pub then_drop : ℕ → Outcome Itable → Outcome Itable
then_drop i panics = panics
then_drop i sleeps = sleeps
then_drop i (returns s) = returns (drop_ref i s)

-- `iput` when no other process comes between its two parts.
unfoldable pub iput : ℕ → ℕ → Itable → Outcome Itable
unfolding iput_locked drop_ref
iput pid i s = then_drop i (iput_locked pid i s)

abbrev pub then_put : ℕ → ℕ → Option Itable → Outcome Itable
then_put pid i none = panics
then_put pid i (some s) = iput pid i s

unfoldable pub iunlockput : ℕ → ℕ → Itable → Outcome Itable
unfolding iunlock iput
iunlockput pid i s = then_put pid i (iunlock i s)
