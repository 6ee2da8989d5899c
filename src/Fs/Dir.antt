-- ===== src/Fs/Dir.antt =====
-- Directories: `namecmp` and `dirlookup` of xv6-l/fs.c.
-- `de` and `name` are the addresses of the `struct dirent` on the stack and of the name.
pub mod Names
pub mod Find
pub mod Lookup
mod Tests
use os_playground.Base.{
  ℕ, zero, suc, ◌+◌, Bool, true, false, not, Option, none, some, ltb, ◌==◌, if◌then◌else◌,
}
use os_playground.Str.{Memory, strncmp}
use os_playground.Fs.{Fs, Inode}
use os_playground.Fs.Rw.{Device, Result, readi}
use os_playground.Fs.Path.{dirsiz}
use os_playground.Fs.Cache.{Itable, set_inode, half, iget}

-- T_DIR of stat.h
abbrev pub t_dir : ℕ
t_dir = 1

abbrev pub namecmp : ℕ → ℕ → Memory → ℕ
namecmp s t m = strncmp s t dirsiz m

-- The offset of an entry and its inode, or no entry.
pub data Search : Type 0 where
  found : ℕ → ℕ → Search
  absent : Search

-- `none` is a panic.
abbrev pub Scan : Type 0
Scan = Option (Search × Memory × Inode × Fs)

abbrev pub scan_entry : (Memory → Inode → Fs → Scan) → ℕ → ℕ → ℕ → Result → Scan
scan_entry loop off name de none = none
scan_entry loop off name de (some (n, mem, dp, fs)) =
    let rest = loop mem dp fs in
    if not (n == 16)
    then none
    else if half mem de == 0
    then rest
    else if namecmp name (de + 2) mem == 0
    then some (found off (half mem de), mem, dp, fs)
    else rest

-- The loop of `dirlookup` from offset `off` on, on fuel; a round moves on by 16 bytes.
unfoldable pub scan : (ℕ → Option Device) → ℕ → ℕ → ℕ → ℕ → Memory → Inode → Fs → Scan
unfolding readi strncmp
scan devsw zero off name de mem dp fs = none
scan devsw (suc fuel) off name de mem dp fs =
    let rest =
      scan_entry (scan devsw fuel (off + 16) name de) off name de
        (readi devsw de off 16 mem dp fs) in
    if ltb off dp.size then rest else some (absent, mem, dp, fs)

-- What `dirlookup` returns: no inode, or the entry of an inode in the cache and the offset `*poff`.
abbrev pub named : ℕ → Memory → Option (ℕ × Itable) → Option (Option (ℕ × ℕ) × Memory × Itable)
named off mem none = none
named off mem (some (i, s)) = some (some (i, off), mem, s)

abbrev pub looked_up : ℕ → Scan → Itable → Option (Option (ℕ × ℕ) × Memory × Itable)
looked_up i none s = none
looked_up i (some (absent, mem, dp, fs)) s = some (none, mem, record (set_inode i dp s) { fs = fs })
looked_up i (some (found off inum, mem, dp, fs)) s =
    named off mem (iget dp.dev inum (record (set_inode i dp s) { fs = fs }))

-- `none` is one of the panics.
unfoldable pub dirlookup :
    (ℕ → Option Device) → ℕ → ℕ → ℕ → Memory → Itable → Option (Option (ℕ × ℕ) × Memory × Itable)
unfolding scan iget
dirlookup devsw i name de mem s =
    let dp = s.icache i in
    if not (dp.type == t_dir)
    then none
    else looked_up i (scan devsw (suc dp.size) 0 name de mem dp s.fs) s
