-- ===== src/Fs/Trunc.antt =====
-- `itrunc` of xv6-l/fs.c, which frees the blocks of a file.
pub mod Range
pub mod Loops
pub mod Whole
use os_playground.Base.{ℕ, zero, suc, ◌+◌, Bool, Option, none, some, ◌==◌, if◌then◌else◌}
use os_playground.Bio.{Block}
use os_playground.Fs.{Fs, Inode, set_addr, get_word, ndirect, nindirect, bfree}
use os_playground.Fs.Rw.{iupdate}

abbrev pub then_free : (Fs → Option Fs) → Option Fs → Option Fs
then_free loop none = none
then_free loop (some s) = loop s

-- The loop over the entries `g` of the indirect block, from `j` on, with `r` to go.
unfoldable pub free_range : (ℕ → ℕ) → ℕ → ℕ → Fs → Option Fs
unfolding bfree
free_range g j zero s = some s
free_range g j (suc r) s =
    let skip = free_range g (j + 1) r s in
    let freed = then_free (free_range g (j + 1) r) (bfree (g j) s) in
    if g j == 0 then skip else freed

abbrev pub then_direct : (Fs → Option (Inode × Fs)) → Option Fs → Option (Inode × Fs)
then_direct loop none = none
then_direct loop (some s) = loop s

-- The loop over the direct blocks, from `i` on, with `r` to go.
unfoldable pub free_direct : ℕ → ℕ → Inode → Fs → Option (Inode × Fs)
unfolding bfree
free_direct i zero ip s = some (ip, s)
free_direct i (suc r) ip s =
    let skip = free_direct (i + 1) r ip s in
    let freed = then_direct (free_direct (i + 1) r (set_addr i 0 ip)) (bfree (ip.addrs i) s) in
    if ip.addrs i == 0 then skip else freed

abbrev pub no_indirect : Inode → Option Fs → Option (Inode × Fs)
no_indirect ip none = none
no_indirect ip (some s) = some (set_addr ndirect 0 ip, s)

-- `if(ip->addrs[NDIRECT])`. The buffer that holds the entries is not the one of the bit map.
unfoldable pub free_indirect : Option (Inode × Fs) → Option (Inode × Fs)
unfolding free_range bfree
free_indirect none = none
free_indirect (some (ip, s)) =
    let block = ip.addrs ndirect in
    let freed =
      no_indirect ip
        (then_free (bfree block) (free_range (get_word (s.disk block)) 0 nindirect s)) in
    if block == 0 then some (ip, s) else freed

abbrev pub emptied : Option (Inode × Fs) → Option (Inode × Fs)
emptied none = none
emptied (some (ip, s)) = let e = record ip { size = 0 } in some (e, iupdate e s)

-- `none` is the panic of `bfree`.
unfoldable pub itrunc : Inode → Fs → Option (Inode × Fs)
unfolding free_direct free_indirect
itrunc ip s = emptied (free_indirect (free_direct 0 ndirect ip s))
