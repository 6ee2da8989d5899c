-- ===== src/Fs/Rw.antt =====
-- Reading and writing a file: `readi`, `writei` and `iupdate` of xv6-l/fs.c.
-- The memory on the other side of the copy is apart from the buffers. A device is a parameter: what it
-- does with an address and a count, and the count that it returns. `readi` of a file without holes writes
-- nothing to the log; `writei` has the log as an argument.
pub mod Content
pub mod Logged
pub mod Read
pub mod Round
pub mod Loop
pub mod Meta
pub mod Write
pub mod RoundTrip
use os_playground.Base.{
  ℕ, zero, suc, ◌+◌, ◌-◌, ◌*◌, ◌/◌, ◌^◌, ◌%◌, min, Bool, true, false, Option, none, some, ltb, leb,
  ◌==◌, ◌&&◌, ◌||◌, if◌then◌else◌, update, List, [], ◌∷◌, ◌++◌,
}
use os_playground.Bio.{Block}
use os_playground.Log.{Log, Machine, log_write}
use os_playground.Str.{Memory, store32}
use os_playground.Fs.{
  bsize, ipb, ndirect, Superblock, Fs, iblock, bblock, put_block, Inode, Mapping, get_word, balloc,
  load_addr, bmap,
}

-- T_DEV of stat.h, NDEV of param.h, and MAXFILE of fs.h
abbrev pub t_dev : ℕ
t_dev = 3

abbrev pub ndev : ℕ
ndev = 10

abbrev pub maxfile : ℕ
maxfile = 140

-- -1 as an `int`
abbrev pub minus_one : ℕ
minus_one = 2 ^ 32 - 1

-- `memmove` of `m` bytes from `p` on in one object to `o` in another.
abbrev pub paste : Memory → ℕ → Memory → ℕ → ℕ → Memory
paste to o from p m = λ i. if leb o i && ltb i (o + m) then from (p + (i - o)) else to i

-- `min(n - tot, BSIZE - off%BSIZE)`
abbrev pub chunk : ℕ → ℕ → ℕ
chunk off left = min left (bsize - off % bsize)

-- What a loop leaves; `none` is a panic.
abbrev pub Copied : Type 0
Copied = Option (Memory × Inode × Fs)

abbrev pub read_chunk :
    (ℕ → ℕ → ℕ → Memory → Inode → Fs → Copied) → ℕ → ℕ → ℕ → Memory → Mapping → Copied
read_chunk loop dst off left mem none = none
read_chunk loop dst off left mem (some (a, ip, s)) =
    let m = chunk off left in
    loop (dst + m) (off + m) (left - m) (paste mem dst (s.disk a) (off % bsize) m) ip s

-- The loop of `readi`, with `left = n - tot`, on fuel; a round copies at least one byte.
unfoldable pub read_loop : ℕ → ℕ → ℕ → ℕ → Memory → Inode → Fs → Copied
unfolding bmap
read_loop zero dst off left mem ip s = none
read_loop (suc fuel) dst off left mem ip s =
    let rest = read_chunk (read_loop fuel) dst off left mem (bmap (off / bsize) ip s) in
    if left == 0 then some (mem, ip, s) else rest

-- What `readi` and `writei` return, with the state; `none` is a panic.
abbrev pub Result : Type 0
Result = Option (ℕ × Memory × Inode × Fs)

abbrev pub counted : ℕ → Copied → Result
counted n none = none
counted n (some (mem, ip, s)) = some (n, mem, ip, s)

abbrev pub Device : Type 0
Device = ℕ → ℕ → Memory → ℕ × Memory

abbrev pub use_device : Option Device → ℕ → ℕ → Memory → Inode → Fs → Result
use_device none p n mem ip s = some (minus_one, mem, ip, s)
use_device (some d) p n mem ip s = some ((d p n mem).0, (d p n mem).1, ip, s)

-- `ip->major < 0` is one of the bit patterns from 2 ^ 15 on.
abbrev pub on_device : (ℕ → Option Device) → ℕ → ℕ → Memory → Inode → Fs → Result
on_device devsw p n mem ip s =
    if leb ndev ip.major
    then some (minus_one, mem, ip, s)
    else use_device (devsw ip.major) p n mem ip s

unfoldable pub readi : (ℕ → Option Device) → ℕ → ℕ → ℕ → Memory → Inode → Fs → Result
unfolding read_loop
readi devsw dst off n mem ip s =
    let count = if ltb ip.size ((off + n) % 2 ^ 32) then ip.size - off else n in
    if ip.type == t_dev
    then on_device devsw dst n mem ip s
    else if ltb ip.size off || ltb ((off + n) % 2 ^ 32) off
    then some (minus_one, mem, ip, s)
    else counted count (read_loop (suc count) dst off count mem ip s)

-- What a call that writes leaves, with the log; `none` is a panic.
abbrev pub Written : Type 0
Written = Option (Memory × Inode × Fs × Log)

-- `log_write` of block `b`, as the header of the log sees it: contents, cache and disk do not matter to it.
abbrev pub header_of : Option Machine → Option Log
header_of none = none
header_of (some m) = some m.log

abbrev pub log_block : ℕ → Log → Option Log
log_block b l =
    header_of
      (log_write b (λ w. 0) (record { disk = λ c w. 0; cache = λ c. none; power = 0; log = l }))

abbrev pub then_log : (Log → Option Log) → Option Log → Option Log
then_log next none = none
then_log next (some l) = next l

unfoldable pub log_blocks : List ℕ → Log → Option Log
unfolding log_write
log_blocks [] l = some l
log_blocks (b ∷ bs) l = then_log (log_blocks bs) (log_block b l)

-- The blocks that `balloc` passes to `log_write`: the one of the bit map, and the one that `bzero` clears.
abbrev pub balloc_logs : Superblock → Option (ℕ × Fs) → List ℕ
balloc_logs sb none = []
balloc_logs sb (some (b, s)) = bblock b sb ∷ b ∷ []

-- The blocks that `bmap` passes to `log_write` for an address of the inode, and for an entry of the
-- indirect block.
abbrev pub addr_logs : ℕ → Inode → Fs → List ℕ
addr_logs k ip s = if ip.addrs k == 0 then balloc_logs s.sb (balloc s) else []

abbrev pub entry_logs : ℕ → Mapping → List ℕ
entry_logs j none = []
entry_logs j (some (block, ip, s)) =
    if get_word (s.disk block) j == 0 then balloc_logs s.sb (balloc s) ++ block ∷ [] else []

unfoldable pub bmap_logs : ℕ → Inode → Fs → List ℕ
unfolding balloc load_addr
bmap_logs bn ip s =
    if ltb bn ndirect
    then addr_logs bn ip s
    else addr_logs ndirect ip s ++ entry_logs (bn - ndirect) (load_addr ndirect ip s)

abbrev pub with_log : (Log → Written) → Option Log → Written
with_log next none = none
with_log next (some l) = next l

-- `logs` are the blocks that `bmap` has passed to `log_write`.
abbrev pub write_chunk :
    (ℕ → ℕ → ℕ → Memory → Inode → Fs → Log → Written)
    → ℕ
    → ℕ
    → ℕ
    → Memory
    → List ℕ
    → Log
    → Mapping
    → Written
write_chunk loop src off left mem logs l none = none
write_chunk loop src off left mem logs l (some (a, ip, s)) =
    let m = chunk off left in
    with_log
      (loop (src + m) (off + m) (left - m) mem ip
        (put_block a (paste (s.disk a) (off % bsize) mem src m) s))
      (log_blocks (logs ++ a ∷ []) l)

-- The loop of `writei`.
unfoldable pub write_loop : ℕ → ℕ → ℕ → ℕ → Memory → Inode → Fs → Log → Written
unfolding bmap bmap_logs log_blocks
write_loop zero src off left mem ip s l = none
write_loop (suc fuel) src off left mem ip s l =
    let rest =
      write_chunk (write_loop fuel) src off left mem (bmap_logs (off / bsize) ip s) l
        (bmap (off / bsize) ip s) in
    if left == 0 then some (mem, ip, s, l) else rest

-- A 16-bit store, low byte first.
abbrev pub store16 : ℕ → ℕ → Block → Block
store16 p v d = update (update d p (v % 256)) (p + 1) (v / 2 ^ 8 % 256)

-- The copy of the first `k` addresses to the `struct dinode` at `p`.
unfoldable pub put_addrs : ℕ → (ℕ → ℕ) → ℕ → Block → Block
put_addrs p f zero d = d
put_addrs p f (suc k) d = store32 (p + 12 + 4 * k) (f k) (put_addrs p f k d)

-- The `struct dinode` at `p`.
unfoldable pub put_dinode : ℕ → Inode → Block → Block
unfolding put_addrs
put_dinode p ip d = put_addrs p ip.addrs 13 (
    store32 (p + 8) ip.size (
      store16 (p + 6) ip.nlink
        (store16 (p + 4) ip.minor (store16 (p + 2) ip.major (store16 p ip.type d)))))

abbrev pub dinode_at : Inode → ℕ
dinode_at ip = 64 * (ip.inum % ipb)

unfoldable pub iupdate : Inode → Fs → Fs
unfolding put_dinode
iupdate ip s =
    put_block (iblock ip.inum s.sb) (put_dinode (dinode_at ip) ip (s.disk (iblock ip.inum s.sb))) s

-- What `writei` returns, with the state and the log; `none` is a panic.
abbrev pub WriteResult : Type 0
WriteResult = Option (ℕ × Memory × Inode × Fs × Log)

-- A device writes nothing to the log.
abbrev pub beside_log : Log → Result → WriteResult
beside_log l none = none
beside_log l (some (n, mem, ip, s)) = some (n, mem, ip, s, l)

-- The `log_write` of `iupdate`.
abbrev pub logged : ℕ → Memory → Inode → Fs → Option Log → WriteResult
logged n mem ip s none = none
logged n mem ip s (some l) = some (n, mem, ip, s, l)

-- After the loop of `writei`, which has moved `off` by `n`.
abbrev pub written : ℕ → ℕ → Written → WriteResult
written off n none = none
written off n (some (mem, ip, s, l)) =
    let longer = record ip { size = off + n } in
    if ltb 0 n && ltb ip.size (off + n)
    then logged n mem longer (iupdate longer s) (log_blocks (iblock ip.inum s.sb ∷ []) l)
    else some (n, mem, ip, s, l)

-- `none` is one of the panics of `bmap` and `log_write`.
unfoldable pub writei : (ℕ → Option Device) → ℕ → ℕ → ℕ → Memory → Inode → Fs → Log → WriteResult
unfolding write_loop iupdate log_blocks
writei devsw src off n mem ip s l =
    if ip.type == t_dev
    then beside_log l (on_device devsw src n mem ip s)
    else if ltb ip.size off || ltb ((off + n) % 2 ^ 32) off
    then some (minus_one, mem, ip, s, l)
    else if ltb (maxfile * bsize) ((off + n) % 2 ^ 32)
    then some (minus_one, mem, ip, s, l)
    else written off n (write_loop (suc n) src off n mem ip s l)
