-- ===== src/Log.antt =====
-- The write-ahead log of xv6-l/log.c.
-- A disk block is its 32-bit words, so that word 0 of the header block is `n` and word `i + 1` is
-- `block[i]`. A machine has a disk, the buffer cache, and power for so many more disk writes: a write
-- without power is lost. `bread` gives what the cache holds, or else what the disk holds; that it also
-- fills the cache, and that a clean buffer can leave it, changes no result.
pub mod Loops
pub mod Restart
pub mod Crash
pub mod Reserve
pub mod Absorb
mod Tests
use mathlib.Core.Option.{get_or}
use os_playground.Base.{
  ℕ, zero, suc, ◌+◌, ◌-◌, ◌*◌, ◌^◌, ◌%◌, Bool, true, false, Option, none, some, ltb, leb, ◌==◌,
  ◌||◌, if◌then◌else◌, update,
}

-- MAXOPBLOCKS and LOGSIZE of param.h
abbrev pub maxopblocks : ℕ
maxopblocks = 10

abbrev pub logsize : ℕ
logsize = 30

abbrev pub Block : Type 0
Block = ℕ → ℕ

-- `struct log` with its `struct logheader`: `n` and `block` are `lh.n` and `lh.block`.
pub record Log : Type 0 where
  pub start : ℕ
  pub size : ℕ
  pub outstanding : ℕ
  pub committing : Bool
  pub n : ℕ
  pub block : ℕ → ℕ

pub record Machine : Type 0 where
  pub disk : ℕ → Block
  pub cache : ℕ → Option Block
  pub power : ℕ
  pub log : Log

abbrev pub bread : Machine → ℕ → Block
bread m b = get_or (m.cache b) (m.disk b)

-- `bwrite` of block `b` with contents `v`
unfoldable pub bwrite : ℕ → Block → Machine → Machine
bwrite b v m = record m {
  disk = if m.power == 0 then m.disk else update m.disk b v;
  cache = update m.cache b (some v);
  power = m.power - 1;
}

-- `for (tail = i; tail < i + r; tail++)`
unfoldable pub for_tail : (ℕ → Machine → Machine) → ℕ → ℕ → Machine → Machine
for_tail body i zero m = m
for_tail body i (suc r) m = for_tail body (i + 1) r (body i m)

abbrev pub install_one : ℕ → Machine → Machine
install_one tail m = bwrite (m.log.block tail) (bread m (m.log.start + tail + 1)) m

unfoldable pub install_trans : Machine → Machine
install_trans m = for_tail install_one 0 m.log.n m

abbrev pub log_one : ℕ → Machine → Machine
log_one tail m = bwrite (m.log.start + tail + 1) (bread m (m.log.block tail)) m

unfoldable pub write_log : Machine → Machine
write_log m = for_tail log_one 0 m.log.n m

-- The header block after `hb->n = log.lh.n` and the loop over `hb->block`.
abbrev pub header : Log → Block → Block
header l old w = if w == 0 then l.n else if leb w l.n then l.block (w - 1) else old w

unfoldable pub write_head : Machine → Machine
write_head m = bwrite m.log.start (header m.log (bread m m.log.start)) m

unfoldable pub read_head : Machine → Machine
read_head m =
    let hb = bread m m.log.start in
    record m {
      log = record (m.log) {
        n = hb 0;
        block = λ i. if ltb i (hb 0) then hb (i + 1) else m.log.block i;
      };
    }

abbrev pub clear : Machine → Machine
clear m = record m { log = record (m.log) { n = 0 } }

unfoldable pub recover_from_log : Machine → Machine
recover_from_log m = write_head (clear (install_trans (read_head m)))

-- `initlog`, with `logstart` and `nlog` of the superblock. The check of the header's size is a
-- constant of the build.
unfoldable pub initlog : ℕ → ℕ → Machine → Machine
unfolding recover_from_log
initlog logstart nlog m =
    recover_from_log (record m { log = record (m.log) { start = logstart; size = nlog } })

-- The machine that starts on disk `d`: an empty cache, and the zeroed data segment.
abbrev pub boot : (ℕ → Block) → ℕ → Machine
boot d power = record {
  disk = d;
  cache = λ b. none;
  power = power;
  log = record { start = 0; size = 0; outstanding = 0; committing = false; n = 0; block = λ i. 0 };
}

unfoldable pub commit : Machine → Machine
commit m =
    if ltb 0 m.log.n then write_head (clear (install_trans (write_head (write_log m)))) else m

-- One round of the loop of `begin_op`: `none` is a process that goes to sleep on the log, and comes
-- back for another round.
unfoldable pub begin_op : Log → Option Log
begin_op l =
    if l.committing
    then none
    else if ltb logsize (l.n + (l.outstanding + 1) * maxopblocks)
    then none
    else some (record l { outstanding = l.outstanding + 1 })

-- `none` is the panic "log.committing".
unfoldable pub end_op : Machine → Option Machine
end_op m =
    let l = record (m.log) { outstanding = (m.log.outstanding + 2 ^ 32 - 1) % 2 ^ 32 } in
    if l.committing
    then none
    else if l.outstanding == 0
    then (let done = commit (record m { log = record l { committing = true } }) in
        some (record done { log = record (done.log) { committing = false } }))
    else some (record m { log = l })

-- The first `i < n` from `i` on with `block[i] == b`, or else the end.
unfoldable pub find_block : (ℕ → ℕ) → ℕ → ℕ → ℕ → ℕ
find_block block b i zero = i
find_block block b i (suc r) =
    let rest = find_block block b (i + 1) r in if block i == b then i else rest

-- The critical section of `log_write`. The buffer stays in the cache.
unfoldable pub absorb : ℕ → Block → Machine → Machine
unfolding find_block
absorb b v m =
    let l = m.log in
    let i = find_block l.block b 0 l.n in
    record m {
      log = record l { block = update l.block i b; n = if i == l.n then l.n + 1 else l.n };
      cache = update m.cache b (some v);
    }

-- `log_write` of the buffer of block `b` with contents `v`. `none` is one of the two panics.
unfoldable pub log_write : ℕ → Block → Machine → Option Machine
log_write b v m =
    if leb logsize m.log.n || leb (m.log.size - 1) m.log.n
    then none
    else if ltb m.log.outstanding 1
    then none
    else some (absorb b v m)
