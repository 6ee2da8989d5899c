-- ===== src/Bio.antt =====
-- The buffer cache of xv6-l/bio.c, with the disk of xv6-l/memide.c and the sleep lock of a buffer
-- (xv6-l/sleeplock.c).
-- The circular list through `prev` and `next` is the list of the buffers' indices from `head.next`
-- on. `bget` has two parts: under `bcache.lock` it finds a buffer and takes a reference, and then it
-- waits for the buffer's sleep lock; in between other processes run.
pub mod Inv
pub mod Get
pub mod System
pub mod Contents
pub mod Safety
pub mod Boot
mod Tests
use os_playground.Base.{
  ℕ, zero, suc, ◌+◌, ◌-◌, ◌*◌, ◌^◌, ◌%◌, Bool, true, false, not, Option, none, some, List, [], ◌∷◌,
  ◌++◌, ltb, leb, ◌==◌, ◌&&◌, if◌then◌else◌, update,
}

-- NBUF of param.h
abbrev pub nbuf : ℕ
nbuf = 30

-- The bytes of a block.
abbrev pub Block : Type 0
Block = ℕ → ℕ

-- `struct buf`: the flags B_VALID and B_DIRTY, and `locked` and `pid` of the sleep lock; `bytes` is its data.
pub record Buf : Type 0 where
  pub valid : Bool
  pub dirty : Bool
  pub dev : ℕ
  pub blockno : ℕ
  pub refcnt : ℕ
  pub locked : Bool
  pub pid : ℕ
  pub bytes : Block

-- `bcache`, and the disk with its size in blocks.
pub record Bcache : Type 0 where
  pub buf : ℕ → Buf
  pub order : List ℕ
  pub disk : ℕ → Block
  pub disksize : ℕ

abbrev pub set_buf : ℕ → Buf → Bcache → Bcache
set_buf i b c = record c { buf = update c.buf i b }

-- The loop of `binit`, with `r` buffers to go.
unfoldable pub push_bufs : ℕ → ℕ → List ℕ → List ℕ
push_bufs i zero order = order
push_bufs i (suc r) order = push_bufs (i + 1) r (i ∷ order)

-- `binit` on the zeroed data segment.
abbrev pub binit : (ℕ → Block) → ℕ → Bcache
binit disk disksize = record {
  buf = λ i. record {
    valid = false;
    dirty = false;
    dev = 0;
    blockno = 0;
    refcnt = 0;
    locked = false;
    pid = 0;
    bytes = λ k. 0;
  };
  order = push_bufs 0 nbuf [];
  disk = disk;
  disksize = disksize;
}

-- The first element of a walk through the list that passes a test.
unfoldable pub find : (ℕ → Bool) → List ℕ → Option ℕ
find test [] = none
find test (i ∷ is) = let rest = find test is in if test i then some i else rest

-- The list from `head.prev` on.
unfoldable pub backwards : List ℕ → List ℕ
backwards [] = []
backwards (i ∷ is) = backwards is ++ i ∷ []

abbrev pub is_cached : ℕ → ℕ → Buf → Bool
is_cached dev blockno b = b.dev == dev && b.blockno == blockno

abbrev pub is_unused : Buf → Bool
is_unused b = b.refcnt == 0 && not b.dirty

-- The panic "bget: no buffers", or a buffer to recycle.
abbrev pub recycle : ℕ → ℕ → Bcache → Option ℕ → Option (ℕ × Bcache)
recycle dev blockno c none = none
recycle dev blockno c (some i) = some (
  i,
  set_buf i
      (record (c.buf i) { dev = dev; blockno = blockno; valid = false; dirty = false; refcnt = 1 })
      c,
)

abbrev pub hit_or : Bcache → Option (ℕ × Bcache) → Option ℕ → Option (ℕ × Bcache)
hit_or c miss none = miss
hit_or c miss (some i) =
    some (i, set_buf i (record (c.buf i) { refcnt = ((c.buf i).refcnt + 1) % 2 ^ 32 }) c)

-- The part of `bget` under `bcache.lock`.
unfoldable pub bget : ℕ → ℕ → Bcache → Option (ℕ × Bcache)
unfolding find backwards
bget dev blockno c =
    hit_or c (recycle dev blockno c (find (λ i. is_unused (c.buf i)) (backwards c.order)))
      (find (λ i. is_cached dev blockno (c.buf i)) c.order)

-- One round of the loop of `acquiresleep` on a buffer; `none` is a process that goes to sleep.
unfoldable pub acquiresleep : ℕ → ℕ → Bcache → Option Bcache
acquiresleep pid i c =
    if (c.buf i).locked
    then none
    else some (set_buf i (record (c.buf i) { locked = true; pid = pid }) c)

-- `none` is one of the panics.
unfoldable pub iderw : ℕ → Bcache → Option Bcache
iderw i c =
    let b = c.buf i in
    if not b.locked
    then none
    else if b.valid && not b.dirty
    then none
    else if not (b.dev == 1)
    then none
    else if leb c.disksize b.blockno
    then none
    else if b.dirty
    then some (record c {
      buf = update c.buf i (record b { dirty = false; valid = true });
      disk = update c.disk b.blockno b.bytes;
    })
    else some (set_buf i (record b { bytes = c.disk b.blockno; valid = true }) c)

-- `bread` from the point where `bget` has returned the locked buffer.
unfoldable pub bread_locked : ℕ → Bcache → Option Bcache
unfolding iderw
bread_locked i c = if not (c.buf i).valid then iderw i c else some c

unfoldable pub bwrite : ℕ → Bcache → Option Bcache
unfolding iderw
bwrite i c =
    if not (c.buf i).locked then none else iderw i (set_buf i (record (c.buf i) { dirty = true }) c)

-- The list without a buffer: `b->next->prev = b->prev` and `b->prev->next = b->next`.
unfoldable pub unlink : ℕ → List ℕ → List ℕ
unlink i [] = []
unlink i (j ∷ js) = let rest = unlink i js in if j == i then rest else j ∷ rest

-- `none` is the panic. The sleep lock is released, and then the reference dropped.
unfoldable pub brelse : ℕ → Bcache → Option Bcache
unfolding unlink
brelse i c =
    let b = c.buf i in
    let r = (b.refcnt + 2 ^ 32 - 1) % 2 ^ 32 in
    if not b.locked
    then none
    else some (record c {
      buf = update c.buf i (record b { locked = false; pid = 0; refcnt = r });
      order = if r == 0 then i ∷ unlink i c.order else c.order;
    })
