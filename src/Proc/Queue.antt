-- ===== src/Proc/Queue.antt =====
-- `qpush` of xv6-l/proc.c, and the part of `scheduler` that takes a process from a queue.
pub mod Walk
pub mod Inv
pub mod Push
pub mod Pop
use os_playground.Base.{
  ℕ, zero, suc, ◌+◌, ◌-◌, ◌*◌, ◌^◌, ◌%◌, List, [], ◌∷◌, Bool, ltb, leb, ◌==◌, if◌then◌else◌, update,
}
use os_playground.Proc.Table.{Proc, Ptable, set_proc, nprocq, is_runnable}

-- Arithmetic of `uint`.
abbrev pub add32 : ℕ → ℕ → ℕ
add32 a b = (a + b) % 2 ^ 32

abbrev pub dec32 : ℕ → ℕ
dec32 a = (a + 2 ^ 32 - 1) % 2 ^ 32

-- The branch for an empty queue.
unfoldable pub link_first : ℕ → Ptable → Ptable
link_first np t =
    let q = (t.proc np).priority in
    record (set_proc t np (record (t.proc np) { next = np })) {
      head = update t.head q np;
      last = update t.last q np;
    }

-- The branch for a queue that holds processes.
unfoldable pub link_last : ℕ → Ptable → Ptable
link_last np t =
    let q = (t.proc np).priority in
    let linked = set_proc t np (record (t.proc np) { next = t.head q }) in
    let la = t.last q in
    record (set_proc linked la (record (linked.proc la) { next = np })) {
      last = update t.last q np;
    }

-- The time slice of a priority: 1, 2 and 4 ticks from the highest to the lowest.
abbrev pub slice : ℕ → ℕ
slice priority = 2 ^ (nprocq - priority - 1)

unfoldable pub qpush : ℕ → Ptable → Ptable
unfolding link_first link_last
qpush np t =
    let q = (t.proc np).priority in
    let linked = if leb (t.count q) 0 then link_first np t else link_last np t in
    record (set_proc linked np (record (linked.proc np) { timepiece = slice q })) {
      count = update t.count q (add32 (t.count q) 1);
    }

-- `head = head->next; count--`
unfoldable pub advance : ℕ → Ptable → Ptable
advance q t = record t {
  head = update t.head q (t.proc (t.head q)).next;
  count = update t.count q (dec32 (t.count q));
}

-- `while (count > 0 && head->state != RUNNABLE)`: the fuel is the count, which every round lowers.
unfoldable pub drop_stale : ℕ → ℕ → Ptable → Ptable
unfolding advance
drop_stale zero q t = t
drop_stale (suc fuel) q t =
    let rest = drop_stale fuel q (advance q t) in
    if ltb 0 (t.count q) then (if is_runnable (t.proc (t.head q)).state then t else rest) else t

-- The processes of queue `q`, first to last, as the links give them.
abbrev pub walk : (ℕ → ℕ) → ℕ → ℕ → List ℕ
walk next h zero = []
walk next h (suc n) = h ∷ walk next (next h) n

abbrev pub next_of : Ptable → ℕ → ℕ
next_of t p = (t.proc p).next

unfoldable pub queue : Ptable → ℕ → List ℕ
queue t q = walk (next_of t) (t.head q) (t.count q)
