-- ===== src/Proc/Queue/Inv.antt =====
-- The invariant of the queues, and the writes to the table that leave the queues alone.
use os_playground.Base.{
  ℕ, suc, ◌≤◌, ◌<◌, ◌≡◌, refl, sym, ◌≢◌, List, [], ◌∷◌, arith, length, NotIn, Distinct, All,
  All-weaken, NotIn-of_All, pigeonhole, fun_ext, ==_iff, ==_ne,
}
use os_playground.Proc.Table.{Proc, Ptable, ProcState, nproc, nprocq, set_proc}
use os_playground.Proc.Queue.{next_of, queue}
use os_playground.Proc.Queue.Walk.{length-walk, final}

-- `p` points to a slot of the table.
abbrev pub IsSlot : ℕ → Type 0
IsSlot p = (0 < p) × (p ≤ nproc)

-- What every member `p` of queue `q` is.
pub record IsReady (t : Ptable) (q p : ℕ) : Type 0 where
  pub slot : IsSlot p
  pub runnable : (t.proc p).state ≡ ProcState.runnable
  pub priority : (t.proc p).priority ≡ q

-- `last` is the last process that the links reach, the members are runnable slots of the queue's own
-- priority, none of them twice, and every priority has a queue.
pub record IsMlfq (t : Ptable) : Type 0 where
  pub ends : (q n : ℕ) → t.count q ≡ suc n → t.last q ≡ final (next_of t) (t.head q) n
  pub ready : (q : ℕ) → All (IsReady t q) (queue t q)
  pub distinct : (q : ℕ) → Distinct (queue t q)
  pub low : (p : ℕ) → (t.proc p).priority < nprocq

pub length-queue : (t : Ptable) (q : ℕ) → length (queue t q) ≡ t.count q
unfolding queue
length-queue t q = length-walk (next_of t) (t.head q) (t.count q)

-- A queue holds at most as many processes as the table, so a count never wraps.
pub count-le : (t : Ptable) (q : ℕ) → IsMlfq t → t.count q ≤ 65
count-le t q v = omega (
  arith,
  length-queue t q,
  pigeonhole 65 (queue t q) (v.distinct q) (
      All-weaken (IsReady t q) (λ p. p < 65) (queue t q) (λ p r. omega (arith, r.slot))
        (v.ready q)),
)

-- A process that is not runnable is in no queue.
pub NotIn-queue :
    {t : Ptable} (p q : ℕ) → IsMlfq t → (t.proc p).state ≢ ProcState.runnable → NotIn p (queue t q)
NotIn-queue {t} p q v h = NotIn-of_All (IsReady t q) p (queue t q) (v.ready q) (λ r. h r.runnable)

-- The fields of a table that the queues are made of.
pub record SameQueues (t u : Ptable) : Type 0 where
  pub head : u.head ≡ t.head
  pub last : u.last ≡ t.last
  pub count : u.count ≡ t.count
  pub next : (p : ℕ) → (u.proc p).next ≡ (t.proc p).next

pub queue-SameQueues : {t u : Ptable} (q : ℕ) → SameQueues t u → queue u q ≡ queue t q
unfolding queue
queue-SameQueues {t} {u} q s =
    let e : next_of u ≡ next_of t = fun_ext s.next in rw (e, s.head, s.count)

-- A change of other fields that keeps the members ready keeps the invariant.
pub SameQueues-IsMlfq :
    {t u : Ptable}
    → SameQueues t u
    → ((q : ℕ) → All (IsReady u q) (queue t q))
    → ((p : ℕ) → (u.proc p).priority < nprocq)
    → IsMlfq t
    → IsMlfq u
SameQueues-IsMlfq {t} {u} s ready low v = record {
  ends = λ q n e.
      let same : next_of u ≡ next_of t = fun_ext s.next in
      rw (same, s.head, s.last) (v.ends q n (rw s.count at e));
  ready = λ q. rw (queue-SameQueues q s) (ready q);
  distinct = λ q. rw (queue-SameQueues q s) (v.distinct q);
  low = low;
}

module _ (t : Ptable) (p : ℕ) (w : Proc) (linked : w.next ≡ (t.proc p).next) where
  -- A write to one process that keeps its link keeps the queues.
  pub set_proc-SameQueues : SameQueues t (set_proc t p w)
  set_proc-SameQueues = record {
    head = refl;
    last = refl;
    count = refl;
    next = λ j. ground (arith, ==_iff j p);
  }

  IsReady-set_proc :
      (q : ℕ) (xs : List ℕ)
      → All (IsReady t q) xs
      → NotIn p xs
      → All (IsReady (set_proc t p w) q) xs
  IsReady-set_proc q [] h k = tt
  IsReady-set_proc q (x ∷ xs) h k = (
    record {
      slot = h.0.slot;
      runnable = rw (==_ne x p (λ e. k.0 (sym e))) h.0.runnable;
      priority = rw (==_ne x p (λ e. k.0 (sym e))) h.0.priority;
    },
    IsReady-set_proc q xs h.1 k.1,
  )

  -- Written to a process that is in no queue, it keeps the invariant.
  pub set_proc-IsMlfq :
      ((q : ℕ) → NotIn p (queue t q)) → w.priority < nprocq → IsMlfq t → IsMlfq (set_proc t p w)
  set_proc-IsMlfq fresh low v =
      SameQueues-IsMlfq set_proc-SameQueues
        (λ q. IsReady-set_proc q (queue t q) (v.ready q) (fresh q)) (λ j. ground (arith, v.low j)) v
