-- ===== src/Proc/Sched/Push.antt =====
-- A process that is not runnable becomes so and joins a queue: `yield` and `wakeup1`.
use os_playground.Base.{ℕ, ◌<◌, ◌≡◌, refl, ◌∙◌, ◌≢◌, arith, ==_refl}
use os_playground.Proc.Table.{Proc, Ptable, ProcState, nprocq, set_proc}
use os_playground.Proc.Queue.{queue, qpush}
use os_playground.Proc.Queue.Inv.{
  IsSlot, IsMlfq, NotIn-queue, queue-SameQueues, set_proc-SameQueues, set_proc-IsMlfq,
}
use os_playground.Proc.Queue.Push.{CanPush, enqueue, qpush_refines, qpush-IsMlfq}
use os_playground.Proc.Sched.{yield, demote}

-- `p` is a slot whose process is not runnable, and `w` is what it becomes.
module _ (t : Ptable) (p : ℕ) (w : Proc) (v : IsMlfq t) (slot : IsSlot p)
    (idle : (t.proc p).state ≢ ProcState.runnable) (linked : w.next ≡ (t.proc p).next)
    (runnable : w.state ≡ ProcState.runnable) (low : w.priority < nprocq) where
  written-IsMlfq : IsMlfq (set_proc t p w)
  written-IsMlfq = set_proc-IsMlfq t p w linked (λ q. NotIn-queue p q v idle) low v

  same_queue : (q : ℕ) → queue (set_proc t p w) q ≡ queue t q
  same_queue q = queue-SameQueues q (set_proc-SameQueues t p w linked)

  written-CanPush : CanPush p (set_proc t p w)
  written-CanPush = record {
    slot = slot;
    runnable = rw (==_refl p) runnable;
    fresh = λ q. rw (same_queue q) (NotIn-queue p q v idle);
  }

  pub join-IsMlfq : IsMlfq (qpush p (set_proc t p w))
  join-IsMlfq = qpush-IsMlfq p (set_proc t p w) written-IsMlfq written-CanPush

  pub join_refines : (q : ℕ) → queue (qpush p (set_proc t p w)) q ≡ enqueue w.priority p (queue t) q
  join_refines q =
      qpush_refines p (set_proc t p w) written-IsMlfq written-CanPush q
      ∙ rw (==_refl p, same_queue q)

module _ (t : Ptable) (p : ℕ) (v : IsMlfq t) (slot : IsSlot p)
    (runs : (t.proc p).state ≡ ProcState.running) where
  not_runnable : (t.proc p).state ≢ ProcState.runnable
  not_runnable e = cc

  demote_low : demote (t.proc p).priority < nprocq
  demote_low = ground (arith, v.low p)

  -- `yield` of a running process keeps the invariant and appends the process to the queue one
  -- priority down, or to the lowest where it is there already; the other queues stay.
  pub yield_refines :
      IsMlfq (yield p t)
      × ((q : ℕ) → queue (yield p t) q ≡ enqueue (demote (t.proc p).priority) p (queue t) q)
  unfolding yield
  yield_refines = (
    join-IsMlfq t p _ v slot not_runnable refl refl demote_low,
    join_refines t p _ v slot not_runnable refl refl demote_low,
  )
