-- ===== src/Proc/System/Quiet.antt =====
-- Changes of the table that run no process: what they keep. `a` is the process that acts, 0 for an
-- interrupt.
use os_playground.Base.{
  ℕ, ◌<◌, ◌≡◌, refl, ◌∙◌, ◌≢◌, [], ◌∷◌, ◌++◌, arith, true, false, ==_iff, ==_ne, if◌then◌else◌,
  ◌==◌, NotIn, NotIn-append, All-weaken, ℕ_discrete,
}
use os_playground.Proc.Table.{Proc, Ptable, ProcState, nprocq, set_proc}
use os_playground.Proc.Queue.{queue, qpush}
use os_playground.Proc.Queue.Inv.{
  IsSlot, IsReady, IsMlfq, SameQueues, NotIn-queue, queue-SameQueues, set_proc-SameQueues,
  set_proc-IsMlfq, SameQueues-IsMlfq,
}
use os_playground.Proc.Queue.Push.{enqueue, state-qpush, cpu-qpush}
use os_playground.Proc.Sched.Push.{join-IsMlfq, join_refines}

-- Runnable, and in no queue.
pub record IsStranded (p : ℕ) (t : Ptable) : Type 0 where
  pub runnable : (t.proc p).state ≡ ProcState.runnable
  pub lost : (q : ℕ) → NotIn p (queue t q)

pub record Quiet (a : ℕ) (t u : Ptable) : Type 0 where
  pub keeps : IsMlfq u
  pub strands : (p : ℕ) → IsStranded p t → IsStranded p u
  pub runs :
      (j : ℕ) → j ≢ a → (t.proc j).state ≡ ProcState.running → (u.proc j).state ≡ ProcState.running
  pub cpus : u.cpu ≡ t.cpu

pub Quiet-refl : (a : ℕ) (t : Ptable) → IsMlfq t → Quiet a t t
Quiet-refl a t v = record { keeps = v; strands = λ p s. s; runs = λ j ne r. r; cpus = refl }

pub Quiet-trans : {a : ℕ} {t u w : Ptable} → Quiet a t u → Quiet a u w → Quiet a t w
Quiet-trans x y = record {
  keeps = y.keeps;
  strands = λ p s. y.strands p (x.strands p s);
  runs = λ j ne r. y.runs j ne (x.runs j ne r);
  cpus = y.cpus ∙ x.cpus;
}

-- A write that keeps state, priority and link.
module _ (a : ℕ) (t : Ptable) (p : ℕ) (w : Proc) (v : IsMlfq t) (linked : w.next ≡ (t.proc p).next)
    (same : w.state ≡ (t.proc p).state) (level : w.priority ≡ (t.proc p).priority) where
  state-mark : (j : ℕ) → ((set_proc t p w).proc j).state ≡ (t.proc j).state
  state-mark j = ground (arith, ==_iff j p)

  priority-mark : (j : ℕ) → ((set_proc t p w).proc j).priority ≡ (t.proc j).priority
  priority-mark j = ground (arith, ==_iff j p)

  pub mark-Quiet : Quiet a t (set_proc t p w)
  mark-Quiet = record {
    keeps =
        SameQueues-IsMlfq (set_proc-SameQueues t p w linked)
          (λ q.
            All-weaken (IsReady t q) (IsReady (set_proc t p w) q) (queue t q)
              (λ j r. record {
                slot = r.slot;
                runnable = state-mark j ∙ r.runnable;
                priority = priority-mark j ∙ r.priority;
              })
              (v.ready q))
          (λ j. rw (priority-mark j) (v.low j)) v;
    strands = λ j s. record {
      runnable = state-mark j ∙ s.runnable;
      lost = λ q. rw (queue-SameQueues q (set_proc-SameQueues t p w linked)) (s.lost q);
    };
    runs = λ j ne r. state-mark j ∙ r;
    cpus = refl;
  }

-- A change of state of a process that is not runnable, and runs only if it is the one that acts.
module _ (a : ℕ) (t : Ptable) (p : ℕ) (w : Proc) (v : IsMlfq t) (linked : w.next ≡ (t.proc p).next)
    (idle : (t.proc p).state ≢ ProcState.runnable)
    (rests : ((t.proc p).state ≡ ProcState.running) → p ≡ a) (low : w.priority < nprocq) where
  runs_on :
      (j : ℕ)
      → j ≢ a
      → (t.proc j).state ≡ ProcState.running
      → ((set_proc t p w).proc j).state ≡ ProcState.running
  runs_on j ne r = elim (ℕ_discrete j p) [
    | yes e ↦ absurd (ne (e ∙ rests (rw e at r)))
    | no other ↦ rw (==_ne j p other) r
  ]

  apart : (j : ℕ) → IsStranded j t → j ≢ p
  apart j s e = idle (rw e at s.runnable)

  pub change-Quiet : Quiet a t (set_proc t p w)
  change-Quiet = record {
    keeps = set_proc-IsMlfq t p w linked (λ q. NotIn-queue p q v idle) low v;
    strands = λ j s. record {
      runnable = rw (==_ne j p (apart j s)) s.runnable;
      lost = λ q. rw (queue-SameQueues q (set_proc-SameQueues t p w linked)) (s.lost q);
    };
    runs = runs_on;
    cpus = refl;
  }

  -- The same, followed by `qpush`.
  pub join-Quiet : IsSlot p → w.state ≡ ProcState.runnable → Quiet a t (qpush p (set_proc t p w))
  join-Quiet slot ready = record {
    keeps = join-IsMlfq t p w v slot idle linked ready low;
    strands = λ j s. record {
      runnable = state-qpush p (set_proc t p w) j ∙ rw (==_ne j p (apart j s)) s.runnable;
      lost = λ q. rw (join_refines t p w v slot idle linked ready low q) (lost_enqueue j q s);
    };
    runs = λ j ne r. state-qpush p (set_proc t p w) j ∙ runs_on j ne r;
    cpus = cpu-qpush p (set_proc t p w);
  }
    where
      lost_enqueue : (j q : ℕ) → IsStranded j t → NotIn j (enqueue w.priority p (queue t) q)
      lost_enqueue j q s =
          elim (q == w.priority) as (λ b. NotIn j (if b then queue t q ++ p ∷ [] else queue t q)) [
            | true ↦ NotIn-append j (queue t q) (p ∷ []) (s.lost q) (apart j s, tt)
            | false ↦ s.lost q
          ]

-- A change of `nextpid`, or of a CPU's field where that is said.
module _ (t u : Ptable) (v : IsMlfq t) (s : SameQueues t u) (procs : u.proc ≡ t.proc) where
  pub relabel-IsMlfq : IsMlfq u
  relabel-IsMlfq =
      SameQueues-IsMlfq s
        (λ q.
          All-weaken (IsReady t q) (IsReady u q) (queue t q)
            (λ j r. record {
              slot = r.slot;
              runnable = rw procs r.runnable;
              priority = rw procs r.priority;
            })
            (v.ready q))
        (λ j. rw procs (v.low j)) v

  pub relabel-IsStranded : (p : ℕ) → IsStranded p t → IsStranded p u
  relabel-IsStranded p h = record {
    runnable = rw procs h.runnable;
    lost = λ q. rw (queue-SameQueues q s) (h.lost q);
  }

  pub relabel-Quiet : (a : ℕ) → u.cpu ≡ t.cpu → Quiet a t u
  relabel-Quiet a e = record {
    keeps = relabel-IsMlfq;
    strands = relabel-IsStranded;
    runs = λ j ne r. rw procs r;
    cpus = e;
  }
