-- ===== src/Proc/System/Boot.antt =====
-- The process table before the first process, and after `userinit`.
use os_playground.Base.{ℕ, ◌≡◌, refl, some, arith, false}
use os_playground.Proc.Table.{Proc, Ptable, ProcState}
use os_playground.Proc.Queue.{queue}
use os_playground.Proc.Queue.Inv.{IsMlfq}
use os_playground.Proc.Life.{userinit}
use os_playground.Proc.System.Ops.{userinit-Quiet}
use os_playground.Proc.System.Safety.{IsSched}

-- A `struct proc` and the `ptable` of the zeroed data segment, with `nextpid = 1`.
abbrev pub zero_proc : Proc
zero_proc = record {
  sz = 0;
  pgdir = 0;
  kstack = 0;
  state = ProcState.unused;
  pid = 0;
  parent = 0;
  chan = 0;
  killed = false;
  next = 0;
  priority = 0;
  timepiece = 0;
  sharedrec = λ i. 0;
  widx = 0;
}

abbrev pub boot : Ptable
boot = record {
  proc = λ p. zero_proc;
  head = λ q. 0;
  last = λ q. 0;
  count = λ q. 0;
  initproc = 0;
  nextpid = 1;
  cpu = λ c. 0;
}

boot-IsMlfq : IsMlfq boot
unfolding queue
boot-IsMlfq = record {
  ends = λ q n e. absurd (omega arith);
  ready = λ q. tt;
  distinct = λ q. tt;
  low = λ p. omega arith;
}

pub boot-IsSched : IsSched boot
boot-IsSched = record {
  mlfq = boot-IsMlfq;
  slot = λ c h. absurd (h refl);
  runs = λ c h. absurd (h refl);
  alone = λ c d h. absurd (h refl);
}

-- A table on which `userinit` succeeds stays sound.
pub userinit-IsSched :
    (page pgdir : ℕ) (t u : Ptable) → IsSched t → userinit page pgdir t ≡ some u → IsSched u
userinit-IsSched page pgdir t u s e =
    let q = userinit-Quiet 0 page pgdir t u s.mlfq e in
    record {
      mlfq = q.keeps;
      slot = λ c. rw q.cpus (s.slot c);
      runs = λ c. rw q.cpus (λ h. q.runs (t.cpu c) h (s.runs c h));
      alone = λ c d. rw q.cpus (s.alone c d);
    }
