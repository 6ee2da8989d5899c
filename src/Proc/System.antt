-- ===== src/Proc/System.antt =====
-- All CPUs together: what may happen to the process table, one critical section of `ptable.lock`
-- after another, in any order. What a process does between two of them is not modelled.
mod Quiet
mod Ops
pub mod Safety
pub mod Stranded
pub mod Boot
use os_playground.Base.{ℕ, ◌≡◌, ◌≢◌, Option, some}
use os_playground.Proc.Table.{Proc, Ptable, ProcState}
use os_playground.Proc.Sched.{scheduler, back_on, yield, sleep, tidy, wakeup, timer_tick}
use os_playground.Proc.Life.{WaitResult, reaped, failed, blocked, fork, exit, wait, kill}

-- What `wait` leaves of the CPU: a process that sleeps has left it.
abbrev pub after_wait : ℕ → WaitResult × Ptable → Ptable
after_wait c (blocked, t) = back_on c t
after_wait c (_, t) = t

-- `c` is the CPU that the step happens on, and `t.cpu c` its process. A child of `fork` is in
-- nobody's hands until it is runnable, so that `fork` is one step.
pub data Step (t : Ptable) : Ptable → Type 0 where
  dispatch : (c p : ℕ) → t.cpu c ≡ 0 → (scheduler c t).0 ≡ some p → Step t (scheduler c t).1
  gives_up : (c : ℕ) → t.cpu c ≢ 0 → Step t (back_on c (yield (t.cpu c) t))
  sleeps : (c chan : ℕ) → t.cpu c ≢ 0 → Step t (back_on c (sleep (t.cpu c) chan t))
  resumes : (c : ℕ) → t.cpu c ≢ 0 → Step t (tidy (t.cpu c) t)
  wakes : (chan : ℕ) → Step t (wakeup chan t)
  kills : (pid : ℕ) → Step t (kill pid t).1
  forks : (c page pgdir : ℕ) → t.cpu c ≢ 0 → Step t (fork (t.cpu c) page pgdir t).1
  exits : (c : ℕ) {u : Ptable} → t.cpu c ≢ 0 → exit (t.cpu c) t ≡ some u → Step t (back_on c u)
  waits : (c : ℕ) → t.cpu c ≢ 0 → Step t (after_wait c (wait (t.cpu c) t))

pub data Reach (s : Ptable) : Ptable → Type 0 where
  here : Reach s s
  next : {t u : Ptable} → Reach s t → Step t u → Reach s u
