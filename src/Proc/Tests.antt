-- ===== src/Proc/Tests.antt =====
-- Runs of the process table, and the theorems about it at concrete tables.
use os_playground.Base.{
  ℕ, ◌≡◌, refl, none, some, arith, ◌++◌, ◌-◌, ◌≤◌, if◌then◌else◌, true, NotIn, ◌⊎◌,
}
use mathlib.Core.Option
use os_playground.Proc.Table.{Ptable, ProcState, nproc, nprocq, is_runnable}
use os_playground.Proc.Queue.{queue, qpush, advance, drop_stale}
use os_playground.Proc.Queue.Inv.{IsMlfq, IsSlot}
use os_playground.Proc.Sched.{scheduler, pass, visit, yield, sleep, wakeup, back_on, sleeps_on}
use os_playground.Proc.Life.{userinit, fork, kill, find_proc}
use os_playground.Proc.System.{dispatch, sleeps, forks, Reach, here, next}
use os_playground.Proc.System.Safety.{IsSched, Reach-IsSched}
use os_playground.Proc.System.Boot.{boot, boot-IsSched, userinit-IsSched}
use os_playground.Proc.System.Stranded.{kill_strands_sleeper}
use os_playground.Proc.Queue.Push.{enqueue}
use os_playground.Proc.Queue.Pop.{drop_stale_stops}
use os_playground.Proc.Sched.Dispatch.{IsDispatched, choose, scheduler_refines}
use os_playground.Proc.Sched.Push.{yield_refines}
use os_playground.Proc.Sched.Wake.{woken, wakeup_refines}
use os_playground.Proc.Sched.Tick.{ticks, with_timepiece, ticks-slice}

-- The table after `userinit`: init is process 1, in the highest queue.
abbrev started : Ptable
started = Option.get_or (userinit 4096 8192 boot) boot

started-IsSched : IsSched started
unfolding userinit qpush
started-IsSched = userinit-IsSched 4096 8192 boot started boot-IsSched refl

-- Init runs on CPU 0, and has forked process 2.
abbrev running : Ptable
running = (scheduler 0 started).1

abbrev forked : Ptable
forked = (fork 1 12288 16384 running).1

-- Init sleeps on channel 500 and process 2 runs.
abbrev slept : Ptable
slept = back_on 0 (sleep 1 500 forked)

abbrev both : Ptable
both = (scheduler 0 slept).1

to_running : Reach started running
unfolding userinit qpush scheduler pass visit drop_stale
to_running = next here (dispatch 0 1 refl refl)

to_forked : Reach started forked
unfolding userinit qpush scheduler pass visit drop_stale advance
to_forked = next to_running (forks 0 12288 16384 (λ e. omega arith))

to_slept : Reach started slept
unfolding userinit qpush scheduler pass visit drop_stale advance fork
to_slept = next to_forked (sleeps 0 500 (λ e. omega arith))

to_both : Reach started both
unfolding userinit qpush scheduler pass visit drop_stale advance fork sleep
to_both = next to_slept (dispatch 0 2 refl refl)

Reach-IsSched_example : IsSched both
Reach-IsSched_example = Reach-IsSched started-IsSched to_both

slept-IsSched : IsSched slept
slept-IsSched = Reach-IsSched started-IsSched to_slept

-- Init sleeps and is killed; the next process is dispatched, and init stays where it is.
abbrev after_kill : Ptable
after_kill = (kill 1 slept).1

to_after_kill : Reach after_kill (scheduler 0 after_kill).1
unfolding userinit qpush scheduler pass visit drop_stale advance fork sleep kill
to_after_kill = next here (dispatch 0 2 refl refl)

kill_strands_sleeper_example :
    ((kill 1 slept).0 ≡ true)
    × (((scheduler 0 after_kill).1.proc 1).state ≡ ProcState.runnable)
    × ((q : ℕ) → NotIn 1 (queue (scheduler 0 after_kill).1 q))
unfolding userinit qpush scheduler pass visit drop_stale advance fork sleep find_proc
kill_strands_sleeper_example =
    kill_strands_sleeper 1 slept slept-IsSched (λ e. omega arith) refl to_after_kill

stranded :
    (((kill 1 slept).1.proc 1).state ≡ ProcState.runnable)
    × ((q : ℕ) → NotIn 1 (queue after_kill q))
unfolding userinit qpush scheduler pass visit drop_stale advance fork sleep find_proc
stranded =
    let (done, state, lost) =
      kill_strands_sleeper 1 slept slept-IsSched (λ e. omega arith) refl here in
    (state, lost)

drop_stale_stops_example :
    ((drop_stale 1 2 started).count 2 ≡ 0)
    ⊎ (is_runnable ((drop_stale 1 2 started).proc ((drop_stale 1 2 started).head 2)).state ≡ true)
unfolding userinit qpush
drop_stale_stops_example = drop_stale_stops 1 2 started (omega arith) (omega arith)

scheduler_refines_example :
    ((choose nprocq (queue started) ≡ none) × (scheduler 0 started ≡ (none, started)))
    ⊎ ((p : ℕ) × ((scheduler 0 started).0 ≡ some p)
        × IsDispatched 0 p started (scheduler 0 started).1)
scheduler_refines_example = scheduler_refines 0 started started-IsSched.mlfq

running-IsSched : IsSched running
running-IsSched = Reach-IsSched started-IsSched to_running

yield_refines_example :
    IsMlfq (yield 1 running) × ((q : ℕ) → queue (yield 1 running) q ≡ enqueue 1 1 (queue running) q)
unfolding userinit qpush scheduler pass visit drop_stale advance
yield_refines_example = yield_refines running 1 running-IsSched.mlfq (omega arith) refl

wakeup_refines_example :
    IsMlfq (wakeup 500 slept)
    × ((q : ℕ) → queue (wakeup 500 slept) q ≡ queue slept q ++ woken 500 q slept 1 nproc)
    × ((j : ℕ)
        → IsSlot j
        → ((wakeup 500 slept).proc j).state
          ≡ (if sleeps_on 500 (slept.proc j) then ProcState.runnable else (slept.proc j).state))
wakeup_refines_example = wakeup_refines 500 slept slept-IsSched.mlfq

-- Init with three ticks left.
abbrev sliced : Ptable
sliced = with_timepiece 1 3 running

ticks-slice_example :
    ((k : ℕ) → k ≤ 2 → ticks 1 k sliced ≡ with_timepiece 1 (3 - k) sliced)
    × (ticks 1 3 sliced ≡ yield 1 (with_timepiece 1 0 sliced))
    × (((ticks 1 3 sliced).proc 1).timepiece ≡ 2)
unfolding userinit qpush scheduler pass visit drop_stale advance
ticks-slice_example = ticks-slice 1 2 sliced (λ e. omega arith) refl refl (omega arith)
