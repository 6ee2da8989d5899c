-- ===== src/Proc/Sched.antt =====
-- `scheduler`, `yield`, `sleep`, `wakeup1` and `wakeup` of xv6-l/proc.c, and the clock tick of
-- xv6-l/trap.c. Each runs with `ptable.lock` held, so each is one change of the table.
pub mod Push
pub mod Dispatch
pub mod Wake
pub mod Tick
use os_playground.Base.{
  ℕ, zero, suc, ◌+◌, ◌-◌, Bool, Option, none, some, ltb, ◌==◌, ◌&&◌, if◌then◌else◌, update,
}
use os_playground.Proc.Table.{
  Proc, Ptable, ProcState, nproc, nprocq, set_proc, set_state, is_sleeping, is_running,
}
use os_playground.Proc.Queue.{qpush, advance, drop_stale, dec32}

-- What the scheduler of CPU `c` does with the process that it has chosen, up to `swtch`.
abbrev pub run_on : ℕ → ℕ → Ptable → Ptable
run_on c p t = set_state (record t { cpu = update t.cpu c p }) p ProcState.running

-- One round of the loop over the queues, with the process chosen.
unfoldable pub visit : ℕ → ℕ → Ptable → Option ℕ × Ptable
visit c q t =
    let t' = drop_stale (t.count q) q t in
    if ltb 0 (t'.count q)
    then (some (t'.head q), run_on c (t'.head q) (advance q t'))
    else (none, t')

-- The loop from queue `n - 1` down to queue 0, which ends with the first process chosen.
unfoldable pub pass : ℕ → ℕ → Ptable → Option ℕ × Ptable
pass c zero t = (none, t)
pass c (suc q) t =
    let (chosen, t') = visit c q t in elim chosen [ none ↦ pass c q t' | some p ↦ (some p, t') ]

-- One round of `scheduler`, up to `swtch`.
unfoldable pub scheduler : ℕ → Ptable → Option ℕ × Ptable
scheduler c t = pass c nprocq t

-- Back in `scheduler` after `swtch`: `c->proc = 0`.
abbrev pub back_on : ℕ → Ptable → Ptable
back_on c t = record t { cpu = update t.cpu c 0 }

abbrev pub demote : ℕ → ℕ
demote priority = if ltb 0 priority then priority - 1 else priority

abbrev pub promote : ℕ → ℕ
promote priority = if ltb priority (nprocq - 1) then priority + 1 else priority

-- `yield` up to `sched`.
unfoldable pub yield : ℕ → Ptable → Ptable
yield p t = qpush p (
    set_proc t p
      (record (t.proc p) { state = ProcState.runnable; priority = demote (t.proc p).priority }))

-- The end of `trap` at a timer interrupt, for the process `p` of the CPU (0 for none).
unfoldable pub timer_tick : ℕ → Ptable → Ptable
unfolding yield
timer_tick p t =
    if p == 0
    then t
    else if is_running (t.proc p).state
    then (let left = dec32 (t.proc p).timepiece in
        let t' = set_proc t p (record (t.proc p) { timepiece = left }) in
        if left == 0 then yield p t' else t')
    else t

-- `sleep` up to `sched`, and its rest after the process has run again.
unfoldable pub sleep : ℕ → ℕ → Ptable → Ptable
sleep p chan t = set_proc t p (record (t.proc p) { chan = chan; state = ProcState.sleeping })

unfoldable pub tidy : ℕ → Ptable → Ptable
tidy p t = set_proc t p (record (t.proc p) { chan = 0 })

-- `for(p = ptable.proc; p < &ptable.proc[NPROC]; p++)`, for a body that never leaves the loop: `n`
-- slots from `p` on.
unfoldable pub for_procs : (ℕ → Ptable → Ptable) → ℕ → ℕ → Ptable → Ptable
for_procs body p zero t = t
for_procs body p (suc n) t = for_procs body (p + 1) n (body p t)

abbrev pub sleeps_on : ℕ → Proc → Bool
sleeps_on chan p = is_sleeping p.state && p.chan == chan

unfoldable pub wake_one : ℕ → ℕ → Ptable → Ptable
wake_one chan p t =
    if sleeps_on chan (t.proc p)
    then qpush p (
        set_proc t p (record (t.proc p) {
          state = ProcState.runnable;
          priority = promote (t.proc p).priority;
        }))
    else t

unfoldable pub wakeup1 : ℕ → Ptable → Ptable
wakeup1 chan t = for_procs (wake_one chan) 1 nproc t

-- The table as `wakeup` sees it, between `acquire` and `release`.
unfoldable pub wakeup : ℕ → Ptable → Ptable
wakeup chan t = wakeup1 chan t
