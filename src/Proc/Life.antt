-- ===== src/Proc/Life.antt =====
-- `allocproc`, `fork`, `exit`, `wait` and `kill` of xv6-l/proc.c, on the process table.
use os_playground.Base.{
  ℕ, zero, suc, ◌+◌, ◌-◌, Bool, true, false, not, Option, none, some, ltb, ◌==◌, ◌&&◌, ◌||◌,
  if◌then◌else◌,
}
use os_playground.Proc.Table.{
  Ptable, ProcState, nproc, nprocq, set_proc, set_state, is_unused, is_sleeping, is_zombie,
}
use os_playground.Proc.Queue.{qpush}
use os_playground.Proc.Sched.{for_procs, wakeup1, sleep}

-- MAXSHAREDPG of param.h
abbrev pub maxsharedpg : ℕ
maxsharedpg = 10

-- PGSIZE of mmu.h
abbrev pub pgsize : ℕ
pgsize = 4096

-- The first of `n` slots from `p` on that passes the test, 0 for none.
unfoldable pub find_from : (ℕ → Bool) → ℕ → ℕ → ℕ
find_from test p zero = 0
find_from test p (suc n) = let rest = find_from test (p + 1) n in if test p then p else rest

unfoldable pub find_proc : (ℕ → Bool) → ℕ
unfolding find_from
find_proc test = find_from test 1 nproc

-- The slot that `allocproc` takes, marked and numbered; 0 where none is free.
unfoldable pub take_slot : Ptable → ℕ × Ptable
unfolding find_proc
take_slot t =
    let p = find_proc (λ i. is_unused (t.proc i).state) in
    if p == 0 then (0, t) else (
      p,
      record (set_proc t p (record (t.proc p) { state = ProcState.embryo; pid = t.nextpid })) {
        nextpid = t.nextpid + 1;
      },
    )

-- `page` is what `kalloc` returns, 0 where it fails.
unfoldable pub allocproc : ℕ → Ptable → ℕ × Ptable
unfolding take_slot
allocproc page t =
    let (p, t') = take_slot t in
    if p == 0
    then (0, t')
    else if page == 0
    then (0, set_proc t' p (record (t'.proc p) { kstack = 0; state = ProcState.unused }))
    else (p, set_proc t' p (record (t'.proc p) { kstack = page; priority = nprocq - 1; widx = 0 }))

-- `for(i=1;i<MAXSHAREDPG;i++) np->sharedrec[i]=0;`
abbrev pub clear_shared : (ℕ → ℕ) → ℕ → ℕ
clear_shared rec i = if ltb 0 i && ltb i maxsharedpg then 0 else rec i

-- `page` is what `kalloc` returns for the kernel stack and `pgdir` what `copyuvm` returns, 0 where
-- they fail. The result is the child's pid, `none` for -1.
unfoldable pub fork : ℕ → ℕ → ℕ → Ptable → Option ℕ × Ptable
unfolding allocproc
fork cur page pgdir t =
    let (np, t') = allocproc page t in
    if np == 0
    then (none, t')
    else if pgdir == 0
    then (
      none,
      set_proc t' np (record (t'.proc np) { pgdir = 0; kstack = 0; state = ProcState.unused }),
    )
    else (let pushed = qpush np (
          set_proc t' np (record (t'.proc np) {
            pgdir = pgdir;
            sz = (t'.proc cur).sz;
            parent = cur;
            state = ProcState.runnable;
          })) in
        (
          some (t'.proc np).pid,
          set_proc pushed np
              (record (pushed.proc np) { sharedrec = clear_shared (pushed.proc np).sharedrec }),
        ))

-- `pgdir` is what `setupkvm` returns. `none` is the panic "userinit: out of memory?", or the write
-- through the null pointer where `allocproc` fails. The trap frame, the name and the directory are
-- left out.
unfoldable pub userinit : ℕ → ℕ → Ptable → Option Ptable
unfolding allocproc
userinit page pgdir t =
    let (p, t') = allocproc page t in
    if p == 0
    then none
    else if pgdir == 0
    then none
    else some (
        qpush p (
          set_proc (record t' { initproc = p }) p
            (record (t'.proc p) { pgdir = pgdir; sz = pgsize; state = ProcState.runnable })))

unfoldable pub abandon : ℕ → ℕ → Ptable → Ptable
abandon cur p t =
    if (t.proc p).parent == cur
    then (let t' = set_proc t p (record (t.proc p) { parent = t.initproc }) in
        if is_zombie (t'.proc p).state then wakeup1 t.initproc t' else t')
    else t

-- `none` is the panic "init exiting". The files and the directory are closed before this part.
unfoldable pub exit : ℕ → Ptable → Option Ptable
exit cur t =
    if cur == t.initproc
    then none
    else (let woken = wakeup1 (t.proc cur).parent t in
        some (set_state (for_procs (abandon cur) 1 nproc woken) cur ProcState.zombie))

pub data WaitResult : Type 0 where
  reaped : ℕ → WaitResult
  failed : WaitResult
  blocked : WaitResult

-- The slot of a zombie is given back.
abbrev pub reap : ℕ → Ptable → Ptable
reap p t = set_proc t p (record (t.proc p) {
  kstack = 0;
  pid = 0;
  parent = 0;
  killed = false;
  state = ProcState.unused;
})

-- The scan for an exited child, from `p` on, and what follows it: `blocked` is a process that has
-- gone to sleep on itself, to scan again when it runs.
unfoldable pub scan : ℕ → ℕ → ℕ → Bool → Ptable → WaitResult × Ptable
scan cur p zero havekids t =
    if not havekids || (t.proc cur).killed then (failed, t) else (blocked, sleep cur cur t)
scan cur p (suc n) havekids t =
    let mine = (t.proc p).parent == cur in
    let rest = scan cur (p + 1) n (havekids || mine) t in
    if mine && is_zombie (t.proc p).state then (reaped (t.proc p).pid, reap p t) else rest

unfoldable pub wait : ℕ → Ptable → WaitResult × Ptable
unfolding scan
wait cur t = scan cur 1 nproc false t

-- The body of `kill` for the slot that the search has found, 0 for none; `false` is the result -1.
unfoldable pub kill_slot : ℕ → Ptable → Bool × Ptable
kill_slot p t =
    if p == 0
    then (false, t)
    else (let marked = set_proc t p (record (t.proc p) { killed = true }) in
        (
          true,
          if is_sleeping (t.proc p).state then set_state marked p ProcState.runnable else marked,
        ))

unfoldable pub kill : ℕ → Ptable → Bool × Ptable
unfolding kill_slot find_proc
kill pid t = kill_slot (find_proc (λ i. (t.proc i).pid == pid)) t
