-- ===== src/Proc/Table.antt =====
-- xv6-l/proc.h and the `ptable` of xv6-l/proc.c.
-- A `struct proc *` is a number: 0 is the null pointer, and 1 up to `nproc` are the slots of
-- `ptable.proc` in order. A channel is an address: a slot's pointer, or a number above `nproc` for
-- any other kernel object. The trap frame, the context, the files and the name are left out.
use os_playground.Base.{ℕ, Bool, update}

-- NPROC and NPROCQ of param.h
abbrev pub nproc : ℕ
nproc = 64

abbrev pub nprocq : ℕ
nprocq = 3

pub data ProcState : Type 0 where
  unused embryo sleeping runnable running zombie : ProcState

pub record Proc : Type 0 where
  pub sz : ℕ
  pub pgdir : ℕ
  pub kstack : ℕ
  pub state : ProcState
  pub pid : ℕ
  pub parent : ℕ
  pub chan : ℕ
  pub killed : Bool
  pub next : ℕ
  pub priority : ℕ
  pub timepiece : ℕ
  pub sharedrec : ℕ → ℕ
  pub widx : ℕ

-- `ptable`, with `initproc`, `nextpid` and the `proc` field of each `struct cpu`. The head and the
-- last of `pqueue[q]` are two arrays.
pub record Ptable : Type 0 where
  pub proc : ℕ → Proc
  pub head : ℕ → ℕ
  pub last : ℕ → ℕ
  pub count : ℕ → ℕ
  pub initproc : ℕ
  pub nextpid : ℕ
  pub cpu : ℕ → ℕ

-- `*p = v`
abbrev pub set_proc : Ptable → ℕ → Proc → Ptable
set_proc t p v = record t { proc = update t.proc p v }

abbrev pub set_state : Ptable → ℕ → ProcState → Ptable
set_state t p s = set_proc t p (record (t.proc p) { state = s })

abbrev pub is_unused : ProcState → Bool
is_unused ProcState.unused = Bool.true
is_unused _ = Bool.false

abbrev pub is_sleeping : ProcState → Bool
is_sleeping ProcState.sleeping = Bool.true
is_sleeping _ = Bool.false

abbrev pub is_runnable : ProcState → Bool
is_runnable ProcState.runnable = Bool.true
is_runnable _ = Bool.false

abbrev pub is_running : ProcState → Bool
is_running ProcState.running = Bool.true
is_running _ = Bool.false

abbrev pub is_zombie : ProcState → Bool
is_zombie ProcState.zombie = Bool.true
is_zombie _ = Bool.false
