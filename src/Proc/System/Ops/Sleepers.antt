-- ===== src/Proc/System/Ops/Sleepers.antt =====
-- `wakeup1`, `kill`, `sleep` and `wait` are quiet; what the search through the table finds.
use os_playground.Base.{
  ℕ, zero, suc, ◌+◌, ◌≤◌, ◌<◌, ◌≡◌, ◌⊎◌, inl, inr, refl, arith, Bool, true, false, not, ◌&&◌, ◌||◌,
  Bool-cases, ◌==◌,
}
use os_playground.Proc.Table.{Proc, Ptable, ProcState, nproc, set_proc, is_sleeping, is_zombie}
use os_playground.Proc.Queue.Inv.{IsSlot, IsMlfq}
use os_playground.Proc.Sched.{for_procs, sleeps_on, wake_one, wakeup1, sleep}
use os_playground.Proc.Life.{WaitResult, blocked, find_from, find_proc, scan, wait, kill}
use os_playground.Proc.System.Quiet.{
  Quiet, Quiet-refl, Quiet-trans, mark-Quiet, change-Quiet, join-Quiet,
}

-- A loop over the table of quiet bodies is quiet.
pub for_procs-Quiet :
    (a : ℕ) (body : ℕ → Ptable → Ptable)
    → ((p : ℕ) (t : Ptable) → IsSlot p → IsMlfq t → Quiet a t (body p t))
    → (p n : ℕ) (t : Ptable) → 0 < p
    → p + n ≤ nproc + 1
    → IsMlfq t
    → Quiet a t (for_procs body p n t)
unfolding for_procs
for_procs-Quiet a body step p zero t pos top v = Quiet-refl a t v
for_procs-Quiet a body step p (suc n) t pos top v =
    let first = step p t (omega arith) v in
    Quiet-trans first
      (for_procs-Quiet a body step (p + 1) n (body p t) (omega arith) (omega arith) first.keeps)

wake_one-Quiet : (a chan p : ℕ) (t : Ptable) → IsSlot p → IsMlfq t → Quiet a t (wake_one chan p t)
wake_one-Quiet a chan p t slot v = elim (Bool-cases (sleeps_on chan (t.proc p))) [
  | inl asleep ↦
      unfold wake_one in
      rw asleep (
        join-Quiet a t p _ v refl (λ e. ground arith) (λ e. absurd (ground arith))
          (ground (arith, v.low p)) slot refl)
  | inr awake ↦ unfold wake_one in rw awake (Quiet-refl a t v)
]

pub wakeup1-Quiet : (a chan : ℕ) (t : Ptable) → IsMlfq t → Quiet a t (wakeup1 chan t)
unfolding wakeup1
wakeup1-Quiet a chan t v =
    for_procs-Quiet a (wake_one chan) (wake_one-Quiet a chan) 1 nproc t (omega arith) (omega arith)
      v

-- What the search through the table finds.
pub find_from_lem :
    (test : ℕ → Bool) (p n : ℕ)
    → 0 < p
    → (find_from test p n ≡ 0)
      ⊎ ((p ≤ find_from test p n)
          × (find_from test p n < p + n)
          × (test (find_from test p n) ≡ true))
unfolding find_from
find_from_lem test p zero pos = inl refl
find_from_lem test p (suc n) pos = elim (Bool-cases (test p)) [
  | inl hit ↦ inr (rw hit (omega arith, omega arith, hit))
  | inr miss ↦ rw miss (shift (find_from_lem test (p + 1) n (omega arith)))
]
  where
    shift :
        {m : ℕ}
        → (m ≡ 0) ⊎ ((p + 1 ≤ m) × (m < p + 1 + n) × (test m ≡ true))
        → (m ≡ 0) ⊎ ((p ≤ m) × (m < p + suc n) × (test m ≡ true))
    shift (inl z) = inl z
    shift (inr (a, b, c)) = inr (omega arith, omega arith, c)

pub find_proc_lem :
    (test : ℕ → Bool)
    → (find_proc test ≡ 0) ⊎ (IsSlot (find_proc test) × (test (find_proc test) ≡ true))
unfolding find_proc
find_proc_lem test = from (find_from_lem test 1 nproc (omega arith))
  where
    from :
        {m : ℕ}
        → (m ≡ 0) ⊎ ((1 ≤ m) × (m < 1 + nproc) × (test m ≡ true))
        → (m ≡ 0) ⊎ (IsSlot m × (test m ≡ true))
    from (inl z) = inl z
    from (inr (a, b, c)) = inr (omega arith, c)

pub kill-Quiet : (a pid : ℕ) (t : Ptable) → IsMlfq t → Quiet a t (kill pid t).1
kill-Quiet a pid t v = elim (Bool-cases (p == 0)) [
  | inl missing ↦ unfold kill in rw missing (Quiet-refl a t v)
  | inr found ↦ elim (Bool-cases (is_sleeping (t.proc p).state)) [
    | inl asleep ↦
        unfold kill in
        rw (found, asleep)
          (Quiet-trans marked (
            change-Quiet a (set_proc t p w) p _ marked.keeps refl (λ e. ground arith)
              (λ e. absurd (ground arith)) (marked.keeps.low p)))
    | inr awake ↦ unfold kill in rw (found, awake) marked
  ]
]
  where
    p : ℕ
    p = find_proc (λ i. (t.proc i).pid == pid)

    w : Proc
    w = record (t.proc p) { killed = true }

    marked : Quiet a t (set_proc t p w)
    marked = mark-Quiet a t p w v refl refl refl

-- A running process goes to sleep.
pub sleep-Quiet :
    (a chan : ℕ) (t : Ptable)
    → (t.proc a).state ≡ ProcState.running
    → IsMlfq t
    → Quiet a t (sleep a chan t)
unfolding sleep
sleep-Quiet a chan t runs v = change-Quiet a t a _ v refl (λ e. ground arith) (λ e. refl) (v.low a)

-- A process that `wait` puts to sleep has stopped; in the other cases it runs on.
abbrev pub WaitQuiet : ℕ → Ptable → WaitResult × Ptable → Type 0
WaitQuiet cur t (blocked, u) = Quiet cur t u
WaitQuiet cur t (_, u) = Quiet 0 t u

scan-WaitQuiet :
    (cur p n : ℕ) (havekids : Bool) (t : Ptable)
    → (t.proc cur).state ≡ ProcState.running
    → IsMlfq t
    → WaitQuiet cur t (scan cur p n havekids t)
unfolding scan
scan-WaitQuiet cur p zero havekids t runs v =
    elim (Bool-cases (not havekids || (t.proc cur).killed)) [
      | inl stop ↦ rw stop (Quiet-refl 0 t v)
      | inr go ↦ rw go (sleep-Quiet cur cur t runs v)
    ]
scan-WaitQuiet cur p (suc n) havekids t runs v =
    elim (Bool-cases ((t.proc p).parent == cur && is_zombie (t.proc p).state)) [
      | inl hit ↦
          rw hit
            (change-Quiet 0 t p _ v refl (λ e. ground arith) (λ e. absurd (ground arith)) (v.low p))
      | inr miss ↦
          rw miss (scan-WaitQuiet cur (p + 1) n (havekids || (t.proc p).parent == cur) t runs v)
    ]

pub wait-WaitQuiet :
    (cur : ℕ) (t : Ptable)
    → (t.proc cur).state ≡ ProcState.running
    → IsMlfq t
    → WaitQuiet cur t (wait cur t)
unfolding wait
wait-WaitQuiet cur t = scan-WaitQuiet cur 1 nproc false t
