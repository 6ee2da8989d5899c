-- ===== src/Proc/System/Ops/Bury.antt =====
-- `exit`, the end of `sleep`, and `yield` are quiet.
use os_playground.Base.{ℕ, ◌≡◌, inl, inr, refl, subst, some, arith, false, Bool-cases, ◌==◌}
use mathlib.Core.Option.{some-injective}
use os_playground.Proc.Table.{Proc, Ptable, ProcState, nproc, set_proc, set_state, is_zombie}
use os_playground.Proc.Queue.Inv.{IsSlot, IsMlfq}
use os_playground.Proc.Sched.{for_procs, wakeup1, tidy, yield}
use os_playground.Proc.Life.{abandon, exit}
use os_playground.Proc.System.Quiet.{
  Quiet, Quiet-refl, Quiet-trans, mark-Quiet, change-Quiet, join-Quiet,
}
use os_playground.Proc.System.Ops.Sleepers.{for_procs-Quiet, wakeup1-Quiet}

abandon-Quiet : (a cur p : ℕ) (t : Ptable) → IsSlot p → IsMlfq t → Quiet a t (abandon cur p t)
abandon-Quiet a cur p t slot v = elim (Bool-cases ((t.proc p).parent == cur)) [
  | inl child ↦ elim (Bool-cases (is_zombie ((set_proc t p w).proc p).state)) [
    | inl zombie ↦
        unfold abandon in
        rw (child, zombie)
          (Quiet-trans adopted (wakeup1-Quiet a t.initproc (set_proc t p w) adopted.keeps))
    | inr alive ↦ unfold abandon in rw (child, alive) adopted
  ]
  | inr other ↦ unfold abandon in rw other (Quiet-refl a t v)
]
  where
    w : Proc
    w = record (t.proc p) { parent = t.initproc }

    adopted : Quiet a t (set_proc t p w)
    adopted = mark-Quiet a t p w v refl refl refl

abandon_all-Quiet :
    (a cur : ℕ) (t : Ptable)
    → IsMlfq t
    → Quiet a t (for_procs (abandon cur) 1 nproc (wakeup1 (t.proc cur).parent t))
abandon_all-Quiet a cur t v =
    let woken = wakeup1-Quiet a (t.proc cur).parent t v in
    Quiet-trans woken (
      for_procs-Quiet a (abandon cur) (abandon-Quiet a cur) 1 nproc (wakeup1 (t.proc cur).parent t)
        (omega arith) (omega arith) woken.keeps)

-- The last write of `exit`.
buried : ℕ → Ptable → Ptable
buried cur t =
    set_state (for_procs (abandon cur) 1 nproc (wakeup1 (t.proc cur).parent t)) cur ProcState.zombie

buried-Quiet :
    (cur : ℕ) (t : Ptable)
    → IsSlot cur
    → (t.proc cur).state ≡ ProcState.running
    → IsMlfq t
    → Quiet cur t (buried cur t)
unfolding buried
buried-Quiet cur t slot runs v =
    let orphaned = abandon_all-Quiet cur cur t v in
    let still = (abandon_all-Quiet 0 cur t v).runs cur (λ e. absurd (ground arith)) runs in
    Quiet-trans orphaned
      (change-Quiet cur _ cur _ orphaned.keeps refl (λ e. cc) (λ e. refl) (orphaned.keeps.low cur))

pub exit-Quiet :
    (cur : ℕ) (t u : Ptable)
    → IsSlot cur
    → (t.proc cur).state ≡ ProcState.running
    → IsMlfq t
    → exit cur t ≡ some u
    → Quiet cur t u
exit-Quiet cur t u slot runs v e = elim (Bool-cases (cur == t.initproc)) [
  | inl init ↦ unfold exit in cc (rw init at e)
  | inr other ↦ subst (λ z. Quiet cur t z) (result other) (buried-Quiet cur t slot runs v)
]
  where
    result : (cur == t.initproc) ≡ false → buried cur t ≡ u
    result other = unfold exit buried in some-injective _ _ (rw other at e)

-- The wake-up of `sleep` clears the channel.
pub tidy-Quiet : (a p : ℕ) (t : Ptable) → IsMlfq t → Quiet a t (tidy p t)
unfolding tidy
tidy-Quiet a p t v = mark-Quiet a t p _ v refl refl refl

pub yield-Quiet :
    (a : ℕ) (t : Ptable)
    → IsSlot a
    → (t.proc a).state ≡ ProcState.running
    → IsMlfq t
    → Quiet a t (yield a t)
unfolding yield
yield-Quiet a t slot runs v =
    join-Quiet a t a _ v refl (λ e. cc) (λ e. refl) (ground (arith, v.low a)) slot refl
