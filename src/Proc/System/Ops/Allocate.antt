-- ===== src/Proc/System/Ops/Allocate.antt =====
-- `allocproc`, `fork` and `userinit` are quiet.
use os_playground.Base.{
  ℕ, ◌+◌, ◌<◌, ◌≡◌, inl, inr, refl, subst, some, arith, true, false, Bool-cases, ==_refl, ◌==◌,
}
use mathlib.Core.Option.{some-injective}
use os_playground.Proc.Table.{Proc, Ptable, ProcState, nprocq, set_proc, is_unused}
use os_playground.Proc.Queue.{qpush}
use os_playground.Proc.Queue.Inv.{IsSlot, IsMlfq}
use os_playground.Proc.Life.{find_proc, take_slot, allocproc, fork, userinit, pgsize, clear_shared}
use os_playground.Proc.System.Quiet.{
  Quiet, Quiet-refl, Quiet-trans, mark-Quiet, change-Quiet, join-Quiet, relabel-Quiet,
}
use os_playground.Proc.System.Ops.Sleepers.{find_proc_lem}

-- What `allocproc` returns is an embryo of the table, in no other process's hands.
record IsAllocated (a : ℕ) (t : Ptable) (r : ℕ × Ptable) : Type 0 where
  quiet : Quiet a t r.1
  embryo : (r.0 == 0) ≡ false → IsSlot r.0 × ((r.1.proc r.0).state ≡ ProcState.embryo)

take_slot-IsAllocated : (a : ℕ) (t : Ptable) → IsMlfq t → IsAllocated a t (take_slot t)
take_slot-IsAllocated a t v = elim (find_proc_lem (λ i. is_unused (t.proc i).state)) [
  | inl none_free ↦
      unfold take_slot in
      rw none_free (record { quiet = Quiet-refl a t v; embryo = λ h. absurd (ground arith) })
  | inr hit ↦ elim (Bool-cases (p == 0)) [
    | inl z ↦ absurd (ground (arith, hit.0))
    | inr found ↦
        unfold take_slot in
        rw found (record {
          quiet = Quiet-trans (changed hit) (numbered hit);
          embryo = λ h. (hit.0, rw (==_refl p));
        })
  ]
]
  where
    p : ℕ
    p = find_proc (λ i. is_unused (t.proc i).state)

    w : Proc
    w = record (t.proc p) { state = ProcState.embryo; pid = t.nextpid }

    changed : IsSlot p × (is_unused (t.proc p).state ≡ true) → Quiet a t (set_proc t p w)
    changed hit =
        change-Quiet a t p w v refl (λ e. ground arith) (λ e. absurd (ground arith)) (v.low p)

    numbered :
        IsSlot p × (is_unused (t.proc p).state ≡ true)
        → Quiet a (set_proc t p w) (record (set_proc t p w) { nextpid = t.nextpid + 1 })
    numbered hit =
        relabel-Quiet (set_proc t p w) (record (set_proc t p w) { nextpid = t.nextpid + 1 })
          (changed hit).keeps (record { head = refl; last = refl; count = refl; next = λ j. refl })
          refl a refl

allocproc-IsAllocated : (a page : ℕ) (t : Ptable) → IsMlfq t → IsAllocated a t (allocproc page t)
allocproc-IsAllocated a page t v = elim (Bool-cases (p == 0)) [
  | inl full ↦
      unfold allocproc in
      rw full (record { quiet = taken.quiet; embryo = λ h. absurd (ground arith) })
  | inr found ↦ elim (Bool-cases (page == 0)) [
    | inl fails ↦
        unfold allocproc in
        rw (found, fails)
          (record {
            quiet =
                Quiet-trans taken.quiet
                  (rewritten found _ refl taken.quiet.keeps (taken.quiet.keeps.low p));
            embryo = λ h. absurd (ground arith);
          })
    | inr has ↦
        unfold allocproc in
        rw (found, has)
          (record {
            quiet =
                Quiet-trans taken.quiet (rewritten found _ refl taken.quiet.keeps (omega arith));
            embryo = λ h. ((taken.embryo found).0, rw (==_refl p) (taken.embryo found).1);
          })
  ]
]
  where
    taken : IsAllocated a t (take_slot t)
    taken = take_slot-IsAllocated a t v

    p : ℕ
    p = (take_slot t).0

    u : Ptable
    u = (take_slot t).1

    rewritten :
        (p == 0) ≡ false
        → (w : Proc) → w.next ≡ (u.proc p).next
        → IsMlfq u
        → w.priority < nprocq
        → Quiet a u (set_proc u p w)
    rewritten found w e m low =
        change-Quiet a u p w m e (λ r. cc ((taken.embryo found).1))
          (λ r. absurd (cc ((taken.embryo found).1))) low

pub fork-Quiet :
    (a cur page pgdir : ℕ) (t : Ptable) → IsMlfq t → Quiet a t (fork cur page pgdir t).1
fork-Quiet a cur page pgdir t v = elim (Bool-cases (np == 0)) [
  | inl full ↦ unfold fork in rw full got.quiet
  | inr found ↦ elim (Bool-cases (pgdir == 0)) [
    | inl fails ↦
        unfold fork in
        rw (found, fails)
          (Quiet-trans got.quiet (
            change-Quiet a u np _ got.quiet.keeps refl (λ r. cc ((got.embryo found).1))
              (λ r. absurd (cc ((got.embryo found).1))) (got.quiet.keeps.low np)))
    | inr copied ↦ unfold fork in rw (found, copied) (started found)
  ]
]
  where
    got : IsAllocated a t (allocproc page t)
    got = allocproc-IsAllocated a page t v

    np : ℕ
    np = (allocproc page t).0

    u : Ptable
    u = (allocproc page t).1

    w : Proc
    w = record (u.proc np) {
      pgdir = pgdir;
      sz = (u.proc cur).sz;
      parent = cur;
      state = ProcState.runnable;
    }

    pushed : Ptable
    pushed = qpush np (set_proc u np w)

    joined : (np == 0) ≡ false → Quiet a u pushed
    joined found =
        join-Quiet a u np w got.quiet.keeps refl (λ r. cc ((got.embryo found).1))
          (λ r. absurd (cc ((got.embryo found).1))) (got.quiet.keeps.low np) (got.embryo found).0
          refl

    started :
        (np == 0) ≡ false
        → Quiet a t (
            set_proc pushed np
              (record (pushed.proc np) { sharedrec = clear_shared (pushed.proc np).sharedrec }))
    started found =
        Quiet-trans got.quiet (
          Quiet-trans (joined found) (mark-Quiet a pushed np _ (joined found).keeps refl refl refl))

-- The first process is made as a child of `fork` is.
pub userinit-Quiet :
    (a page pgdir : ℕ) (t u : Ptable) → IsMlfq t → userinit page pgdir t ≡ some u → Quiet a t u
userinit-Quiet a page pgdir t u v e = elim (Bool-cases (p == 0)) [
  | inl full ↦ unfold userinit in cc (rw full at e)
  | inr found ↦ elim (Bool-cases (pgdir == 0)) [
    | inl fails ↦ unfold userinit in cc (rw (found, fails) at e)
    | inr mapped ↦ subst (λ z. Quiet a t z) (result found mapped) (started found)
  ]
]
  where
    got : IsAllocated a t (allocproc page t)
    got = allocproc-IsAllocated a page t v

    p : ℕ
    p = (allocproc page t).0

    t' : Ptable
    t' = record (allocproc page t).1 { initproc = p }

    w : Proc
    w = record (t'.proc p) { pgdir = pgdir; sz = pgsize; state = ProcState.runnable }

    named : Quiet a (allocproc page t).1 t'
    named =
        relabel-Quiet (allocproc page t).1 t' got.quiet.keeps
          (record { head = refl; last = refl; count = refl; next = λ j. refl }) refl a refl

    started : (p == 0) ≡ false → Quiet a t (qpush p (set_proc t' p w))
    started found = Quiet-trans got.quiet (
        Quiet-trans named (
          join-Quiet a t' p w named.keeps refl (λ r. cc ((got.embryo found).1))
            (λ r. absurd (cc ((got.embryo found).1))) (named.keeps.low p) (got.embryo found).0
            refl))

    result : (p == 0) ≡ false → (pgdir == 0) ≡ false → qpush p (set_proc t' p w) ≡ u
    result found mapped = unfold userinit in some-injective _ _ (rw (found, mapped) at e)
