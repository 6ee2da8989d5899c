-- ===== src/Proc/Sched/Tick.antt =====
-- The time slice: how many clock ticks a process runs before it yields.
use os_playground.Base.{
  ℕ, zero, suc, ◌-◌, ◌≤◌, ◌<◌, ◌^◌, ◌≡◌, ap, ◌∙◌, ◌≢◌, arith, fun_ext, ==_refl, ==_ne, ==_iff,
}
use os_playground.Proc.Table.{Ptable, ProcState, set_proc, is_running}
use os_playground.Proc.Queue.{slice, dec32}
use os_playground.Proc.Queue.Push.{timepiece-qpush}
use os_playground.Proc.Sched.{yield, timer_tick, demote}

-- `n` clock ticks on the CPU of process `p`.
pub ticks : ℕ → ℕ → Ptable → Ptable
ticks p zero t = t
ticks p (suc n) t = ticks p n (timer_tick p t)

abbrev pub with_timepiece : ℕ → ℕ → Ptable → Ptable
with_timepiece p n t = set_proc t p (record (t.proc p) { timepiece = n })

with_timepiece_twice :
    (p n m : ℕ) (t : Ptable) → with_timepiece p n (with_timepiece p m t) ≡ with_timepiece p n t
with_timepiece_twice p n m t = λ i. record t { proc = same i }
  where
    same : (with_timepiece p n (with_timepiece p m t)).proc ≡ (with_timepiece p n t).proc
    same = fun_ext λ j. ground (arith, ==_iff j p, ==_refl p)

module _ (p : ℕ) (t : Ptable) (some_process : p ≢ 0)
    (runs : (t.proc p).state ≡ ProcState.running) where
  -- A tick that does not use up the slice only counts down.
  tick_running :
      (n : ℕ)
      → (t.proc p).timepiece ≡ suc (suc n)
      → suc (suc n) < 2 ^ 32
      → timer_tick p t ≡ with_timepiece p (suc n) t
  unfolding timer_tick
  tick_running n e b =
      let left : dec32 (t.proc p).timepiece ≡ suc n = omega arith in
      rw (==_ne p 0 some_process, ap is_running runs, left, ==_ne (suc n) 0 (λ z. omega arith))

  tick_last : (t.proc p).timepiece ≡ 1 → timer_tick p t ≡ yield p (with_timepiece p 0 t)
  unfolding timer_tick
  tick_last e =
      let left : dec32 (t.proc p).timepiece ≡ 0 = omega arith in
      rw (==_ne p 0 some_process, ap is_running runs, left)

ticks_all :
    (p n : ℕ) (t : Ptable)
    → p ≢ 0
    → (t.proc p).state ≡ ProcState.running
    → (t.proc p).timepiece ≡ suc n
    → suc n < 2 ^ 32
    → ticks p (suc n) t ≡ yield p (with_timepiece p 0 t)
unfolding ticks
ticks_all p zero t h r e b = tick_last p t h r e
ticks_all p (suc n) t h r e b =
    ap (λ u. ticks p (suc n) u) (tick_running p t h r n e b)
    ∙ ticks_all p n (with_timepiece p (suc n) t) h (rw (==_refl p) r) (rw (==_refl p)) (omega arith)
    ∙ ap (yield p) (with_timepiece_twice p 0 (suc n) t)

ticks_some :
    (p k n : ℕ) (t : Ptable)
    → p ≢ 0
    → (t.proc p).state ≡ ProcState.running
    → (t.proc p).timepiece ≡ suc n
    → suc n < 2 ^ 32
    → k ≤ n
    → ticks p k t ≡ with_timepiece p (suc n - k) t
unfolding ticks
ticks_some p zero n t h r e b l = λ i. record t { proc = same i }
  where
    same : t.proc ≡ (with_timepiece p (suc n - 0) t).proc
    same = fun_ext λ j. ground (arith, ==_iff j p)
ticks_some p (suc k) zero t h r e b l = absurd (omega arith)
ticks_some p (suc k) (suc n) t h r e b l =
    ap (λ u. ticks p k u) (tick_running p t h r n e b)
    ∙ ticks_some p k n (with_timepiece p (suc n) t) h (rw (==_refl p) r) (rw (==_refl p))
        (omega arith) (omega arith)
    ∙ with_timepiece_twice p (suc n - k) (suc n) t
    ∙ ap (λ m. with_timepiece p m t) (omega arith)

-- A running process with `suc n` ticks left, of a 32-bit counter: fewer ticks than that change
-- nothing but the counter, and at tick `suc n`, and not before, it yields.
pub ticks-slice :
    (p n : ℕ) (t : Ptable)
    → p ≢ 0
    → (t.proc p).state ≡ ProcState.running
    → (t.proc p).timepiece ≡ suc n
    → suc n < 2 ^ 32
    → ((k : ℕ) → k ≤ n → ticks p k t ≡ with_timepiece p (suc n - k) t)
      × (ticks p (suc n) t ≡ yield p (with_timepiece p 0 t))
      × (((ticks p (suc n) t).proc p).timepiece ≡ slice (demote (t.proc p).priority))
unfolding yield
ticks-slice p n t h r e b = (
  λ k l. ticks_some p k n t h r e b l,
  ticks_all p n t h r e b,
  ap (λ u. (u.proc p).timepiece) (ticks_all p n t h r e b) ∙ timepiece-qpush p _ ∙ rw (==_refl p),
)
