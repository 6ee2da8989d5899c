-- ===== src/Proc/System/Safety.antt =====
-- No process runs on two CPUs; and what `kill` does to a sleeper.
use os_playground.Base.{
  ℕ, ◌≡◌, ◌⊎◌, inl, inr, refl, sym, ap, ◌∙◌, ◌≢◌, none, some, arith, ==_refl, ==_ne, ℕ_discrete,
  update,
}
use os_playground.Proc.Table.{Ptable, ProcState, nprocq}
use os_playground.Proc.Queue.{queue}
use os_playground.Proc.Queue.Inv.{IsSlot, IsMlfq, SameQueues}
use os_playground.Proc.Sched.{scheduler, back_on, wakeup}
use os_playground.Proc.Sched.Dispatch.{choose, IsDispatched, scheduler_refines}
use os_playground.Proc.Life.{WaitResult, reaped, failed, blocked, wait}
use os_playground.Proc.System.{
  after_wait, Step, dispatch, gives_up, sleeps, resumes, wakes, kills, forks, exits, waits, Reach,
  here, next,
}
use os_playground.Proc.System.Quiet.{Quiet, relabel-IsMlfq}
use os_playground.Proc.System.Ops.{
  wakeup1-Quiet, kill-Quiet, sleep-Quiet, WaitQuiet, wait-WaitQuiet, fork-Quiet, exit-Quiet,
  tidy-Quiet, yield-Quiet,
}

-- The queues are sound, the process of every CPU is a slot of the table that is marked running, and
-- no two CPUs have the same one.
pub record IsSched (t : Ptable) : Type 0 where
  pub mlfq : IsMlfq t
  pub slot : (c : ℕ) → t.cpu c ≢ 0 → IsSlot (t.cpu c)
  pub runs : (c : ℕ) → t.cpu c ≢ 0 → (t.proc (t.cpu c)).state ≡ ProcState.running
  pub alone : (c d : ℕ) → t.cpu c ≢ 0 → t.cpu c ≡ t.cpu d → c ≡ d

-- A change in which no process stops running.
stays : {t u : Ptable} → IsSched t → Quiet 0 t u → IsSched u
stays {t} {u} s q = record {
  mlfq = q.keeps;
  slot = λ c. rw q.cpus (s.slot c);
  runs = λ c. rw q.cpus (λ h. q.runs (t.cpu c) h (s.runs c h));
  alone = λ c d. rw q.cpus (s.alone c d);
}

back_on_same : (c : ℕ) (t : Ptable) → SameQueues t (back_on c t)
back_on_same c t = record { head = refl; last = refl; count = refl; next = λ p. refl }

-- A CPU that is still busy after `c` has been left is another one, with the process it had.
still_busy :
    (t u : Ptable) (c d : ℕ)
    → u.cpu ≡ t.cpu
    → update u.cpu c 0 d ≢ 0
    → (d ≢ c) × (update u.cpu c 0 d ≡ t.cpu d)
still_busy t u c d same h = elim (ℕ_discrete d c) [
  | yes e ↦ absurd (h (rw (e, ==_refl c)))
  | no ne ↦ (ne, rw (==_ne d c ne, same))
]

-- A change in which only the process of CPU `c` may stop, and leaves the CPU.
leaves : {t u : Ptable} (c : ℕ) → IsSched t → Quiet (t.cpu c) t u → IsSched (back_on c u)
leaves {t} {u} c s q = record {
  mlfq = relabel-IsMlfq u (back_on c u) q.keeps (back_on_same c u) refl;
  slot = λ d h. let (ne, e) = still_busy t u c d q.cpus h in rw e (s.slot d (λ z. h (e ∙ z)));
  runs = λ d h.
      let (ne, e) = still_busy t u c d q.cpus h in
      let busy = (λ (z : t.cpu d ≡ 0). h (e ∙ z)) in
      rw e (q.runs (t.cpu d) (λ k. ne (s.alone d c busy k)) (s.runs d busy));
  alone = λ d j h k.
      let (ne, e) = still_busy t u c d q.cpus h in
      let (ne', e') = still_busy t u c j q.cpus (λ z. h (k ∙ z)) in
      s.alone d j (λ z. h (e ∙ z)) (sym e ∙ k ∙ e');
}

-- Giving a CPU a process that no CPU has keeps the processes of the CPUs apart.
alone-update :
    (cpu : ℕ → ℕ) (c p : ℕ)
    → ((i j : ℕ) → cpu i ≢ 0 → cpu i ≡ cpu j → i ≡ j)
    → ((i : ℕ) → cpu i ≢ 0 → cpu i ≢ p)
    → p ≢ 0
    → (i j : ℕ) → update cpu c p i ≢ 0
    → update cpu c p i ≡ update cpu c p j
    → i ≡ j
alone-update cpu c p alone apart pos i j h k = elim (ℕ_discrete i c) [
  | yes a ↦ elim (ℕ_discrete j c) [
    | yes b ↦ a ∙ sym b
    | no b ↦
        absurd
          (apart j (λ z. h (k ∙ rw (==_ne j c b) z)) (sym (rw (a, ==_refl c, ==_ne j c b) at k)))
  ]
  | no a ↦ elim (ℕ_discrete j c) [
    | yes b ↦ absurd (apart i (λ z. h (rw (==_ne i c a) z)) (rw (b, ==_refl c, ==_ne i c a) at k))
    | no b ↦ alone i j (λ z. h (rw (==_ne i c a) z)) (rw (==_ne i c a, ==_ne j c b) at k)
  ]
]

dispatched-IsSched : {t u : Ptable} (c p : ℕ) → IsSched t → IsDispatched c p t u → IsSched u
dispatched-IsSched {t} {u} c p s x = record {
  mlfq = x.keeps;
  slot = λ d h. elim (ℕ_discrete d c) [
    | yes e ↦ rw (x.on, e, ==_refl c) x.was.slot
    | no ne ↦ rw (x.on, ==_ne d c ne) (s.slot d (kept d ne h))
  ];
  runs = λ d h. elim (ℕ_discrete d c) [
    | yes e ↦ rw (x.on, e, ==_refl c) x.runs
    | no ne ↦
        rw (x.on, ==_ne d c ne, x.others (t.cpu d) (apart d (kept d ne h))) (s.runs d (kept d ne h))
  ];
  alone = rw x.on (alone-update t.cpu c p s.alone apart (λ z. absurd (omega (arith, x.was.slot))));
}
  where
    kept : (d : ℕ) → d ≢ c → u.cpu d ≢ 0 → t.cpu d ≢ 0
    kept d ne h z = h (rw (x.on, ==_ne d c ne) z)

    apart : (d : ℕ) → t.cpu d ≢ 0 → t.cpu d ≢ p
    apart d busy e = cc (s.runs d busy, x.was.runnable, ap (λ j. (t.proc j).state) e)

scheduled-IsSched :
    {t : Ptable} (c p : ℕ) → IsSched t → (scheduler c t).0 ≡ some p → IsSched (scheduler c t).1
scheduled-IsSched {t} c p s e = from (scheduler_refines c t s.mlfq)
  where
    from :
        ((choose nprocq (queue t) ≡ none) × (scheduler c t ≡ (none, t)))
          ⊎ ((p : ℕ) × ((scheduler c t).0 ≡ some p) × IsDispatched c p t (scheduler c t).1)
        → IsSched (scheduler c t).1
    from (inl h) = rw h.1 s
    from (inr (p', e', x)) = dispatched-IsSched c p' s x

after_wait-IsSched :
    {t : Ptable} (c : ℕ) (r : WaitResult × Ptable)
    → IsSched t
    → WaitQuiet (t.cpu c) t r
    → IsSched (after_wait c r)
after_wait-IsSched c (reaped pid, u) s q = stays s q
after_wait-IsSched c (failed, u) s q = stays s q
after_wait-IsSched c (blocked, u) s q = leaves c s q

pub Step-IsSched : {t u : Ptable} → IsSched t → Step t u → IsSched u
Step-IsSched {t} s (dispatch c p idle e) = scheduled-IsSched c p s e
Step-IsSched {t} s (gives_up c h) =
    leaves c s (yield-Quiet (t.cpu c) t (s.slot c h) (s.runs c h) s.mlfq)
Step-IsSched {t} s (sleeps c chan h) = leaves c s (sleep-Quiet (t.cpu c) chan t (s.runs c h) s.mlfq)
Step-IsSched {t} s (resumes c h) = stays s (tidy-Quiet 0 (t.cpu c) t s.mlfq)
Step-IsSched {t} s (wakes chan) = stays s (unfold wakeup in wakeup1-Quiet 0 chan t s.mlfq)
Step-IsSched {t} s (kills pid) = stays s (kill-Quiet 0 pid t s.mlfq)
Step-IsSched {t} s (forks c page pgdir h) = stays s (fork-Quiet 0 (t.cpu c) page pgdir t s.mlfq)
Step-IsSched {t} s (exits c {u = u} h e) =
    leaves c s (exit-Quiet (t.cpu c) t u (s.slot c h) (s.runs c h) s.mlfq e)
Step-IsSched {t} s (waits c h) =
    after_wait-IsSched c (wait (t.cpu c) t) s (wait-WaitQuiet (t.cpu c) t (s.runs c h) s.mlfq)

-- From a sound table, whatever happens in whatever order, the table stays sound: in particular no
-- process runs on two CPUs, and every queue holds runnable processes of its own priority, each once.
pub Reach-IsSched : {s t : Ptable} → IsSched s → Reach s t → IsSched t
Reach-IsSched h here = h
Reach-IsSched h (next r st) = Step-IsSched (Reach-IsSched h r) st
