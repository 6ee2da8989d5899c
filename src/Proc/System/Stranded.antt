-- ===== src/Proc/System/Stranded.antt =====
-- A runnable process that is in no queue never runs again, and `kill` makes such a process of a
-- sleeper: it sets the state without `qpush`.
use os_playground.Base.{
  ℕ, zero, suc, ◌≡◌, ◌⊎◌, inl, inr, refl, sym, ap, ◌∙◌, ◌≢◌, none, some, List, [], ◌∷◌, arith, true,
  false, ==_iff, ==_refl, ==_ne, if◌then◌else◌, ◌==◌, NotIn,
}
use mathlib.Core.List.{tail}
use mathlib.Core.Option.{some-injective}
use os_playground.Proc.Table.{Ptable, ProcState, nprocq, is_sleeping, set_proc, set_state}
use os_playground.Proc.Queue.{queue}
use os_playground.Proc.Queue.Inv.{SameQueues, IsMlfq, NotIn-queue, queue-SameQueues}
use os_playground.Proc.Queue.Pop.{dequeue}
use os_playground.Proc.Sched.{scheduler, back_on, wakeup}
use os_playground.Proc.Sched.Dispatch.{choose, IsDispatched, scheduler_refines}
use os_playground.Proc.Life.{WaitResult, reaped, failed, blocked, wait, kill, kill_slot, find_proc}
use os_playground.Proc.System.{
  after_wait, Step, dispatch, gives_up, sleeps, resumes, wakes, kills, forks, exits, waits, Reach,
  here, next,
}
use os_playground.Proc.System.Quiet.{Quiet, IsStranded, relabel-IsStranded}
use os_playground.Proc.System.Ops.{
  wakeup1-Quiet, kill-Quiet, sleep-Quiet, WaitQuiet, wait-WaitQuiet, fork-Quiet, exit-Quiet,
  tidy-Quiet, yield-Quiet,
}
use os_playground.Proc.System.Safety.{IsSched, Step-IsSched, Reach-IsSched}

-- The scheduler never chooses what is in no queue.
choose_ne :
    (n p j : ℕ) (queues : ℕ → List ℕ)
    → ((q : ℕ) → NotIn p (queues q))
    → choose n queues ≡ some j
    → p ≢ j
choose_ne zero p j queues lost e = cc
choose_ne (suc n) p j queues lost e = from (queues n) refl (choose_ne n p j queues lost)
  where
    from : (xs : List ℕ) → queues n ≡ xs → (choose n queues ≡ some j → p ≢ j) → p ≢ j
    from [] h ih = ih (rw (h, choose) at e)
    from (x ∷ xs) h ih =
        let here : some x ≡ some j = rw (h, choose) at e in
        λ k. (rw h at (lost n)).0 (k ∙ sym (some-injective x j here))

NotIn-tail : (p : ℕ) (xs : List ℕ) → NotIn p xs → NotIn p (tail xs)
NotIn-tail p [] h = tt
NotIn-tail p (x ∷ xs) h = h.1

NotIn-dequeue :
    (p a : ℕ) (queues : ℕ → List ℕ) (q : ℕ) → NotIn p (queues q) → NotIn p (dequeue a queues q)
NotIn-dequeue p a queues q h =
    elim (q == a) as (λ b. NotIn p (if b then tail (queues q) else queues q)) [
      | true ↦ NotIn-tail p (queues q) h
      | false ↦ h
    ]

dispatched-IsStranded :
    {t u : Ptable} (c p j : ℕ) → IsStranded p t → IsDispatched c j t u → IsStranded p u
dispatched-IsStranded {t} {u} c p j s x = record {
  runnable = rw (x.others p (choose_ne nprocq p j (queue t) s.lost x.first)) s.runnable;
  lost = λ q. rw (x.left q) (NotIn-dequeue p _ (queue t) q (s.lost q));
}

scheduled-IsStranded :
    {t : Ptable} (c p : ℕ) → IsSched t → IsStranded p t → IsStranded p (scheduler c t).1
scheduled-IsStranded {t} c p s h = from (scheduler_refines c t s.mlfq)
  where
    from :
        ((choose nprocq (queue t) ≡ none) × (scheduler c t ≡ (none, t)))
          ⊎ ((j : ℕ) × ((scheduler c t).0 ≡ some j) × IsDispatched c j t (scheduler c t).1)
        → IsStranded p (scheduler c t).1
    from (inl k) = rw k.1 h
    from (inr (j, e, x)) = dispatched-IsStranded c p j h x

leaves-IsStranded :
    {t u : Ptable} {a : ℕ} (c p : ℕ) → Quiet a t u → IsStranded p t → IsStranded p (back_on c u)
leaves-IsStranded {t} {u} c p q h =
    relabel-IsStranded u (back_on c u) q.keeps
      (record { head = refl; last = refl; count = refl; next = λ j. refl }) refl p (q.strands p h)

after_wait-IsStranded :
    {t : Ptable} (a c p : ℕ) (r : WaitResult × Ptable)
    → WaitQuiet a t r
    → IsStranded p t
    → IsStranded p (after_wait c r)
after_wait-IsStranded a c p (reaped pid, u) q = q.strands p
after_wait-IsStranded a c p (failed, u) q = q.strands p
after_wait-IsStranded a c p (blocked, u) q = leaves-IsStranded c p q

Step-IsStranded : {t u : Ptable} (p : ℕ) → IsSched t → Step t u → IsStranded p t → IsStranded p u
Step-IsStranded p s (dispatch c j idle e) = scheduled-IsStranded c p s
Step-IsStranded {t} p s (gives_up c h) =
    leaves-IsStranded c p (yield-Quiet (t.cpu c) t (s.slot c h) (s.runs c h) s.mlfq)
Step-IsStranded {t} p s (sleeps c chan h) =
    leaves-IsStranded c p (sleep-Quiet (t.cpu c) chan t (s.runs c h) s.mlfq)
Step-IsStranded {t} p s (resumes c h) = (tidy-Quiet 0 (t.cpu c) t s.mlfq).strands p
Step-IsStranded {t} p s (wakes chan) = unfold wakeup in (wakeup1-Quiet 0 chan t s.mlfq).strands p
Step-IsStranded {t} p s (kills pid) = (kill-Quiet 0 pid t s.mlfq).strands p
Step-IsStranded {t} p s (forks c page pgdir h) =
    (fork-Quiet 0 (t.cpu c) page pgdir t s.mlfq).strands p
Step-IsStranded {t} p s (exits c {u = u} h e) =
    leaves-IsStranded c p (exit-Quiet (t.cpu c) t u (s.slot c h) (s.runs c h) s.mlfq e)
Step-IsStranded {t} p s (waits c h) =
    after_wait-IsStranded (t.cpu c) c p (wait (t.cpu c) t)
      (wait-WaitQuiet (t.cpu c) t (s.runs c h) s.mlfq)

Reach-IsStranded : {t u : Ptable} (p : ℕ) → IsSched t → Reach t u → IsStranded p t → IsStranded p u
Reach-IsStranded p s here h = h
Reach-IsStranded p s (next r st) h =
    Step-IsStranded p (Reach-IsSched s r) st (Reach-IsStranded p s r h)

-- What `kill` does to a sleeper `p`: it marks it, and then makes it runnable.
abbrev killed_sleeper : ℕ → Ptable → Ptable
killed_sleeper p t =
    set_state (set_proc t p (record (t.proc p) { killed = true })) p ProcState.runnable

killed_sleeper-SameQueues : (p : ℕ) (t : Ptable) → SameQueues t (killed_sleeper p t)
killed_sleeper-SameQueues p t = record {
  head = refl;
  last = refl;
  count = refl;
  next = λ j. ground (arith, ==_iff j p);
}

killed_sleeper-IsStranded :
    (p : ℕ) (t : Ptable)
    → IsMlfq t
    → (t.proc p).state ≡ ProcState.sleeping
    → IsStranded p (killed_sleeper p t)
killed_sleeper-IsStranded p t v asleep = record {
  runnable = rw (==_refl p) refl;
  lost = λ q.
      rw (queue-SameQueues q (killed_sleeper-SameQueues p t))
        (NotIn-queue p q v (λ e. cc (asleep, e)));
}

kill_slot_asleep :
    (p : ℕ) (t : Ptable)
    → p ≢ 0
    → (t.proc p).state ≡ ProcState.sleeping
    → kill_slot p t ≡ (true, killed_sleeper p t)
unfolding kill_slot
kill_slot_asleep p t found asleep = rw (==_ne p 0 found, ap is_sleeping asleep)

-- From a sound table, a `kill` that finds a sleeping process succeeds and leaves that process
-- runnable but in no queue for ever: in every table that the system reaches from there, it is still
-- runnable, so it is neither running nor a zombie.
pub kill_strands_sleeper :
    {u : Ptable} (pid : ℕ) (t : Ptable)
    → IsSched t
    → find_proc (λ i. (t.proc i).pid == pid) ≢ 0
    → (t.proc (find_proc (λ i. (t.proc i).pid == pid))).state ≡ ProcState.sleeping
    → Reach (kill pid t).1 u
    → ((kill pid t).0 ≡ true)
      × ((u.proc (find_proc (λ i. (t.proc i).pid == pid))).state ≡ ProcState.runnable)
      × ((q : ℕ) → NotIn (find_proc (λ i. (t.proc i).pid == pid)) (queue u q))
unfolding kill
kill_strands_sleeper {u} pid t s found asleep r =
    let e = kill_slot_asleep _ t found asleep in
    let stuck =
      Reach-IsStranded _ (Step-IsSched s (kills pid)) r
        (rw e (killed_sleeper-IsStranded _ t s.mlfq asleep)) in
    (ap (λ x. x.0) e, stuck.runnable, stuck.lost)
