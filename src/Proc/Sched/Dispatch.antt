-- ===== src/Proc/Sched/Dispatch.antt =====
-- The scheduler takes the first process of the highest queue that holds one.
use os_playground.Base.{
  ℕ, zero, suc, ◌<◌, ◌≡◌, refl, sym, ap, subst, ◌∙◌, ◌≢◌, ◌⊎◌, inl, inr, Option, none, some, List,
  [], ◌∷◌, arith, true, ltb, ==_refl, ==_ne, update, All-weaken,
}
use os_playground.Proc.Table.{Ptable, ProcState, nprocq}
use os_playground.Proc.Queue.{queue, advance}
use os_playground.Proc.Queue.Inv.{
  IsReady, IsMlfq, SameQueues, queue-SameQueues, set_proc-SameQueues, set_proc-IsMlfq,
  SameQueues-IsMlfq,
}
use os_playground.Proc.Queue.Pop.{
  queue_nil, queue_cons, drop_stale_lem, dequeue, advance_refines, advance-IsMlfq, head-leaves,
  head-IsReady,
}
use os_playground.Proc.Sched.{run_on, visit, pass, scheduler}

-- The choice from abstract queues: the head of the highest one that is not empty, with the queues
-- that it leaves.
abbrev pub choose : ℕ → (ℕ → List ℕ) → Option ℕ
choose zero queues = none
choose (suc q) queues = elim (queues q) [ [] ↦ choose q queues | p ∷ r ↦ some p ]

-- The queue that `choose` takes from.
abbrev pub chosen_queue : ℕ → (ℕ → List ℕ) → ℕ
chosen_queue zero queues = 0
chosen_queue (suc q) queues = elim (queues q) [ [] ↦ chosen_queue q queues | p ∷ r ↦ q ]

choose_skip :
    (q : ℕ) (queues : ℕ → List ℕ) → queues q ≡ [] → choose (suc q) queues ≡ choose q queues
choose_skip q queues e = rw (e, choose)

chosen_skip :
    (q : ℕ) (queues : ℕ → List ℕ)
    → queues q ≡ []
    → chosen_queue (suc q) queues ≡ chosen_queue q queues
chosen_skip q queues e = rw (e, chosen_queue)

-- What `pass` does with the result of a visit.
abbrev after_visit : ℕ → ℕ → Option ℕ × Ptable → Option ℕ × Ptable
after_visit c q (chosen, t) = elim chosen [ none ↦ pass c q t | some p ↦ (some p, t) ]

pass_step : (c q : ℕ) (t : Ptable) → pass c (suc q) t ≡ after_visit c q (visit c q t)
unfolding pass
pass_step c q t = refl

module _ (c : ℕ) (t : Ptable) (v : IsMlfq t) (q : ℕ) where
  visit_empty : t.count q ≡ 0 → visit c q t ≡ (none, t)
  unfolding visit
  visit_empty e = rw (drop_stale_lem (t.count q) q t v, e)

  visit_head :
      (n : ℕ)
      → t.count q ≡ suc n
      → visit c q t ≡ (some (t.head q), run_on c (t.head q) (advance q t))
  unfolding visit
  visit_head n e =
      let positive : ltb 0 (t.count q) ≡ true = ground arith in
      rw (drop_stale_lem (t.count q) q t v, positive)

-- Which queue the loop stops at, and with what.
record StopsAt (c n : ℕ) (t : Ptable) (q m : ℕ) : Type 0 where
  below : q < n
  held : t.count q ≡ suc m
  choice : choose n (queue t) ≡ some (t.head q)
  from : chosen_queue n (queue t) ≡ q
  result : pass c n t ≡ (some (t.head q), run_on c (t.head q) (advance q t))

module _ (c : ℕ) (t : Ptable) (v : IsMlfq t) where
  pass_cases :
      (n : ℕ)
      → ((choose n (queue t) ≡ none) × (pass c n t ≡ (none, t)))
        ⊎ ((q : ℕ) × (m : ℕ) × StopsAt c n t q m)
  unfolding pass
  pass_cases zero = inl (refl, refl)
  pass_cases (suc n) = at (t.count n) refl (pass_cases n)
    where
      skip : t.count n ≡ 0 → choose (suc n) (queue t) ≡ choose n (queue t)
      skip e = choose_skip n (queue t) (queue_nil t n e)

      at :
          (m : ℕ)
          → t.count n ≡ m
          → ((choose n (queue t) ≡ none) × (pass c n t ≡ (none, t)))
            ⊎ ((q : ℕ) × (m : ℕ) × StopsAt c n t q m)
          → ((choose (suc n) (queue t) ≡ none) × (pass c (suc n) t ≡ (none, t)))
            ⊎ ((q : ℕ) × (m : ℕ) × StopsAt c (suc n) t q m)
      at zero e (inl h) =
          inl (skip e ∙ h.0, pass_step c n t ∙ ap (after_visit c n) (visit_empty c t v n e) ∙ h.1)
      at zero e (inr (q, m, s)) = inr (
        q,
        m,
        record {
          below = omega (arith, s.below);
          held = s.held;
          choice = skip e ∙ s.choice;
          from = chosen_skip n (queue t) (queue_nil t n e) ∙ s.from;
          result = pass_step c n t ∙ ap (after_visit c n) (visit_empty c t v n e) ∙ s.result;
        },
      )
      at (suc m) e h = inr (
        n,
        m,
        record {
          below = omega arith;
          held = e;
          choice = rw (queue_cons t n m e, choose);
          from = rw (queue_cons t n m e, chosen_queue);
          result = pass_step c n t ∙ ap (after_visit c n) (visit_head c t v n m e);
        },
      )

-- What one round of the scheduler of CPU `c` has done when it chose `p`.
pub record IsDispatched (c p : ℕ) (t u : Ptable) : Type 0 where
  pub first : choose nprocq (queue t) ≡ some p
  pub was : IsReady t (chosen_queue nprocq (queue t)) p
  pub runs : (u.proc p).state ≡ ProcState.running
  pub on : u.cpu ≡ update t.cpu c p
  pub others : (j : ℕ) → j ≢ p → u.proc j ≡ t.proc j
  pub left : (q : ℕ) → queue u q ≡ dequeue (chosen_queue nprocq (queue t)) (queue t) q
  pub keeps : IsMlfq u

module _ (c : ℕ) (t : Ptable) (v : IsMlfq t) (q n : ℕ) (e : t.count q ≡ suc n) where
  -- The CPU's field is no part of the queues.
  on_cpu : Ptable
  on_cpu = record (advance q t) { cpu = update (advance q t).cpu c (t.head q) }

  on_cpu_same : SameQueues (advance q t) on_cpu
  unfolding on_cpu
  on_cpu_same = record { head = refl; last = refl; count = refl; next = λ p. refl }

  on_cpu-IsMlfq : IsMlfq on_cpu
  unfolding on_cpu
  on_cpu-IsMlfq =
      SameQueues-IsMlfq on_cpu_same
        (λ j.
          All-weaken (IsReady (advance q t) j) (IsReady on_cpu j) (queue (advance q t) j)
            (λ x r. record { slot = r.slot; runnable = r.runnable; priority = r.priority })
            ((advance-IsMlfq t v q n e).ready j))
        (advance-IsMlfq t v q n e).low (advance-IsMlfq t v q n e)

  run_on-IsMlfq : IsMlfq (run_on c (t.head q) (advance q t))
  unfolding on_cpu
  run_on-IsMlfq =
      set_proc-IsMlfq on_cpu (t.head q) _ refl
        (λ j. rw (queue-SameQueues j on_cpu_same) (head-leaves t v q n e j))
        ((advance-IsMlfq t v q n e).low (t.head q)) on_cpu-IsMlfq

  run_on-queue : (j : ℕ) → queue (run_on c (t.head q) (advance q t)) j ≡ dequeue q (queue t) j
  unfolding on_cpu
  run_on-queue j =
      queue-SameQueues j (set_proc-SameQueues on_cpu (t.head q) _ refl)
      ∙ queue-SameQueues j on_cpu_same
      ∙ advance_refines t v q n e j

module _ (c : ℕ) (t : Ptable) (v : IsMlfq t) where
  dispatched :
      (q m : ℕ)
      → StopsAt c nprocq t q m
      → IsDispatched c (t.head q) t (run_on c (t.head q) (advance q t))
  unfolding advance
  dispatched q m s = record {
    first = s.choice;
    was = rw s.from (head-IsReady t q m v s.held);
    runs = rw (==_refl (t.head q));
    on = refl;
    others = λ j ne. rw (==_ne j (t.head q) ne);
    left = λ j. rw s.from (run_on-queue c t v q m s.held j);
    keeps = run_on-IsMlfq c t v q m s.held;
  }

  -- With no process in any queue the scheduler chooses none and changes nothing; otherwise it takes
  -- the first process of the highest queue that holds one, marks it running on CPU `c`, removes it
  -- from its queue, leaves all other processes and queues alone, and keeps the invariant.
  pub scheduler_refines :
      ((choose nprocq (queue t) ≡ none) × (scheduler c t ≡ (none, t)))
      ⊎ ((p : ℕ) × ((scheduler c t).0 ≡ some p) × IsDispatched c p t (scheduler c t).1)
  unfolding scheduler
  scheduler_refines = from (pass_cases c t v nprocq)
    where
      from :
          ((choose nprocq (queue t) ≡ none) × (pass c nprocq t ≡ (none, t)))
            ⊎ ((q : ℕ) × (m : ℕ) × StopsAt c nprocq t q m)
          → ((choose nprocq (queue t) ≡ none) × (pass c nprocq t ≡ (none, t)))
            ⊎ ((p : ℕ) × ((pass c nprocq t).0 ≡ some p) × IsDispatched c p t (pass c nprocq t).1)
      from (inl h) = inl h
      from (inr (q, m, s)) = inr (
        t.head q,
        ap (λ r. r.0) s.result,
        subst (λ r. IsDispatched c (t.head q) t r.1) (sym s.result) (dispatched q m s),
      )
