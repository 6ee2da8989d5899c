-- ===== src/Proc/Sched/Wake.antt =====
-- `wakeup1` wakes exactly the sleepers on its channel.
use os_playground.Base.{
  ℕ, zero, suc, ◌+◌, ◌≤◌, ◌<◌, ◌≡◌, refl, sym, ap, ap₂, ◌∙◌, ◌≢◌, inl, inr, List, [], ◌∷◌, ◌++◌,
  append-nil, append_assoc, arith, ℕ_discrete, true, false, Bool-cases, leb, ltb, ◌&&◌, ==_ne,
  if◌then◌else◌, ◌==◌,
}
use os_playground.Proc.Table.{Ptable, ProcState, nproc, nprocq, set_proc}
use os_playground.Proc.Queue.{queue, qpush}
use os_playground.Proc.Queue.Inv.{IsSlot, IsMlfq}
use os_playground.Proc.Queue.Push.{enqueue, state-qpush, priority-qpush, chan-qpush}
use os_playground.Proc.Sched.{for_procs, sleeps_on, wake_one, wakeup1, wakeup, promote}
use os_playground.Proc.Sched.Push.{join-IsMlfq, join_refines}

-- The sleepers on `chan` of one priority class after promotion, in table order, among `n` slots
-- from `p` on.
abbrev pub woken : ℕ → ℕ → Ptable → ℕ → ℕ → List ℕ
woken chan q t p zero = []
woken chan q t p (suc n) =
    let rest = woken chan q t (p + 1) n in
    if sleeps_on chan (t.proc p) && promote (t.proc p).priority == q then p ∷ rest else rest

-- The fields that decide who wakes up.
record SameSleep (t u : Ptable) (j : ℕ) : Type 0 where
  state : (u.proc j).state ≡ (t.proc j).state
  chan : (u.proc j).chan ≡ (t.proc j).chan
  priority : (u.proc j).priority ≡ (t.proc j).priority

woken_cong :
    (chan q : ℕ) (t u : Ptable) (p n : ℕ)
    → ((j : ℕ) → p ≤ j → SameSleep t u j)
    → woken chan q u p n ≡ woken chan q t p n
woken_cong chan q t u p zero same = refl
woken_cong chan q t u p (suc n) same =
    ground
      (arith, same p (omega arith), woken_cong chan q t u (p + 1) n (λ j h. same j (omega arith)))

enqueue_append :
    (a p : ℕ) (queues : ℕ → List ℕ) (q : ℕ)
    → enqueue a p queues q ≡ queues q ++ (if a == q then p ∷ [] else [])
enqueue_append a p queues q = ground (arith, append-nil (queues q))

module _ (chan p : ℕ) (t : Ptable) where
  state-wake_one :
      (j : ℕ)
      → ((wake_one chan p t).proc j).state
        ≡ (if j == p && sleeps_on chan (t.proc p) then ProcState.runnable else (t.proc j).state)
  unfolding wake_one
  state-wake_one j = ground (
    arith,
    state-qpush p
        (set_proc t p (record (t.proc p) {
          state = ProcState.runnable;
          priority = promote (t.proc p).priority;
        }))
        j,
  )

  same-wake_one : (j : ℕ) → j ≢ p → SameSleep t (wake_one chan p t) j
  unfolding wake_one
  same-wake_one j ne =
      elim (sleeps_on chan (t.proc p)) as (λ b. SameSleep t (if b then qpush p u else t) j) [
        | true ↦ record {
          state = state-qpush p u j ∙ rw (==_ne j p ne);
          chan = chan-qpush p u j ∙ rw (==_ne j p ne);
          priority = priority-qpush p u j ∙ rw (==_ne j p ne);
        }
        | false ↦ record { state = refl; chan = refl; priority = refl }
      ]
    where
      u : Ptable
      u =
          set_proc t p (record (t.proc p) {
            state = ProcState.runnable;
            priority = promote (t.proc p).priority;
          })

module _ (chan p : ℕ) (t : Ptable) (v : IsMlfq t) (slot : IsSlot p) where
  low_promote : promote (t.proc p).priority < nprocq
  low_promote = ground (arith, v.low p)

  wake_one_refines :
      IsMlfq (wake_one chan p t)
      × ((q : ℕ) → queue (wake_one chan p t) q ≡ queue t q ++ woken chan q t p 1)
  wake_one_refines = elim (Bool-cases (sleeps_on chan (t.proc p))) [
    | inl asleep ↦
        unfold wake_one in
        rw asleep (
          join-IsMlfq t p _ v slot (λ e. ground arith) refl refl low_promote,
          λ q.
              join_refines t p _ v slot (λ e. ground arith) refl refl low_promote q
              ∙ enqueue_append (promote (t.proc p).priority) p (queue t) q,
        )
    | inr not ↦ unfold wake_one in rw not (v, λ q. rw append-nil)
  ]

-- One slot, then the rest.
woken_step :
    (chan q : ℕ) (t : Ptable) (p n : ℕ)
    → woken chan q t p (suc n) ≡ woken chan q t p 1 ++ woken chan q t (p + 1) n
woken_step chan q t p n = ground arith

wake_all_refines :
    (chan p n : ℕ) (t : Ptable)
    → IsMlfq t
    → 0 < p
    → p + n ≤ nproc + 1
    → IsMlfq (for_procs (wake_one chan) p n t)
      × ((q : ℕ) → queue (for_procs (wake_one chan) p n t) q ≡ queue t q ++ woken chan q t p n)
unfolding for_procs
wake_all_refines chan p zero t v pos top = (v, λ q. rw append-nil)
wake_all_refines chan p (suc n) t v pos top =
    let u = wake_one chan p t in
    let (v', one) = wake_one_refines chan p t v (omega arith) in
    let (v'', rest) = wake_all_refines chan (p + 1) n u v' (omega arith) (omega arith) in
    (
      v'',
      λ q.
          rest q
          ∙ ap₂ (λ a b. a ++ b) (one q)
              (woken_cong chan q t u (p + 1) n
                (λ j h. same-wake_one chan p t j (λ e. absurd (omega arith))))
          ∙ append_assoc (queue t q) (woken chan q t p 1) (woken chan q t (p + 1) n)
          ∙ ap (λ r. queue t q ++ r) (sym (woken_step chan q t p n)),
    )

state-wake_all :
    (chan p n : ℕ) (t : Ptable) (j : ℕ)
    → ((for_procs (wake_one chan) p n t).proc j).state ≡ (
        if (leb p j && ltb j (p + n)) && sleeps_on chan (t.proc j)
        then ProcState.runnable
        else (t.proc j).state)
unfolding for_procs
state-wake_all chan p zero t j = ground arith
state-wake_all chan p (suc n) t j = elim (ℕ_discrete j p) [
  | yes e ↦ rw e (
      ground
        (arith, state-wake_all chan (p + 1) n (wake_one chan p t) p, state-wake_one chan p t p))
  | no ne ↦
      let s = same-wake_one chan p t j ne in
      state-wake_all chan (p + 1) n (wake_one chan p t) j ∙ rw (s.state, s.chan) (ground arith)
]

-- `wakeup` makes exactly the sleepers on `chan` runnable, appends them, in table order, to the queue
-- of their priority plus one (the highest stays), changes no other state, and keeps the invariant.
pub wakeup_refines :
    (chan : ℕ) (t : Ptable)
    → IsMlfq t
    → IsMlfq (wakeup chan t)
      × ((q : ℕ) → queue (wakeup chan t) q ≡ queue t q ++ woken chan q t 1 nproc)
      × ((j : ℕ)
          → IsSlot j
          → ((wakeup chan t).proc j).state
            ≡ (if sleeps_on chan (t.proc j) then ProcState.runnable else (t.proc j).state))
unfolding wakeup wakeup1
wakeup_refines chan t v =
    let (kept, queues) = wake_all_refines chan 1 nproc t v (omega arith) (omega arith) in
    (kept, queues, λ j slot. state-wake_all chan 1 nproc t j ∙ ground arith)
