-- ===== src/Proc/Queue/Push.antt =====
-- `qpush` appends one process to the queue of its priority and leaves the other queues alone.
use os_playground.Base.{
  ℕ, zero, suc, ◌≡◌, refl, sym, ap, subst, ◌≢◌, List, [], ◌∷◌, ◌++◌, arith, update, NotIn, Distinct,
  Distinct-snoc, All, All-append, All-weaken, NotIn-of_All, fun_ext, ◌∙◌, ==_iff, leb,
  if◌then◌else◌, ◌==◌, ==_refl, ==_ne, ℕ_discrete,
}
use os_playground.Proc.Table.{Ptable, ProcState}
use os_playground.Proc.Queue.{walk, next_of, queue, qpush, slice, add32}
use os_playground.Proc.Queue.Walk.{
  walk_cong, final_cong, final, walk-update, final-update, walk-update_two, final-update_two,
  walk-snoc_update, final-snoc_update, All-final,
}
use os_playground.Proc.Queue.Inv.{IsSlot, IsReady, IsMlfq, count-le}

module _ (np : ℕ) (t : Ptable) where
  -- The links after the push.
  next-qpush :
      (j : ℕ)
      → next_of (qpush np t) j ≡ (
          if leb (t.count (t.proc np).priority) 0
          then update (next_of t) np np j
          else update
              (update (next_of t) np (t.head (t.proc np).priority))
              (t.last (t.proc np).priority)
              np
              j)
  unfolding qpush
  next-qpush j = ground arith

  pub state-qpush : (j : ℕ) → ((qpush np t).proc j).state ≡ (t.proc j).state
  unfolding qpush
  state-qpush j = ground arith

  pub priority-qpush : (j : ℕ) → ((qpush np t).proc j).priority ≡ (t.proc j).priority
  unfolding qpush
  priority-qpush j = ground arith

  -- What `qpush` leaves alone in every process.
  pub chan-qpush : (j : ℕ) → ((qpush np t).proc j).chan ≡ (t.proc j).chan
  unfolding qpush
  chan-qpush j = ground arith

  pub cpu-qpush : (qpush np t).cpu ≡ t.cpu
  unfolding qpush
  cpu-qpush = ground arith

  pub timepiece-qpush : ((qpush np t).proc np).timepiece ≡ slice (t.proc np).priority
  unfolding qpush
  timepiece-qpush = ground arith

  links_first : t.count (t.proc np).priority ≡ 0 → next_of (qpush np t) ≡ update (next_of t) np np
  links_first e = fun_ext (λ j. ground (arith, next-qpush j, e))

  links_last :
      (n : ℕ)
      → t.count (t.proc np).priority ≡ suc n
      → next_of (qpush np t)
        ≡ update
            (update (next_of t) np (t.head (t.proc np).priority))
            (t.last (t.proc np).priority)
            np
  links_last n e = fun_ext (λ j. ground (arith, next-qpush j, e))

  count-qpush :
      (q : ℕ)
      → (qpush np t).count q
        ≡ (if q == (t.proc np).priority then add32 (t.count q) 1 else t.count q)
  unfolding qpush
  count-qpush q = ground arith

  head-qpush :
      (q : ℕ)
      → (qpush np t).head q ≡ (
          if q == (t.proc np).priority
          then (if leb (t.count q) 0 then np else t.head q)
          else t.head q)
  unfolding qpush
  head-qpush q = ground (arith, ==_iff q (t.proc np).priority)

  last-qpush : (q : ℕ) → (qpush np t).last q ≡ (if q == (t.proc np).priority then np else t.last q)
  unfolding qpush
  last-qpush q = ground (arith, ==_iff q (t.proc np).priority)

-- What a caller of `qpush` provides: a runnable slot that is in no queue.
pub record CanPush (np : ℕ) (t : Ptable) : Type 0 where
  pub slot : IsSlot np
  pub runnable : (t.proc np).state ≡ ProcState.runnable
  pub fresh : (q : ℕ) → NotIn np (queue t q)

module _ (np : ℕ) (t : Ptable) (v : IsMlfq t) (can : CanPush np t) where
  -- The queue's new count is one more: it does not wrap.
  count_self : (qpush np t).count (t.proc np).priority ≡ suc (t.count (t.proc np).priority)
  count_self =
      ground (arith, count-qpush np t (t.proc np).priority, count-le t (t.proc np).priority v)

  -- The last process of the queue of `np` is in no other queue.
  last_elsewhere :
      (q n : ℕ)
      → q ≢ (t.proc np).priority
      → t.count (t.proc np).priority ≡ suc n
      → NotIn (t.last (t.proc np).priority) (queue t q)
  unfolding queue
  last_elsewhere q n ne e =
      NotIn-of_All (IsReady t q) (t.last P) (queue t q) (v.ready q)
        (λ r. ne (sym r.priority ∙ at_last))
    where
      P : ℕ
      P = (t.proc np).priority

      at_last : (t.proc (t.last P)).priority ≡ P
      at_last =
          rw (v.ends P n e)
            (All-final (IsReady t P) (next_of t) (t.head P) n (rw e at (v.ready P))).priority

  queue-qpush_other :
      (c q : ℕ)
      → t.count (t.proc np).priority ≡ c
      → q ≢ (t.proc np).priority
      → queue (qpush np t) q ≡ queue t q
  unfolding queue
  queue-qpush_other zero q e ne = rw (
    links_first np t e,
    head-qpush np t q,
    count-qpush np t q,
    ==_ne q (t.proc np).priority ne,
    walk-update (next_of t) np np (t.head q) (t.count q) (can.fresh q),
  )
  queue-qpush_other (suc n) q e ne = rw (
    links_last np t n e,
    head-qpush np t q,
    count-qpush np t q,
    ==_ne q (t.proc np).priority ne,
    walk-update_two (next_of t) np (t.head (t.proc np).priority) (t.last (t.proc np).priority) np
        (t.head q) (t.count q) (can.fresh q) (last_elsewhere q n ne e),
  )

  head_self :
      (n : ℕ)
      → t.count (t.proc np).priority ≡ suc n
      → (qpush np t).head (t.proc np).priority ≡ t.head (t.proc np).priority
  head_self n e = ground (arith, head-qpush np t (t.proc np).priority)

  head_first : t.count (t.proc np).priority ≡ 0 → (qpush np t).head (t.proc np).priority ≡ np
  head_first e = ground (arith, head-qpush np t (t.proc np).priority)

  queue-qpush_self :
      (c : ℕ)
      → t.count (t.proc np).priority ≡ c
      → queue (qpush np t) (t.proc np).priority ≡ queue t (t.proc np).priority ++ np ∷ []
  unfolding queue
  queue-qpush_self zero e =
      walk_cong (links_first np t e) (head_first e) (count_self ∙ ap suc e)
      ∙ ap (λ c. walk (next_of t) (t.head (t.proc np).priority) c ++ np ∷ []) (sym e)
  queue-qpush_self (suc n) e =
      walk_cong (links_last np t n e) (head_self n e) (count_self ∙ ap suc e)
      ∙ walk-snoc_update (next_of t) np (t.head P) (t.head P) n (t.last P) (rw e at (can.fresh P))
          (rw e at (v.distinct P)) (v.ends P n e)
      ∙ ap (λ c. walk (next_of t) (t.head P) c ++ np ∷ []) (sym e)
    where
      P : ℕ
      P = (t.proc np).priority

-- The abstract queues after `np` of priority `p` has joined.
abbrev pub enqueue : ℕ → ℕ → (ℕ → List ℕ) → ℕ → List ℕ
enqueue p np queues q = if q == p then queues q ++ np ∷ [] else queues q

-- A table whose queues are the lists `queues`, in their new places, with the members still ready.
module _ (np : ℕ) (t : Ptable) (v : IsMlfq t) (can : CanPush np t) where
  -- `qpush` appends the process to the queue of its priority, and leaves the other queues alone.
  pub qpush_refines : (q : ℕ) → queue (qpush np t) q ≡ enqueue (t.proc np).priority np (queue t) q
  qpush_refines q = elim (ℕ_discrete q (t.proc np).priority) [
    | yes e ↦ rw (e, ==_refl (t.proc np).priority) (queue-qpush_self np t v can _ refl)
    | no ne ↦ rw (==_ne q (t.proc np).priority ne) (queue-qpush_other np t v can _ q refl ne)
  ]

  IsReady-qpush : (q p : ℕ) → IsReady t q p → IsReady (qpush np t) q p
  IsReady-qpush q p r = record {
    slot = r.slot;
    runnable = state-qpush np t p ∙ r.runnable;
    priority = priority-qpush np t p ∙ r.priority;
  }

  All-enqueue : (q : ℕ) → All (IsReady t q) (enqueue (t.proc np).priority np (queue t) q)
  All-enqueue q = elim (ℕ_discrete q (t.proc np).priority) [
    | yes e ↦
        rw (e, ==_refl (t.proc np).priority)
          (All-append (IsReady t (t.proc np).priority) (queue t (t.proc np).priority) (np ∷ [])
            (v.ready (t.proc np).priority)
            (record { slot = can.slot; runnable = can.runnable; priority = refl }, tt))
    | no ne ↦ rw (==_ne q (t.proc np).priority ne) (v.ready q)
  ]

  Distinct-enqueue : (q : ℕ) → Distinct (enqueue (t.proc np).priority np (queue t) q)
  Distinct-enqueue q = elim (ℕ_discrete q (t.proc np).priority) [
    | yes e ↦
        rw (e, ==_refl (t.proc np).priority)
          (Distinct-snoc (queue t (t.proc np).priority) np (v.distinct (t.proc np).priority)
            (can.fresh (t.proc np).priority))
    | no ne ↦ rw (==_ne q (t.proc np).priority ne) (v.distinct q)
  ]

  -- The last process that the links reach, in the queue that was pushed to.
  ends_self :
      (c : ℕ)
      → t.count (t.proc np).priority ≡ c
      → final (next_of (qpush np t)) ((qpush np t).head (t.proc np).priority) c ≡ np
  unfolding queue
  ends_self zero e = final_cong 0 (links_first np t e) (head_first np t v can e)
  ends_self (suc n) e =
      final_cong (suc n) (links_last np t n e) (head_self np t v can n e)
      ∙ final-snoc_update (next_of t) np (t.head P) (t.head P) n (t.last P) (rw e at (can.fresh P))
          (rw e at (v.distinct P)) (v.ends P n e)
    where
      P : ℕ
      P = (t.proc np).priority

  -- The same, in another queue.
  ends_other :
      (c q n : ℕ)
      → t.count (t.proc np).priority ≡ c
      → q ≢ (t.proc np).priority
      → t.count q ≡ suc n
      → final (next_of (qpush np t)) (t.head q) n ≡ final (next_of t) (t.head q) n
  unfolding queue
  ends_other zero q n e ne f =
      final_cong n (links_first np t e) refl
      ∙ final-update (next_of t) np np (t.head q) n (rw f at (can.fresh q))
  ends_other (suc c) q n e ne f =
      final_cong n (links_last np t c e) refl
      ∙ final-update_two (next_of t) np (t.head (t.proc np).priority) (t.last (t.proc np).priority)
          np (t.head q) n (rw f at (can.fresh q)) (rw f at (last_elsewhere np t v can q c ne e))

  ends-qpush :
      (q n : ℕ)
      → (qpush np t).count q ≡ suc n
      → (qpush np t).last q ≡ final (next_of (qpush np t)) ((qpush np t).head q) n
  ends-qpush q n e = elim (ℕ_discrete q (t.proc np).priority) [
    | yes p ↦
        subst (λ z. (qpush np t).last z ≡ final (next_of (qpush np t)) ((qpush np t).head z) n)
          (sym p) (at_self (ap (qpush np t).count (sym p) ∙ e))
    | no ne ↦
        rw (last-qpush np t q, head-qpush np t q, ==_ne q (t.proc np).priority ne)
          (v.ends q n (same_count ne) ∙ sym (ends_other _ q n refl ne (same_count ne)))
  ]
    where
      P : ℕ
      P = (t.proc np).priority

      at_self :
          (qpush np t).count P ≡ suc n
          → (qpush np t).last P ≡ final (next_of (qpush np t)) ((qpush np t).head P) n
      at_self f =
          ground (arith, last-qpush np t P, ==_refl P)
          ∙ sym (ends_self n (omega (arith, count_self np t v can)))

      same_count : q ≢ P → t.count q ≡ suc n
      same_count ne = ground (arith, count-qpush np t q)

  -- `qpush` keeps the invariant.
  pub qpush-IsMlfq : IsMlfq (qpush np t)
  qpush-IsMlfq = record {
    ends = ends-qpush;
    ready = λ q.
        rw (qpush_refines q)
          (All-weaken (IsReady t q) (IsReady (qpush np t) q) _ (IsReady-qpush q) (All-enqueue q));
    distinct = λ q. rw (qpush_refines q) (Distinct-enqueue q);
    low = λ p. rw (priority-qpush np t p) (v.low p);
  }
