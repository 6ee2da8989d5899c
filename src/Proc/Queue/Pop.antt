-- ===== src/Proc/Queue/Pop.antt =====
-- Taking the head off a queue.
use os_playground.Base.{
  ℕ, zero, suc, ◌^◌, ◌≤◌, ◌<◌, ◌-◌, ◌≡◌, ◌⊎◌, inl, inr, refl, sym, ap, ◌∙◌, List, [], ◌∷◌, arith,
  NotIn, Distinct, All, All-weaken, NotIn-of_All, ==_ne, ==_refl, if◌then◌else◌, ◌==◌, ℕ_discrete,
  true, false, ltb, Bool-cases,
}
use mathlib.Core.List.{tail}
use os_playground.Proc.Table.{Ptable, is_runnable}
use os_playground.Proc.Queue.{walk, next_of, queue, advance, drop_stale, dec32}
use os_playground.Proc.Queue.Walk.{walk_cong, final}
use os_playground.Proc.Queue.Inv.{IsReady, IsMlfq, count-le}

-- The first member of a queue that is not empty.
pub queue_cons :
    (t : Ptable) (q n : ℕ)
    → t.count q ≡ suc n
    → queue t q ≡ t.head q ∷ walk (next_of t) (next_of t (t.head q)) n
unfolding queue
queue_cons t q n e = rw e

pub queue_nil : (t : Ptable) (q : ℕ) → t.count q ≡ 0 → queue t q ≡ []
unfolding queue
queue_nil t q e = rw e

pub head-IsReady : (t : Ptable) (q n : ℕ) → IsMlfq t → t.count q ≡ suc n → IsReady t q (t.head q)
head-IsReady t q n v e = (rw (queue_cons t q n e) at (v.ready q)).0

count-advance : (t : Ptable) (q : ℕ) → (advance q t).count q ≡ dec32 (t.count q)
unfolding advance
count-advance t q = rw (==_refl q)

-- The loop stops with an empty queue or a runnable head: the count is enough fuel.
pub drop_stale_stops :
    (fuel q : ℕ) (t : Ptable)
    → t.count q ≤ fuel
    → t.count q < 2 ^ 32
    → ((drop_stale fuel q t).count q ≡ 0)
      ⊎ (is_runnable ((drop_stale fuel q t).proc ((drop_stale fuel q t).head q)).state ≡ true)
unfolding drop_stale
drop_stale_stops zero q t h b = inl (omega arith)
drop_stale_stops (suc fuel) q t h b = elim (Bool-cases (ltb 0 (t.count q))) [
  | inl more ↦ elim (Bool-cases (is_runnable (t.proc (t.head q)).state)) [
    | inl ready ↦ inr (rw (more, ready) ready)
    | inr stale ↦
        rw (more, stale)
          (drop_stale_stops fuel q (advance q t) (rw (count-advance t q) (ground arith))
            (rw (count-advance t q) (ground arith)))
  ]
  | inr done ↦ inl (rw done (ground arith))
]

-- The members of a queue are runnable, so the loop drops none of them.
pub drop_stale_lem : (fuel q : ℕ) (t : Ptable) → IsMlfq t → drop_stale fuel q t ≡ t
unfolding drop_stale
drop_stale_lem zero q t v = refl
drop_stale_lem (suc fuel) q t v = elim (Bool-cases (ltb 0 (t.count q))) [
  | inl more ↦ rw (more, (head-IsReady t q (t.count q - 1) v (ground arith)).runnable)
  | inr done ↦ rw done
]

-- The queues after the head of queue `p` has left.
abbrev pub dequeue : ℕ → (ℕ → List ℕ) → ℕ → List ℕ
dequeue p queues q = if q == p then tail (queues q) else queues q

All-tail : (P : ℕ → Type 0) (xs : List ℕ) → All P xs → All P (tail xs)
All-tail P [] h = tt
All-tail P (x ∷ xs) h = h.1

Distinct-tail : (xs : List ℕ) → Distinct xs → Distinct (tail xs)
Distinct-tail [] h = tt
Distinct-tail (x ∷ xs) h = h.1

All-dequeue :
    (P : ℕ → ℕ → Type 0) (p : ℕ) (queues : ℕ → List ℕ) (q : ℕ)
    → All (P q) (queues q)
    → All (P q) (dequeue p queues q)
All-dequeue P p queues q h =
    elim (q == p) as (λ b. All (P q) (if b then tail (queues q) else queues q)) [
      | true ↦ All-tail (P q) (queues q) h
      | false ↦ h
    ]

Distinct-dequeue :
    (p : ℕ) (queues : ℕ → List ℕ) (q : ℕ) → Distinct (queues q) → Distinct (dequeue p queues q)
Distinct-dequeue p queues q h =
    elim (q == p) as (λ b. Distinct (if b then tail (queues q) else queues q)) [
      | true ↦ Distinct-tail (queues q) h
      | false ↦ h
    ]

module _ (t : Ptable) (v : IsMlfq t) (p n : ℕ) (e : t.count p ≡ suc n) where
  count_pred : (advance p t).count p ≡ n
  count_pred = ground (arith, count-advance t p, count-le t p v)

  queue-advance_self : queue (advance p t) p ≡ walk (next_of t) (next_of t (t.head p)) n
  unfolding queue
  queue-advance_self = walk_cong next_same (unfold advance in rw (==_refl p)) count_pred
    where
      next_same : next_of (advance p t) ≡ next_of t
      next_same = unfold advance in refl

  pub advance_refines : (q : ℕ) → queue (advance p t) q ≡ dequeue p (queue t) q
  advance_refines q = elim (ℕ_discrete q p) [
    | yes s ↦ rw (s, ==_refl p, queue_cons t p n e) queue-advance_self
    | no ne ↦ rw (==_ne q p ne) (unfold queue advance in rw (==_ne q p ne))
  ]

  -- The process that left is in no queue any more.
  pub head-leaves : (q : ℕ) → NotIn (t.head p) (queue (advance p t) q)
  head-leaves q = elim (ℕ_discrete q p) [
    | yes s ↦ rw (s, queue-advance_self) (rw (queue_cons t p n e) at (v.distinct p)).0
    | no ne ↦
        rw (advance_refines q, ==_ne q p ne)
          (NotIn-of_All (IsReady t q) (t.head p) (queue t q) (v.ready q)
            (λ r. ne (sym r.priority ∙ (head-IsReady t p n v e).priority)))
  ]

  ends-advance :
      (q m : ℕ)
      → (advance p t).count q ≡ suc m
      → (advance p t).last q ≡ final (next_of (advance p t)) ((advance p t).head q) m
  unfolding advance
  ends-advance q m f = elim (ℕ_discrete q p) [
    | yes s ↦ rw (s, ==_refl p) (v.ends p (suc m) (e ∙ ap suc (pred_eq s)))
    | no ne ↦ rw (==_ne q p ne) (v.ends q m (rw (==_ne q p ne) at f))
  ]
    where
      pred_eq : q ≡ p → n ≡ suc m
      pred_eq s = sym count_pred ∙ ap (advance p t).count (sym s) ∙ f

  -- `advance` keeps the invariant.
  pub advance-IsMlfq : IsMlfq (advance p t)
  unfolding advance
  advance-IsMlfq = record {
    ends = ends-advance;
    ready = λ q. rw (advance_refines q) (
        All-dequeue (IsReady (advance p t)) p (queue t) q (
          All-weaken (IsReady t q) (IsReady (advance p t) q) (queue t q)
            (λ x r. record { slot = r.slot; runnable = r.runnable; priority = r.priority })
            (v.ready q)));
    distinct = λ q. rw (advance_refines q) (Distinct-dequeue p (queue t) q (v.distinct q));
    low = v.low;
  }
