-- ===== src/Bio/Boot.antt =====
-- `binit`: the cache in which the kernel starts.
use os_playground.Base.{
  ℕ, zero, suc, ◌+◌, ◌≤◌, ◌<◌, ◌⊎◌, inl, inr, refl, false≢true, List, [], ◌∷◌, arith, ℕ_discrete,
  All,
}
use os_playground.Bio.{nbuf, Block, push_bufs, binit}
use os_playground.Bio.Inv.{In, IsSound}

In-push_bufs :
    (i r j : ℕ) (order : List ℕ)
    → (In j order) ⊎ ((i ≤ j) × (j < i + r))
    → In j (push_bufs i r order)
unfolding push_bufs
In-push_bufs i zero j order (inl h) = h
In-push_bufs i zero j order (inr p) = absurd (omega arith)
In-push_bufs i (suc r) j order (inl h) = In-push_bufs (i + 1) r j (i ∷ order) (inl (inr h))
In-push_bufs i (suc r) j order (inr (l, h)) = elim (ℕ_discrete j i) [
  | yes e ↦ In-push_bufs (i + 1) r j (i ∷ order) (inl (inl e))
  | no ne ↦ In-push_bufs (i + 1) r j (i ∷ order) (inr (omega arith, omega arith))
]

All-push_bufs :
    (i r : ℕ) (order : List ℕ)
    → i + r ≤ nbuf
    → All (λ j. j < nbuf) order
    → All (λ j. j < nbuf) (push_bufs i r order)
unfolding push_bufs
All-push_bufs i zero order l a = a
All-push_bufs i (suc r) order l a =
    All-push_bufs (i + 1) r (i ∷ order) (omega arith) (omega arith, a)

-- The cache is sound after `binit`, with the contents that are on the disk.
pub binit-IsSound : (disk : ℕ → Block) (disksize : ℕ) → IsSound (binit disk disksize) [] disk
binit-IsSound disk disksize = record {
  all_in = λ i l. In-push_bufs 0 nbuf i [] (inr (omega arith, omega arith));
  bounds = All-push_bufs 0 nbuf [] (omega arith) tt;
  unique = λ i j l h d. absurd (omega arith);
  good = λ i l. record {
    same = λ d. absurd (omega arith);
    full = λ e. absurd (false≢true e);
    refs = refl;
  };
  stored = λ b. inl refl;
  few = omega arith;
}
