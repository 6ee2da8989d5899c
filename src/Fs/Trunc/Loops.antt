-- ===== src/Fs/Trunc/Loops.antt =====
-- The loops of `itrunc` one by one: in parts, over other addresses, over no blocks.
use os_playground.Base.{
  ℕ, zero, suc, ◌+◌, ◌≤◌, ◌<◌, ◌≡◌, refl, sym, ap, ap₂, ◌∙◌, Option, none, some, ltb, leb, ◌==◌,
  ◌&&◌, if◌then◌else◌, update, update_self, update_ne, arith, ℕ_discrete, Bool-cases, ==_ne, ==_iff,
  inl, inr, fun_ext,
}
use os_playground.Fs.{Fs, Inode, set_addr, bfree}
use os_playground.Fs.Trunc.{then_free, free_range, then_direct, free_direct}

-- Loops over the same blocks do the same.
pub free_range_shift :
    (g h : ℕ → ℕ) (i j r : ℕ)
    → ((k : ℕ) → k < r → g (i + k) ≡ h (j + k))
    → (s : Fs) → free_range g i r s ≡ free_range h j r s
unfolding free_range
free_range_shift g h i j zero e s = refl
free_range_shift g h i j (suc r) e s =
    ap₂ (λ x loop. if x == 0 then loop s else then_free loop (bfree x s))
      (ap g (omega arith) ∙ e 0 (omega arith) ∙ ap h (omega arith))
      (fun_ext (
        free_range_shift g h (i + 1) (j + 1) r
          (λ k l. ap g (omega arith) ∙ e (suc k) (omega arith) ∙ ap h (omega arith))))

-- Two loops in turn, after the same call.
in_turn :
    (both first second : Fs → Option Fs)
    → ((t : Fs) → both t ≡ then_free second (first t))
    → (o : Option Fs) → then_free both o ≡ then_free second (then_free first o)
in_turn both first second e none = refl
in_turn both first second e (some t) = e t

-- A loop in two parts.
pub free_range_add :
    (g : ℕ → ℕ) (i a b : ℕ) (s : Fs)
    → free_range g i (a + b) s ≡ then_free (free_range g (i + a) b) (free_range g i a s)
unfolding free_range
free_range_add g i zero b s = ap₂ (λ n m. free_range g n m s) (omega arith) (omega arith)
free_range_add g i (suc a) b s =
    let next : i + 1 + a ≡ i + suc a = omega arith in
    let total : suc a + b ≡ suc (a + b) = omega arith in
    ap (λ n. free_range g i n s) total ∙ elim (Bool-cases (g i == 0)) [
      | inl e ↦
          ap
            (λ c.
              if c
              then free_range g (i + 1) (a + b) s
              else then_free (free_range g (i + 1) (a + b)) (bfree (g i) s))
            e
          ∙ free_range_add g (i + 1) a b s
          ∙ ap (λ n. then_free (free_range g n b) (free_range g (i + 1) a s)) next
          ∙ sym (
              ap
                (λ c. then_free (free_range g (i + suc a) b) (
                  if c
                  then free_range g (i + 1) a s
                  else then_free (free_range g (i + 1) a) (bfree (g i) s)))
                e)
      | inr e ↦
          ap
            (λ c.
              if c
              then free_range g (i + 1) (a + b) s
              else then_free (free_range g (i + 1) (a + b)) (bfree (g i) s))
            e
          ∙ in_turn (free_range g (i + 1) (a + b)) (free_range g (i + 1) a)
              (free_range g (i + suc a) b)
              (λ t.
                free_range_add g (i + 1) a b t
                ∙ ap (λ n. then_free (free_range g n b) (free_range g (i + 1) a t)) next)
              (bfree (g i) s)
          ∙ sym (
              ap
                (λ c. then_free (free_range g (i + suc a) b) (
                  if c
                  then free_range g (i + 1) a s
                  else then_free (free_range g (i + 1) a) (bfree (g i) s)))
                e)
    ]

-- A loop over no blocks.
pub free_range_none :
    (g : ℕ → ℕ) (i r : ℕ) (s : Fs)
    → ((k : ℕ) → i ≤ k → k < i + r → g k ≡ 0)
    → free_range g i r s ≡ some s
unfolding free_range
free_range_none g i zero s z = refl
free_range_none g i (suc r) s z =
    ap
      (λ b.
        if b then free_range g (i + 1) r s else then_free (free_range g (i + 1) r) (bfree (g i) s))
      ((==_iff (g i) 0).1 (z i (omega arith) (omega arith)))
    ∙ free_range_none g (i + 1) r s (λ k l h. z k (omega arith) (omega arith))

abbrev pub attach : Inode → (ℕ → ℕ) → Option Fs → Option (Inode × Fs)
attach ip f none = none
attach ip f (some s) = some (record ip { addrs = f }, s)

abbrev pub clear : ℕ → ℕ → (ℕ → ℕ) → ℕ → ℕ
clear i r f k = if leb i k && ltb k (i + r) then 0 else f k

clear_next : (i r : ℕ) (f : ℕ → ℕ) → f i ≡ 0 → clear (i + 1) r f ≡ clear i (suc r) f
clear_next i r f z = fun_ext (λ k. elim (ℕ_discrete k i) [
  | yes e ↦ ground (arith, z, ap f e)
  | no ne ↦ ap (λ b. if b then 0 else f k) (ground arith)
])

clear_all : (i r : ℕ) (f : ℕ → ℕ) → clear (i + 1) r (update f i 0) ≡ clear i (suc r) f
clear_all i r f = fun_ext (λ k. elim (ℕ_discrete k i) [
  | yes e ↦ ground (arith, ap (update f i 0) e ∙ update_self f i 0)
  | no ne ↦ ground (arith, update_ne f i k 0 ne)
])

attach-then :
    (ip : Inode) (f : ℕ → ℕ) (direct : Fs → Option (Inode × Fs)) (range : Fs → Option Fs)
    → ((t : Fs) → direct t ≡ attach ip f (range t))
    → (o : Option Fs) → then_direct direct o ≡ attach ip f (then_free range o)
attach-then ip f direct range e none = refl
attach-then ip f direct range e (some t) = e t

-- The loop over the direct blocks frees a range, and clears the addresses.
pub free_direct_lem :
    (i r : ℕ) (ip : Inode) (s : Fs)
    → free_direct i r ip s ≡ attach ip (clear i r ip.addrs) (free_range ip.addrs i r s)
unfolding free_direct free_range
free_direct_lem i zero ip s =
    ap (λ f. some (record ip { addrs = f }, s)) (fun_ext (λ k. ground arith))
free_direct_lem i (suc r) ip s = elim (ℕ_discrete (ip.addrs i) 0) [
  | yes z ↦
      let e = (==_iff (ip.addrs i) 0).1 z in
      rw e (
        free_direct_lem (i + 1) r ip s
        ∙ ap (λ f. attach ip f (free_range ip.addrs (i + 1) r s)) (clear_next i r ip.addrs z))
  | no ne ↦ rw (==_ne (ip.addrs i) 0 ne) (
      attach-then ip (clear i (suc r) ip.addrs) (free_direct (i + 1) r (set_addr i 0 ip))
        (free_range ip.addrs (i + 1) r)
        (λ t.
          free_direct_lem (i + 1) r (set_addr i 0 ip) t
          ∙ ap₂ (attach ip) (clear_all i r ip.addrs) (
              free_range_shift (update ip.addrs i 0) ip.addrs (i + 1) (i + 1) r
                (λ k l. update_ne ip.addrs i (i + 1 + k) 0 (λ e. omega arith)) t))
        (bfree (ip.addrs i) s))
]
