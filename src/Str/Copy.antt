-- ===== src/Str/Copy.antt =====
-- `strncpy`, `safestrcpy` and `strlen`.
use os_playground.Base.{
  ℕ, zero, suc, ◌+◌, ◌-◌, ◌≤◌, ◌<◌, ◌≡◌, ◌≢◌, ◌⊎◌, inl, inr, sym, ap, ◌∙◌, some, min, update,
  update_self, update_ne, arith, ℕ_discrete, ==_ne,
}
use os_playground.Str.{Memory, safe_copy, safestrcpy, strlen}

-- The string at `t` has length `k`.
pub record HasLength (m : Memory) (t k : ℕ) : Type 0 where
  pub ends : m (t + k) ≡ 0
  pub before : (i : ℕ) → i < k → m (t + i) ≢ 0

-- `strlen` from `n` on finds the NUL, if the fuel reaches it.
strlen-from :
    (fuel s n k : ℕ) (m : Memory)
    → HasLength m s k
    → n ≤ k
    → k < n + fuel
    → strlen fuel s n m ≡ some k
unfolding strlen
strlen-from zero s n k m h l b = absurd (omega arith)
strlen-from (suc fuel) s n k m h l b = elim (ℕ_discrete n k) [
  | yes e ↦ let nul : m (s + n) ≡ 0 = ap (λ j. m (s + j)) e ∙ h.ends in rw nul (ap some e)
  | no ne ↦
      rw (==_ne (m (s + n)) 0 (h.before n (omega arith)))
        (strlen-from fuel s (n + 1) k m h (omega arith) (omega arith))
]

-- With fuel for more than its length, `strlen` returns the length of the string.
pub strlen_lem :
    (fuel s k : ℕ) (m : Memory) → HasLength m s k → k < fuel → strlen fuel s 0 m ≡ some k
strlen_lem fuel s k m h b = strlen-from fuel s 0 k m h (omega arith) (omega arith)

-- What `safestrcpy` has made of the area at `s`: the first `c` bytes at `t` and a NUL, and nothing
-- outside the `n` bytes of the area.
pub record IsCopied (s t c n : ℕ) (m u : Memory) : Type 0 where
  pub copied : (a b i : ℕ) → i < c → a ≡ s + i → b ≡ t + i → u a ≡ m b
  pub ends : (a : ℕ) → a ≡ s + c → u a ≡ 0
  pub outside : (a : ℕ) → (a < s) ⊎ (s + n ≤ a) → u a ≡ m a

-- The string at `t`, its NUL included, lies outside the `n` bytes at `s`.
abbrev pub IsApart : ℕ → ℕ → ℕ → ℕ → Type 0
IsApart s t k n = (b i : ℕ) → i ≤ k → b ≡ t + i → (b < s) ⊎ (s + n ≤ b)

-- After the first byte, which is not the NUL.
HasLength-next :
    (s t k n v : ℕ) (m : Memory)
    → IsApart s t (suc k) (suc n)
    → HasLength m t (suc k)
    → HasLength (update m s v) (t + 1) k
HasLength-next s t k n v m apart h = record {
  ends = update_ne m s (t + 1 + k) v (hits k (omega arith)) ∙ ap m (omega arith) ∙ h.ends;
  before = λ i l e.
      h.before (suc i) (omega arith)
        (ap m (omega arith) ∙ sym (update_ne m s (t + 1 + i) v (hits i (omega arith))) ∙ e);
}
  where
    hits : (i : ℕ) → i ≤ k → t + 1 + i ≢ s
    hits i l e = absurd (omega (arith, apart (t + 1 + i) (suc i) (omega arith) (omega arith)))

safe_copy-IsCopied :
    (n s t k : ℕ) (m : Memory)
    → HasLength m t k
    → IsApart s t k (suc n)
    → IsCopied s t (min k n) (suc n) m (safe_copy s t n m)
unfolding safe_copy
safe_copy-IsCopied zero s t k m h apart = record {
  copied = λ a b i l e f. absurd (omega arith);
  ends = λ a e. let q : a ≡ s = omega arith in rw q (update_self m s 0);
  outside = λ a o. update_ne m s a 0 (λ q. omega arith);
}
safe_copy-IsCopied (suc n) s t zero m h apart =
    let nul : m t ≡ 0 = ap m (omega arith) ∙ h.ends in
    rw nul (record {
      copied = λ a b i l e f. absurd (omega arith);
      ends = λ a e. let q : a ≡ s = omega arith in ground arith;
      outside = λ a o. ground arith;
    })
safe_copy-IsCopied (suc n) s t (suc k) m h apart =
    let some_byte : m t ≢ 0 = λ z. h.before 0 (omega arith) (ap m (omega arith) ∙ z) in
    let m' = update m s (m t) in
    let r =
      safe_copy-IsCopied n (s + 1) (t + 1) k m' (HasLength-next s t k (suc n) (m t) m apart h)
        later in
    rw (==_ne (m t) 0 some_byte) (record {
      copied = λ a b i l e f. elim (ℕ_discrete i 0) [
        | yes z ↦
            r.outside a (inl (omega arith))
            ∙ ap m' (at_start a i e z)
            ∙ update_self m s (m t)
            ∙ ap m (omega arith)
        | no z ↦
            r.copied a b (i - 1) (omega arith) (omega arith) (omega arith)
            ∙ update_ne m s b (m t) (λ q. omega (arith, apart b i (omega arith) f))
      ];
      ends = λ a e. r.ends a (omega arith);
      outside = λ a o. r.outside a (further a o) ∙ update_ne m s a (m t) (λ q. omega arith);
    })
  where
    at_start : (a i : ℕ) → a ≡ s + i → i ≡ 0 → a ≡ s
    at_start a i e z = omega arith

    further : (a : ℕ) → (a < s) ⊎ (s + suc (suc n) ≤ a) → (a < s + 1) ⊎ (s + 1 + suc n ≤ a)
    further a (inl p) = inl (omega arith)
    further a (inr p) = inr (omega arith)

    nearer : (b : ℕ) → (b < s) ⊎ (s + suc (suc n) ≤ b) → (b < s + 1) ⊎ (s + 1 + suc n ≤ b)
    nearer b (inl p) = inl (omega arith)
    nearer b (inr p) = inr (omega arith)

    later : IsApart (s + 1) (t + 1) k (suc n)
    later b i l e = nearer b (apart b (suc i) (omega arith) (omega arith))

-- `safestrcpy` into `n` bytes, from a string outside them: it copies the string if it fits with its NUL,
-- or else its first `n - 1` bytes, always ends them with a NUL, and writes only to the area.
pub safestrcpy_lem :
    (s t n k : ℕ) (m : Memory)
    → HasLength m t k
    → IsApart s t k n
    → 0 < n
    → IsCopied s t (min k (n - 1)) n m (safestrcpy s t n m)
unfolding safestrcpy
safestrcpy_lem s t zero k m h apart pos = absurd (omega arith)
safestrcpy_lem s t (suc n) k m h apart pos =
    let e : suc n - 1 ≡ n = omega arith in rw e (safe_copy-IsCopied n s t k m h apart)
