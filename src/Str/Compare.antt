-- ===== src/Str/Compare.antt =====
-- `memcmp` and `strncmp`: when they return 0, and the sign of what they return.
use os_playground.Base.{
  ℕ, zero, suc, ◌+◌, ◌-◌, ◌<◌, ◌≡◌, ◌≢◌, refl, ap, ◌∙◌, arith, ℕ_discrete, ==_ne, ==_iff,
}
use os_playground.Str.{Memory, byte_diff, memcmp}

-- What a comparison of `n` bytes returns: 0 if all are equal, and else the difference at the first
-- place where they differ, as an `int`.
pub data Compared (m : Memory) (p q n : ℕ) (r : ℕ) : Type 0 where
  equal : ((a b i : ℕ) → i < n → a ≡ p + i → b ≡ q + i → m a ≡ m b) → r ≡ 0 → Compared m p q n r
  differ :
      (i a b : ℕ)
      → i < n
      → a ≡ p + i
      → b ≡ q + i
      → ((c d j : ℕ) → j < i → c ≡ p + j → d ≡ q + j → m c ≡ m d)
      → m a ≢ m b
      → r ≡ byte_diff (m a) (m b)
      → Compared m p q n r

module _ (m : Memory) where
  Compared-next :
      {r : ℕ} (p q n : ℕ) → m p ≡ m q → Compared m (p + 1) (q + 1) n r → Compared m p q (suc n) r
  Compared-next p q n e (equal f z) =
      equal
        (λ a b i l u v. elim (ℕ_discrete i 0) [
          | yes k ↦ ap m (omega arith) ∙ e ∙ ap m (omega arith)
          | no k ↦ f a b (i - 1) (omega arith) (omega arith) (omega arith)
        ])
        z
  Compared-next p q n e (differ i a b l u v f ne z) =
      differ (suc i) a b (omega arith) (omega arith) (omega arith)
        (λ c d j h w x. elim (ℕ_discrete j 0) [
          | yes k ↦ ap m (omega arith) ∙ e ∙ ap m (omega arith)
          | no k ↦ f c d (j - 1) (omega arith) (omega arith) (omega arith)
        ])
        ne z

  -- `memcmp` of two areas of `n` bytes returns 0 if they are equal, and else the difference of the
  -- first two bytes that differ.
  pub memcmp_lem : (p q n : ℕ) → Compared m p q n (memcmp p q n m)
  unfolding memcmp
  memcmp_lem p q zero = equal (λ a b i l. absurd (omega arith)) refl
  memcmp_lem p q (suc n) = elim (ℕ_discrete (m p) (m q)) [
    | yes e ↦ rw ((==_iff (m p) (m q)).1 e) (Compared-next p q n e (memcmp_lem (p + 1) (q + 1) n))
    | no ne ↦ rw (==_ne (m p) (m q) ne) (
        differ 0 p q (omega arith) (omega arith) (omega arith) (λ c d j h. absurd (omega arith)) ne
          refl)
  ]
