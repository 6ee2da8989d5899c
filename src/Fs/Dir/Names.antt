-- ===== src/Fs/Dir/Names.antt =====
-- `strncmp`: it returns 0 for equal names.
use os_playground.Base.{
  ℕ, zero, suc, ◌+◌, ◌-◌, ◌<◌, ◌≡◌, ◌≢◌, refl, sym, ap, ◌∙◌, true, false, not, ◌==◌, ◌&&◌,
  if◌then◌else◌, arith, ℕ_discrete, Bool-cases, inl, inr,
}
use os_playground.Str.{Memory, byte_diff, strncmp}

-- Equal in the first `n` bytes, or up to the NUL at which both end.
abbrev pub SameName : (ℕ → ℕ) → (ℕ → ℕ) → ℕ → Type 0
SameName a b n = (i : ℕ) → i < n → ((j : ℕ) → j < i → a j ≢ 0) → a i ≡ b i

SameName-next :
    (a b : ℕ → ℕ) (n : ℕ)
    → a 0 ≡ b 0
    → (a 0 ≢ 0 → SameName (λ i. a (suc i)) (λ i. b (suc i)) n)
    → SameName a b (suc n)
SameName-next a b n e rest zero l before = e
SameName-next a b n e rest (suc i) l before =
    rest (before 0 (omega arith)) i (omega arith) (λ j h. before (suc j) (omega arith))

module _ (m : Memory) (bytes : (i : ℕ) → m i < 256) where
  differ : (p q : ℕ) → m p ≢ m q → byte_diff (m p) (m q) ≢ 0
  differ p q ne z = let h = bytes p in let g = bytes q in omega arith

  equal : (p q : ℕ) → m p ≡ m q → byte_diff (m p) (m q) ≡ 0
  equal p q e = let h = bytes p in let g = bytes q in omega arith

  pub strncmp-SameName :
      (p q n : ℕ) (a b : ℕ → ℕ)
      → ((i : ℕ) → a i ≡ m (p + i))
      → ((i : ℕ) → b i ≡ m (q + i))
      → strncmp p q n m ≡ 0
      → SameName a b n
  unfolding strncmp
  strncmp-SameName p q zero a b f g z = λ i l. absurd (omega arith)
  strncmp-SameName p q (suc n) a b f g z = elim (Bool-cases (not (m p == 0) && m p == m q)) [
    | inl e ↦ SameName-next a b n (first p q a b f g (ground arith)) (λ _.
        strncmp-SameName (p + 1) (q + 1) n (λ i. a (suc i)) (λ i. b (suc i))
          (λ i. f (suc i) ∙ ap m (omega arith)) (λ i. g (suc i) ∙ ap m (omega arith))
          (sym (ap (λ c. if c then strncmp (p + 1) (q + 1) n m else byte_diff (m p) (m q)) e) ∙ z))
    | inr e ↦
        let d : byte_diff (m p) (m q) ≡ 0 =
          sym (ap (λ c. if c then strncmp (p + 1) (q + 1) n m else byte_diff (m p) (m q)) e) ∙ z in
        let same : m p ≡ m q = elim (ℕ_discrete (m p) (m q)) [
          | yes s ↦ s
          | no ne ↦ absurd (differ p q ne d)
        ] in
        SameName-next a b n (first p q a b f g same)
          (λ has. absurd (has (f 0 ∙ ap m (omega arith) ∙ ended (m p) (m q) e same)))
  ]
    where
      first :
          (p q : ℕ) (a b : ℕ → ℕ)
          → ((i : ℕ) → a i ≡ m (p + i))
          → ((i : ℕ) → b i ≡ m (q + i))
          → m p ≡ m q
          → a 0 ≡ b 0
      first p q a b f g e = f 0 ∙ ap m (omega arith) ∙ e ∙ ap m (omega arith) ∙ sym (g 0)

      ended : (x y : ℕ) → not (x == 0) && x == y ≡ false → x ≡ y → x ≡ 0
      ended x y e s = ground arith

  pub SameName-strncmp :
      (p q n : ℕ) (a b : ℕ → ℕ)
      → ((i : ℕ) → a i ≡ m (p + i))
      → ((i : ℕ) → b i ≡ m (q + i))
      → SameName a b n
      → strncmp p q n m ≡ 0
  unfolding strncmp
  SameName-strncmp p q zero a b f g same = refl
  SameName-strncmp p q (suc n) a b f g same = elim (Bool-cases (not (m p == 0) && m p == m q)) [
    | inl e ↦
        ap (λ c. if c then strncmp (p + 1) (q + 1) n m else byte_diff (m p) (m q)) e
        ∙ SameName-strncmp (p + 1) (q + 1) n (λ i. a (suc i)) (λ i. b (suc i))
            (λ i. f (suc i) ∙ ap m (omega arith)) (λ i. g (suc i) ∙ ap m (omega arith))
            (λ i l before. same (suc i) (omega arith) (λ j h. elim (ℕ_discrete j 0) [
              | yes z ↦ λ y.
                  running (m p) (m q) e (sym (ap m (omega arith)) ∙ sym (f 0) ∙ ap a (sym z) ∙ y)
              | no ne ↦ λ y. before (j - 1) (omega arith) (ap a (omega arith) ∙ y)
            ]))
    | inr e ↦
        ap (λ c. if c then strncmp (p + 1) (q + 1) n m else byte_diff (m p) (m q)) e
        ∙ equal p q (
            ap m (omega arith)
            ∙ sym (f 0)
            ∙ same 0 (omega arith) (λ j l. absurd (omega arith))
            ∙ g 0
            ∙ ap m (omega arith))
  ]
    where
      running : (x y : ℕ) → not (x == 0) && x == y ≡ true → x ≡ 0 → ⊥
      running x y e z = ground arith
