-- ===== src/Fs/Count.antt =====
-- The number of free blocks.
use os_playground.Base.{
  ℕ, zero, suc, ◌+◌, ◌<◌, ◌≡◌, refl, ap, ◌∙◌, Bool, true, false, ◌==◌, if◌then◌else◌, arith,
  ℕ_discrete, ==_ne, ==_iff,
}
use os_playground.Fs.{Fs}
use os_playground.Fs.Bitmap.{is_used}

abbrev free_one : Bool → ℕ
free_one true = 0
free_one false = 1

-- How many of the first `n` blocks are free.
abbrev pub frees : (ℕ → Bool) → ℕ → ℕ
frees used zero = 0
frees used (suc n) = free_one (used n) + frees used n

abbrev pub room : Fs → ℕ
room s = frees (is_used s) s.sb.size

pub frees_same : (u v : ℕ → Bool) (n : ℕ) → ((j : ℕ) → j < n → v j ≡ u j) → frees v n ≡ frees u n
frees_same u v zero h = refl
frees_same u v (suc n) h =
    let e : free_one (v n) ≡ free_one (u n) = ap free_one (h n (omega arith)) in
    let r = frees_same u v n (λ j l. h j (omega arith)) in omega arith

pub frees_taken :
    (u v : ℕ → Bool) (n a : ℕ)
    → a < n
    → u a ≡ false
    → ((j : ℕ) → j < n → v j ≡ (if j == a then true else u j))
    → frees u n ≡ frees v n + 1
frees_taken u v zero a l clear h = absurd (omega arith)
frees_taken u v (suc n) a l clear h = elim (ℕ_discrete n a) [
  | yes e ↦
      let now : v n ≡ true =
        h n (omega arith) ∙ ap (λ b. if b then true else u n) ((==_iff n a).1 e) in
      let before : u n ≡ false = ap u e ∙ clear in
      let r = frees_same u v n (λ j m.
        h j (omega arith) ∙ ap (λ b. if b then true else u j) (==_ne j a (λ q. omega arith))) in
      let x : free_one (v n) ≡ 0 = ap free_one now in
      let y : free_one (u n) ≡ 1 = ap free_one before in omega arith
  | no ne ↦
      let x : free_one (v n) ≡ free_one (u n) =
        ap free_one (h n (omega arith) ∙ ap (λ b. if b then true else u n) (==_ne n a ne)) in
      let r = frees_taken u v n a (omega arith) clear (λ j m. h j (omega arith)) in omega arith
]

pub frees_none : (u : ℕ → Bool) (n : ℕ) → ((j : ℕ) → j < n → u j ≡ true) → frees u n ≡ 0
frees_none u zero h = refl
frees_none u (suc n) h =
    let x : free_one (u n) ≡ 0 = ap free_one (h n (omega arith)) in
    let r = frees_none u n (λ j l. h j (omega arith)) in omega arith
