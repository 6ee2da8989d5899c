-- ===== src/Base/Members.antt =====
-- Predicates on lists by recursion, which the tactics read, and the pigeonhole principle.
use Prim.Native.Nat.{ℕ, zero, suc, ◌≤◌, ◌<◌}
use mathlib.Core.Path.{◌≡◌, refl}
use mathlib.Core.Logic.{◌≢◌}
use mathlib.Core.List.{List, [], ◌∷◌, ◌++◌}
use native.Mathlib.Omega.{arith}
use os_playground.Base.Tests.{◌==◌, if◌then◌else◌}
use os_playground.Base.Lists.{length}

abbrev pub All {ℓ κ} : {A : Type ℓ} → (A → Type κ) → List A → Type κ
All P [] = Unit
All P (x ∷ xs) = P x × All P xs

-- `x` does not stand in the list.
abbrev pub NotIn : ℕ → List ℕ → Type 0
NotIn x [] = Unit
NotIn x (y ∷ ys) = (x ≢ y) × NotIn x ys

abbrev pub Distinct : List ℕ → Type 0
Distinct [] = Unit
Distinct (x ∷ xs) = NotIn x xs × Distinct xs

pub All-append {ℓ κ} :
    {A : Type ℓ} (P : A → Type κ) (xs ys : List A) → All P xs → All P ys → All P (xs ++ ys)
All-append P [] ys h k = k
All-append P (x ∷ xs) ys h k = (h.0, All-append P xs ys h.1 k)

pub All-weaken {ℓ κ μ} :
    {A : Type ℓ} (P : A → Type κ) (Q : A → Type μ) (xs : List A)
    → ((a : A) → P a → Q a)
    → All P xs
    → All Q xs
All-weaken P Q [] f h = tt
All-weaken P Q (x ∷ xs) f h = (f x h.0, All-weaken P Q xs f h.1)

pub NotIn-append : (x : ℕ) (xs ys : List ℕ) → NotIn x xs → NotIn x ys → NotIn x (xs ++ ys)
NotIn-append x [] ys h k = k
NotIn-append x (y ∷ xs) ys h k = (h.0, NotIn-append x xs ys h.1 k)

-- An element that lacks what all members have is not a member.
pub NotIn-of_All {κ} : (P : ℕ → Type κ) (x : ℕ) (xs : List ℕ) → All P xs → (P x → ⊥) → NotIn x xs
NotIn-of_All P x [] h n = tt
NotIn-of_All P x (y ∷ ys) h n = (λ e. n (rw e h.0), NotIn-of_All P x ys h.1 n)

pub Distinct-snoc : (xs : List ℕ) (x : ℕ) → Distinct xs → NotIn x xs → Distinct (xs ++ x ∷ [])
Distinct-snoc [] x d n = (tt, tt)
Distinct-snoc (y ∷ ys) x d n =
    (NotIn-append y ys (x ∷ []) d.0 (λ e. n.0 (rw e refl), tt), Distinct-snoc ys x d.1 n.1)

-- All but `x`.
abbrev without : ℕ → List ℕ → List ℕ
without x [] = []
without x (y ∷ ys) = let rest = without x ys in if y == x then rest else y ∷ rest

NotIn-without : (x y : ℕ) (xs : List ℕ) → NotIn x xs → NotIn x (without y xs)
NotIn-without x y [] h = tt
NotIn-without x y (z ∷ zs) h = ground (arith, NotIn-without x y zs)

Distinct-without : (x : ℕ) (xs : List ℕ) → Distinct xs → Distinct (without x xs)
Distinct-without x [] h = tt
Distinct-without x (y ∷ ys) h = ground (arith, Distinct-without x ys, NotIn-without y x ys)

without_of_NotIn : (x : ℕ) (xs : List ℕ) → NotIn x xs → length (without x xs) ≡ length xs
without_of_NotIn x [] h = refl
without_of_NotIn x (y ∷ ys) h = ground (arith, without_of_NotIn x ys)

length-without : (x : ℕ) (xs : List ℕ) → Distinct xs → length xs ≤ suc (length (without x xs))
length-without x [] h = omega arith
length-without x (y ∷ ys) h = ground (arith, length-without x ys, without_of_NotIn x ys)

below-without : (n : ℕ) (xs : List ℕ) → All (λ x. x < suc n) xs → All (λ x. x < n) (without n xs)
below-without n [] h = tt
below-without n (y ∷ ys) h = ground (arith, below-without n ys)

-- Distinct numbers below `n` are at most `n` many.
pub pigeonhole : (n : ℕ) (xs : List ℕ) → Distinct xs → All (λ x. x < n) xs → length xs ≤ n
pigeonhole zero [] d h = omega arith
pigeonhole zero (x ∷ xs) d h = absurd (omega arith)
pigeonhole (suc n) xs d h = omega (
  arith,
  length-without n xs d,
  pigeonhole n (without n xs) (Distinct-without n xs d) (below-without n xs h),
)
