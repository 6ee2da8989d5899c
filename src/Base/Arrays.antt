-- ===== src/Base/Arrays.antt =====
-- C arrays, and memory, as functions of the index.
use Prim.Native.Nat.{ℕ}
use mathlib.Core.Path.{◌≡◌}
use mathlib.Core.Logic.{◌≢◌}
use os_playground.Base.Tests.{◌==◌, if◌then◌else◌, ==_refl, ==_ne}

module _ {ℓ} {A : Type ℓ} where
  -- `f[i] = v`
  abbrev pub update : (ℕ → A) → ℕ → A → ℕ → A
  update f i v j = if j == i then v else f j

  pub update_self : (f : ℕ → A) (i : ℕ) (v : A) → update f i v i ≡ v
  update_self f i v = rw (==_refl i)

  pub update_ne : (f : ℕ → A) (i j : ℕ) (v : A) → j ≢ i → update f i v j ≡ f j
  update_ne f i j v h = rw (==_ne j i h)
