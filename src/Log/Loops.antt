-- ===== src/Log/Loops.antt =====
-- What the loops of the log copy, and what they leave.
use os_playground.Base.{
  ℕ, zero, suc, ◌+◌, ◌-◌, ◌≤◌, ◌<◌, ◌≡◌, refl, ◌∙◌, ◌≢◌, arith, ==_refl, ==_ne, ℕ_discrete,
}
use os_playground.Log.{Block, Machine, bread, bwrite, for_tail, install_one, log_one}

pub bread-bwrite_self : (b : ℕ) (v : Block) (m : Machine) → bread (bwrite b v m) b ≡ v
unfolding bwrite
bread-bwrite_self b v m = rw (==_refl b, bread)

pub bread-bwrite_ne :
    (b c : ℕ) (v : Block) (m : Machine) → c ≢ b → bread (bwrite b v m) c ≡ bread m c
unfolding bwrite
bread-bwrite_ne b c v m h = elim (ℕ_discrete m.power 0) [
  | yes z ↦ rw (==_ne c b h, z, bread)
  | no p ↦ rw (==_ne m.power 0 p, ==_ne c b h, bread)
]

pub disk-bwrite_self : (b : ℕ) (v : Block) (m : Machine) → m.power ≢ 0 → (bwrite b v m).disk b ≡ v
unfolding bwrite
disk-bwrite_self b v m h = rw (==_ne m.power 0 h, ==_refl b)

pub disk-bwrite_ne : (b c : ℕ) (v : Block) (m : Machine) → c ≢ b → (bwrite b v m).disk c ≡ m.disk c
unfolding bwrite
disk-bwrite_ne b c v m h = elim (ℕ_discrete m.power 0) [
  | yes z ↦ rw z
  | no p ↦ rw (==_ne m.power 0 p, ==_ne c b h)
]

-- Without power the disk stays.
pub disk-bwrite_off : (b : ℕ) (v : Block) (m : Machine) → m.power ≡ 0 → (bwrite b v m).disk ≡ m.disk
unfolding bwrite
disk-bwrite_off b v m h = rw h

power-bwrite_off : (b : ℕ) (v : Block) (m : Machine) → m.power ≡ 0 → (bwrite b v m).power ≡ 0
unfolding bwrite
power-bwrite_off b v m h = omega arith

-- `b` is none of `dst i`, …, `dst (i + r - 1)`.
abbrev pub Misses : (ℕ → ℕ) → ℕ → ℕ → ℕ → Type 0
Misses dst i r b = (j : ℕ) → i ≤ j → j < i + r → b ≢ dst j

module _ (dst src : ℕ → ℕ) where
  abbrev pub copy_one : ℕ → Machine → Machine
  copy_one j m = bwrite (dst j) (bread m (src j)) m

  -- The loop from `i` on, for `r` rounds, has copied block `src j` to `dst j`, on the disk as far as
  -- the power went, and nothing else.
  pub record Copied (i r : ℕ) (m u : Machine) : Type 0 where
    pub log : u.log ≡ m.log
    pub power : u.power ≡ m.power - r
    pub read : (j : ℕ) → i ≤ j → j < i + r → bread u (dst j) ≡ bread m (src j)
    pub written : (j : ℕ) → i ≤ j → j < i + r → j < i + m.power → u.disk (dst j) ≡ bread m (src j)
    pub read_other : (b : ℕ) → Misses dst i r b → bread u b ≡ bread m b
    pub other : (b : ℕ) → Misses dst i r b → u.disk b ≡ m.disk b

  -- The copies do not overlap.
  pub record Apart (i r : ℕ) : Type 0 where
    pub dsts : (j k : ℕ) → i ≤ j → j < i + r → i ≤ k → k < i + r → dst j ≡ dst k → j ≡ k
    pub srcs : (j k : ℕ) → i ≤ j → j < i + r → i ≤ k → k < i + r → src j ≢ dst k

  Apart-later : (i r : ℕ) → Apart i (suc r) → Apart (i + 1) r
  Apart-later i r a = record {
    dsts = λ j k h h' l l'. a.dsts j k (omega arith) (omega arith) (omega arith) (omega arith);
    srcs = λ j k h h' l l'. a.srcs j k (omega arith) (omega arith) (omega arith) (omega arith);
  }

  Copied-step :
      (i r : ℕ) (m u : Machine)
      → Apart i (suc r)
      → Copied (i + 1) r (copy_one i m) u
      → Copied i (suc r) m u
  unfolding bwrite
  Copied-step i r m u a c = record {
    log = c.log;
    power = c.power ∙ omega arith;
    read = λ j h h'. elim (ℕ_discrete j i) [
      | yes e ↦ rw e (c.read_other (dst i) first ∙ bread-bwrite_self (dst i) (bread m (src i)) m)
      | no ne ↦
          c.read j (omega arith) (omega arith)
          ∙ bread-bwrite_ne _ _ _ m (a.srcs j i h h' (omega arith) (omega arith))
    ];
    written = λ j h h' p. elim (ℕ_discrete j i) [
      | yes e ↦ rw e (
          c.other (dst i) first
          ∙ disk-bwrite_self (dst i) (bread m (src i)) m (λ z. absurd (omega arith)))
      | no ne ↦
          c.written j (omega arith) (omega arith) (omega arith)
          ∙ bread-bwrite_ne _ _ _ m (a.srcs j i h h' (omega arith) (omega arith))
    ];
    read_other = λ b h.
        c.read_other b (λ j l l'. h j (omega arith) (omega arith))
        ∙ bread-bwrite_ne _ b _ m (h i (omega arith) (omega arith));
    other = λ b h.
        c.other b (λ j l l'. h j (omega arith) (omega arith))
        ∙ disk-bwrite_ne _ b _ m (h i (omega arith) (omega arith));
  }
    where
      first : Misses dst (i + 1) r (dst i)
      first j l l' e =
          absurd
            (omega (arith, a.dsts i j (omega arith) (omega arith) (omega arith) (omega arith) e))

  pub copy-Copied : (i r : ℕ) (m : Machine) → Apart i r → Copied i r m (for_tail copy_one i r m)
  unfolding for_tail
  copy-Copied i zero m a = record {
    log = refl;
    power = omega arith;
    read = λ j h h'. absurd (omega arith);
    written = λ j h h' p. absurd (omega arith);
    read_other = λ b h. refl;
    other = λ b h. refl;
  }
  copy-Copied i (suc r) m a =
      Copied-step i r m _ a (copy-Copied (i + 1) r (copy_one i m) (Apart-later i r a))

  -- Without power the loop leaves the disk alone.
  pub disk-copy_off :
      (i r : ℕ) (m : Machine) → m.power ≡ 0 → (for_tail copy_one i r m).disk ≡ m.disk
  unfolding for_tail
  disk-copy_off i zero m e = refl
  disk-copy_off i (suc r) m e =
      disk-copy_off (i + 1) r (copy_one i m) (power-bwrite_off _ _ m e) ∙ disk-bwrite_off _ _ m e

-- The two loops of log.c are such copies.
pub install-copies :
    (i r : ℕ) (m : Machine)
    → for_tail install_one i r m ≡ for_tail (copy_one m.log.block (λ j. m.log.start + j + 1)) i r m
unfolding for_tail bwrite
install-copies i zero m = refl
install-copies i (suc r) m = install-copies (i + 1) r (install_one i m)

pub log-copies :
    (i r : ℕ) (m : Machine)
    → for_tail log_one i r m ≡ for_tail (copy_one (λ j. m.log.start + j + 1) m.log.block) i r m
unfolding for_tail bwrite
log-copies i zero m = refl
log-copies i (suc r) m = log-copies (i + 1) r (log_one i m)
