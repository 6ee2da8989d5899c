-- ===== src/Fs/Bits.antt =====
-- Bits of bytes: the tests and changes that the bit map uses, over all bytes by evaluation.
use Prim.Native.Nat.{bit_and, bit_or}
use os_playground.Base.{
  ℕ, zero, suc, ◌-◌, ◌/◌, ◌%◌, ◌^◌, ◌<◌, ◌≡◌, refl, sym, ap, subst, ◌∙◌, Bool, true, false, not,
  ◌&&◌, ltb, ◌==◌, if◌then◌else◌, update_self, update_ne, arith, ==_iff, ℕ_discrete, ==_ne,
}
use os_playground.Bio.{Block}
use os_playground.Fs.{test_bit, set_bit, clear_bit}

unfoldable pub all_below : ℕ → (ℕ → Bool) → Bool
all_below zero p = true
all_below (suc n) p = p n && all_below n p

pub all_below_sound : (n : ℕ) (p : ℕ → Bool) (x : ℕ) → all_below n p ≡ true → x < n → p x ≡ true
unfolding all_below
all_below_sound zero p x h l = absurd (omega arith)
all_below_sound (suc n) p x h l = ground (arith, all_below_sound n p x)

-- For every byte and every two bits of it.
abbrev every : (ℕ → ℕ → ℕ → Bool) → Bool
every p = all_below 256 (λ x. all_below 8 (λ k. all_below 8 (p x k)))

every_sound :
    (p : ℕ → ℕ → ℕ → Bool) → every p ≡ true → (x k j : ℕ) → x < 256 → k < 8 → j < 8 → p x k j ≡ true
every_sound p h x k j l m n =
    all_below_sound 8 (p x k) j
      (all_below_sound 8 (λ k. all_below 8 (p x k)) k
        (all_below_sound 256 (λ x. all_below 8 (λ k. all_below 8 (p x k))) x h l) m)
      n

set_table :
    every
      (λ x k j. bit_and (bit_or x (2 ^ k)) (2 ^ j) == (if j == k then 2 ^ k else bit_and x (2 ^ j)))
    ≡ true
unfolding all_below
set_table = refl

clear_table :
    every (λ x k j.
      bit_and (bit_and x (255 - 2 ^ k)) (2 ^ j) == (if j == k then 0 else bit_and x (2 ^ j)))
    ≡ true
unfolding all_below
clear_table = refl

byte_table : every (λ x k j. ltb (bit_or x (2 ^ k)) 256 && ltb (bit_and x (255 - 2 ^ k)) 256) ≡ true
unfolding all_below
byte_table = refl

power_table : every (λ x k j. not (2 ^ k == 0)) ≡ true
unfolding all_below
power_table = refl

abbrev pub is_set : Block → ℕ → Bool
is_set d bi = not (test_bit d bi == 0)

-- Two bits of a block are the same if they stand in the same byte at the same place.
same_bit : (j k : ℕ) → j / 8 ≡ k / 8 → (j % 8 == k % 8) ≡ (j == k)
same_bit j k e = ground arith

module _ (d : Block) (k j : ℕ) where
  pub set_bit_lem : d (k / 8) < 256 → is_set (set_bit d k) j ≡ (if j == k then true else is_set d j)
  set_bit_lem byte = elim (ℕ_discrete (j / 8) (k / 8)) [
    | yes e ↦
        ap (λ y. not (bit_and y (2 ^ (j % 8)) == 0)) (ap (set_bit d k) e ∙ update_self d (k / 8) _)
        ∙ ap (λ y. not (y == 0))
            ((==_iff _ _).0 (
              every_sound _ set_table (d (k / 8)) (k % 8) (j % 8) byte (omega arith) (omega arith)))
        ∙ ap (λ b. not ((if b then 2 ^ (k % 8) else bit_and (d (k / 8)) (2 ^ (j % 8))) == 0))
            (same_bit j k e)
        ∙ chosen (j == k) e
    | no ne ↦
        let other : (j == k) ≡ false = ==_ne j k (λ q. ne (ap (λ n. n / 8) q)) in
        ap (λ y. not (bit_and y (2 ^ (j % 8)) == 0)) (update_ne d (k / 8) (j / 8) _ ne)
        ∙ rw other refl
  ]
    where
      chosen :
          (b : Bool)
          → j / 8 ≡ k / 8
          → not ((if b then 2 ^ (k % 8) else bit_and (d (k / 8)) (2 ^ (j % 8))) == 0)
            ≡ (if b then true else is_set d j)
      chosen true e =
          every_sound (λ x k j. not (2 ^ k == 0)) power_table 0 (k % 8) 0 (omega arith)
            (omega arith) (omega arith)
      chosen false e = ap (λ n. not (bit_and (d n) (2 ^ (j % 8)) == 0)) (sym e)

  pub clear_bit_lem :
      d (k / 8) < 256 → is_set (clear_bit d k) j ≡ (if j == k then false else is_set d j)
  clear_bit_lem byte = elim (ℕ_discrete (j / 8) (k / 8)) [
    | yes e ↦
        ap (λ y. not (bit_and y (2 ^ (j % 8)) == 0))
          (ap (clear_bit d k) e ∙ update_self d (k / 8) _)
        ∙ ap (λ y. not (y == 0))
            ((==_iff _ _).0 (
              every_sound _ clear_table (d (k / 8)) (k % 8) (j % 8) byte (omega arith)
                (omega arith)))
        ∙ ap (λ b. not ((if b then 0 else bit_and (d (k / 8)) (2 ^ (j % 8))) == 0)) (same_bit j k e)
        ∙ chosen (j == k) e
    | no ne ↦
        let other : (j == k) ≡ false = ==_ne j k (λ q. ne (ap (λ n. n / 8) q)) in
        ap (λ y. not (bit_and y (2 ^ (j % 8)) == 0)) (update_ne d (k / 8) (j / 8) _ ne)
        ∙ rw other refl
  ]
    where
      chosen :
          (b : Bool)
          → j / 8 ≡ k / 8
          → not ((if b then 0 else bit_and (d (k / 8)) (2 ^ (j % 8))) == 0)
            ≡ (if b then false else is_set d j)
      chosen true e = refl
      chosen false e = ap (λ n. not (bit_and (d n) (2 ^ (j % 8)) == 0)) (sym e)

-- The changes keep bytes bytes.
pub set_bit-bytes : (d : Block) (k : ℕ) → ((i : ℕ) → d i < 256) → (i : ℕ) → set_bit d k i < 256
set_bit-bytes d k h i = elim (ℕ_discrete i (k / 8)) [
  | yes e ↦
      let t =
        every_sound (λ x k j. ltb (bit_or x (2 ^ k)) 256 && ltb (bit_and x (255 - 2 ^ k)) 256)
          byte_table (d (k / 8)) (k % 8) 0 (h (k / 8)) (omega arith) (omega arith) in
      subst (λ y. y < 256) (sym (ap (set_bit d k) e ∙ update_self d (k / 8) _)) (first _ _ t)
  | no ne ↦ subst (λ y. y < 256) (sym (update_ne d (k / 8) i _ ne)) (h i)
]
  where
    first : (a b : ℕ) → ltb a 256 && ltb b 256 ≡ true → a < 256
    first a b t = ground arith

pub clear_bit-bytes : (d : Block) (k : ℕ) → ((i : ℕ) → d i < 256) → (i : ℕ) → clear_bit d k i < 256
clear_bit-bytes d k h i = elim (ℕ_discrete i (k / 8)) [
  | yes e ↦
      let t =
        every_sound (λ x k j. ltb (bit_or x (2 ^ k)) 256 && ltb (bit_and x (255 - 2 ^ k)) 256)
          byte_table (d (k / 8)) (k % 8) 0 (h (k / 8)) (omega arith) (omega arith) in
      subst (λ y. y < 256) (sym (ap (clear_bit d k) e ∙ update_self d (k / 8) _)) (second _ _ t)
  | no ne ↦ subst (λ y. y < 256) (sym (update_ne d (k / 8) i _ ne)) (h i)
]
  where
    second : (a b : ℕ) → ltb a 256 && ltb b 256 ≡ true → b < 256
    second a b t = ground arith
