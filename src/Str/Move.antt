-- ===== src/Str/Move.antt =====
-- `memmove` and `memset`: which bytes they write, and with what.
use os_playground.Base.{
  ℕ, zero, suc, ◌+◌, ◌-◌, ◌*◌, ◌/◌, ◌%◌, ◌≤◌, ◌<◌, ◌≡◌, subst, ◌⊎◌, inl, inr, refl, ap, ◌∙◌, true,
  false, ltb, ◌==◌, ◌&&◌, update, update_self, update_ne, arith, Bool-cases, ℕ_discrete,
}
use native.Mathlib.Decide.{dec_lt}
use os_playground.Str.{Memory, stosb, store32, stosl, fourfold, memset, copy_up, copy_down, memmove}

-- `u` has at `d` the `n` bytes that `m` has at `s`, and is `m` elsewhere.
pub record Moved (s d n : ℕ) (m u : Memory) : Type 0 where
  pub inside : (a b i : ℕ) → i < n → a ≡ d + i → b ≡ s + i → u a ≡ m b
  pub outside : (a : ℕ) → (a < d) ⊎ (d + n ≤ a) → u a ≡ m a

-- Upwards, the destination must not begin inside the source.
copy_up-Moved : (n s d : ℕ) (m : Memory) → (d ≤ s) ⊎ (s + n ≤ d) → Moved s d n m (copy_up s d n m)
unfolding copy_up
copy_up-Moved zero s d m h = record {
  inside = λ a b i l e f. absurd (omega arith);
  outside = λ a o. refl;
}
copy_up-Moved (suc n) s d m h =
    let r = copy_up-Moved n (s + 1) (d + 1) (update m d (m s)) (shift h) in
    record {
      inside = λ a b i l e f. elim (ℕ_discrete i 0) [
        | yes z ↦
            r.outside a (inl (omega arith))
            ∙ ap (update m d (m s)) (at_start a i e z)
            ∙ update_self m d (m s)
            ∙ ap m (omega arith)
        | no z ↦
            r.inside a b (i - 1) (omega arith) (omega arith) (omega arith)
            ∙ update_ne m d b (m s) (λ q. omega arith)
      ];
      outside = λ a o. r.outside a (further a o) ∙ update_ne m d a (m s) (λ q. omega arith);
    }
  where
    at_start : (a i : ℕ) → a ≡ d + i → i ≡ 0 → a ≡ d
    at_start a i e z = omega arith

    shift : (d ≤ s) ⊎ (s + suc n ≤ d) → (d + 1 ≤ s + 1) ⊎ (s + 1 + n ≤ d + 1)
    shift (inl p) = inl (omega arith)
    shift (inr p) = inr (omega arith)

    further : (a : ℕ) → (a < d) ⊎ (d + suc n ≤ a) → (a < d + 1) ⊎ (d + 1 + n ≤ a)
    further a (inl p) = inl (omega arith)
    further a (inr p) = inr (omega arith)

-- Downwards, the source must not begin inside the destination; `es` and `ed` are the ends.
copy_down-Moved :
    (n s d es ed : ℕ) (m : Memory)
    → es ≡ s + n
    → ed ≡ d + n
    → s ≤ d
    → Moved s d n m (copy_down es ed n m)
unfolding copy_down
copy_down-Moved zero s d es ed m e f h = record {
  inside = λ a b i l p q. absurd (omega arith);
  outside = λ a o. refl;
}
copy_down-Moved (suc n) s d es ed m e f h =
    let m' = update m (ed - 1) (m (es - 1)) in
    let r = copy_down-Moved n s d (es - 1) (ed - 1) m' (omega arith) (omega arith) h in
    record {
      inside = λ a b i l p q. elim (ℕ_discrete i n) [
        | yes z ↦
            r.outside a (inr (omega arith))
            ∙ ap m' (at_end a i p z)
            ∙ update_self m (ed - 1) (m (es - 1))
            ∙ ap m (omega arith)
        | no z ↦
            r.inside a b i (omega arith) p q
            ∙ update_ne m (ed - 1) b (m (es - 1)) (λ k. omega arith)
      ];
      outside =
          λ a o. r.outside a (further a o) ∙ update_ne m (ed - 1) a (m (es - 1)) (λ k. omega arith);
    }
  where
    at_end : (a i : ℕ) → a ≡ d + i → i ≡ n → a ≡ ed - 1
    at_end a i p z = omega arith

    further : (a : ℕ) → (a < d) ⊎ (d + suc n ≤ a) → (a < d) ⊎ (d + n ≤ a)
    further a (inl p) = inl p
    further a (inr p) = inr (omega arith)

-- `memmove` leaves at `dst` the `n` bytes that stood at `src` before, also where the two overlap, and
-- changes no other byte.
pub memmove_lem :
    (dst src n : ℕ) (m : Memory)
    → ((i : ℕ) → i < n → memmove dst src n m (dst + i) ≡ m (src + i))
      × ((a : ℕ) → (a < dst) ⊎ (dst + n ≤ a) → memmove dst src n m a ≡ m a)
unfolding memmove
memmove_lem dst src n m = elim (Bool-cases (ltb src dst && ltb dst (src + n))) [
  | inl down ↦
      let r = copy_down-Moved n src dst (src + n) (dst + n) m refl refl (ground arith) in
      rw down (λ i l. r.inside (dst + i) (src + i) i l refl refl, r.outside)
  | inr up ↦
      let r = copy_up-Moved n src dst m (disjoint (Bool-cases (ltb src dst)) up) in
      rw up (λ i l. r.inside (dst + i) (src + i) i l refl refl, r.outside)
]
  where
    disjoint :
        (ltb src dst ≡ true) ⊎ (ltb src dst ≡ false)
        → ltb src dst && ltb dst (src + n) ≡ false
        → (dst ≤ src) ⊎ (src + n ≤ dst)
    disjoint (inl p) up = inr (ground arith)
    disjoint (inr p) up = inl (ground arith)

-- `u` has `n` times the byte `c` at `dst`, and is `m` elsewhere.
pub record Filled (dst c n : ℕ) (m u : Memory) : Type 0 where
  pub inside : (a : ℕ) → dst ≤ a → a < dst + n → u a ≡ c
  pub outside : (a : ℕ) → (a < dst) ⊎ (dst + n ≤ a) → u a ≡ m a

pub stosb-Filled : (n dst c : ℕ) (m : Memory) → Filled dst (c % 256) n m (stosb dst c n m)
unfolding stosb
stosb-Filled zero dst c m = record { inside = λ a l k. absurd (omega arith); outside = λ a o. refl }
stosb-Filled (suc n) dst c m =
    let r = stosb-Filled n (dst + 1) c (update m dst (c % 256)) in
    record {
      inside = λ a l k. elim (ℕ_discrete a dst) [
        | yes e ↦ rw e (r.outside dst (inl (omega arith)) ∙ update_self m dst (c % 256))
        | no ne ↦ r.inside a (omega arith) (omega arith)
      ];
      outside = λ a o. r.outside a (further a o) ∙ update_ne m dst a (c % 256) (λ k. omega arith);
    }
  where
    further : (a : ℕ) → (a < dst) ⊎ (dst + suc n ≤ a) → (a < dst + 1) ⊎ (dst + 1 + n ≤ a)
    further a (inl p) = inl (omega arith)
    further a (inr p) = inr (omega arith)

store32-Filled : (dst c : ℕ) (m : Memory) → c < 256 → Filled dst c 4 m (store32 dst (fourfold c) m)
store32-Filled dst c m h = record { inside = λ a l k. ground arith; outside = λ a o. ground arith }

stosl-Filled :
    (n dst c : ℕ) (m : Memory) → c < 256 → Filled dst c (4 * n) m (stosl dst (fourfold c) n m)
unfolding stosl
stosl-Filled zero dst c m h = record {
  inside = λ a l k. absurd (omega arith);
  outside = λ a o. refl;
}
stosl-Filled (suc n) dst c m h =
    let word = store32-Filled dst c m h in
    let r = stosl-Filled n (dst + 4) c (store32 dst (fourfold c) m) h in
    record {
      inside = λ a l k. elim (dec_lt a (dst + 4)) [
        | yes p ↦ r.outside a (inl p) ∙ word.inside a l p
        | no p ↦ r.inside a (omega arith) (omega arith)
      ];
      outside = λ a o. r.outside a (further a o) ∙ word.outside a (nearer a o);
    }
  where
    further : (a : ℕ) → (a < dst) ⊎ (dst + 4 * suc n ≤ a) → (a < dst + 4) ⊎ (dst + 4 + 4 * n ≤ a)
    further a (inl p) = inl (omega arith)
    further a (inr p) = inr (omega arith)

    nearer : (a : ℕ) → (a < dst) ⊎ (dst + 4 * suc n ≤ a) → (a < dst) ⊎ (dst + 4 ≤ a)
    nearer a (inl p) = inl p
    nearer a (inr p) = inr (omega arith)

-- `memset` writes the low byte of `c` to each of the `n` bytes at `dst`, whether it goes by words or by
-- bytes, and to no other byte.
pub memset_lem :
    (dst c n : ℕ) (m : Memory)
    → ((a : ℕ) → dst ≤ a → a < dst + n → memset dst c n m a ≡ c % 256)
      × ((a : ℕ) → (a < dst) ⊎ (dst + n ≤ a) → memset dst c n m a ≡ m a)
unfolding memset
memset_lem dst c n m = elim (Bool-cases (dst % 4 == 0 && n % 4 == 0)) [
  | inl words ↦
      let whole : 4 * (n / 4) ≡ n = ground arith in
      let r =
        subst (λ k. Filled dst (c % 256) k m (stosl dst (fourfold (c % 256)) (n / 4) m)) whole
          (stosl-Filled (n / 4) dst (c % 256) m (omega arith)) in
      rw words (r.inside, r.outside)
  | inr bytes ↦ let r = stosb-Filled n dst c m in rw bytes (r.inside, r.outside)
]
