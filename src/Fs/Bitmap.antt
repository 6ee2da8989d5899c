-- ===== src/Fs/Bitmap.antt =====
-- `balloc` and `bfree`: the bit map of the blocks in use.
use os_playground.Base.{
  ℕ, zero, suc, ◌+◌, ◌-◌, ◌*◌, ◌/◌, ◌^◌, ◌%◌, min, ◌≤◌, ◌<◌, ◌≡◌, ◌≢◌, inl, inr, refl, sym, ap,
  subst, ◌∙◌, Bool, true, false, false≢true, not, Option, none, some, ◌==◌, if◌then◌else◌, update,
  update_self, update_ne, arith, Bool-cases, ℕ_discrete, dec_lt, ==_ne,
}
use os_playground.Bio.{Block}
use os_playground.Fs.{
  bpb, Fs, iblock, bblock, put_block, test_bit, set_bit, bzero, find_bit, found_or, find_free, mark,
  take_block, balloc,
}
use os_playground.Fs.Bits.{is_set, set_bit_lem, set_bit-bytes}

abbrev pub is_used : Fs → ℕ → Bool
is_used s b = is_set (s.disk (bblock b s.sb)) (b % bpb)

-- The first block after the metadata.
abbrev pub meta_end : Fs → ℕ
meta_end s = s.sb.size - s.sb.nblocks

-- The layout: inodes before the bit map, both among the metadata, whose blocks are all in use.
pub record IsFormatted (s : Fs) : Type 0 where
  pub bytes : (b i : ℕ) → s.disk b i < 256
  pub maps : (k : ℕ) → k < s.sb.size → bblock k s.sb < meta_end s
  pub inodes : (i : ℕ) → i < s.sb.ninodes → iblock i s.sb < s.sb.bmapstart
  pub kept : (k : ℕ) → k < s.sb.size → k < meta_end s → is_used s k ≡ true
  pub small : s.sb.size ≤ 2 ^ 32

-- A change of one bit in the block of the bit map for `k`.
pub used_put :
    (s : Fs) (k : ℕ) (d : Block) (v : Bool)
    → ((i : ℕ) → is_set d i ≡ (if i == k % bpb then v else is_set (s.disk (bblock k s.sb)) i))
    → (j : ℕ) → is_used (put_block (bblock k s.sb) d s) j ≡ (if j == k then v else is_used s j)
used_put s k d v h j = elim (ℕ_discrete (j / bpb) (k / bpb)) [
  | yes e ↦
      let same : bblock j s.sb ≡ bblock k s.sb = ap (λ n. n + s.sb.bmapstart) e in
      let at_k : update s.disk (bblock k s.sb) d (bblock j s.sb) ≡ d =
        ap (update s.disk (bblock k s.sb) d) same ∙ update_self s.disk (bblock k s.sb) d in
      ap (λ x. is_set x (j % bpb)) at_k
      ∙ h (j % bpb)
      ∙ ap (λ b. if b then v else is_set (s.disk (bblock k s.sb)) (j % bpb)) (same_place j k e)
      ∙ ap (λ n. if j == k then v else is_set (s.disk n) (j % bpb)) (sym same)
  | no ne ↦
      let other : (j == k) ≡ false = ==_ne j k (λ q. ne (ap (λ n. n / bpb) q)) in
      ap (λ x. is_set x (j % bpb))
        (update_ne s.disk (bblock k s.sb) (bblock j s.sb) d (λ q. ne (omega arith)))
      ∙ sym (ap (λ b. if b then v else is_used s j) other)
]
  where
    same_place : (j k : ℕ) → j / bpb ≡ k / bpb → (j % bpb == k % bpb) ≡ (j == k)
    same_place j k e = ground arith

-- A block that is not of the bit map does not matter.
pub used_other :
    (s : Fs) (b : ℕ) (d : Block) (j : ℕ)
    → bblock j s.sb ≢ b
    → is_used (put_block b d s) j ≡ is_used s j
used_other s b d j ne = ap (λ x. is_set x (j % bpb)) (update_ne s.disk b (bblock j s.sb) d ne)

-- Which of the bits from `lo` on, before `hi`, `find_bit` finds; `used` tells the bits.
pub data Found (used : ℕ → Bool) (lo hi : ℕ) : Option ℕ → Type 0 where
  free :
      (x : ℕ)
      → lo ≤ x
      → x < hi
      → used x ≡ false
      → ((y : ℕ) → lo ≤ y → y < x → used y ≡ true)
      → Found used lo hi (some x)
  full : ((y : ℕ) → lo ≤ y → y < hi → used y ≡ true) → Found used lo hi none

Found-append :
    {used : ℕ → Bool} {lo hi : ℕ} {o : Option ℕ} (mid : ℕ)
    → lo ≤ mid
    → ((y : ℕ) → lo ≤ y → y < mid → y < hi → used y ≡ true)
    → Found used mid hi o
    → Found used lo hi o
Found-append mid l before (free x a b c d) = free x (omega arith) b c (λ y h i.
    elim (dec_lt y mid) [ yes p ↦ before y h p (omega arith) | no p ↦ d y (omega arith) i ])
Found-append mid l before (full d) =
    full (λ y h i. elim (dec_lt y mid) [ yes p ↦ before y h p i | no p ↦ d y (omega arith) i ])

find_bit-Found : (d : Block) (bi r : ℕ) → Found (is_set d) bi (bi + r) (find_bit d bi r)
unfolding find_bit
find_bit-Found d bi zero = full (λ y a b. absurd (omega arith))
find_bit-Found d bi (suc r) = elim (Bool-cases (test_bit d bi == 0)) [
  | inl e ↦ rw e (free bi (omega arith) (omega arith) (ap not e) (λ y a b. absurd (omega arith)))
  | inr e ↦ rw e (
      Found-append (bi + 1) (omega arith) (λ y a b _. ap (is_set d) (only y a b) ∙ ap not e)
        (subst (λ n. Found (is_set d) (bi + 1) n (find_bit d (bi + 1) r)) (omega arith)
          (find_bit-Found d (bi + 1) r)))
]
  where
    only : (y : ℕ) → bi ≤ y → y < bi + 1 → y ≡ bi
    only y a b = omega arith

-- Bit `bi` of the block of the bit map that begins with block `b`.
bit_of :
    (s : Fs) (b q bi : ℕ)
    → b ≡ bpb * q
    → bi < bpb
    → is_used s (b + bi) ≡ is_set (s.disk (bblock b s.sb)) bi
bit_of s b q bi e l =
    ap (λ n. is_set (s.disk (n + s.sb.bmapstart)) ((b + bi) % bpb)) (omega arith)
    ∙ ap (is_set (s.disk (bblock b s.sb))) (omega arith)

find_free-Found :
    (s : Fs) (q r b : ℕ)
    → b ≡ bpb * q
    → s.sb.size ≤ bpb * (q + r)
    → Found (is_used s) b s.sb.size (find_free s b r)
unfolding find_free
find_free-Found s q zero b e l = full (λ y a c. absurd (omega arith))
find_free-Found s q (suc r) b e l =
    merge (find_bit-Found (s.disk (bblock b s.sb)) 0 (min bpb (s.sb.size - b)))
      (find_free-Found s (q + 1) r (b + bpb) (omega arith) (omega arith))
  where
    used_at : (y : ℕ) → b ≤ y → y < b + bpb → is_used s y ≡ is_set (s.disk (bblock b s.sb)) (y - b)
    used_at y a c = ap (is_used s) (omega arith) ∙ bit_of s b q (y - b) e (omega arith)

    merge :
        {o rest : Option ℕ}
        → Found (is_set (s.disk (bblock b s.sb))) 0 (0 + min bpb (s.sb.size - b)) o
        → Found (is_used s) (b + bpb) s.sb.size rest
        → Found (is_used s) b s.sb.size (found_or b o rest)
    merge (free x _ h clear before) rest =
        free (b + x) (omega arith) (omega arith) (bit_of s b q x e (omega arith) ∙ clear)
          (λ y a c. used_at y a (omega arith) ∙ before (y - b) (omega arith) (omega arith))
    merge (full before) rest =
        Found-append (b + bpb) (omega arith)
          (λ y a c h. used_at y a c ∙ before (y - b) (omega arith) (omega arith)) rest

-- The file system after `balloc` has chosen block `k`.
abbrev pub with_block : ℕ → Fs → Fs
with_block k s = bzero k (mark k s)

-- What the allocation of `k` does: one more block is in use, it is zeroed, and only its part of the bit
-- map changes beside it.
pub record IsAllocated (s : Fs) (k : ℕ) (t : Fs) : Type 0 where
  pub used : (j : ℕ) → j < s.sb.size → is_used t j ≡ (if j == k then true else is_used s j)
  pub zeroed : (i : ℕ) → t.disk k i ≡ 0
  pub others : (b : ℕ) → b ≢ k → b ≢ bblock k s.sb → t.disk b ≡ s.disk b
  pub formatted : IsFormatted t

pub data Allocated (s : Fs) : Option (ℕ × Fs) → Type 0 where
  allocated :
      (k : ℕ)
      → k < s.sb.size
      → is_used s k ≡ false
      → ((j : ℕ) → j < k → is_used s j ≡ true)
      → IsAllocated s k (with_block k s)
      → Allocated s (some (k, with_block k s))
  out_of_blocks : ((j : ℕ) → j < s.sb.size → is_used s j ≡ true) → Allocated s none

-- A block that is free is not of the metadata.
pub free_is_data :
    (s : Fs) (k : ℕ) → IsFormatted s → k < s.sb.size → is_used s k ≡ false → meta_end s ≤ k
free_is_data s k formatted l clear = elim (dec_lt k (meta_end s)) [
  | yes p ↦ absurd (false≢true (sym clear ∙ formatted.kept k l p))
  | no p ↦ omega arith
]

with_block-IsAllocated :
    (s : Fs) (k : ℕ)
    → IsFormatted s
    → k < s.sb.size
    → is_used s k ≡ false
    → IsAllocated s k (with_block k s)
with_block-IsAllocated s k formatted l clear = record {
  used = used;
  zeroed = λ i. ap (λ d. d i) (update_self (mark k s).disk k (λ _. 0));
  others = λ b ne ne'.
      update_ne (mark k s).disk k b (λ _. 0) ne ∙ update_ne s.disk (bblock k s.sb) b marked ne';
  formatted = record {
    bytes = λ b i. elim (ℕ_discrete b k) [
      | yes e ↦
          subst (λ d. d i < 256)
            (sym (ap (with_block k s).disk e ∙ update_self (mark k s).disk k (λ _. 0)))
            (omega arith)
      | no ne ↦
          subst (λ d. d i < 256) (sym (update_ne (mark k s).disk k b (λ _. 0) ne)) (mark_bytes b i)
    ];
    maps = formatted.maps;
    inodes = formatted.inodes;
    kept = λ j h m. used j h ∙ stays (j == k) (formatted.kept j h m);
    small = formatted.small;
  };
}
  where
    marked : Block
    marked = set_bit (s.disk (bblock k s.sb)) (k % bpb)

    used :
        (j : ℕ)
        → j < s.sb.size
        → is_used (with_block k s) j ≡ (if j == k then true else is_used s j)
    used j h =
        used_other (mark k s) k (λ _. 0) j
          (λ e. below (formatted.maps j h) (free_is_data s k formatted l clear) e)
        ∙ used_put s k (set_bit (s.disk (bblock k s.sb)) (k % bpb)) true
            (λ i.
              set_bit_lem (s.disk (bblock k s.sb)) (k % bpb) i
                (formatted.bytes (bblock k s.sb) (k % bpb / 8)))
            j
      where
        below : {a b m : ℕ} → a < m → m ≤ b → a ≡ b → ⊥
        below p q e = omega arith

    mark_bytes : (b i : ℕ) → (mark k s).disk b i < 256
    mark_bytes b i = elim (ℕ_discrete b (bblock k s.sb)) [
      | yes e ↦
          subst (λ d. d i < 256)
            (sym (
              ap (mark k s).disk e
              ∙ update_self s.disk (bblock k s.sb) (set_bit (s.disk (bblock k s.sb)) (k % bpb))))
            (set_bit-bytes (s.disk (bblock k s.sb)) (k % bpb) (formatted.bytes (bblock k s.sb)) i)
      | no ne ↦
          subst (λ d. d i < 256)
            (sym
              (update_ne s.disk (bblock k s.sb) b (set_bit (s.disk (bblock k s.sb)) (k % bpb)) ne))
            (formatted.bytes b i)
    ]

    stays : (b : Bool) {x : Bool} → x ≡ true → (if b then true else x) ≡ true
    stays true e = refl
    stays false e = e

-- On a formatted disk, `balloc` takes the first block that is not in use, marks it, zeroes it and changes
-- no other block but the one of the bit map; it panics only if all blocks are in use.
pub balloc_lem : (s : Fs) → IsFormatted s → Allocated s (balloc s)
unfolding balloc
balloc_lem s formatted =
    chosen (find_free-Found s 0 ((s.sb.size + bpb - 1) / bpb) 0 refl (omega arith))
  where
    chosen : {o : Option ℕ} → Found (is_used s) 0 s.sb.size o → Allocated s (take_block s o)
    chosen (free k _ l clear before) =
        allocated k l clear (λ j h. before j (omega arith) h)
          (with_block-IsAllocated s k formatted l clear)
    chosen (full before) = out_of_blocks (λ j h. before j (omega arith) h)
