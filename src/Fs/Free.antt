-- ===== src/Fs/Free.antt =====
-- `bfree`, and that it takes back what `balloc` gives.
use os_playground.Base.{
  ℕ, ◌/◌, ◌%◌, ◌≤◌, ◌<◌, ◌≡◌, ◌≢◌, inl, inr, refl, sym, ap, subst, ◌∙◌, Bool, true, false,
  false≢true, not, Option, none, some, ◌==◌, if◌then◌else◌, update_self, update_ne, arith,
  Bool-cases, ℕ_discrete, ==_refl, ==_ne,
}
use os_playground.Bio.{Block}
use os_playground.Fs.{bpb, Fs, bblock, put_block, test_bit, clear_bit, balloc, bfree}
use os_playground.Fs.Bits.{clear_bit_lem, clear_bit-bytes}
use os_playground.Fs.Bitmap.{
  is_used, meta_end, IsFormatted, used_put, Allocated, allocated, with_block, free_is_data,
  balloc_lem,
}

-- The file system after `bfree` of block `b`.
abbrev pub without_block : ℕ → Fs → Fs
without_block b s = put_block (bblock b s.sb) (clear_bit (s.disk (bblock b s.sb)) (b % bpb)) s

pub record IsFreed (s : Fs) (b : ℕ) (t : Fs) : Type 0 where
  pub used : (j : ℕ) → is_used t j ≡ (if j == b then false else is_used s j)
  pub others : (c : ℕ) → c ≢ bblock b s.sb → t.disk c ≡ s.disk c
  pub formatted : meta_end s ≤ b → IsFormatted t

pub data Freed (s : Fs) (b : ℕ) : Option Fs → Type 0 where
  freed :
      is_used s b ≡ true → IsFreed s b (without_block b s) → Freed s b (some (without_block b s))
  not_used : is_used s b ≡ false → Freed s b none

without_block-IsFreed : (s : Fs) (b : ℕ) → IsFormatted s → IsFreed s b (without_block b s)
without_block-IsFreed s b formatted = record {
  used = used;
  others = λ c ne. update_ne s.disk (bblock b s.sb) c cleared ne;
  formatted = λ data_block. record {
    bytes = λ c i. elim (ℕ_discrete c (bblock b s.sb)) [
      | yes e ↦
          subst (λ d. d i < 256)
            (sym (ap (without_block b s).disk e ∙ update_self s.disk (bblock b s.sb) cleared))
            (clear_bit-bytes (s.disk (bblock b s.sb)) (b % bpb) (formatted.bytes (bblock b s.sb)) i)
      | no ne ↦
          subst (λ d. d i < 256) (sym (update_ne s.disk (bblock b s.sb) c cleared ne))
            (formatted.bytes c i)
    ];
    maps = formatted.maps;
    inodes = formatted.inodes;
    kept = λ j h m.
        used j
        ∙ ap (λ x. if x then false else is_used s j) (==_ne j b (λ e. omega arith))
        ∙ formatted.kept j h m;
    small = formatted.small;
  };
}
  where
    cleared : Block
    cleared = clear_bit (s.disk (bblock b s.sb)) (b % bpb)

    used : (j : ℕ) → is_used (without_block b s) j ≡ (if j == b then false else is_used s j)
    used j =
        used_put s b (clear_bit (s.disk (bblock b s.sb)) (b % bpb)) false
          (λ i.
            clear_bit_lem (s.disk (bblock b s.sb)) (b % bpb) i
              (formatted.bytes (bblock b s.sb) (b % bpb / 8)))
          j

-- `bfree` panics exactly if the block is not in use; otherwise it marks only that block free, and leaves
-- all blocks but the one of the bit map alone.
pub bfree_lem : (s : Fs) (b : ℕ) → IsFormatted s → Freed s b (bfree b s)
unfolding bfree
bfree_lem s b formatted = elim (Bool-cases (test_bit (s.disk (bblock b s.sb)) (b % bpb) == 0)) [
  | inl e ↦ rw e (not_used (ap not e))
  | inr e ↦ rw e (freed (ap not e) (without_block-IsFreed s b formatted))
]

-- What `balloc` returns, `bfree` takes back, and then exactly the blocks are in use that were before.
pub bfree-balloc :
    (s t : Fs) (b : ℕ)
    → IsFormatted s
    → balloc s ≡ some (b, t)
    → (u : Fs) × (bfree b t ≡ some u)
      × IsFormatted u
      × ((j : ℕ) → j < s.sb.size → is_used u j ≡ is_used s j)
bfree-balloc s t b formatted e = taken b t (subst (Allocated s) e (balloc_lem s formatted))
  where
    back :
        (b : Bool) {x : Bool}
        → (b ≡ true → x ≡ false)
        → (if b then false else if b then true else x) ≡ x
    back true f = sym (f refl)
    back false f = refl

    taken :
        (b : ℕ) (t : Fs)
        → Allocated s (some (b, t))
        → (u : Fs) × (bfree b t ≡ some u)
          × IsFormatted u
          × ((j : ℕ) → j < s.sb.size → is_used u j ≡ is_used s j)
    taken b _ (allocated _ l clear _ made) =
        let t' = with_block b s in given t' (bfree_lem t' b made.formatted)
      where
        in_use : is_used (with_block b s) b ≡ true
        in_use = made.used b l ∙ ap (λ x. if x then true else is_used s b) (==_refl b)

        equal : (j : ℕ) → (j == b) ≡ true → j ≡ b
        equal j q = ground arith

        given :
            (t' : Fs) {o : Option Fs}
            → Freed (with_block b s) b o
            → (u : Fs) × (o ≡ some u)
              × IsFormatted u
              × ((j : ℕ) → j < s.sb.size → is_used u j ≡ is_used s j)
        given t' (not_used n) = absurd (false≢true (sym n ∙ in_use))
        given t' (freed _ f) = (
          without_block b (with_block b s),
          refl,
          f.formatted (free_is_data s b formatted l clear),
          λ j h.
              f.used j
              ∙ ap (λ x. if j == b then false else x) (made.used j h)
              ∙ back (j == b) (λ q. subst (λ n. is_used s n ≡ false) (sym (equal j q)) clear),
        )
