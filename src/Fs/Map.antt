-- ===== src/Fs/Map.antt =====
-- The blocks of a file, and what an allocation for it keeps.
pub mod Direct
pub mod Entry
pub mod Bmap
use os_playground.Base.{
  ℕ, ◌+◌, ◌-◌, ◌*◌, ◌/◌, ◌%◌, ◌^◌, ◌≤◌, ◌<◌, ◌≡◌, ◌≢◌, refl, sym, ap, subst, ◌∙◌, Bool, true, false,
  false≢true, Option, none, some, leb, ◌==◌, if◌then◌else◌, update, update_self, update_ne, arith,
  ℕ_discrete, ==_refl, ==_ne,
}
use os_playground.Bio.{Block}
use os_playground.Fs.{bpb, Fs, bblock, put_block, get_word, put_word, Inode}
use os_playground.Fs.Bitmap.{is_used, meta_end, IsFormatted, used_other}

-- The blocks of a file with addresses `f`: 0 to 11 are direct, 12 is the indirect block, and 13 on are
-- the entries of the indirect block. 0 stands for no block.
abbrev pub slot : (ℕ → ℕ) → (ℕ → Block) → ℕ → ℕ
slot f disk k = if leb k 12 then f k else if f 12 == 0 then 0 else get_word (disk (f 12)) (k - 13)

abbrev pub nslots : ℕ
nslots = 141

-- The blocks of a file are in use, outside of the metadata, and different from one another.
pub record IsFile (f : ℕ → ℕ) (s : Fs) : Type 0 where
  pub data_block : (k : ℕ) → k < nslots → slot f s.disk k ≢ 0 → meta_end s ≤ slot f s.disk k
  pub inside : (k : ℕ) → k < nslots → slot f s.disk k ≢ 0 → slot f s.disk k < s.sb.size
  pub in_use : (k : ℕ) → k < nslots → slot f s.disk k ≢ 0 → is_used s (slot f s.disk k) ≡ true
  pub apart :
      (j k : ℕ)
      → j < nslots
      → k < nslots
      → slot f s.disk j ≢ 0
      → slot f s.disk j ≡ slot f s.disk k
      → j ≡ k

abbrev pub with_disk : (ℕ → Block) → Fs → Fs
with_disk disk s = record s { disk = disk }

-- What mapping slot `k` of a file to block `a` has left alone: the file and the disk are sound, all blocks
-- that the file had stay its blocks, only slot `k` and the indirect block can be new, and of the blocks in
-- use only the indirect block and the bit map have changed.
pub record IsMapped (f : ℕ → ℕ) (s : Fs) (k a : ℕ) (f' : ℕ → ℕ) (disk : ℕ → Block) : Type 0 where
  pub file : IsFile f' (with_disk disk s)
  pub formatted : IsFormatted (with_disk disk s)
  pub here : slot f' disk k ≡ a
  pub nonzero : a ≢ 0
  pub kept : (j : ℕ) → j < nslots → slot f s.disk j ≢ 0 → slot f' disk j ≡ slot f s.disk j
  pub rest : (j : ℕ) → j < nslots → j ≢ k → j ≢ 12 → slot f' disk j ≡ slot f s.disk j
  pub zeroed : slot f s.disk k ≡ 0 → (i : ℕ) → disk a i ≡ 0
  pub frame :
      (b : ℕ) → b < s.sb.size → meta_end s ≤ b → is_used s b ≡ true → b ≢ f' 12 → disk b ≡ s.disk b
  pub stays : (b : ℕ) → b < s.sb.size → is_used s b ≡ true → is_used (with_disk disk s) b ≡ true

-- A write to a block outside of the metadata keeps the format.
pub put_block-IsFormatted :
    (s : Fs) (b : ℕ) (d : Block)
    → IsFormatted s
    → meta_end s ≤ b
    → ((i : ℕ) → d i < 256)
    → IsFormatted (put_block b d s)
put_block-IsFormatted s b d formatted l bytes = record {
  bytes = λ c i. elim (ℕ_discrete c b) [
    | yes e ↦
        subst (λ x. x i < 256) (sym (ap (update s.disk b d) e ∙ update_self s.disk b d)) (bytes i)
    | no ne ↦ subst (λ x. x i < 256) (sym (update_ne s.disk b c d ne)) (formatted.bytes c i)
  ];
  maps = formatted.maps;
  inodes = formatted.inodes;
  kept = λ k h m. used_other s b d k (λ e. below (formatted.maps k h) l e) ∙ formatted.kept k h m;
  small = formatted.small;
}
  where
    below : {x m y : ℕ} → x < m → m ≤ y → x ≡ y → ⊥
    below p q e = omega arith

-- A file whose slot `k` becomes the block `a`, which was free.
pub filled-IsFile :
    (f : ℕ → ℕ) (s : Fs) (k a : ℕ) (f' : ℕ → ℕ) (disk : ℕ → Block)
    → IsFile f s
    → meta_end s ≤ a
    → a < s.sb.size
    → 0 < a
    → is_used s a ≡ false
    → ((j : ℕ) → j < nslots → slot f' disk j ≡ (if j == k then a else slot f s.disk j))
    → ((j : ℕ)
        → j < s.sb.size
        → is_used (with_disk disk s) j ≡ (if j == a then true else is_used s j))
    → IsFile f' (with_disk disk s)
filled-IsFile f s k a f' disk file meta inside pos clear slots used = record {
  data_block = λ j l. chosen (λ b. meta_end s ≤ b) j l (λ _. meta) (file.data_block j l);
  inside = λ j l. chosen (λ b. b < s.sb.size) j l (λ _. inside) (file.inside j l);
  in_use = λ j l.
      chosen (λ b. is_used (with_disk disk s) b ≡ true) j l
        (λ _. used a inside ∙ ap (λ b. if b then true else is_used s a) (==_refl a))
        (λ ne.
          used (slot f s.disk j) (file.inside j l ne)
          ∙ either (slot f s.disk j == a) (file.in_use j l ne));
  apart = λ i j l m ne e. elim (ℕ_discrete i k) [
    | yes p ↦ elim (ℕ_discrete j k) [
      | yes q ↦ p ∙ sym q
      | no q ↦ absurd (stale j m (sym (at_other j m q) ∙ sym e ∙ at_k i l p))
    ]
    | no p ↦ elim (ℕ_discrete j k) [
      | yes q ↦ absurd (stale i l (sym (at_other i l p) ∙ e ∙ at_k j m q))
      | no q ↦
          file.apart i j l m (λ z. ne (at_other i l p ∙ z))
            (sym (at_other i l p) ∙ e ∙ at_other j m q)
    ]
  ];
}
  where
    at_k : (j : ℕ) → j < nslots → j ≡ k → slot f' disk j ≡ a
    at_k j l e =
        slots j l
        ∙ ap (λ n. if n == k then a else slot f s.disk j) e
        ∙ ap (λ b. if b then a else slot f s.disk j) (==_refl k)

    at_other : (j : ℕ) → j < nslots → j ≢ k → slot f' disk j ≡ slot f s.disk j
    at_other j l ne = slots j l ∙ ap (λ b. if b then a else slot f s.disk j) (==_ne j k ne)

    either : (b : Bool) {x : Bool} → x ≡ true → (if b then true else x) ≡ true
    either true e = refl
    either false e = e

    -- No old slot holds `a`.
    stale : (j : ℕ) → j < nslots → slot f s.disk j ≡ a → ⊥
    stale j l e =
        false≢true
          (sym clear ∙ ap (is_used s) (sym e) ∙ file.in_use j l (λ z. positive pos (sym e ∙ z)))
      where
        positive : {n : ℕ} → 0 < n → n ≡ 0 → ⊥
        positive p q = omega arith

    chosen :
        (P : ℕ → Type 0) (j : ℕ)
        → j < nslots
        → (a ≢ 0 → P a)
        → (slot f s.disk j ≢ 0 → P (slot f s.disk j))
        → slot f' disk j ≢ 0
        → P (slot f' disk j)
    chosen P j l new old ne = elim (ℕ_discrete j k) [
      | yes e ↦ subst P (sym (at_k j l e)) (new (λ z. ne (at_k j l e ∙ z)))
      | no q ↦ subst P (sym (at_other j l q)) (old (λ z. ne (at_other j l q ∙ z)))
    ]
