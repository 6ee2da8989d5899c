-- ===== src/Fs/Trunc/Range.antt =====
-- The two loops of `itrunc`: which blocks they free.
use os_playground.Base.{
  ℕ, zero, suc, ◌+◌, ◌≤◌, ◌<◌, ◌≡◌, ◌≢◌, refl, sym, ap, subst, ◌∙◌, true, false, false≢true, Option,
  some, ◌==◌, if◌then◌else◌, arith, ℕ_discrete, ==_ne, ==_iff, ==_refl,
}
use os_playground.Bio.{Block}
use os_playground.Fs.{Fs, bfree}
use os_playground.Fs.Bitmap.{is_used, meta_end, IsFormatted}
use os_playground.Fs.Free.{Freed, freed, not_used, without_block, bfree_lem}
use os_playground.Fs.Map.{with_disk}
use os_playground.Fs.Trunc.{then_free, free_range}

-- The blocks `g j` of a range are data blocks in use, and different from one another.
pub record IsRange (g : ℕ → ℕ) (lo hi : ℕ) (s : Fs) : Type 0 where
  pub data_block : (j : ℕ) → lo ≤ j → j < hi → g j ≢ 0 → meta_end s ≤ g j
  pub inside : (j : ℕ) → lo ≤ j → j < hi → g j ≢ 0 → g j < s.sb.size
  pub in_use : (j : ℕ) → lo ≤ j → j < hi → g j ≢ 0 → is_used s (g j) ≡ true
  pub apart : (i j : ℕ) → lo ≤ i → i < hi → lo ≤ j → j < hi → g i ≢ 0 → g i ≡ g j → i ≡ j

-- The blocks of the range, and no others, have become free; all blocks of data are as they were.
pub record IsRangeFreed (g : ℕ → ℕ) (lo hi : ℕ) (s : Fs) (disk : ℕ → Block) : Type 0 where
  pub formatted : IsFormatted (with_disk disk s)
  pub gone : (j : ℕ) → lo ≤ j → j < hi → g j ≢ 0 → is_used (with_disk disk s) (g j) ≡ false
  pub rest :
      (b : ℕ) → ((j : ℕ) → lo ≤ j → j < hi → g j ≢ b) → is_used (with_disk disk s) b ≡ is_used s b
  pub data_kept : (b : ℕ) → b < s.sb.size → meta_end s ≤ b → disk b ≡ s.disk b

-- The first block of a range, which is freed before the others.
module _ (g : ℕ → ℕ) (lo r : ℕ) (s : Fs) (formatted : IsFormatted s)
    (range : IsRange g lo (lo + suc r) s) (has : g lo ≢ 0) where
  first_used : is_used s (g lo) ≡ true
  first_used = range.in_use lo (omega arith) (omega arith) has

  fewer :
      (t : Fs)
      → Freed s (g lo) (some t)
      → IsFormatted t
        × ((b : ℕ) → is_used t b ≡ (if b == g lo then false else is_used s b))
        × ((b : ℕ) → b < s.sb.size → meta_end s ≤ b → t.disk b ≡ s.disk b)
  fewer _ (freed u f) = (
    f.formatted (range.data_block lo (omega arith) (omega arith) has),
    f.used,
    λ b l m.
        f.others b (λ e.
          below (formatted.maps (g lo) (range.inside lo (omega arith) (omega arith) has)) m e),
  )
    where
      below : {m x y : ℕ} → x < m → m ≤ y → y ≡ x → ⊥
      below p q e = omega arith

  abbrev pub rest_disk : ℕ → Block
  rest_disk = (without_block (g lo) s).disk

  pub bfree_first : bfree (g lo) s ≡ some (with_disk rest_disk s)
  bfree_first = given (bfree_lem s (g lo) formatted)
    where
      given : {o : Option Fs} → Freed s (g lo) o → o ≡ some (with_disk rest_disk s)
      given (freed u f) = refl
      given (not_used n) = absurd (false≢true (sym n ∙ first_used))

  first_facts :
      IsFormatted (with_disk rest_disk s)
      × ((b : ℕ) → is_used (with_disk rest_disk s) b ≡ (if b == g lo then false else is_used s b))
      × ((b : ℕ) → b < s.sb.size → meta_end s ≤ b → rest_disk b ≡ s.disk b)
  first_facts =
      fewer (with_disk rest_disk s)
        (subst (Freed s (g lo)) bfree_first (bfree_lem s (g lo) formatted))

  pub first-IsFormatted : IsFormatted (with_disk rest_disk s)
  first-IsFormatted = first_facts.0

  other_used : (b : ℕ) → b ≢ g lo → is_used (with_disk rest_disk s) b ≡ is_used s b
  other_used b ne = first_facts.1 b ∙ ap (λ x. if x then false else is_used s b) (==_ne b (g lo) ne)

  pub later-IsRange : IsRange g (lo + 1) (lo + 1 + r) (with_disk rest_disk s)
  later-IsRange = record {
    data_block = λ j l h ne. range.data_block j (omega arith) (omega arith) ne;
    inside = λ j l h ne. range.inside j (omega arith) (omega arith) ne;
    in_use = λ j l h ne.
        other_used (g j) (λ e.
          before (range.apart j lo (omega arith) (omega arith) (omega arith) (omega arith) ne e) l)
        ∙ range.in_use j (omega arith) (omega arith) ne;
    apart = λ i j l h l' h' ne e.
        range.apart i j (omega arith) (omega arith) (omega arith) (omega arith) ne e;
  }
    where
      before : {j : ℕ} → j ≡ lo → lo + 1 ≤ j → ⊥
      before e l = omega arith

  pub freed_with_first :
      (disk : ℕ → Block)
      → IsRangeFreed g (lo + 1) (lo + 1 + r) (with_disk rest_disk s) disk
      → IsRangeFreed g lo (lo + suc r) s disk
  freed_with_first disk f = record {
    formatted = f.formatted;
    gone = λ j l h ne. elim (ℕ_discrete j lo) [
      | yes e ↦
          ap (is_used (with_disk disk s)) (ap g e)
          ∙ f.rest (g lo) (λ i m n q.
            before
              (range.apart lo i (omega arith) (omega arith) (omega arith) (omega arith) has (sym q))
              m)
          ∙ first_facts.1 (g lo)
          ∙ ap (λ x. if x then false else is_used s (g lo)) (==_refl (g lo))
      | no other ↦ f.gone j (omega arith) (omega arith) ne
    ];
    rest = λ b none_of.
        f.rest b (λ j l h. none_of j (omega arith) (omega arith))
        ∙ other_used b (λ e. none_of lo (omega arith) (omega arith) (sym e));
    data_kept = λ b l m. f.data_kept b l m ∙ first_facts.2 b l m;
  }
    where
      before : {j : ℕ} → lo ≡ j → lo + 1 ≤ j → ⊥
      before e l = omega arith

-- A range that begins with no block.
freed_from_next :
    (g : ℕ → ℕ) (lo r : ℕ) (s : Fs) (disk : ℕ → Block)
    → g lo ≡ 0
    → IsFormatted s
    → IsRangeFreed g (lo + 1) (lo + 1 + r) s disk
    → ((b : ℕ)
        → ((j : ℕ) → lo ≤ j → j < lo + suc r → g j ≢ b)
        → (j : ℕ) → lo + 1 ≤ j
        → j < lo + 1 + r
        → g j ≢ b)
    → IsRangeFreed g lo (lo + suc r) s disk
freed_from_next g lo r s disk z formatted f narrow = record {
  formatted = f.formatted;
  gone = λ j l h ne. elim (ℕ_discrete j lo) [
    | yes e ↦ absurd (ne (ap g e ∙ z))
    | no other ↦ f.gone j (omega arith) (omega arith) ne
  ];
  rest = λ b none_of. f.rest b (narrow b none_of);
  data_kept = f.data_kept;
}

-- The loop over a range of sound blocks frees them all.
pub free_range_lem :
    (g : ℕ → ℕ) (lo r : ℕ) (s : Fs)
    → IsFormatted s
    → IsRange g lo (lo + r) s
    → (disk : ℕ → Block) × (free_range g lo r s ≡ some (with_disk disk s))
      × IsRangeFreed g lo (lo + r) s disk
unfolding free_range
free_range_lem g lo zero s formatted range = (
  s.disk,
  refl,
  record {
    formatted = formatted;
    gone = λ j l h. absurd (omega arith);
    rest = λ b _. refl;
    data_kept = λ b l m. refl;
  },
)
free_range_lem g lo (suc r) s formatted range = elim (ℕ_discrete (g lo) 0) [
  | yes z ↦
      let next : IsRange g (lo + 1) (lo + 1 + r) s = record {
        data_block = λ j l h ne. range.data_block j (omega arith) (omega arith) ne;
        inside = λ j l h ne. range.inside j (omega arith) (omega arith) ne;
        in_use = λ j l h ne. range.in_use j (omega arith) (omega arith) ne;
        apart = λ i j l h l' h' ne e.
            range.apart i j (omega arith) (omega arith) (omega arith) (omega arith) ne e;
      } in
      let rest = free_range_lem g (lo + 1) r s formatted next in
      (
        rest.0,
        ap
              (λ b.
                if b
                then free_range g (lo + 1) r s
                else then_free (free_range g (lo + 1) r) (bfree (g lo) s))
              ((==_iff (g lo) 0).1 z)
            ∙ rest.1,
        freed_from_next g lo r s rest.0 z formatted rest.2
            (λ b f j l h. f j (omega arith) (omega arith)),
      )
  | no has ↦
      let rest =
        free_range_lem g (lo + 1) r (with_disk (rest_disk g lo r s formatted range has) s)
          (first-IsFormatted g lo r s formatted range has)
          (later-IsRange g lo r s formatted range has) in
      (
        rest.0,
        ap
              (λ b.
                if b
                then free_range g (lo + 1) r s
                else then_free (free_range g (lo + 1) r) (bfree (g lo) s))
              (==_ne (g lo) 0 has)
            ∙ ap (then_free (free_range g (lo + 1) r)) (bfree_first g lo r s formatted range has)
            ∙ rest.1,
        freed_with_first g lo r s formatted range has rest.0 rest.2,
      )
]
