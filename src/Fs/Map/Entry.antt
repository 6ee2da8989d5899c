-- ===== src/Fs/Map/Entry.antt =====
-- A new entry in the indirect block of a file.
use os_playground.Base.{
  ℕ, ◌+◌, ◌-◌, ◌*◌, ◌≤◌, ◌<◌, ◌≡◌, ◌≢◌, sym, ap, subst, ◌∙◌, true, false, false≢true, ◌==◌,
  if◌then◌else◌, update, update_self, update_ne, arith, ℕ_discrete, dec_lt, ==_refl, ==_ne, ==_iff,
}
use os_playground.Bio.{Block}
use os_playground.Fs.{Fs, get_word, put_word}
use os_playground.Fs.Words.{get_word-put_word, get_word-put_word_ne, store32-bytes}
use os_playground.Fs.Count.{room, frees_same}
use os_playground.Fs.Bitmap.{
  is_used, meta_end, IsFormatted, used_other, IsAllocated, with_block, free_is_data,
}
use os_playground.Fs.Map.{
  slot, nslots, IsFile, with_disk, IsMapped, put_block-IsFormatted, filled-IsFile,
}
use os_playground.Fs.Map.Direct.{
  slot_direct, slot_entry, alloc_frame, alloc_pos, alloc_stays, alloc_cost, nonzero,
}

-- A new entry `a` in the indirect block of a file.
module _ (f : ℕ → ℕ) (s : Fs) (j a : ℕ) (file : IsFile f s) (formatted : IsFormatted s)
    (has : f 12 ≢ 0) (small : j < 128) (inside : a < s.sb.size) (clear : is_used s a ≡ false)
    (made : IsAllocated s a (with_block a s)) where
  twelve : slot f s.disk 12 ≡ f 12
  twelve = slot_direct f s.disk 12 (omega arith)

  has_slot : slot f s.disk 12 ≢ 0
  has_slot z = has (sym twelve ∙ z)

  block_data : meta_end s ≤ f 12
  block_data = subst (λ b. meta_end s ≤ b) twelve (file.data_block 12 (omega arith) has_slot)

  block_used : is_used s (f 12) ≡ true
  block_used = subst (λ b. is_used s b ≡ true) twelve (file.in_use 12 (omega arith) has_slot)

  -- The indirect block after the allocation, which has not changed it, and with the entry.
  unfoldable pub with_entry : Block
  with_entry = put_word ((with_block a s).disk (f 12)) j a

  unfoldable pub entered : ℕ → Block
  entered = update (with_block a s).disk (f 12) with_entry

  entered_used :
      (i : ℕ) → i < s.sb.size → is_used (with_disk entered s) i ≡ is_used (with_block a s) i
  unfolding entered with_entry
  entered_used i l =
      used_other (with_block a s) (f 12) (put_word ((with_block a s).disk (f 12)) j a) i
        (λ e. below (formatted.maps i l) block_data e)
    where
      below : {m x y : ℕ} → x < m → m ≤ y → x ≡ y → ⊥
      below p q e = omega arith

  entered_slots :
      (i : ℕ) → i < nslots → slot f entered i ≡ (if i == j + 13 then a else slot f s.disk i)
  unfolding entered with_entry
  entered_slots i l = elim (dec_lt 12 i) [
    | no direct ↦
        slot_direct f entered i (omega arith)
        ∙ sym (slot_direct f s.disk i (omega arith))
        ∙ sym (ap (λ b. if b then a else slot f s.disk i) (==_ne i (j + 13) (λ e. omega arith)))
    | yes far ↦
        slot_entry f entered i far has
        ∙ ap (λ d. get_word d (i - 13))
            (update_self (with_block a s).disk (f 12) (put_word ((with_block a s).disk (f 12)) j a))
        ∙ elim (ℕ_discrete i (j + 13)) [
          | yes e ↦
              ap (get_word (put_word ((with_block a s).disk (f 12)) j a)) (minus e)
              ∙ get_word-put_word ((with_block a s).disk (f 12)) j a
                  (let m = formatted.small in omega arith)
              ∙ sym (ap (λ b. if b then a else slot f s.disk i) ((==_iff i (j + 13)).1 e))
          | no ne ↦
              get_word-put_word_ne ((with_block a s).disk (f 12)) (i - 13) j a
                (λ q. ne (omega arith))
              ∙ ap (λ d. get_word d (i - 13))
                  (alloc_frame s a formatted inside clear made (f 12) block_data block_used)
              ∙ sym (slot_entry f s.disk i far has)
              ∙ sym (ap (λ b. if b then a else slot f s.disk i) (==_ne i (j + 13) ne))
        ]
  ]
    where
      minus : i ≡ j + 13 → i - 13 ≡ j
      minus e = omega arith

  pub entered-IsMapped : get_word (s.disk (f 12)) j ≡ 0 → IsMapped f s (j + 13) a f entered
  unfolding entered with_entry
  entered-IsMapped z = record {
    file =
        filled-IsFile f s (j + 13) a f entered file (free_is_data s a formatted inside clear) inside
          (alloc_pos s a formatted inside clear made) clear entered_slots
          (λ i l. entered_used i l ∙ made.used i l);
    formatted =
        put_block-IsFormatted (with_block a s) (f 12) (put_word ((with_block a s).disk (f 12)) j a)
          made.formatted block_data
          (store32-bytes (4 * j) a ((with_block a s).disk (f 12)) (made.formatted.bytes (f 12)));
    here =
        entered_slots (j + 13) (omega arith)
        ∙ ap (λ b. if b then a else slot f s.disk (j + 13)) (==_refl (j + 13));
    nonzero = nonzero (alloc_pos s a formatted inside clear made);
    kept = λ i l ne.
        entered_slots i l
        ∙ ap (λ b. if b then a else slot f s.disk i)
            (==_ne i (j + 13) (λ e. ne (ap (slot f s.disk) e ∙ old)));
    rest = λ i l ne _.
        entered_slots i l ∙ ap (λ b. if b then a else slot f s.disk i) (==_ne i (j + 13) ne);
    zeroed = λ _ i.
        ap (λ d. d i)
          (update_ne (with_block a s).disk (f 12) a (put_word ((with_block a s).disk (f 12)) j a)
            fresh)
        ∙ made.zeroed i;
    frame = λ b l meta used ne.
        update_ne (with_block a s).disk (f 12) b (put_word ((with_block a s).disk (f 12)) j a) ne
        ∙ alloc_frame s a formatted inside clear made b meta used;
    stays = λ b l used. entered_used b l ∙ alloc_stays s a formatted inside clear made b l used;
  }
    where
      old : slot f s.disk (j + 13) ≡ 0
      old =
          slot_entry f s.disk (j + 13) (omega arith) has
          ∙ ap (get_word (s.disk (f 12))) (omega arith)
          ∙ z

      fresh : a ≢ f 12
      fresh e = false≢true (sym clear ∙ ap (is_used s) e ∙ block_used)

  pub entered_cost : room s ≡ room (with_disk entered s) + 1
  entered_cost =
      alloc_cost s a formatted inside clear made
      ∙ ap (λ n. n + 1)
          (sym (
            frees_same (is_used (with_block a s)) (is_used (with_disk entered s)) s.sb.size
              entered_used))
