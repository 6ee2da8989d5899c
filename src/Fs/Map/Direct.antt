-- ===== src/Fs/Map/Direct.antt =====
-- The slots of a file, and the part of `bmap` that maps a slot of the inode itself.
use os_playground.Base.{
  ℕ, ◌+◌, ◌-◌, ◌≤◌, ◌<◌, ◌≡◌, ◌≢◌, refl, sym, ap, subst, ◌∙◌, Bool, true, false, false≢true, Option,
  none, some, leb, ◌==◌, if◌then◌else◌, update, update_self, update_ne, arith, ℕ_discrete, dec_lt,
  ==_ne, ==_iff,
}
use os_playground.Bio.{Block}
use os_playground.Fs.{Fs, get_word, Inode, Mapping, new_addr, load_addr, balloc}
use os_playground.Fs.Words.{get_word_zero}
use os_playground.Fs.Bitmap.{
  is_used, meta_end, IsFormatted, IsAllocated, Allocated, allocated, out_of_blocks, with_block,
  free_is_data, balloc_lem,
}
use os_playground.Fs.Count.{room, frees_taken, frees_none}
use os_playground.Fs.Map.{slot, nslots, IsFile, with_disk, IsMapped, filled-IsFile}

-- What mapping a slot comes to, for at most `cost` new blocks.
pub data Mapped (ip : Inode) (s : Fs) (k cost : ℕ) : Mapping → Type 0 where
  mapped :
      (a : ℕ) (f : ℕ → ℕ) (disk : ℕ → Block)
      → IsMapped ip.addrs s k a f disk
      → room s ≤ room (with_disk disk s) + cost
      → Mapped ip s k cost (some (a, record ip { addrs = f }, with_disk disk s))
  no_space : room s < cost → Mapped ip s k cost none

pub slot_direct : (f : ℕ → ℕ) (disk : ℕ → Block) (k : ℕ) → k ≤ 12 → slot f disk k ≡ f k
slot_direct f disk k l = let e : leb k 12 ≡ true = ground arith in rw e refl

pub slot_entry :
    (f : ℕ → ℕ) (disk : ℕ → Block) (k : ℕ)
    → 12 < k
    → f 12 ≢ 0
    → slot f disk k ≡ get_word (disk (f 12)) (k - 13)
slot_entry f disk k l ne =
    let e : leb k 12 ≡ false = ground arith in
    ap (λ b. if b then f k else if f 12 == 0 then 0 else get_word (disk (f 12)) (k - 13)) e
    ∙ ap (λ b. if b then 0 else get_word (disk (f 12)) (k - 13)) (==_ne (f 12) 0 ne)

pub slot_none : (f : ℕ → ℕ) (disk : ℕ → Block) (k : ℕ) → 12 < k → f 12 ≡ 0 → slot f disk k ≡ 0
slot_none f disk k l z =
    let e : leb k 12 ≡ false = ground arith in
    ap (λ b. if b then f k else if f 12 == 0 then 0 else get_word (disk (f 12)) (k - 13)) e
    ∙ ap (λ b. if b then 0 else get_word (disk (f 12)) (k - 13)) ((==_iff (f 12) 0).1 z)

-- A slot that has a block.
pub same-IsMapped :
    (f : ℕ → ℕ) (s : Fs) (k a : ℕ)
    → IsFile f s
    → IsFormatted s
    → slot f s.disk k ≡ a
    → a ≢ 0
    → IsMapped f s k a f s.disk
same-IsMapped f s k a file formatted e ne = record {
  file = file;
  formatted = formatted;
  here = e;
  nonzero = ne;
  kept = λ j l h. refl;
  rest = λ j l h i. refl;
  zeroed = λ z. absurd (ne (sym e ∙ z));
  frame = λ b l m u h. refl;
  stays = λ b l u. u;
}

-- The blocks in use keep their contents when another one is allocated.
module _ (s : Fs) (a : ℕ) (formatted : IsFormatted s) (inside : a < s.sb.size)
    (clear : is_used s a ≡ false) (made : IsAllocated s a (with_block a s)) where
  pub alloc_frame :
      (b : ℕ) → meta_end s ≤ b → is_used s b ≡ true → (with_block a s).disk b ≡ s.disk b
  alloc_frame b meta used =
      made.others b (λ e. false≢true (sym clear ∙ ap (is_used s) (sym e) ∙ used))
        (λ e. below (formatted.maps a inside) meta e)
    where
      below : {m x y : ℕ} → x < m → m ≤ y → y ≡ x → ⊥
      below p q e = omega arith

  pub alloc_pos : 0 < a
  alloc_pos =
      let m = formatted.maps a inside in
      let d = free_is_data s a formatted inside clear in omega arith

  pub alloc_stays : (b : ℕ) → b < s.sb.size → is_used s b ≡ true → is_used (with_block a s) b ≡ true
  alloc_stays b l used = made.used b l ∙ either (b == a) used
    where
      either : (x : Bool) {y : Bool} → y ≡ true → (if x then true else y) ≡ true
      either true e = refl
      either false e = e

  pub alloc_cost : room s ≡ room (with_block a s) + 1
  alloc_cost = frees_taken (is_used s) (is_used (with_block a s)) s.sb.size a inside clear made.used

pub nonzero : {n : ℕ} → 0 < n → n ≢ 0
nonzero l e = omega arith

-- The slots after slot `k` of the inode itself has got block `a`.
direct_slots :
    (f : ℕ → ℕ) (s : Fs) (k a : ℕ)
    → IsFile f s
    → k ≤ 12
    → f k ≡ 0
    → IsFormatted s
    → a < s.sb.size
    → is_used s a ≡ false
    → IsAllocated s a (with_block a s)
    → (j : ℕ) → j < nslots
    → slot (update f k a) (with_block a s).disk j ≡ (if j == k then a else slot f s.disk j)
direct_slots f s k a file small z formatted inside clear made j l = elim (dec_lt 12 j) [
  | no direct ↦
      slot_direct f' disk' j (omega arith)
      ∙ ap (λ n. if j == k then a else n) (sym (slot_direct f s.disk j (omega arith)))
  | yes far ↦
      elim (ℕ_discrete k 12) [
        | yes e ↦
            let at : f' 12 ≡ a = ap f' (sym e) ∙ update_self f k a in
            slot_entry f' disk' j far (λ q. alloc_ne (sym at ∙ q))
            ∙ get_word_zero (disk' (f' 12)) (j - 13) (λ i. ap (λ b. disk' b i) at ∙ made.zeroed i)
            ∙ sym (slot_none f s.disk j far (ap f (sym e) ∙ z))
        | no ne ↦
            let at : f' 12 ≡ f 12 = update_ne f k 12 a (λ q. ne (sym q)) in
            elim (ℕ_discrete (f 12) 0) [
              | yes q ↦ slot_none f' disk' j far (at ∙ q) ∙ sym (slot_none f s.disk j far q)
              | no q ↦
                  let twelve : slot f s.disk 12 ≡ f 12 = slot_direct f s.disk 12 (omega arith) in
                  slot_entry f' disk' j far (λ y. q (sym at ∙ y))
                  ∙ ap (λ b. get_word (disk' b) (j - 13)) at
                  ∙ ap (λ d. get_word d (j - 13))
                      (alloc_frame s a formatted inside clear made (f 12)
                        (subst (λ b. meta_end s ≤ b) twelve
                          (file.data_block 12 (omega arith) (λ y. q (sym twelve ∙ y))))
                        (subst (λ b. is_used s b ≡ true) twelve
                          (file.in_use 12 (omega arith) (λ y. q (sym twelve ∙ y)))))
                  ∙ sym (slot_entry f s.disk j far q)
            ]
      ]
      ∙ sym (ap (λ b. if b then a else slot f s.disk j) (==_ne j k (λ e. omega arith)))
]
  where
    f' : ℕ → ℕ
    f' = update f k a

    disk' : ℕ → Block
    disk' = (with_block a s).disk

    alloc_ne : a ≢ 0
    alloc_ne = nonzero (alloc_pos s a formatted inside clear made)

-- `load_addr` of a slot of the inode itself.
pub load_addr-Mapped :
    (ip : Inode) (s : Fs) (k : ℕ)
    → IsFile ip.addrs s
    → IsFormatted s
    → k ≤ 12
    → Mapped ip s k 1 (load_addr k ip s)
unfolding load_addr
load_addr-Mapped ip s k file formatted small = elim (ℕ_discrete (ip.addrs k) 0) [
  | no ne ↦ rw (==_ne (ip.addrs k) 0 ne) (
      mapped (ip.addrs k) ip.addrs s.disk
        (same-IsMapped ip.addrs s k (ip.addrs k) file formatted
          (slot_direct ip.addrs s.disk k small) ne)
        (omega arith))
  | yes z ↦
      subst (Mapped ip s k 1)
        (sym (
          ap (λ b. if b then new_addr k ip (balloc s) else some (ip.addrs k, ip, s))
            ((==_iff (ip.addrs k) 0).1 z)))
        (new z (balloc_lem s formatted))
]
  where
    new : ip.addrs k ≡ 0 → {o : Option (ℕ × Fs)} → Allocated s o → Mapped ip s k 1 (new_addr k ip o)
    new z (out_of_blocks full) =
        no_space (let e = frees_none (is_used s) s.sb.size full in omega arith)
    new z (allocated a inside clear _ made) =
        mapped a f' disk'
          (record {
            file =
                filled-IsFile ip.addrs s k a f' disk' file (free_is_data s a formatted inside clear)
                  inside (alloc_pos s a formatted inside clear made) clear slots made.used;
            formatted = made.formatted;
            here = slot_direct f' disk' k small ∙ update_self ip.addrs k a;
            nonzero = nonzero (alloc_pos s a formatted inside clear made);
            kept = λ j l ne.
                slots j l
                ∙ ap (λ b. if b then a else slot ip.addrs s.disk j)
                    (==_ne j k (λ e.
                      ne (ap (slot ip.addrs s.disk) e ∙ slot_direct ip.addrs s.disk k small ∙ z)));
            rest = λ j l ne _.
                slots j l ∙ ap (λ b. if b then a else slot ip.addrs s.disk j) (==_ne j k ne);
            zeroed = λ _. made.zeroed;
            frame = λ b l meta used _. alloc_frame s a formatted inside clear made b meta used;
            stays = alloc_stays s a formatted inside clear made;
          })
          (let e = alloc_cost s a formatted inside clear made in omega arith)
      where
        f' : ℕ → ℕ
        f' = update ip.addrs k a

        disk' : ℕ → Block
        disk' = (with_block a s).disk

        slots :
            (j : ℕ)
            → j < nslots
            → slot (update ip.addrs k a) (with_block a s).disk j
              ≡ (if j == k then a else slot ip.addrs s.disk j)
        slots = direct_slots ip.addrs s k a file small z formatted inside clear made
