-- ===== src/Fs/Rw/Meta.antt =====
-- `iupdate` and other writes to the blocks of inodes leave the contents of files alone.
use os_playground.Base.{
  ℕ, zero, suc, ◌+◌, ◌-◌, ◌*◌, ◌/◌, ◌%◌, ◌≤◌, ◌<◌, ◌≡◌, ◌≢◌, refl, sym, ap, subst, ◌∙◌, update,
  update_self, update_ne, arith, ℕ_discrete, dec_lt,
}
use os_playground.Bio.{Block}
use os_playground.Fs.{Fs, bsize, Inode, put_block, get_word}
use os_playground.Fs.Words.{store32-bytes}
use os_playground.Fs.Bitmap.{is_used, meta_end, IsFormatted, used_other}
use os_playground.Fs.Map.{slot, IsFile}
use os_playground.Fs.Map.Direct.{slot_direct, slot_entry, slot_none}
use os_playground.Fs.Map.Bmap.{position}
use os_playground.Fs.Rw.{maxfile, store16, put_addrs, put_dinode}
use os_playground.Fs.Rw.Content.{content, content_at, content_none, position_lt}

put_addrs-bytes :
    (p k : ℕ) (f : ℕ → ℕ) (d : Block) → ((i : ℕ) → d i < 256) → (i : ℕ) → put_addrs p f k d i < 256
unfolding put_addrs
put_addrs-bytes p zero f d h i = h i
put_addrs-bytes p (suc k) f d h i =
    store32-bytes (p + 12 + 4 * k) (f k) (put_addrs p f k d) (put_addrs-bytes p k f d h) i

store16-bytes : (p v : ℕ) (d : Block) → ((i : ℕ) → d i < 256) → (i : ℕ) → store16 p v d i < 256
store16-bytes p v d h i = ground (arith, h i)

pub put_dinode-bytes :
    (p : ℕ) (ip : Inode) (d : Block) → ((i : ℕ) → d i < 256) → (i : ℕ) → put_dinode p ip d i < 256
unfolding put_dinode
put_dinode-bytes p ip d h = put_addrs-bytes p 13 ip.addrs _ (
    store32-bytes (p + 8) ip.size _ (
      store16-bytes (p + 6) ip.nlink _ (
        store16-bytes (p + 4) ip.minor _
          (store16-bytes (p + 2) ip.major _ (store16-bytes p ip.type d h)))))

-- A write to a block of inodes changes no file and no bit of the bit map.
module _ (s : Fs) (b : ℕ) (d : Block) (formatted : IsFormatted s) (before : b < s.sb.bmapstart)
    (plain : (i : ℕ) → d i < 256) where
  pub meta_used : (j : ℕ) → is_used (put_block b d s) j ≡ is_used s j
  meta_used j = used_other s b d j (λ e. omega arith)

  pub meta-IsFormatted : IsFormatted (put_block b d s)
  meta-IsFormatted = record {
    bytes = λ c i. elim (ℕ_discrete c b) [
      | yes e ↦
          subst (λ x. x i < 256) (sym (ap (update s.disk b d) e ∙ update_self s.disk b d)) (plain i)
      | no ne ↦ subst (λ x. x i < 256) (sym (update_ne s.disk b c d ne)) (formatted.bytes c i)
    ];
    maps = formatted.maps;
    inodes = formatted.inodes;
    kept = λ k h m. meta_used k ∙ formatted.kept k h m;
    small = formatted.small;
  }

  -- A data block is not `b`.
  pub data_ne : (c : ℕ) → meta_end s ≤ c → c < s.sb.size → c ≢ b
  data_ne c l h e = let m = formatted.maps c h in omega arith

  module _ (f : ℕ → ℕ) (file : IsFile f s) where
    pub meta_slot : (k : ℕ) → slot f (put_block b d s).disk k ≡ slot f s.disk k
    meta_slot k = elim (dec_lt 12 k) [
      | no direct ↦
          slot_direct f (put_block b d s).disk k (omega arith)
          ∙ sym (slot_direct f s.disk k (omega arith))
      | yes far ↦ elim (ℕ_discrete (f 12) 0) [
        | yes z ↦ slot_none f (put_block b d s).disk k far z ∙ sym (slot_none f s.disk k far z)
        | no ne ↦
            let twelve = slot_direct f s.disk 12 (omega arith) in
            let has : slot f s.disk 12 ≢ 0 = λ z. ne (sym twelve ∙ z) in
            slot_entry f (put_block b d s).disk k far ne
            ∙ ap (λ x. get_word x (k - 13))
                (update_ne s.disk b (f 12) d (
                  data_ne (f 12)
                    (subst (λ c. meta_end s ≤ c) twelve (file.data_block 12 (omega arith) has))
                    (subst (λ c. c < s.sb.size) twelve (file.inside 12 (omega arith) has))))
            ∙ sym (slot_entry f s.disk k far ne)
      ]
    ]

    pub meta-IsFile : IsFile f (put_block b d s)
    meta-IsFile = record {
      data_block = λ k h ne.
          subst (λ c. meta_end s ≤ c) (sym (meta_slot k)) (file.data_block k h (old k ne));
      inside =
          λ k h ne. subst (λ c. c < s.sb.size) (sym (meta_slot k)) (file.inside k h (old k ne));
      in_use = λ k h ne.
          ap (is_used (put_block b d s)) (meta_slot k)
          ∙ meta_used (slot f s.disk k)
          ∙ file.in_use k h (old k ne);
      apart = λ i j g h ne e. file.apart i j g h (old i ne) (sym (meta_slot i) ∙ e ∙ meta_slot j);
    }
      where
        old : (k : ℕ) → slot f (put_block b d s).disk k ≢ 0 → slot f s.disk k ≢ 0
        old k ne z = ne (meta_slot k ∙ z)

    pub meta_content :
        (off : ℕ)
        → off / bsize < maxfile
        → content f (put_block b d s).disk off ≡ content f s.disk off
    meta_content off l = elim (ℕ_discrete (slot f s.disk (position (off / bsize))) 0) [
      | yes z ↦
          content_none f (put_block b d s).disk off (meta_slot (position (off / bsize)) ∙ z)
          ∙ sym (content_none f s.disk off z)
      | no ne ↦
          content_at f (put_block b d s).disk off (slot f s.disk (position (off / bsize)))
            (meta_slot (position (off / bsize))) ne
          ∙ ap (λ x. x (off % bsize))
              (update_ne s.disk b (slot f s.disk (position (off / bsize))) d (
                data_ne (slot f s.disk (position (off / bsize)))
                  (file.data_block (position (off / bsize)) (position_lt (off / bsize) l) ne)
                  (file.inside (position (off / bsize)) (position_lt (off / bsize) l) ne)))
          ∙ sym (content_at f s.disk off (slot f s.disk (position (off / bsize))) refl ne)
    ]
