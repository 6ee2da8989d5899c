-- ===== src/Fs/Dir/Find.antt =====
-- `dirlookup` finds the first entry of the directory that has the name.
use os_playground.Base.{
  ℕ, zero, suc, ◌+◌, ◌-◌, ◌*◌, ◌/◌, ◌%◌, ◌^◌, min, ◌<◌, ◌≤◌, ◌≡◌, ◌≢◌, ◌⊎◌, refl, sym, ap, ap₂,
  subst, ◌∙◌, Bool, true, false, Option, some, ltb, leb, ◌==◌, ◌&&◌, ◌||◌, if◌then◌else◌, arith,
  ℕ_discrete, Bool-cases, inl, inr,
}
use os_playground.Bio.{Block}
use os_playground.Str.{Memory, strncmp}
use os_playground.Fs.{Fs, bsize, Inode}
use os_playground.Fs.Map.{slot}
use os_playground.Fs.Map.Bmap.{position}
use os_playground.Fs.Rw.{t_dev, maxfile, minus_one, paste, Device, readi}
use os_playground.Fs.Rw.Content.{content}
use os_playground.Fs.Rw.Read.{IsWhole, readi_lem}
use os_playground.Fs.Cache.{half}
use os_playground.Fs.Dir.{Search, found, absent, Scan, scan_entry, scan}
use os_playground.Fs.Dir.Names.{SameName, strncmp-SameName, SameName-strncmp}

SameName-cong :
    (a b a' b' : ℕ → ℕ) (n : ℕ)
    → ((i : ℕ) → i < n → a i ≡ a' i)
    → ((i : ℕ) → i < n → b i ≡ b' i)
    → SameName a b n
    → SameName a' b' n
SameName-cong a b a' b' n e g same i l before =
    sym (e i l) ∙ same i l (λ j h z. before j h (sym (e j (omega arith)) ∙ z)) ∙ g i l

-- Entry `k` of a directory with contents `file` is in use and has the name.
abbrev pub Matches : (ℕ → ℕ) → (ℕ → ℕ) → ℕ → Type 0
Matches name file k = (half file (16 * k) ≢ 0) × SameName name (λ i. file (16 * k + 2 + i)) 14

-- What a search of the entries from `lo` on, before `hi`, comes to.
pub data Seen (name file : ℕ → ℕ) (lo hi : ℕ) : Search → Type 0 where
  first :
      (k : ℕ)
      → lo ≤ k
      → k < hi
      → Matches name file k
      → ((j : ℕ) → lo ≤ j → j < k → Matches name file j → ⊥)
      → Seen name file lo hi (found (16 * k) (half file (16 * k)))
  nowhere : ((j : ℕ) → lo ≤ j → j < hi → Matches name file j → ⊥) → Seen name file lo hi absent

Seen-next :
    {name file : ℕ → ℕ} {lo hi : ℕ} {r : Search}
    → (Matches name file lo → ⊥)
    → Seen name file (lo + 1) hi r
    → Seen name file lo hi r
Seen-next {name = name} {file = file} {lo = lo} not_here (first k l h m before) =
    first k (omega arith) h m (λ j a b q. elim (ℕ_discrete j lo) [
      | yes e ↦ not_here (subst (Matches name file) e q)
      | no ne ↦ before j (omega arith) b q
    ])
Seen-next {name = name} {file = file} {lo = lo} not_here (nowhere before) = nowhere (λ j a b q.
    elim (ℕ_discrete j lo) [
      | yes e ↦ not_here (subst (Matches name file) e q)
      | no ne ↦ before j (omega arith) b q
    ])

-- The search changes the buffer for an entry, and neither the directory nor the disk.
pub data Scanned (name file : ℕ → ℕ) (lo hi : ℕ) (dp : Inode) (fs : Fs) : Scan → Type 0 where
  scanned :
      (r : Search) (mem : Memory)
      → Seen name file lo hi r
      → Scanned name file lo hi dp fs (some (r, mem, dp, fs))

Scanned-next :
    {name file : ℕ → ℕ} {lo hi : ℕ} {dp : Inode} {fs : Fs} {o : Scan}
    → (Matches name file lo → ⊥)
    → Scanned name file (lo + 1) hi dp fs o
    → Scanned name file lo hi dp fs o
Scanned-next not_here (scanned r mem s) = scanned r mem (Seen-next not_here s)

byte_if : (b : Bool) (x : ℕ) → x < 256 → (if b then 0 else x) < 256
byte_if true x l = omega arith
byte_if false x l = l

content-bytes :
    (f : ℕ → ℕ) (disk : ℕ → Block) → ((b i : ℕ) → disk b i < 256) → (j : ℕ) → content f disk j < 256
content-bytes f disk h j =
    let a = slot f disk (position (j / bsize)) in
    byte_if (a == 0) (disk a (j % bsize)) (h a (j % bsize))

-- The buffers of the search are apart, and the directory is sound and holds `count` entries.
module _ (devsw : ℕ → Option Device) (name de : ℕ) (nm : ℕ → ℕ) (dp : Inode) (fs : Fs) (count : ℕ)
    (apart : (name + 14 ≤ de) ⊎ (de + 16 ≤ name)) (file_type : dp.type ≢ t_dev)
    (fits : dp.size ≤ bsize * maxfile) (size : dp.size ≡ 16 * count) (whole : IsWhole dp fs.disk)
    (plain : (b i : ℕ) → fs.disk b i < 256) where
  abbrev pub file : ℕ → ℕ
  file = content dp.addrs fs.disk

  abbrev pub IsName : Memory → Type 0
  IsName mem = (i : ℕ) → i < 14 → mem (name + i) ≡ nm i

  -- The entry `k` in its buffer.
  module _ (k : ℕ) (mem : Memory) (bytes : (i : ℕ) → mem i < 256) (named : IsName mem)
      (here : k < count) where
    abbrev loaded : Memory
    loaded = paste mem de file (16 * k) 16

    inside : (i : ℕ) → i < 16 → loaded (de + i) ≡ file (16 * k + i)
    inside i l =
        let e : leb de (de + i) && ltb (de + i) (de + 16) ≡ true = ground arith in
        ap (λ b. if b then file (16 * k + (de + i - de)) else mem (de + i)) e
        ∙ ap (λ n. file (16 * k + n)) (omega arith)

    loaded_name : (i : ℕ) → i < 14 → loaded (name + i) ≡ nm i
    loaded_name i l =
        let e : leb de (name + i) && ltb (name + i) (de + 16) ≡ false = ground (arith, apart) in
        ap (λ b. if b then file (16 * k + (name + i - de)) else mem (name + i)) e ∙ named i l

    loaded_bytes : (i : ℕ) → loaded i < 256
    loaded_bytes i = elim (Bool-cases (leb de i && ltb i (de + 16))) [
      | inl e ↦ rw e (content-bytes dp.addrs fs.disk plain (16 * k + (i - de)))
      | inr e ↦ rw e (bytes i)
    ]

    half_lem : half loaded de ≡ half file (16 * k)
    half_lem =
        ap₂ (λ x y. x + y * 2 ^ 8)
          (ap loaded (omega arith) ∙ inside 0 (omega arith) ∙ ap file (omega arith))
          (inside 1 (omega arith))

    same_lem : strncmp name (de + 2) 14 loaded ≡ 0 → SameName nm (λ i. file (16 * k + 2 + i)) 14
    same_lem z =
        SameName-cong (λ i. loaded (name + i)) (λ i. loaded (de + 2 + i)) nm
          (λ i. file (16 * k + 2 + i)) 14 loaded_name
          (λ i l. ap loaded (omega arith) ∙ inside (i + 2) (omega arith) ∙ ap file (omega arith))
          (strncmp-SameName loaded loaded_bytes name (de + 2) 14 (λ i. loaded (name + i))
            (λ i. loaded (de + 2 + i)) (λ i. refl) (λ i. refl) z)

    differs_lem : SameName nm (λ i. file (16 * k + 2 + i)) 14 → strncmp name (de + 2) 14 loaded ≡ 0
    differs_lem same =
        SameName-strncmp loaded loaded_bytes name (de + 2) 14 (λ i. loaded (name + i))
          (λ i. loaded (de + 2 + i)) (λ i. refl) (λ i. refl)
          (SameName-cong nm (λ i. file (16 * k + 2 + i)) (λ i. loaded (name + i))
            (λ i. loaded (de + 2 + i)) 14 (λ i l. sym (loaded_name i l))
            (λ i l.
              ap file (omega arith) ∙ sym (inside (i + 2) (omega arith)) ∙ ap loaded (omega arith))
            same)

    readi_entry : readi devsw de (16 * k) 16 mem dp fs ≡ some (16, loaded, dp, fs)
    readi_entry =
        let in_range : ltb dp.size (16 * k) || leb (2 ^ 32) (16 * k + 16) ≡ false = ground arith in
        let all : min 16 (dp.size - 16 * k) ≡ 16 = omega arith in
        readi_lem devsw de (16 * k) 16 mem dp fs file_type fits (omega arith) (omega arith) whole
        ∙ ap
            (λ b.
              if b
              then some (minus_one, mem, dp, fs)
              else some (
                min 16 (dp.size - 16 * k),
                paste mem de file (16 * k) (min 16 (dp.size - 16 * k)),
                dp,
                fs,
              ))
            in_range
        ∙ ap (λ n. some (n, paste mem de file (16 * k) n, dp, fs)) all

    entry_lem :
        (loop : Memory → Inode → Fs → Scan)
        → Scanned nm file (k + 1) count dp fs (loop loaded dp fs)
        → Scanned nm file k count dp fs
            (scan_entry loop (16 * k) name de (some (16, loaded, dp, fs)))
    entry_lem loop rest = elim (Bool-cases (half loaded de == 0)) [
      | inl e ↦
          subst (Scanned nm file k count dp fs)
            (sym (ap (λ b. if b then loop loaded dp fs else second) e))
            (Scanned-next (λ m. m.0 (sym half_lem ∙ zero_of (half loaded de) e)) rest)
      | inr e ↦
          subst (Scanned nm file k count dp fs)
            (sym (ap (λ b. if b then loop loaded dp fs else second) e)) (named_lem e)
    ]
      where
        zero_of : (x : ℕ) → (x == 0) ≡ true → x ≡ 0
        zero_of x e = ground arith

        second : Scan
        second =
            if strncmp name (de + 2) 14 loaded == 0
            then some (found (16 * k) (half loaded de), loaded, dp, fs)
            else loop loaded dp fs

        named_lem : (half loaded de == 0) ≡ false → Scanned nm file k count dp fs second
        named_lem e = elim (Bool-cases (strncmp name (de + 2) 14 loaded == 0)) [
          | inl q ↦
              subst (Scanned nm file k count dp fs)
                (ap (λ h. some (found (16 * k) h, loaded, dp, fs)) (sym half_lem)
                  ∙ sym (
                      ap
                        (λ b.
                          if b
                          then some (found (16 * k) (half loaded de), loaded, dp, fs)
                          else loop loaded dp fs)
                        q))
                (scanned (found (16 * k) (half file (16 * k))) loaded (
                  first k (omega arith) here
                    (
                      (λ z. used (half loaded de) e (half_lem ∙ z)),
                      same_lem (zero_of (strncmp name (de + 2) 14 loaded) q),
                    )
                    (λ j a b. absurd (omega arith))))
          | inr q ↦
              subst (Scanned nm file k count dp fs)
                (sym (
                  ap
                    (λ b.
                      if b
                      then some (found (16 * k) (half loaded de), loaded, dp, fs)
                      else loop loaded dp fs)
                    q))
                (Scanned-next (λ m. used (strncmp name (de + 2) 14 loaded) q (differs_lem m.1))
                  rest)
        ]
          where
            used : (x : ℕ) → (x == 0) ≡ false → x ≡ 0 → ⊥
            used x e z = ground arith

  pub scan-Scanned :
      (fuel k r : ℕ) (mem : Memory)
      → count ≡ k + r
      → r < fuel
      → ((i : ℕ) → mem i < 256)
      → IsName mem
      → Scanned nm file k count dp fs (scan devsw fuel (16 * k) name de mem dp fs)
  unfolding scan
  scan-Scanned zero k r mem e l bytes named = absurd (omega arith)
  scan-Scanned (suc fuel) k zero mem e l bytes named =
      let end : ltb (16 * k) dp.size ≡ false = ground arith in
      subst (Scanned nm file k count dp fs)
        (sym (
          ap
            (λ b.
              if b
              then scan_entry (scan devsw fuel (16 * k + 16) name de) (16 * k) name de
                  (readi devsw de (16 * k) 16 mem dp fs)
              else some (absent, mem, dp, fs))
            end))
        (scanned absent mem (nowhere (λ j a b. absurd (omega arith))))
  scan-Scanned (suc fuel) k (suc r) mem e l bytes named =
      let more : ltb (16 * k) dp.size ≡ true = ground arith in
      let here : k < count = omega arith in
      let next : 16 * (k + 1) ≡ 16 * k + 16 = omega arith in
      subst (Scanned nm file k count dp fs)
        (sym (
          ap
            (λ b.
              if b
              then scan_entry (scan devsw fuel (16 * k + 16) name de) (16 * k) name de
                  (readi devsw de (16 * k) 16 mem dp fs)
              else some (absent, mem, dp, fs))
            more
          ∙ ap (scan_entry (scan devsw fuel (16 * k + 16) name de) (16 * k) name de)
              (readi_entry k mem bytes named here)))
        (entry_lem k mem bytes named here (scan devsw fuel (16 * k + 16) name de) (
          subst
            (λ off.
              Scanned nm file (k + 1) count dp fs
                (scan devsw fuel off name de (loaded k mem bytes named here) dp fs))
            next
            (scan-Scanned fuel (k + 1) r (loaded k mem bytes named here) (omega arith) (omega arith)
              (loaded_bytes k mem bytes named here) (loaded_name k mem bytes named here))))
