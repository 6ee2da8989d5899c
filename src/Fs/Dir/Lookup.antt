-- ===== src/Fs/Dir/Lookup.antt =====
-- `dirlookup` as a whole: the search, and `iget` of what it finds.
use os_playground.Base.{
  ℕ, suc, ◌+◌, ◌*◌, ◌<◌, ◌≤◌, ◌≡◌, ◌⊎◌, refl, sym, ap, subst, ◌∙◌, not, Option, none, some, ◌==◌,
  if◌then◌else◌, update, update_self, update_ne, arith, ℕ_discrete, fun_ext,
}
use os_playground.Str.{Memory}
use os_playground.Fs.{bsize}
use os_playground.Fs.Rw.{maxfile, Device}
use os_playground.Fs.Rw.Content.{content}
use os_playground.Fs.Rw.Read.{IsWhole}
use os_playground.Fs.Cache.{Itable, set_inode, half, iget}
use os_playground.Fs.Dir.{t_dir, Scan, scan, named, looked_up, dirlookup}
use os_playground.Fs.Dir.Find.{Matches, first, nowhere, Scanned, scanned, scan-Scanned}

-- The result for the first of the `count` entries that is in use and has the name, or for no such entry.
pub data Looked (name file : ℕ → ℕ) (count dev : ℕ) (s : Itable)
    : Option (Option (ℕ × ℕ) × Memory × Itable) → Type 0 where
  hit :
      (k : ℕ) (mem : Memory)
      → k < count
      → Matches name file k
      → ((j : ℕ) → j < k → Matches name file j → ⊥)
      → Looked name file count dev s (named (16 * k) mem (iget dev (half file (16 * k)) s))
  miss :
      (mem : Memory)
      → ((j : ℕ) → j < count → Matches name file j → ⊥)
      → Looked name file count dev s (some (none, mem, s))

put_back : (i : ℕ) (s : Itable) → set_inode i (s.icache i) s ≡ s
put_back i s =
    ap (λ f. record s { icache = f })
      (fun_ext (λ j. elim (ℕ_discrete j i) [
        | yes e ↦
            ap (update s.icache i (s.icache i)) e
            ∙ update_self s.icache i (s.icache i)
            ∙ ap s.icache (sym e)
        | no ne ↦ update_ne s.icache i j (s.icache i) ne
      ]))

-- `dirlookup` in a sound directory, with the name apart from the buffer for an entry: it returns `iget` of the
-- inode of the first entry that is in use and has the name, with the offset of the entry, and 0 if there is
-- none; the search itself never panics, and changes neither the directory nor the disk.
pub dirlookup_lem :
    (devsw : ℕ → Option Device) (i name de count : ℕ) (mem : Memory) (s : Itable)
    → (name + 14 ≤ de) ⊎ (de + 16 ≤ name)
    → (s.icache i).type ≡ t_dir
    → (s.icache i).size ≤ bsize * maxfile
    → (s.icache i).size ≡ 16 * count
    → IsWhole (s.icache i) s.fs.disk
    → ((b j : ℕ) → s.fs.disk b j < 256)
    → ((j : ℕ) → mem j < 256)
    → Looked
        (λ j. mem (name + j))
        (content (s.icache i).addrs s.fs.disk)
        count
        (s.icache i).dev
        s
        (dirlookup devsw i name de mem s)
unfolding dirlookup
dirlookup_lem devsw i name de count mem s apart dir fits size whole plain bytes =
    subst
      (Looked (λ j. mem (name + j)) (content (s.icache i).addrs s.fs.disk) count (s.icache i).dev s)
      (sym (
        ap
          (λ t.
            if not (t == t_dir)
            then none
            else looked_up i (scan devsw (suc (s.icache i).size) 0 name de mem (s.icache i) s.fs) s)
          dir))
      (given (
        scan-Scanned devsw name de (λ j. mem (name + j)) (s.icache i) s.fs count apart
          (λ e. clash dir e) fits size whole plain (suc (s.icache i).size) 0 count mem (omega arith)
          (omega arith) bytes (λ j l. refl)))
  where
    clash : {t : ℕ} → t ≡ t_dir → t ≡ 3 → ⊥
    clash e f = omega arith

    given :
        {o : Scan}
        → Scanned
            (λ j. mem (name + j))
            (content (s.icache i).addrs s.fs.disk)
            0
            count
            (s.icache i)
            s.fs
            o
        → Looked
            (λ j. mem (name + j))
            (content (s.icache i).addrs s.fs.disk)
            count
            (s.icache i).dev
            s
            (looked_up i o s)
    given (scanned _ mem' (first k _ l m before)) =
        subst
          (λ t.
            Looked (λ j. mem (name + j)) (content (s.icache i).addrs s.fs.disk) count
              (s.icache i).dev s
              (named (16 * k) mem'
                (iget (s.icache i).dev (half (content (s.icache i).addrs s.fs.disk) (16 * k)) t)))
          (sym (put_back i s)) (hit k mem' l m (λ j h. before j (omega arith) h))
    given (scanned _ mem' (nowhere before)) =
        subst
          (λ t.
            Looked (λ j. mem (name + j)) (content (s.icache i).addrs s.fs.disk) count
              (s.icache i).dev s (some (none, mem', t)))
          (sym (put_back i s)) (miss mem' (λ j h. before j (omega arith) h))
