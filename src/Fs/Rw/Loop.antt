-- ===== src/Fs/Rw/Loop.antt =====
-- The loop of `writei`, with fuel, free blocks and log for all rounds.
use os_playground.Base.{
  ℕ, zero, suc, ◌+◌, ◌-◌, ◌*◌, ◌/◌, ◌≤◌, ◌<◌, ◌≡◌, refl, sym, ap, ◌∙◌, some, if◌then◌else◌, ◌==◌,
  false, arith, List, [], ◌∷◌, ◌++◌, length, length-append, ℕ_discrete, ==_ne, ==_iff,
}
use os_playground.Bio.{Block}
use os_playground.Str.{Memory}
use os_playground.Fs.{Fs, bsize, Inode, Mapping, bmap}
use os_playground.Fs.Count.{room}
use os_playground.Fs.Bitmap.{IsFormatted}
use os_playground.Fs.Map.{slot, IsFile, with_disk}
use os_playground.Fs.Map.Direct.{Mapped, mapped, no_space}
use os_playground.Fs.Map.Bmap.{position, bmap_lem}
use os_playground.Log.{Log}
use os_playground.Fs.Rw.{
  maxfile, paste, chunk, Written, with_log, bmap_logs, write_chunk, write_loop,
}
use os_playground.Fs.Rw.Logged.{
  HasRoom, IsFuller, HasRoom-less, HasRoom-after, IsFuller-add, IsFuller-same, IsFuller-weaken,
  log_blocks_lem, length-bmap_logs,
}
use os_playground.Fs.Rw.Content.{content}
use os_playground.Fs.Rw.Read.{paste_nothing}
use os_playground.Fs.Rw.Round.{
  IsWritten, rounds, after, after-IsFile, after-IsFormatted, after_room, joined,
}

-- Nothing is written.
unwritten :
    (f : ℕ → ℕ) (s : Fs) (src off left : ℕ) (mem : Memory)
    → IsFile f s
    → IsFormatted s
    → left ≡ 0
    → IsWritten f s src off left mem f s.disk
unwritten f s src off left mem file formatted z = record {
  file = file;
  formatted = formatted;
  bytes = λ j l. sym (
      ap (λ n. paste (content f s.disk) off mem src n j) z
      ∙ ap (λ g. g j) (paste_nothing (content f s.disk) off mem src));
  kept = λ k l ne. refl;
  covered = λ bn some_left lo hi. absurd (omega arith);
  frame = λ b l meta used apart. refl;
  stays = λ b l used. used;
}

-- How many entries of the log the loop takes, at most.
abbrev pub entries : ℕ → ℕ → ℕ
entries off left = if left == 0 then 0 else 6 * rounds off left

pub entries_le : (off left : ℕ) → entries off left ≤ 6 * rounds off left
entries_le off left = elim (ℕ_discrete left 0) [
  | yes z ↦ rw ((==_iff left 0).1 z) (omega arith)
  | no ne ↦ rw (==_ne left 0 ne) (omega arith)
]

-- The loop has written the bytes, and the log is fuller by no more than `entries`.
pub record Done (off left : ℕ) (mem : Memory) (ip : Inode) (s : Fs) (src : ℕ) (l : Log)
    (o : Written) : Type 0 where
  pub addrs : ℕ → ℕ
  pub disk : ℕ → Block
  pub log : Log
  pub result : o ≡ some (mem, record ip { addrs = addrs }, with_disk disk s, log)
  pub bytes : IsWritten ip.addrs s src off left mem addrs disk
  pub fuller : IsFuller l (entries off left) log

-- With fuel, free blocks and log for all rounds, the loop writes the bytes.
abbrev pub Writes : ℕ → Type 0
Writes fuel =
    (src off left : ℕ) (mem : Memory) (ip : Inode) (s : Fs) (l : Log)
    → left < fuel
    → off + left ≤ bsize * maxfile
    → IsFormatted s
    → IsFile ip.addrs s
    → ((i : ℕ) → mem i < 256)
    → (0 < left → 2 * rounds off left ≤ room s)
    → (0 < left → HasRoom l (6 * rounds off left))
    → Done off left mem ip s src l (write_loop fuel src off left mem ip s l)

-- A round takes six entries of the log, and there is one round less to go.
entries-chunk :
    (off left : ℕ)
    → 0 < left
    → 6 + entries (off + chunk off left) (left - chunk off left) ≤ 6 * rounds off left
entries-chunk off left pos = elim (ℕ_discrete (left - chunk off left) 0) [
  | yes z ↦ rw ((==_iff (left - chunk off left) 0).1 z) (omega arith)
  | no ne ↦ rw (==_ne (left - chunk off left) 0 ne) (omega arith)
]

round :
    (fuel src off left : ℕ) (mem : Memory) (ip : Inode) (s : Fs) (l : Log) (logs : List ℕ)
    → Writes fuel
    → left < suc fuel
    → off + left ≤ bsize * maxfile
    → IsFormatted s
    → IsFile ip.addrs s
    → ((i : ℕ) → mem i < 256)
    → 2 * rounds off left ≤ room s
    → HasRoom l (6 * rounds off left)
    → length logs ≤ 5
    → 0 < left
    → {o : Mapping} → Mapped ip s (position (off / bsize)) 2 o
    → Done off left mem ip s src l (write_chunk (write_loop fuel) src off left mem logs l o)
round fuel src off left mem ip s l logs again enough fits formatted file plain free logfree short
      pos (no_space c) =
    absurd (omega arith)
round fuel src off left mem ip s l logs again enough fits formatted file plain free logfree short
      pos (mapped a f1 d1 m c) =
    let t = after ip.addrs s src off left mem formatted file plain fits pos a f1 d1 m in
    let e = after_room ip.addrs s src off left mem formatted file plain fits pos a f1 d1 m in
    let total = entries-chunk off left pos in
    let first =
      log_blocks_lem (logs ++ slot f1 d1 (position (off / bsize)) ∷ []) l 6
        (omega (arith, length-append logs (slot f1 d1 (position (off / bsize)) ∷ [])))
        (HasRoom-less l (6 * rounds off left) 6 (omega arith) logfree) in
    let rest =
      again (src + chunk off left) (off + chunk off left) (left - chunk off left) mem
        (record ip { addrs = f1 }) t first.0 (omega arith) (omega arith)
        (after-IsFormatted ip.addrs s src off left mem formatted file plain fits pos a f1 d1 m)
        (after-IsFile ip.addrs s src off left mem formatted file plain fits pos a f1 d1 m) plain
        (λ more. omega arith)
        (λ more.
          HasRoom-after l first.0 6 (6 * rounds (off + chunk off left) (left - chunk off left))
            first.2
            (HasRoom-less l (6 * rounds off left)
              (6 + 6 * rounds (off + chunk off left) (left - chunk off left)) (omega arith)
              logfree)) in
    record {
      addrs = rest.addrs;
      disk = rest.disk;
      log = rest.log;
      result =
          ap
            (λ x.
              write_chunk (write_loop fuel) src off left mem logs l
                (some (x, record ip { addrs = f1 }, with_disk d1 s)))
            (sym m.here)
          ∙ ap
              (with_log (
                write_loop fuel (src + chunk off left) (off + chunk off left)
                  (left - chunk off left) mem (record ip { addrs = f1 }) t))
              first.1
          ∙ rest.result;
      bytes =
          joined ip.addrs s src off left mem formatted file plain fits pos a f1 d1 m rest.addrs
            rest.disk rest.bytes;
      fuller =
          IsFuller-weaken l rest.log (6 + entries (off + chunk off left) (left - chunk off left))
            (entries off left) (at_most (==_ne left 0 (λ z. omega arith)) total)
            (IsFuller-add l first.0 rest.log 6
              (entries (off + chunk off left) (left - chunk off left)) first.2 rest.fuller);
    }
  where
    at_most : {x : ℕ} → (left == 0) ≡ false → x ≤ 6 * rounds off left → x ≤ entries off left
    at_most e h = rw e h

pub write_loop_lem : (fuel : ℕ) → Writes fuel
unfolding write_loop
write_loop_lem zero src off left mem ip s l enough fits formatted file plain free logfree =
    absurd (omega arith)
write_loop_lem (suc fuel) src off left mem ip s l enough fits formatted file plain free logfree =
    elim (ℕ_discrete left 0) [
      | yes z ↦ record {
        addrs = ip.addrs;
        disk = s.disk;
        log = l;
        result = ap (λ b. if b then some (mem, ip, s, l) else next) ((==_iff left 0).1 z);
        bytes = unwritten ip.addrs s src off left mem file formatted z;
        fuller = IsFuller-same l (entries off left);
      }
      | no ne ↦
          let r =
            round fuel src off left mem ip s l (bmap_logs (off / bsize) ip s) (write_loop_lem fuel)
              enough fits formatted file plain (free (omega arith)) (logfree (omega arith))
              (length-bmap_logs (off / bsize) ip s) (omega arith)
              (bmap_lem ip s (off / bsize) file formatted (omega arith)) in
          record {
            addrs = r.addrs;
            disk = r.disk;
            log = r.log;
            result =
                ap (λ b. if b then some (mem, ip, s, l) else next) (==_ne left 0 ne) ∙ r.result;
            bytes = r.bytes;
            fuller = r.fuller;
          }
    ]
  where
    next : Written
    next =
        write_chunk (write_loop fuel) src off left mem (bmap_logs (off / bsize) ip s) l
          (bmap (off / bsize) ip s)
