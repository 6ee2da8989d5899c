-- ===== src/Fs/Rw/RoundTrip.antt =====
-- What `writei` writes, `readi` reads back.
use os_playground.Base.{
  ℕ, ◌+◌, ◌-◌, ◌*◌, ◌^◌, min, ◌≤◌, ◌<◌, ◌≡◌, ◌≢◌, refl, sym, ap, ◌∙◌, true, false, Option, some,
  ltb, leb, ◌&&◌, ◌||◌, if◌then◌else◌, arith, Bool-cases, inl, inr, fun_ext,
}
use os_playground.Str.{Memory}
use os_playground.Log.{Log}
use os_playground.Fs.{Fs, bsize, Inode}
use os_playground.Fs.Count.{room}
use os_playground.Fs.Bitmap.{IsFormatted}
use os_playground.Fs.Map.{IsFile}
use os_playground.Fs.Rw.{t_dev, maxfile, minus_one, paste, Device, WriteResult, readi, writei}
use os_playground.Fs.Rw.Content.{content}
use os_playground.Fs.Rw.Read.{IsWhole, readi_lem}
use os_playground.Fs.Rw.Logged.{HasRoom}
use os_playground.Fs.Rw.Round.{rounds}
use os_playground.Fs.Rw.Write.{IsRewritten, is_refused, Writing, refused, done, writei_lem}

-- A copy of a copy.
paste_again :
    (to : Memory) (dst : ℕ) (old : Memory) (off : ℕ) (from : Memory) (src n : ℕ) (mid : Memory)
    → ((j : ℕ) → j < off + n → mid j ≡ paste old off from src n j)
    → paste to dst mid off n ≡ paste to dst from src n
paste_again to dst old off from src n mid h = fun_ext (λ i.
    elim (Bool-cases (leb dst i && ltb i (dst + n))) [
      | inl e ↦
          let inside : leb off (off + (i - dst)) && ltb (off + (i - dst)) (off + n) ≡ true =
            ground arith in
          rw e (
            h (off + (i - dst)) (ground arith)
            ∙ ap (λ b. if b then from (src + (off + (i - dst) - off)) else old (off + (i - dst)))
                inside
            ∙ ap (λ k. from (src + k)) (omega arith))
      | inr e ↦ rw e refl
    ])

-- A `writei` of `n` bytes at `off` to a sound file, which is not refused, in a transaction, with two free
-- blocks and six free entries of the log for every block that the bytes reach into and one entry for the
-- inode, returns `n`; a `readi` of `n` bytes at `off` then returns `n` and copies just those bytes, whatever
-- the file had before.
pub readi-writei :
    (devsw : ℕ → Option Device) (src dst off n : ℕ) (mem to : Memory) (ip : Inode) (s : Fs)
    (log : Log)
    → ip.type ≢ t_dev
    → ip.inum < s.sb.ninodes
    → ip.size ≤ bsize * maxfile
    → IsFormatted s
    → IsFile ip.addrs s
    → IsWhole ip s.disk
    → ((i : ℕ) → mem i < 256)
    → 2 * rounds off n ≤ room s
    → HasRoom log (6 * rounds off n + 1)
    → off ≤ ip.size
    → off + n ≤ bsize * maxfile
    → (ip' : Inode) × (t : Fs) × (log' : Log) × (writei devsw src off n mem ip s log
        ≡ some (n, mem, ip', t, log'))
      × (readi devsw dst off n to ip' t ≡ some (n, paste to dst mem src n, ip', t))
readi-writei devsw src dst off n mem to ip s log file_type small fits formatted file whole plain
      free logfree starts ends =
    back (
      writei_lem devsw src off n mem ip s log file_type small fits (omega arith) (omega arith)
        formatted file whole plain free logfree)
  where
    fine : is_refused ip off n ≡ false
    fine = ground arith

    clash : is_refused ip off n ≡ true → ⊥
    clash e = ground (arith, fine)

    read_back :
        (ip' : Inode) (t : Fs)
        → IsRewritten ip s src off n mem ip' t
        → readi devsw dst off n to ip' t ≡ some (n, paste to dst mem src n, ip', t)
    read_back ip' t w =
        let longer : off + n ≤ ip'.size = ground (arith, w.size) in
        let in_range : ltb ip'.size off || leb (2 ^ 32) (off + n) ≡ false = ground arith in
        let count : min n (ip'.size - off) ≡ n = omega arith in
        readi_lem devsw dst off n to ip' t (λ e. file_type (sym w.type ∙ e))
          (ground (arith, w.size)) (omega arith) (omega arith) w.whole
        ∙ ap
            (λ b.
              if b
              then some (minus_one, to, ip', t)
              else some (
                min n (ip'.size - off),
                paste to dst (content ip'.addrs t.disk) off (min n (ip'.size - off)),
                ip',
                t,
              ))
            in_range
        ∙ ap (λ k. some (k, paste to dst (content ip'.addrs t.disk) off k, ip', t)) count
        ∙ ap (λ m. some (n, m, ip', t))
            (paste_again to dst (content ip.addrs s.disk) off mem src n (content ip'.addrs t.disk)
              (λ j l. w.bytes j (omega arith)))

    back :
        {o : WriteResult}
        → Writing ip s src off n mem log o
        → (ip' : Inode) × (t : Fs) × (log' : Log) × (o ≡ some (n, mem, ip', t, log'))
          × (readi devsw dst off n to ip' t ≡ some (n, paste to dst mem src n, ip', t))
    back (refused e) = absurd (clash e)
    back (done ip' t log' _ w _) = (ip', t, log', refl, read_back ip' t w)
