-- ===== src/Fs/Rw/Read.antt =====
-- `readi`: it copies the contents of the file.
use os_playground.Base.{
  ℕ, zero, suc, ◌+◌, ◌-◌, ◌*◌, ◌/◌, ◌%◌, ◌^◌, min, ◌≤◌, ◌<◌, ◌≡◌, ◌≢◌, refl, sym, ap, ◌∙◌, true,
  false, Option, some, ltb, leb, ◌&&◌, ◌||◌, if◌then◌else◌, arith, ℕ_discrete, dec_lt, Bool-cases,
  ==_ne, ==_iff, inl, inr, fun_ext,
}
use os_playground.Bio.{Block}
use os_playground.Str.{Memory}
use os_playground.Fs.{Fs, bsize, Inode, bmap}
use os_playground.Fs.Map.{slot}
use os_playground.Fs.Map.Bmap.{position, bmap_found}
use os_playground.Fs.Rw.{
  t_dev, maxfile, minus_one, paste, chunk, read_chunk, read_loop, counted, Device, on_device,
  Result, readi,
}
use os_playground.Fs.Rw.Content.{content, content_at}

-- No block below the size of the file is missing.
abbrev pub IsWhole : Inode → (ℕ → Block) → Type 0
IsWhole ip disk = (bn : ℕ) → bsize * bn < ip.size → slot ip.addrs disk (position bn) ≢ 0

pub paste_nothing : (to : Memory) (o : ℕ) (from : Memory) (p : ℕ) → paste to o from p 0 ≡ to
paste_nothing to o from p =
    fun_ext (λ i. let e : leb o i && ltb i (o + 0) ≡ false = ground arith in rw e refl)

-- A copy in two parts, of which the first has the same bytes in another object.
pub paste-paste :
    (to : Memory) (o : ℕ) (first : Memory) (q : ℕ) (from : Memory) (p m n : ℕ)
    → m ≤ n
    → ((t : ℕ) → t < m → first (q + t) ≡ from (p + t))
    → paste (paste to o first q m) (o + m) from (p + m) (n - m) ≡ paste to o from p n
paste-paste to o first q from p m n l same = fun_ext (λ i. elim (dec_lt i o) [
  | yes before ↦
      let e1 : leb (o + m) i && ltb i (o + m + (n - m)) ≡ false = ground arith in
      let e2 : leb o i && ltb i (o + m) ≡ false = ground arith in
      let e3 : leb o i && ltb i (o + n) ≡ false = ground arith in rw e1 (rw e2 (rw e3 refl))
  | no after ↦ elim (dec_lt i (o + m)) [
    | yes in_first ↦
        let e1 : leb (o + m) i && ltb i (o + m + (n - m)) ≡ false = ground arith in
        let e2 : leb o i && ltb i (o + m) ≡ true = ground arith in
        let e3 : leb o i && ltb i (o + n) ≡ true = ground arith in
        rw e1 (rw e2 (rw e3 (same (i - o) (omega arith))))
    | no in_rest ↦ elim (dec_lt i (o + n)) [
      | yes second ↦
          let e1 : leb (o + m) i && ltb i (o + m + (n - m)) ≡ true = ground arith in
          let e3 : leb o i && ltb i (o + n) ≡ true = ground arith in
          rw e1 (rw e3 (ap from (omega arith)))
      | no late ↦
          let e1 : leb (o + m) i && ltb i (o + m + (n - m)) ≡ false = ground arith in
          let e2 : leb o i && ltb i (o + m) ≡ false = ground arith in
          let e3 : leb o i && ltb i (o + n) ≡ false = ground arith in rw e1 (rw e2 (rw e3 refl))
    ]
  ]
])

-- The bytes of a chunk are those of one block.
pub content-chunk :
    (f : ℕ → ℕ) (disk : ℕ → Block) (off left t : ℕ)
    → slot f disk (position (off / bsize)) ≢ 0
    → t < chunk off left
    → disk (slot f disk (position (off / bsize))) (off % bsize + t) ≡ content f disk (off + t)
content-chunk f disk off left t ne l =
    let same : (off + t) / bsize ≡ off / bsize = ground arith in
    let place : (off + t) % bsize ≡ off % bsize + t = ground arith in
    ap (disk (slot f disk (position (off / bsize)))) (sym place)
    ∙ sym (
        content_at f disk (off + t) (slot f disk (position (off / bsize)))
          (ap (λ n. slot f disk (position n)) same) ne)

read_loop_lem :
    (fuel dst off left : ℕ) (mem : Memory) (ip : Inode) (s : Fs)
    → left < fuel
    → off + left ≤ bsize * maxfile
    → ((bn : ℕ)
        → off / bsize ≤ bn
        → bsize * bn < off + left
        → slot ip.addrs s.disk (position bn) ≢ 0)
    → read_loop fuel dst off left mem ip s
      ≡ some (paste mem dst (content ip.addrs s.disk) off left, ip, s)
unfolding read_loop
read_loop_lem zero dst off left mem ip s enough fits has = absurd (omega arith)
read_loop_lem (suc fuel) dst off left mem ip s enough fits has = elim (ℕ_discrete left 0) [
  | yes z ↦
      ap
        (λ b.
          if b
          then some (mem, ip, s)
          else read_chunk (read_loop fuel) dst off left mem (bmap (off / bsize) ip s))
        ((==_iff left 0).1 z)
      ∙ ap (λ m. some (m, ip, s))
          (sym (
            ap (paste mem dst (content ip.addrs s.disk) off) z
            ∙ paste_nothing mem dst (content ip.addrs s.disk) off))
  | no ne ↦
      let m = chunk off left in
      let here : slot ip.addrs s.disk (position (off / bsize)) ≢ 0 =
        has (off / bsize) (omega arith) (omega arith) in
      ap
        (λ b.
          if b
          then some (mem, ip, s)
          else read_chunk (read_loop fuel) dst off left mem (bmap (off / bsize) ip s))
        (==_ne left 0 ne)
      ∙ ap (read_chunk (read_loop fuel) dst off left mem)
          (bmap_found ip s (off / bsize) (omega arith) here)
      ∙ read_loop_lem fuel (dst + m) (off + m) (left - m)
          (paste mem dst (s.disk (slot ip.addrs s.disk (position (off / bsize)))) (off % bsize) m)
          ip s (omega arith) (omega arith) (λ bn l h. has bn (omega arith) (omega arith))
      ∙ ap (λ x. some (x, ip, s))
          (paste-paste mem dst (s.disk (slot ip.addrs s.disk (position (off / bsize))))
            (off % bsize) (content ip.addrs s.disk) off m left (omega arith)
            (λ t l. content-chunk ip.addrs s.disk off left t here l))
]

-- `readi` of a file, not a device, without missing blocks: from behind its end, or if `off + n` overflows,
-- it returns -1; otherwise it copies the `n` bytes at `off`, or those up to the end of the file, and
-- returns their number. It never panics, and changes neither the file nor the disk.
pub readi_lem :
    (devsw : ℕ → Option Device) (dst off n : ℕ) (mem : Memory) (ip : Inode) (s : Fs)
    → ip.type ≢ t_dev
    → ip.size ≤ bsize * maxfile
    → off < 2 ^ 32
    → n < 2 ^ 32
    → IsWhole ip s.disk
    → readi devsw dst off n mem ip s ≡ (
        if ltb ip.size off || leb (2 ^ 32) (off + n)
        then some (minus_one, mem, ip, s)
        else some (
          min n (ip.size - off),
          paste mem dst (content ip.addrs s.disk) off (min n (ip.size - off)),
          ip,
          s,
        ))
unfolding readi
readi_lem devsw dst off n mem ip s file_type fits small small_n whole =
    ap (λ b. if b then on_device devsw dst n mem ip s else rest) (==_ne ip.type t_dev file_type)
    ∙ elim (Bool-cases (ltb ip.size off || leb (2 ^ 32) (off + n))) [
      | inl bad ↦
          let e : ltb ip.size off || ltb ((off + n) % 2 ^ 32) off ≡ true = ground arith in
          ap
            (λ b.
              if b
              then some (minus_one, mem, ip, s)
              else counted count (read_loop (suc count) dst off count mem ip s))
            e
          ∙ sym (ap (λ b. if b then some (minus_one, mem, ip, s) else good) bad)
      | inr fine ↦
          let e : ltb ip.size off || ltb ((off + n) % 2 ^ 32) off ≡ false = ground arith in
          let c : count ≡ min n (ip.size - off) = ground arith in
          ap
            (λ b.
              if b
              then some (minus_one, mem, ip, s)
              else counted count (read_loop (suc count) dst off count mem ip s))
            e
          ∙ ap (λ k. counted k (read_loop (suc k) dst off k mem ip s)) c
          ∙ ap (counted (min n (ip.size - off))) (
              read_loop_lem (suc (min n (ip.size - off))) dst off (min n (ip.size - off)) mem ip s
                (omega arith) (ground arith) (λ bn l h. whole bn (ground arith)))
          ∙ sym (ap (λ b. if b then some (minus_one, mem, ip, s) else good) fine)
    ]
  where
    count : ℕ
    count = if ltb ip.size ((off + n) % 2 ^ 32) then ip.size - off else n

    good : Result
    good = some (
      min n (ip.size - off),
      paste mem dst (content ip.addrs s.disk) off (min n (ip.size - off)),
      ip,
      s,
    )

    rest : Result
    rest =
        if ltb ip.size off || ltb ((off + n) % 2 ^ 32) off
        then some (minus_one, mem, ip, s)
        else counted (if ltb ip.size ((off + n) % 2 ^ 32) then ip.size - off else n) (
            read_loop (suc (if ltb ip.size ((off + n) % 2 ^ 32) then ip.size - off else n)) dst off
              (if ltb ip.size ((off + n) % 2 ^ 32) then ip.size - off else n) mem ip s)
