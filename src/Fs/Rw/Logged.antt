-- ===== src/Fs/Rw/Logged.antt =====
-- How much of the log `writei` takes: at most six entries in a round.
use os_playground.Base.{
  ℕ, ◌+◌, ◌-◌, ◌≤◌, ◌<◌, ◌≡◌, refl, sym, ap, subst, ◌∙◌, Bool, true, false, Option, none, some, ltb,
  leb, ◌==◌, ◌||◌, if◌then◌else◌, update, List, [], ◌∷◌, ◌++◌, length, length-append, arith,
  Bool-cases, inl, inr,
}
use os_playground.Log.{Log, logsize, log_write, absorb, find_block}
use os_playground.Fs.{Superblock, Fs, Inode, Mapping, get_word, ndirect, balloc, load_addr}
use os_playground.Fs.Rw.{
  log_block, then_log, log_blocks, balloc_logs, addr_logs, entry_logs, bmap_logs,
}

-- A log inside a transaction, with room for `k` more blocks.
pub record HasRoom (l : Log) (k : ℕ) : Type 0 where
  pub inside : 0 < l.outstanding
  pub few : l.n + k ≤ logsize
  pub fits : l.n + k < l.size

-- At most `k` more blocks than before are in the log, of the same transaction.
pub record IsFuller (l : Log) (k : ℕ) (l' : Log) : Type 0 where
  pub size : l'.size ≡ l.size
  pub outstanding : l'.outstanding ≡ l.outstanding
  pub more : l'.n ≤ l.n + k

pub HasRoom-less : (l : Log) (k j : ℕ) → j ≤ k → HasRoom l k → HasRoom l j
HasRoom-less l k j h r = record {
  inside = r.inside;
  few = omega (arith, r.few);
  fits = omega (arith, r.fits);
}

pub HasRoom-after : (l l' : Log) (k j : ℕ) → IsFuller l k l' → HasRoom l (k + j) → HasRoom l' j
HasRoom-after l l' k j f r = record {
  inside = omega (arith, r.inside, f.outstanding);
  few = omega (arith, r.few, f.more);
  fits = omega (arith, r.fits, f.more, f.size);
}

pub IsFuller-add :
    (l l' l'' : Log) (k j : ℕ) → IsFuller l k l' → IsFuller l' j l'' → IsFuller l (k + j) l''
IsFuller-add l l' l'' k j f g = record {
  size = g.size ∙ f.size;
  outstanding = g.outstanding ∙ f.outstanding;
  more = omega (arith, f.more, g.more);
}

pub IsFuller-same : (l : Log) (k : ℕ) → IsFuller l k l
IsFuller-same l k = record { size = refl; outstanding = refl; more = omega arith }

pub IsFuller-weaken : (l l' : Log) (k j : ℕ) → k ≤ j → IsFuller l k l' → IsFuller l j l'
IsFuller-weaken l l' k j h f = record {
  size = f.size;
  outstanding = f.outstanding;
  more = omega (arith, f.more);
}

log_block_lem :
    (b : ℕ) (l : Log) → HasRoom l 1 → (l' : Log) × (log_block b l ≡ some l') × IsFuller l 1 l'
unfolding log_write absorb
log_block_lem b l r =
    let i = find_block l.block b 0 l.n in
    let full : leb logsize l.n || leb (l.size - 1) l.n ≡ false = ground (arith, r.few, r.fits) in
    let open_ : ltb l.outstanding 1 ≡ false = ground (arith, r.inside) in
    (
      record l { block = update l.block i b; n = if i == l.n then l.n + 1 else l.n },
      rw full (rw open_ refl),
      record { size = refl; outstanding = refl; more = either (i == l.n) },
    )
  where
    either : (c : Bool) → (if c then l.n + 1 else l.n) ≤ l.n + 1
    either true = omega arith
    either false = omega arith

-- With room for all of them, `log_write` of some blocks does not panic.
pub log_blocks_lem :
    (bs : List ℕ) (l : Log) (k : ℕ)
    → length bs ≤ k
    → HasRoom l k
    → (l' : Log) × (log_blocks bs l ≡ some l') × IsFuller l k l'
unfolding log_blocks
log_blocks_lem [] l k h r = (l, refl, IsFuller-same l k)
log_blocks_lem (b ∷ bs) l k h r =
    let one = log_block_lem b l (HasRoom-less l k 1 (omega arith) r) in
    let rest =
      log_blocks_lem bs one.0 (k - 1) (omega arith)
        (HasRoom-after l one.0 1 (k - 1) one.2 (HasRoom-less l k (1 + (k - 1)) (omega arith) r)) in
    (
      rest.0,
      ap (then_log (log_blocks bs)) one.1 ∙ rest.1,
      IsFuller-weaken l rest.0 (1 + (k - 1)) k (omega arith)
          (IsFuller-add l one.0 rest.0 1 (k - 1) one.2 rest.2),
    )

length-if : (c : Bool) (xs : List ℕ) (k : ℕ) → length xs ≤ k → length (if c then xs else []) ≤ k
length-if true xs k h = h
length-if false xs k h = omega arith

length-balloc_logs : (sb : Superblock) (o : Option (ℕ × Fs)) → length (balloc_logs sb o) ≤ 2
length-balloc_logs sb none = omega arith
length-balloc_logs sb (some x) = omega arith

length-addr_logs : (k : ℕ) (ip : Inode) (s : Fs) → length (addr_logs k ip s) ≤ 2
length-addr_logs k ip s = length-if (ip.addrs k == 0) _ 2 (length-balloc_logs s.sb (balloc s))

length-entry_logs : (j : ℕ) (m : Mapping) → length (entry_logs j m) ≤ 3
length-entry_logs j none = omega arith
length-entry_logs j (some (block, ip, s)) = length-if (get_word (s.disk block) j == 0) _ 3 (
    omega (
      arith,
      length-append (balloc_logs s.sb (balloc s)) (block ∷ []),
      length-balloc_logs s.sb (balloc s),
    ))

pub length-bmap_logs : (bn : ℕ) (ip : Inode) (s : Fs) → length (bmap_logs bn ip s) ≤ 5
unfolding bmap_logs
length-bmap_logs bn ip s = elim (Bool-cases (ltb bn ndirect)) [
  | inl e ↦
      subst (λ c. length (if c then addr_logs bn ip s else far) ≤ 5) (sym e)
        (omega (arith, length-addr_logs bn ip s))
  | inr e ↦
      subst (λ c. length (if c then addr_logs bn ip s else far) ≤ 5) (sym e)
        (omega (
          arith,
          length-append (addr_logs ndirect ip s)
              (entry_logs (bn - ndirect) (load_addr ndirect ip s)),
          length-addr_logs ndirect ip s,
          length-entry_logs (bn - ndirect) (load_addr ndirect ip s),
        ))
]
  where
    far : List ℕ
    far = addr_logs ndirect ip s ++ entry_logs (bn - ndirect) (load_addr ndirect ip s)
