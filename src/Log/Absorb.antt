-- ===== src/Log/Absorb.antt =====
-- `log_write` keeps the header fit to be committed: each block is named once.
use os_playground.Base.{
  ℕ, zero, suc, ◌+◌, ◌≤◌, ◌<◌, ◌≡◌, sym, ◌∙◌, ◌≢◌, some, arith, ℕ_discrete, if◌then◌else◌, ◌==◌,
  update, ==_iff, ==_refl, ==_ne,
}
use native.Mathlib.Decide.{dec_lt}
use os_playground.Log.{Block, Log, Machine, logsize, log_write, absorb, find_block, bread}
use os_playground.Log.Restart.{IsHome, IsHeader}

-- The search ends at the first place that holds `b`, or else at the end.
record Found (block : ℕ → ℕ) (b i r k : ℕ) : Type 0 where
  from : i ≤ k
  to : k ≤ i + r
  hit : k < i + r → block k ≡ b
  before : (j : ℕ) → i ≤ j → j < k → block j ≢ b

find_block-Found : (block : ℕ → ℕ) (b i r : ℕ) → Found block b i r (find_block block b i r)
unfolding find_block
find_block-Found block b i zero = record {
  from = omega arith;
  to = omega arith;
  hit = λ h. absurd (omega arith);
  before = λ j h l. absurd (omega arith);
}
find_block-Found block b i (suc r) = elim (ℕ_discrete (block i) b) [
  | yes e ↦
      rw (e, ==_refl b)
        (record {
          from = omega arith;
          to = omega arith;
          hit = λ h. e;
          before = λ j h l. absurd (omega arith);
        })
  | no ne ↦
      let f = find_block-Found block b (i + 1) r in
      rw (==_ne (block i) b ne) (record {
        from = omega (arith, f.from);
        to = omega (arith, f.to);
        hit = λ h. f.hit (omega arith);
        before =
            λ j h l. elim (ℕ_discrete j i) [ yes e ↦ rw e ne | no k ↦ f.before j (omega arith) l ];
      })
]

-- The header of `l` with `b` written where the search ended.
abbrev absorbed : ℕ → Log → ℕ → Log
absorbed b l k = record l { block = update l.block k b; n = if k == l.n then l.n + 1 else l.n }

module _ (b : ℕ) (l : Log) (h : IsHeader l) (home : IsHome l.start b) (room : l.n < logsize) (k : ℕ)
    (f : Found l.block b 0 l.n k) where
  older : (j : ℕ) → j < (absorbed b l k).n → j ≢ k → j < l.n
  older j e ne = ground (arith, ==_iff k l.n)

  -- The name `b` stands nowhere but at `k`.
  once : (j : ℕ) → j < l.n → l.block j ≡ b → j ≡ k
  once j e q = elim (dec_lt k l.n) [
    | yes p ↦ h.distinct j k e p (q ∙ sym (f.hit (omega arith)))
    | no p ↦ absurd (f.before j (omega arith) (omega (arith, f.to)) q)
  ]

  absorbed-IsHeader : IsHeader (absorbed b l k)
  absorbed-IsHeader = record {
    fits = ground (arith, ==_iff k l.n);
    homes = λ j e. elim (ℕ_discrete j k) [
      | yes q ↦ rw ((==_iff j k).1 q) home
      | no q ↦ rw (==_ne j k q) (h.homes j (older j e q))
    ];
    distinct = λ i j a c e. elim (ℕ_discrete i k) [
      | yes p ↦ elim (ℕ_discrete j k) [
        | yes q ↦ p ∙ sym q
        | no q ↦ absurd (q (once j (older j c q) (sym (rw ((==_iff i k).1 p, ==_ne j k q) at e))))
      ]
      | no p ↦ elim (ℕ_discrete j k) [
        | yes q ↦ absurd (p (once i (older i a p) (rw (==_ne i k p, (==_iff j k).1 q) at e)))
        | no q ↦ h.distinct i j (older i a p) (older j c q) (rw (==_ne i k p, ==_ne j k q) at e)
      ]
    ];
  }

  kept : (j : ℕ) → j < l.n → update l.block k b j ≡ l.block j
  kept j e = elim (ℕ_discrete j k) [
    | yes q ↦ rw ((==_iff j k).1 q) (sym (rw q (f.hit (omega (arith, q)))))
    | no q ↦ rw (==_ne j k q)
  ]

log_write-absorb :
    (b : ℕ) (v : Block) (m m' : Machine)
    → log_write b v m ≡ some m'
    → (m.log.n < logsize) × (m' ≡ absorb b v m)
unfolding log_write
log_write-absorb b v m m' e = ground arith

-- A `log_write` that succeeds, of a block outside the log, leaves a header that names `b`, names what
-- it named before at the same places, and names no block twice; the buffer's contents are in the cache.
pub log_write-IsHeader :
    (b : ℕ) (v : Block) (m m' : Machine)
    → IsHeader m.log
    → IsHome m.log.start b
    → log_write b v m ≡ some m'
    → IsHeader m'.log
      × ((k : ℕ) × (k < m'.log.n) × (m'.log.block k ≡ b))
      × ((j : ℕ) → j < m.log.n → m'.log.block j ≡ m.log.block j)
      × (bread m' b ≡ v)
unfolding absorb
log_write-IsHeader b v m m' h home e =
    let (room, same) = log_write-absorb b v m m' e in
    let k = find_block m.log.block b 0 m.log.n in
    let f = find_block-Found m.log.block b 0 m.log.n in
    rw same (
      absorbed-IsHeader b m.log h home room k f,
      (k, ground (arith, ==_iff k m.log.n, f.to), rw (==_refl k)),
      λ j l. kept b m.log h home room k f j l,
      rw (==_refl b, bread),
    )
