-- ===== src/Log/Reserve.antt =====
-- The reservations of `begin_op`: no operation that keeps to its share overflows the log.
use os_playground.Base.{
  ℕ, zero, suc, ◌+◌, ◌-◌, ◌*◌, ◌^◌, ◌%◌, ==_ne, ℕ_discrete, ◌≤◌, ◌<◌, ◌≡◌, refl, ap, ◌∙◌, ◌≢◌, inl,
  inr, some, arith, List, [], ◌∷◌, ◌++◌, length, length-append, true, false, ltb, Bool-cases,
  Option, none,
}
use os_playground.Log.{
  Block, Log, Machine, logsize, maxopblocks, begin_op, end_op, absorb, find_block, commit, bread,
  for_tail, install_one, log_one, install_trans, write_log, write_head, bwrite,
}
use os_playground.Log.Restart.{IsHeader}
use os_playground.Log.Crash.{Holds, commit_whole}

-- The blocks that the operations in progress may still write, for what each has written so far.
abbrev pub owed : List ℕ → ℕ
owed [] = 0
owed (u ∷ us) = maxopblocks - u + owed us

owed-append : (us vs : List ℕ) → owed (us ++ vs) ≡ owed us + owed vs
owed-append [] vs = omega arith
owed-append (u ∷ us) vs = omega (arith, owed-append us vs)

owed-le : (us : List ℕ) → owed us ≤ maxopblocks * length us
owed-le [] = omega arith
owed-le (u ∷ us) = omega (arith, owed-le us)

-- `used` has one entry for each operation in progress.
pub record IsReserved (l : Log) (used : List ℕ) : Type 0 where
  pub running : l.outstanding ≡ length used
  pub room : l.n + owed used ≤ logsize
  pub few : l.outstanding ≤ 3
  pub idle : l.committing ≡ false

-- An operation that `begin_op` lets in has its share of the log.
pub begin_op-IsReserved :
    (l l' : Log) (used : List ℕ)
    → IsReserved l used
    → begin_op l ≡ some l'
    → IsReserved l' (0 ∷ used)
unfolding begin_op
begin_op-IsReserved l l' used v e = ground (arith, owed-le used)

pub find_block-le : (block : ℕ → ℕ) (b i r : ℕ) → find_block block b i r ≤ i + r
unfolding find_block
find_block-le block b i zero = omega arith
find_block-le block b i (suc r) = ground (arith, find_block-le block b (i + 1) r)

-- One block written by an operation that has written fewer blocks than its share.
module _ (b : ℕ) (v : Block) (m : Machine) (us vs : List ℕ) (u : ℕ)
    (r : IsReserved m.log (us ++ u ∷ vs)) (share : u < maxopblocks)
    (made : m.log.size ≡ logsize) where
  running : 0 < m.log.outstanding
  running = omega (arith, r.running, length-append us (u ∷ vs))

  written : Machine
  written = absorb b v m

  room : written.log.n + owed (us ++ suc u ∷ vs) ≤ logsize
  unfolding written absorb
  room = ground (arith, r.room, owed-append us (u ∷ vs), owed-append us (suc u ∷ vs))

  -- The block is in the log, with the reservations of the others kept; or the log of `logsize` blocks, one
  -- of which is its header, has no room for the last block of the last operation.
  pub data Reserved : Option Machine → Type 0 where
    within :
        (m' : Machine) → m.log.n < 29 → IsReserved m'.log (us ++ suc u ∷ vs) → Reserved (some m')
    too_big : m.log.n ≡ 29 → u ≡ 9 → owed (us ++ vs) ≡ 0 → Reserved none

log-install : (i r : ℕ) (m : Machine) → (for_tail install_one i r m).log ≡ m.log
unfolding for_tail bwrite
log-install i zero m = refl
log-install i (suc r) m = log-install (i + 1) r (install_one i m)

log-write_log : (i r : ℕ) (m : Machine) → (for_tail log_one i r m).log ≡ m.log
unfolding for_tail bwrite
log-write_log i zero m = refl
log-write_log i (suc r) m = log-write_log (i + 1) r (log_one i m)

-- A commit empties the log and touches nothing else of it.
log-commit : (m : Machine) → (commit m).log ≡ record (m.log) { n = 0 }
unfolding commit write_head bwrite install_trans write_log
log-commit m = elim (Bool-cases (ltb 0 m.log.n)) [
  | inl more ↦
      rw more (ap (λ (l : Log). record l { n = 0 }) (log-install 0 _ _ ∙ log-write_log 0 m.log.n m))
  | inr none_left ↦
      rw none_left (let z : m.log.n ≡ 0 = ground arith in λ i. record (m.log) { n = z i })
]

-- `end_op` but for the commit, and the machine that the last `end_op` leaves.
abbrev left : Machine → Log
left m = record (m.log) { outstanding = m.log.outstanding - 1 }

abbrev committed : Machine → Machine
committed m =
    let done = commit (record m { log = record (left m) { committing = true } }) in
    record done { log = record (done.log) { committing = false } }

module _ (m : Machine) (us vs : List ℕ) (u : ℕ) (r : IsReserved m.log (us ++ u ∷ vs)) where
  fewer : length (us ++ vs) + 1 ≡ m.log.outstanding
  fewer = omega (arith, r.running, length-append us (u ∷ vs), length-append us vs)

  left-eq : (m.log.outstanding + 2 ^ 32 - 1) % 2 ^ 32 ≡ m.log.outstanding - 1
  left-eq = omega (arith, r.few, fewer)

  end_op_last : m.log.outstanding ≡ 1 → end_op m ≡ some (committed m)
  unfolding end_op
  end_op_last e = rw (left-eq, r.idle, e)

  end_op_other : m.log.outstanding ≢ 1 → end_op m ≡ some (record m { log = left m })
  unfolding end_op
  end_op_other ne =
      rw (left-eq, r.idle, ==_ne (m.log.outstanding - 1) 0 (λ z. ne (omega (arith, fewer))))

  log-committed : (committed m).log ≡ record (left m) { n = 0; committing = false }
  log-committed =
      ap (λ (l : Log). record l { committing = false })
        (log-commit (record m { log = record (left m) { committing = true } }))

  committed-IsReserved : m.log.outstanding ≡ 1 → IsReserved (committed m).log (us ++ vs)
  committed-IsReserved e = rw log-committed (record {
    running = omega (arith, fewer);
    room = omega (arith, fewer, owed-le (us ++ vs));
    few = omega arith;
    idle = refl;
  })

  -- What `end_op` leaves: if others are in progress, only their number has changed; the last one commits, so
  -- that the blocks of the transaction are on the disk as they were in the cache, and the log is empty.
  pub data Ended : Machine → Type 0 where
    others_go_on : m.log.outstanding ≢ 1 → Ended (record m { log = left m })
    committed_all :
        (m' : Machine)
        → m.log.outstanding ≡ 1
        → m'.log ≡ record (m.log) { outstanding = 0; committing = false; n = 0 }
        → Holds m.log m.disk (λ j. bread m (m.log.block j)) m'.disk
        → Ended m'

  -- `end_op` of an operation in progress, with a header that fits, an empty log on the disk and power for
  -- all writes, does not panic, and the reservations hold without its share. If others are in progress only
  -- their number changes; the last one commits: every block of the transaction is on the disk as it was in
  -- the cache, all other blocks outside the log are as before, and the log is empty in memory and on disk.
  pub end_op-IsReserved :
      IsHeader m.log
      → m.disk m.log.start 0 ≡ 0
      → 2 * m.log.n + 1 < m.power
      → (m' : Machine) × (end_op m ≡ some m') × IsReserved m'.log (us ++ vs) × Ended m'
  end_op-IsReserved h empty power = elim (ℕ_discrete m.log.outstanding 1) [
    | yes e ↦ (
      committed m,
      end_op_last e,
      committed-IsReserved e,
      committed_all (committed m) e
          (log-committed
            ∙ ap (λ k. record (m.log) { outstanding = k; committing = false; n = 0 }) (omega arith))
          (as_before (
            commit_whole (record m { log = record (left m) { committing = true } })
              (record { fits = h.fits; homes = h.homes; distinct = h.distinct }) empty power)),
    )
    | no ne ↦ (
      record m { log = left m },
      end_op_other ne,
      record {
        running = omega (arith, fewer);
        room = omega (arith, r.room, owed-append us (u ∷ vs), owed-append us vs);
        few = omega (arith, r.few);
        idle = r.idle;
      },
      others_go_on ne,
    )
  ]
    where
      as_before :
          {d : ℕ → Block}
          → Holds (record (left m) { committing = true }) m.disk (λ j. bread m (m.log.block j)) d
          → Holds m.log m.disk (λ j. bread m (m.log.block j)) d
      as_before c = record { blocks = c.blocks; others = c.others; clean = c.clean }
