-- ===== src/Log/Tests.antt =====
-- Runs of the log, and the theorems about it at concrete machines.
use os_playground.Base.{
  ℕ, ◌+◌, ◌<◌, ◌≡◌, refl, none, some, Option, arith, [], ◌∷◌, false, if◌then◌else◌, ◌==◌, zero, suc,
}
use mathlib.Core.Option
use os_playground.Log.{
  Block, Log, Machine, bread, bwrite, for_tail, install_trans, write_log, write_head, read_head,
  commit, initlog, boot, begin_op, end_op, log_write, absorb,
}
use os_playground.Log.Restart.{IsHeader, named}
use os_playground.Log.Crash.{Holds, IsReady, outcome, commit_crash, restart_crash}
use os_playground.Log.Reserve.{IsReserved, Ended, end_op-IsReserved}
use os_playground.Log.Absorb.{log_write-IsHeader}

-- A log at block 2, and a transaction of blocks 100 and 101, whose new contents are 7 and 8.
abbrev two_blocks : Log
two_blocks = record {
  start = 2;
  size = 31;
  outstanding = 1;
  committing = false;
  n = 2;
  block = λ i. if i == 0 then 100 else 101;
}

abbrev dirty : ℕ → Machine
dirty power = record {
  disk = λ b w. 0;
  cache = λ b. if b == 100 then some (λ w. 7) else if b == 101 then some (λ w. 8) else none;
  power = power;
  log = two_blocks;
}

two_blocks-IsHeader : IsHeader two_blocks
two_blocks-IsHeader = record {
  fits = omega arith;
  homes = λ j e i f k. ground arith;
  distinct = λ i j e f k. ground arith;
}

dirty-IsReady : (power : ℕ) → IsReady (dirty power)
dirty-IsReady power = record {
  header = two_blocks-IsHeader;
  some_blocks = omega arith;
  empty = refl;
}

-- The power fails after the header and one of the two blocks.
commit_crash_example :
    Holds two_blocks
      (λ b w. 0)
      (outcome (dirty 4) (dirty-IsReady 4))
      (initlog 2 31 (boot (commit (dirty 4)).disk 9)).disk
commit_crash_example = commit_crash (dirty 4) (dirty-IsReady 4) 31 9 (omega arith)

after_crash : ℕ → ℕ → ℕ
after_crash power b = (initlog 2 31 (boot (commit (dirty power)).disk 9)).disk b 0

all_or_nothing :
    (after_crash 2 100 ≡ 0)
    × (after_crash 2 101 ≡ 0)
    × (after_crash 3 100 ≡ 7)
    × (after_crash 3 101 ≡ 8)
unfolding after_crash initlog commit read_head write_head write_log install_trans for_tail bwrite
all_or_nothing = (refl, refl, refl, refl)

-- A disk that a crash has left with a committed transaction of block 100.
abbrev pending : ℕ → Block
pending b w = if b == 2 then (if w == 0 then 1 else 100) else if b == 3 then 9 else 0

pending-IsHeader : IsHeader (named 2 31 pending)
unfolding named
pending-IsHeader = record {
  fits = omega arith;
  homes = λ j e i f k. ground arith;
  distinct = λ i j e f k. omega arith;
}

restart_crash_example :
    Holds
      (named 2 31 pending)
      pending
      (λ j. pending (2 + j + 1))
      (initlog 2 31 (boot (initlog 2 31 (boot pending 1)).disk 5)).disk
restart_crash_example = restart_crash 2 31 pending 1 5 pending-IsHeader (omega arith)

abbrev idle : Log
idle = record { start = 2; size = 31; outstanding = 0; committing = false; n = 0; block = λ i. 0 }

-- The same transaction in a log of the size that `mkfs` makes.
abbrev made : ℕ → Machine
made power = record (dirty power) { log = record two_blocks { size = 30 } }

made-IsReserved : (power : ℕ) → IsReserved (made power).log (2 ∷ [])
made-IsReserved power = ground arith

made-IsHeader : IsHeader (record two_blocks { size = 30 })
made-IsHeader = record {
  fits = two_blocks-IsHeader.fits;
  homes = two_blocks-IsHeader.homes;
  distinct = two_blocks-IsHeader.distinct;
}

end_op-IsReserved_example :
    (m' : Machine) × (end_op (made 9) ≡ some m')
    × IsReserved m'.log []
    × Ended (made 9) [] [] 2 (made-IsReserved 9) m'
end_op-IsReserved_example =
    end_op-IsReserved (made 9) [] [] 2 (made-IsReserved 9) made-IsHeader refl (omega arith)

log_write-IsHeader_example :
    IsHeader (absorb 101 (λ w. 9) (dirty 4)).log
    × ((k : ℕ) × (k < (absorb 101 (λ w. 9) (dirty 4)).log.n)
        × ((absorb 101 (λ w. 9) (dirty 4)).log.block k ≡ 101))
    × ((j : ℕ) → j < 2 → (absorb 101 (λ w. 9) (dirty 4)).log.block j ≡ two_blocks.block j)
    × (bread (absorb 101 (λ w. 9) (dirty 4)) 101 ≡ λ w. 9)
unfolding log_write
log_write-IsHeader_example =
    log_write-IsHeader 101 (λ w. 9) (dirty 4) (absorb 101 (λ w. 9) (dirty 4)) two_blocks-IsHeader
      (λ j e k. omega arith) refl

-- `mkfs` makes a log of LOGSIZE blocks, the header among them, so that only 29 are for data; but
-- `begin_op` lets in three operations of 10 blocks each. The last of their blocks is one too many.
abbrev mkfs_log : Log
mkfs_log = record idle { size = 30; outstanding = 3 }

three_admitted :
    (begin_op (record idle { size = 30; outstanding = 2 }) ≡ some mkfs_log)
    × (begin_op mkfs_log ≡ none)
unfolding begin_op
three_admitted = (refl, refl)

-- `log_write` of `n` blocks from `b` on.
fill : ℕ → ℕ → Machine → Option Machine
fill b zero m = some m
fill b (suc n) m = elim (log_write b (λ w. 9) m) [ none ↦ none | some m' ↦ fill (b + 1) n m' ]

room_for_29 :
    Option.map (λ m. m.log.n) (fill 100 29 (record (dirty 4) { log = mkfs_log })) ≡ some 29
unfolding fill log_write absorb
room_for_29 = refl

no_room_for_30 : fill 100 30 (record (dirty 4) { log = mkfs_log }) ≡ none
unfolding fill log_write absorb
no_room_for_30 = refl
