-- ===== src/Pipe.antt =====
-- Pipes: xv6-l/pipe.c. A call runs under the lock of the pipe until it returns or sleeps, so the
-- stretch between is one function of the pipe; `Pipe.System` puts such stretches in sequence.
-- `killed` is the flag of the calling process.
pub mod Fifo
pub mod System
mod Tests
use os_playground.Base.{
  ℕ, zero, suc, ◌+◌, ◌-◌, ◌^◌, ◌%◌, Bool, true, false, not, Option, none, some, ◌==◌, ◌||◌, ◌&&◌,
  if◌then◌else◌, update, List, [], ◌∷◌,
}

abbrev pub pipesize : ℕ
pipesize = 512

-- Arithmetic of `uint`.
abbrev pub add32 : ℕ → ℕ → ℕ
add32 a b = (a + b) % 2 ^ 32

pub record Pipe : Type 0 where
  pub bytes : ℕ → ℕ
  pub nread : ℕ
  pub nwrite : ℕ
  pub readopen : Bool
  pub writeopen : Bool

-- The pipe that `pipealloc` makes in a page whose contents are `page`.
abbrev pub fresh : (ℕ → ℕ) → Pipe
fresh page = record { bytes = page; nread = 0; nwrite = 0; readopen = true; writeopen = true }

-- How a call leaves the lock: it returns its value, returns -1, or sleeps with the work that is left.
pub data Left (A : Type 0) : Type 0 where
  returned : A → Left A
  failed : Left A
  asleep : A → Left A

-- `wakes` tells whether the stretch has called `wakeup` on the other side's channel.
pub record Stretch (A : Type 0) : Type 0 where
  pub left : Left A
  pub wakes : Bool
  pub pipe : Pipe

abbrev pub is_full : Pipe → Bool
is_full p = p.nwrite == add32 p.nread pipesize

unfoldable pub put : ℕ → Pipe → Pipe
put x p = record p { bytes = update p.bytes (p.nwrite % pipesize) x; nwrite = add32 p.nwrite 1 }

-- `pipewrite` from the byte `addr[i]` on, the list of the bytes that are left. It wakes the readers
-- before it sleeps and when it returns, but not when it fails.
unfoldable pub pipewrite : Bool → List ℕ → Pipe → Stretch (List ℕ)
unfolding put
pipewrite killed [] p = record { left = returned []; wakes = true; pipe = p }
pipewrite killed (x ∷ xs) p =
    let rest = pipewrite killed xs (put x p) in
    if is_full p
    then (if not p.readopen || killed
        then record { left = failed; wakes = false; pipe = p }
        else record { left = asleep (x ∷ xs); wakes = true; pipe = p })
    else rest

abbrev pub is_empty : Pipe → Bool
is_empty p = p.nread == p.nwrite

-- The loop that copies up to `n` bytes.
unfoldable pub copy : ℕ → Pipe → List ℕ × Pipe
copy zero p = ([], p)
copy (suc n) p =
    let (xs, p') = copy n (record p { nread = add32 p.nread 1 }) in
    if is_empty p then ([], p) else (p.bytes (p.nread % pipesize) ∷ xs, p')

-- `piperead` of `n` bytes. It wakes the writers when it returns.
unfoldable pub piperead : Bool → ℕ → Pipe → Stretch (List ℕ)
unfolding copy
piperead killed n p =
    if is_empty p && p.writeopen
    then (if killed
        then record { left = failed; wakes = false; pipe = p }
        else record { left = asleep []; wakes = false; pipe = p })
    else (let (xs, p') = copy n p in record { left = returned xs; wakes = true; pipe = p' })

-- `pipeclose`; `true` if the page is freed. It wakes the other side.
unfoldable pub pipeclose : Bool → Pipe → Pipe × Bool
pipeclose writable p =
    let p' = if writable then record p { writeopen = false } else record p { readopen = false } in
    (p', not p'.readopen && not p'.writeopen)
