-- ===== src/Pipe/Tests.antt =====
-- Runs of pipes, and the theorems about them at concrete pipes.
use os_playground.Base.{
  ℕ, ◌-◌, ◌^◌, ◌≡◌, refl, arith, [], ◌∷◌, true, false, if◌then◌else◌, ◌==◌, replicate,
  length-replicate,
}
use os_playground.Pipe.{Pipe, fresh, pipewrite, piperead, returned}
use os_playground.Pipe.Fifo.{IsPipe, fill, contents, pipewrite_refines, piperead_refines}
use os_playground.Pipe.System.{
  System, after_write, after_read, writes, reads, Reach, here, next, IsLive, Reach-IsLive,
  killed_write_strands,
}

-- Two bytes in a pipe whose counters are about to wrap.
abbrev wrapping : Pipe
wrapping = record (fresh (λ i. if i == 511 then 5 else 6)) { nread = 2 ^ 32 - 1; nwrite = 1 }

wrapping-IsPipe : IsPipe wrapping
wrapping-IsPipe = omega arith

contents-wrapping : contents wrapping ≡ 5 ∷ 6 ∷ []
contents-wrapping = refl

pipewrite_refines_example :
    let r = pipewrite false (7 ∷ []) wrapping in
    IsPipe r.pipe × (contents r.pipe ≡ 5 ∷ 6 ∷ 7 ∷ []) × (r.left ≡ returned []) × (r.wakes ≡ true)
pipewrite_refines_example = pipewrite_refines false (7 ∷ []) wrapping wrapping-IsPipe

piperead_refines_example :
    let r = piperead false 1 wrapping in
    IsPipe r.pipe × (contents r.pipe ≡ 6 ∷ []) × (r.left ≡ returned (5 ∷ [])) × (r.wakes ≡ true)
piperead_refines_example = piperead_refines false 1 wrapping wrapping-IsPipe

-- A reader waits at an empty pipe.
abbrev started : System
started = record { pipe = fresh (λ i. 0); readers = false; writers = false }

started-IsLive : IsLive started
started-IsLive = record { valid = omega arith; empty = λ e. cc; full = λ e. cc }

abbrev waiting : System
waiting = after_read false 1 started

to_waiting : Reach started waiting
to_waiting = next here (reads false 1 refl)

Reach-IsLive_example : IsLive (after_write false (7 ∷ 8 ∷ []) waiting)
unfolding piperead
Reach-IsLive_example = Reach-IsLive started-IsLive (next to_waiting (writes (7 ∷ 8 ∷ []) refl))

killed_write_strands_example :
    let u = after_write true (replicate 513 7) waiting in
    (u.readers ≡ true) × (fill u.pipe ≡ 512) × (u.pipe.writeopen ≡ true) × (u.pipe.readopen ≡ true)
unfolding piperead
killed_write_strands_example =
    killed_write_strands (replicate 513 7) waiting (Reach-IsLive started-IsLive to_waiting) refl
      (omega (arith, length-replicate {A = ℕ} 513 7))
