-- ===== src/Pipe/System.antt =====
-- Readers and writers of one pipe, one stretch under its lock after another.
use os_playground.Base.{
  ℕ, ◌+◌, ◌-◌, ◌<◌, ◌≡◌, refl, ap, ◌∙◌, Bool, true, false, ◌||◌, ◌&&◌, if◌then◌else◌, List, length,
  take, length-append, length-take, arith, Bool-cases, inl, inr, min,
}
use os_playground.Pipe.{Pipe, pipesize, Left, asleep, pipewrite, piperead, pipeclose, is_empty}
use os_playground.Pipe.Fifo.{
  IsPipe, fill, contents, length-window, Wrote, pipewrite-Wrote, copy-Copied, fill_empty, fill_some,
}

-- `readers` and `writers` tell whether a process sleeps on `&p->nread`, and on `&p->nwrite`.
pub record System : Type 0 where
  pub pipe : Pipe
  pub readers : Bool
  pub writers : Bool

abbrev pub is_asleep : {A : Type 0} → Left A → Bool
is_asleep (asleep a) = true
is_asleep _ = false

abbrev pub after_write : Bool → List ℕ → System → System
after_write killed xs s =
    let w = pipewrite killed xs s.pipe in
    record {
      pipe = w.pipe;
      readers = if w.wakes then false else s.readers;
      writers = is_asleep w.left || s.writers;
    }

abbrev pub after_read : Bool → ℕ → System → System
after_read killed n s =
    let r = piperead killed n s.pipe in
    record {
      pipe = r.pipe;
      readers = is_asleep r.left || s.readers;
      writers = if r.wakes then false else s.writers;
    }

abbrev pub after_close : Bool → System → System
after_close writable s = record {
  pipe = (pipeclose writable s.pipe).0;
  readers = if writable then false else s.readers;
  writers = if writable then s.writers else false;
}

-- A process that writes has not been killed, and a process reads or writes at an end that it has open.
-- One that sleeps keeps its end open, so that the end is closed only when nobody
-- sleeps at it.
pub data Step (s : System) : System → Type 0 where
  writes : (xs : List ℕ) → s.pipe.writeopen ≡ true → Step s (after_write false xs s)
  reads : (killed : Bool) (n : ℕ) → s.pipe.readopen ≡ true → Step s (after_read killed n s)
  closes_read : s.readers ≡ false → Step s (after_close false s)
  closes_write : s.writers ≡ false → Step s (after_close true s)

pub data Reach (s : System) : System → Type 0 where
  here : Reach s s
  next : {t u : System} → Reach s t → Step t u → Reach s u

-- Nobody sleeps who could go on.
pub record IsLive (s : System) : Type 0 where
  pub valid : IsPipe s.pipe
  pub empty :
      s.readers ≡ true → (fill s.pipe ≡ 0) × (s.pipe.writeopen ≡ true) × (s.pipe.readopen ≡ true)
  pub full : s.writers ≡ true → (fill s.pipe ≡ pipesize) × (s.pipe.readopen ≡ true)

module _ (killed : Bool) (xs : List ℕ) (s : System) (v : IsPipe s.pipe) where
  wrote : Wrote killed xs (pipesize - fill s.pipe) s.pipe (pipewrite killed xs s.pipe)
  wrote = pipewrite-Wrote killed xs (pipesize - fill s.pipe) s.pipe v (omega (arith, v.bounded))

  fill-pipewrite :
      fill (pipewrite killed xs s.pipe).pipe
      ≡ fill s.pipe + min (pipesize - fill s.pipe) (length xs)
  fill-pipewrite =
      let p = s.pipe in
      let q = (pipewrite killed xs p).pipe in
      omega (
        arith,
        ap length wrote.bytes,
        length-window q.bytes q.nread (fill q),
        length-window p.bytes p.nread (fill p),
        length-append (contents p) (take (pipesize - fill p) xs),
        length-take (pipesize - fill p) xs,
      )

write-IsLive : (xs : List ℕ) (s : System) → IsLive s → IsLive (after_write false xs s)
write-IsLive xs s v =
    let w = wrote false xs s v.valid in
    let f = fill-pipewrite false xs s v.valid in
    record {
      valid = w.valid;
      empty = λ e. ground (arith, w.wakes, v.empty);
      full = λ e. ground (arith, w.left, w.ends, f, v.full);
    }

empty_of_fill : (p : Pipe) → IsPipe p → fill p ≡ 0 → is_empty p ≡ true
empty_of_fill p v e = elim (Bool-cases (is_empty p)) [
  | inl none_left ↦ none_left
  | inr more ↦ absurd (omega (arith, fill_some p v more))
]

read-IsLive :
    (killed : Bool) (n : ℕ) (s : System)
    → IsLive s
    → s.pipe.readopen ≡ true
    → IsLive (after_read killed n s)
unfolding piperead
read-IsLive killed n s v open_end = elim (Bool-cases (is_empty s.pipe && s.pipe.writeopen)) [
  | inl waits ↦ rw waits (elim (Bool-cases killed) [
    | inl gone ↦ rw gone v
    | inr lives ↦ rw lives (record {
      valid = v.valid;
      empty = λ e. (fill_empty s.pipe v.valid (ground arith), ground arith, open_end);
      full = v.full;
    })
  ])
  | inr goes ↦
      let c = copy-Copied n (fill s.pipe) s.pipe v.valid refl in
      rw goes (record {
        valid = c.valid;
        empty = λ e. absurd (ground (arith, v.empty e, empty_of_fill s.pipe v.valid));
        full = λ e. cc;
      })
]

close_read-IsLive : (s : System) → IsLive s → s.readers ≡ false → IsLive (after_close false s)
unfolding pipeclose
close_read-IsLive s v h = record {
  valid = ground (arith, v.valid);
  empty = λ e. cc;
  full = λ e. cc;
}

close_write-IsLive : (s : System) → IsLive s → s.writers ≡ false → IsLive (after_close true s)
unfolding pipeclose
close_write-IsLive s v h = record {
  valid = ground (arith, v.valid);
  empty = λ e. cc;
  full = λ e. cc;
}

Step-IsLive : {s t : System} → IsLive s → Step s t → IsLive t
Step-IsLive v (writes xs h) = write-IsLive xs _ v
Step-IsLive v (reads killed n h) = read-IsLive killed n _ v h
Step-IsLive v (closes_read h) = close_read-IsLive _ v h
Step-IsLive v (closes_write h) = close_write-IsLive _ v h

-- From a state in which nobody sleeps who could go on, no sequence of calls by processes that are not
-- killed while they write leads to one in which somebody does: a reader sleeps only while the pipe is
-- empty and open for writing, and a writer only while it is full and open for reading.
pub Reach-IsLive : {s t : System} → IsLive s → Reach s t → IsLive t
Reach-IsLive v here = v
Reach-IsLive v (next r st) = Step-IsLive (Reach-IsLive v r) st

-- A writer that is killed in the middle of a long write wakes nobody: it leaves a full pipe, and the
-- readers that slept while it was empty sleep on.
pub killed_write_strands :
    (xs : List ℕ) (s : System)
    → IsLive s
    → s.readers ≡ true
    → pipesize < length xs
    → let u = after_write true xs s in
      (u.readers ≡ true)
      × (fill u.pipe ≡ pipesize)
      × (u.pipe.writeopen ≡ true)
      × (u.pipe.readopen ≡ true)
killed_write_strands xs s v sleeping long =
    let w = wrote true xs s v.valid in
    let f = fill-pipewrite true xs s v.valid in
    (
      ground (arith, v.empty sleeping, w.wakes),
      omega (arith, (v.empty sleeping).0, f),
      w.writers ∙ (v.empty sleeping).1,
      w.ends ∙ (v.empty sleeping).2,
    )
