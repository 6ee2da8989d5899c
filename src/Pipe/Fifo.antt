-- ===== src/Pipe/Fifo.antt =====
-- A pipe is a queue of at most `pipesize` bytes.
use os_playground.Base.{
  ℕ, zero, suc, ◌+◌, ◌-◌, ◌^◌, ◌%◌, ◌≤◌, ◌<◌, ◌≡◌, ◌≢◌, refl, sym, ap, ap₂, ◌∙◌, Bool, true, false,
  not, ◌==◌, ◌||◌, ◌&&◌, if◌then◌else◌, update, update_ne, List, [], ◌∷◌, ◌++◌, length, take, drop,
  append_assoc, append-nil, arith, Bool-cases, inl, inr, leb, ==_iff, ==_ne, ==_refl,
}
use os_playground.Pipe.{
  Pipe, pipesize, add32, Stretch, returned, failed, asleep, put, pipewrite, copy, piperead, is_full,
  is_empty,
}

-- The number of bytes in the pipe: `nwrite - nread` in `uint`.
abbrev pub fill : Pipe → ℕ
fill p = (p.nwrite + 2 ^ 32 - p.nread) % 2 ^ 32

pub record IsPipe (p : Pipe) : Type 0 where
  pub read_word : p.nread < 2 ^ 32
  pub write_word : p.nwrite < 2 ^ 32
  pub bounded : fill p ≤ pipesize

-- `n` bytes from position `h` on.
abbrev pub window : (ℕ → ℕ) → ℕ → ℕ → List ℕ
window bytes h zero = []
window bytes h (suc n) = bytes (h % pipesize) ∷ window bytes (add32 h 1) n

abbrev pub contents : Pipe → List ℕ
contents p = window p.bytes p.nread (fill p)

pub length-window : (bytes : ℕ → ℕ) (h n : ℕ) → length (window bytes h n) ≡ n
length-window bytes h zero = refl
length-window bytes h (suc n) = ap suc (length-window bytes (add32 h 1) n)

-- Fewer than `pipesize` positions further on, also past the end of `uint`, is another place.
place-ne : (h n : ℕ) → h < 2 ^ 32 → suc n < pipesize → add32 h (suc n) % pipesize ≢ h % pipesize
place-ne h n a b e = omega arith

next_place : (h n : ℕ) → add32 (add32 h 1) n ≡ add32 h (suc n)
next_place h n = omega arith

window-set :
    (bytes : ℕ → ℕ) (x n h k : ℕ)
    → h < 2 ^ 32
    → n < pipesize
    → k ≡ add32 h n % pipesize
    → window (update bytes k x) h (suc n) ≡ window bytes h n ++ x ∷ []
window-set bytes x zero h k a b e =
    let here : h % pipesize ≡ k = omega arith in rw (here, ==_refl k)
window-set bytes x (suc n) h k a b e =
    ap₂ ◌∷◌ (update_ne bytes k (h % pipesize) x (λ z. place-ne h n a b (sym e ∙ sym z))) (
      window-set bytes x n (add32 h 1) k (omega arith) (omega arith)
        (e ∙ ap (λ w. w % pipesize) (sym (next_place h n))))

module _ (p : Pipe) (v : IsPipe p) where
  fill_full : is_full p ≡ true → fill p ≡ pipesize
  fill_full e =
      omega (arith, v.read_word, v.write_word, (==_iff p.nwrite (add32 p.nread pipesize)).0 e)

  fill_room : is_full p ≡ false → fill p < pipesize
  fill_room e =
      ground (arith, v.read_word, v.write_word, v.bounded, ==_iff p.nwrite (add32 p.nread pipesize))

  pub fill_empty : is_empty p ≡ true → fill p ≡ 0
  fill_empty e = omega (arith, v.read_word, v.write_word, (==_iff p.nread p.nwrite).0 e)

  pub fill_some : is_empty p ≡ false → 0 < fill p
  fill_some e = ground (arith, v.read_word, v.write_word, ==_iff p.nread p.nwrite)

  module _ (x : ℕ) (room : fill p < pipesize) where
    fill-put : fill (put x p) ≡ suc (fill p)
    unfolding put
    fill-put = omega (arith, v.read_word, v.write_word)

    put-IsPipe : IsPipe (put x p)
    unfolding put
    put-IsPipe = record {
      read_word = v.read_word;
      write_word = omega arith;
      bounded = omega (arith, v.read_word, v.write_word);
    }

    contents-put : contents (put x p) ≡ contents p ++ x ∷ []
    contents-put =
        ap (window (put x p).bytes (put x p).nread) fill-put
        ∙ (unfold put in
            window-set p.bytes x (fill p) p.nread (p.nwrite % pipesize) v.read_word room
              (omega (arith, v.read_word, v.write_word)))

-- What a write of `xs` with `room` places leaves.
pub record Wrote (killed : Bool) (xs : List ℕ) (room : ℕ) (p : Pipe) (r : Stretch (List ℕ))
    : Type 0 where
  pub valid : IsPipe r.pipe
  pub bytes : contents r.pipe ≡ contents p ++ take room xs
  pub left : r.left ≡ (
      if leb (length xs) room
      then returned []
      else if not p.readopen || killed
      then failed
      else asleep (drop room xs))
  pub wakes : r.wakes ≡ (leb (length xs) room || not (not p.readopen || killed))
  pub ends : r.pipe.readopen ≡ p.readopen
  pub writers : r.pipe.writeopen ≡ p.writeopen

leb-suc : (a b : ℕ) → leb (suc a) (suc b) ≡ leb a b
leb-suc a b = ground arith

pub pipewrite-Wrote :
    (killed : Bool) (xs : List ℕ) (room : ℕ) (p : Pipe)
    → IsPipe p
    → fill p + room ≡ pipesize
    → Wrote killed xs room p (pipewrite killed xs p)
unfolding pipewrite
pipewrite-Wrote killed [] zero p v e = record {
  valid = v;
  bytes = rw append-nil;
  left = refl;
  wakes = refl;
  ends = refl;
  writers = refl;
}
pipewrite-Wrote killed [] (suc room) p v e = record {
  valid = v;
  bytes = rw append-nil;
  left = ground arith;
  wakes = ground arith;
  ends = refl;
  writers = refl;
}
pipewrite-Wrote killed (x ∷ xs) zero p v e = elim (Bool-cases (is_full p)) [
  | inl full ↦ elim (Bool-cases (not p.readopen || killed)) [
    | inl stops ↦
        rw (full, stops)
          (record {
            valid = v;
            bytes = rw append-nil;
            left = ground arith;
            wakes = ground arith;
            ends = refl;
            writers = refl;
          })
    | inr sleeps ↦
        rw (full, sleeps)
          (record {
            valid = v;
            bytes = rw append-nil;
            left = ground arith;
            wakes = ground arith;
            ends = refl;
            writers = refl;
          })
  ]
  | inr not_full ↦ absurd (omega (arith, fill_room p v not_full))
]
pipewrite-Wrote killed (x ∷ xs) (suc room) p v e = elim (Bool-cases (is_full p)) [
  | inl full ↦ absurd (omega (arith, fill_full p v full))
  | inr not_full ↦
      let space = fill_room p v not_full in
      let r =
        pipewrite-Wrote killed xs room (put x p) (put-IsPipe p v x space)
          (omega (arith, fill-put p v x space)) in
      rw not_full (record {
        valid = r.valid;
        bytes =
            r.bytes
            ∙ ap (λ c. c ++ take room xs) (contents-put p v x space)
            ∙ append_assoc (contents p) (x ∷ []) (take room xs);
        left = r.left ∙ rw (leb-suc (length xs) room);
        wakes = r.wakes ∙ rw (leb-suc (length xs) room);
        ends = r.ends ∙ refl;
        writers = r.writers ∙ refl;
      })
]

-- `pipewrite` of `xs` to a valid pipe: the bytes that fit are appended in order, and the pipe stays
-- valid. If all fit the call returns; otherwise it fails if the pipe is closed for reading or the
-- process is killed, and else sleeps with the bytes that are left. It wakes the readers unless it fails.
pub pipewrite_refines :
    (killed : Bool) (xs : List ℕ) (p : Pipe)
    → IsPipe p
    → let r = pipewrite killed xs p in
      let room = pipesize - length (contents p) in
      let fails = not p.readopen || killed in
      IsPipe r.pipe
      × (contents r.pipe ≡ contents p ++ take room xs)
      × (r.left ≡ (
          if leb (length xs) room
          then returned []
          else if fails
          then failed
          else asleep (drop room xs)))
      × (r.wakes ≡ (leb (length xs) room || not fails))
pipewrite_refines killed xs p v =
    let w = pipewrite-Wrote killed xs (pipesize - fill p) p v (omega (arith, v.bounded)) in
    rw (length-window p.bytes p.nread (fill p)) (w.valid, w.bytes, w.left, w.wakes)

-- One byte less at the front.
abbrev next_byte : Pipe → Pipe
next_byte p = record p { nread = add32 p.nread 1 }

module _ (p : Pipe) (v : IsPipe p) (n : ℕ) (e : fill p ≡ suc n) where
  fill-next_byte : fill (next_byte p) ≡ n
  fill-next_byte = omega (arith, v.read_word, v.write_word)

  next_byte-IsPipe : IsPipe (next_byte p)
  next_byte-IsPipe = record {
    read_word = omega arith;
    write_word = v.write_word;
    bounded = omega (arith, fill-next_byte, v.bounded);
  }

  contents-next_byte : contents p ≡ p.bytes (p.nread % pipesize) ∷ contents (next_byte p)
  contents-next_byte =
      ap (window p.bytes p.nread) e
      ∙ ap (λ k. p.bytes (p.nread % pipesize) ∷ window p.bytes (add32 p.nread 1) k)
          (sym fill-next_byte)

pub record Copied (n m : ℕ) (p : Pipe) (r : List ℕ × Pipe) : Type 0 where
  pub valid : IsPipe r.1
  pub taken : r.0 ≡ take n (contents p)
  pub rest : contents r.1 ≡ drop n (contents p)
  pub bytes : r.1.bytes ≡ p.bytes
  pub ends : r.1.readopen ≡ p.readopen
  pub writers : r.1.writeopen ≡ p.writeopen

pub copy-Copied : (n m : ℕ) (p : Pipe) → IsPipe p → fill p ≡ m → Copied n m p (copy n p)
unfolding copy
copy-Copied zero m p v e = record {
  valid = v;
  taken = refl;
  rest = refl;
  bytes = refl;
  ends = refl;
  writers = refl;
}
copy-Copied (suc n) zero p v e = elim (Bool-cases (is_empty p)) [
  | inl none_left ↦
      let nil = ap (window p.bytes p.nread) e in
      rw none_left (record {
        valid = v;
        taken = sym (ap (take (suc n)) nil);
        rest = nil ∙ sym (ap (drop (suc n)) nil);
        bytes = refl;
        ends = refl;
        writers = refl;
      })
  | inr more ↦ absurd (omega (arith, fill_some p v more))
]
copy-Copied (suc n) (suc m) p v e = elim (Bool-cases (is_empty p)) [
  | inl none_left ↦ absurd (omega (arith, fill_empty p v none_left))
  | inr more ↦
      let r = copy-Copied n m (next_byte p) (next_byte-IsPipe p v m e) (fill-next_byte p v m e) in
      let cons = contents-next_byte p v m e in
      rw more (record {
        valid = r.valid;
        taken = ap (λ xs. p.bytes (p.nread % pipesize) ∷ xs) r.taken ∙ sym (ap (take (suc n)) cons);
        rest = r.rest ∙ sym (ap (drop (suc n)) cons);
        bytes = r.bytes;
        ends = r.ends;
        writers = r.writers;
      })
]

empty_test : (p : Pipe) → IsPipe p → (length (contents p) == 0) ≡ is_empty p
empty_test p v = elim (Bool-cases (is_empty p)) [
  | inl none_left ↦
      rw none_left (rw (length-window p.bytes p.nread (fill p), fill_empty p v none_left))
  | inr more ↦ rw more (
      rw (length-window p.bytes p.nread (fill p))
        (==_ne (fill p) 0 (λ z. omega (arith, fill_some p v more))))
]

-- `piperead` of `n` bytes from a valid pipe: if the pipe is empty and open for writing, the call fails
-- if the process is killed, and else sleeps, and the pipe is as before. Otherwise it returns the first
-- `n` bytes, or all if there are fewer, removes them, wakes the writers, and keeps the pipe valid.
pub piperead_refines :
    (killed : Bool) (n : ℕ) (p : Pipe)
    → IsPipe p
    → let r = piperead killed n p in
      let waits = (length (contents p) == 0) && p.writeopen in
      IsPipe r.pipe
      × (contents r.pipe ≡ (if waits then contents p else drop n (contents p)))
      × (r.left ≡ (
          if waits then (if killed then failed else asleep []) else returned (take n (contents p))))
      × (r.wakes ≡ not waits)
unfolding piperead
piperead_refines killed n p v = rw (empty_test p v) (elim (Bool-cases (is_empty p && p.writeopen)) [
  | inl waits ↦ rw waits (elim (Bool-cases killed) [
    | inl gone ↦ rw gone (v, refl, refl, refl)
    | inr lives ↦ rw lives (v, refl, refl, refl)
  ])
  | inr goes ↦
      let c = copy-Copied n (fill p) p v refl in
      rw goes (c.valid, c.rest, ap returned c.taken, refl)
])
