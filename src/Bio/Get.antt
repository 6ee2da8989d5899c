-- ===== src/Bio/Get.antt =====
-- `bget`: which buffer it returns.
use os_playground.Base.{
  ℕ, ◌+◌, ◌^◌, ◌%◌, ◌<◌, ◌≡◌, ◌≢◌, ◌⊎◌, inl, inr, refl, Bool, true, false, Option, none, some, List,
  [], ◌∷◌, ◌++◌, arith, ℕ_discrete, All, Bool-cases,
}
use os_playground.Bio.{
  nbuf, Buf, Bcache, set_buf, find, backwards, is_cached, is_unused, recycle, hit_or, bget,
}
use os_playground.Bio.Inv.{In}

pub data Found (test : ℕ → Bool) (is : List ℕ) : Option ℕ → Type 0 where
  found : (i : ℕ) → In i is → test i ≡ true → Found test is (some i)
  missing : ((j : ℕ) → In j is → test j ≡ false) → Found test is none

find-Found : (test : ℕ → Bool) (is : List ℕ) → Found test is (find test is)
unfolding find
find-Found test [] = missing (λ j h. absurd h)
find-Found test (i ∷ is) = elim (Bool-cases (test i)) [
  | inl t ↦ rw t (found i (inl refl) t)
  | inr f ↦ rw f (later f (find-Found test is))
]
  where
    later : {o : Option ℕ} → test i ≡ false → Found test is o → Found test (i ∷ is) o
    later f (found j h e) = found j (inr h) e
    later f (missing g) = missing (λ j h. elim h [ inl e ↦ rw e f | inr h' ↦ g j h' ])

In-last : (i j : ℕ) (is : List ℕ) → (i ≡ j) ⊎ In i is → In i (is ++ j ∷ [])
In-last i j [] (inl e) = inl e
In-last i j [] (inr h) = absurd h
In-last i j (k ∷ is) (inl e) = inr (In-last i j is (inl e))
In-last i j (k ∷ is) (inr (inl e)) = inl e
In-last i j (k ∷ is) (inr (inr h)) = inr (In-last i j is (inr h))

In-backwards : (i : ℕ) (is : List ℕ) → In i is → In i (backwards is)
unfolding backwards
In-backwards i [] h = absurd h
In-backwards i (j ∷ is) (inl e) = In-last i j (backwards is) (inl e)
In-backwards i (j ∷ is) (inr h) = In-last i j (backwards is) (inr (In-backwards i is h))

All-In : (i : ℕ) (is : List ℕ) → All (λ j. j < nbuf) is → In i is → i < nbuf
All-In i [] a h = absurd h
All-In i (j ∷ is) a (inl e) = rw e a.0
All-In i (j ∷ is) a (inr h) = All-In i is a.1 h

All-last :
    (i : ℕ) (is : List ℕ) → All (λ j. j < nbuf) is → i < nbuf → All (λ j. j < nbuf) (is ++ i ∷ [])
All-last i [] a l = (l, tt)
All-last i (j ∷ is) a l = (a.0, All-last i is a.1 l)

All-backwards : (is : List ℕ) → All (λ j. j < nbuf) is → All (λ j. j < nbuf) (backwards is)
unfolding backwards
All-backwards [] a = tt
All-backwards (j ∷ is) a = All-last j (backwards is) (All-backwards is a.1) a.0

-- The buffer for the block after a hit, and after recycling.
abbrev pub with_ref : Buf → Buf
with_ref b = record b { refcnt = (b.refcnt + 1) % 2 ^ 32 }

abbrev pub renewed : ℕ → ℕ → Buf → Buf
renewed dev blockno b = record b {
  dev = dev;
  blockno = blockno;
  valid = false;
  dirty = false;
  refcnt = 1;
}

-- What `bget` does: it returns the buffer that holds the block, or if there is none an unused buffer
-- that does not have to be kept, or it panics.
pub data Got (dev blockno : ℕ) (c : Bcache) : Option (ℕ × Bcache) → Type 0 where
  hit :
      (i : ℕ)
      → i < nbuf
      → (c.buf i).dev ≡ dev
      → (c.buf i).blockno ≡ blockno
      → Got dev blockno c (some (i, set_buf i (with_ref (c.buf i)) c))
  recycled :
      (i : ℕ)
      → i < nbuf
      → (c.buf i).refcnt ≡ 0
      → (c.buf i).dirty ≡ false
      → ((j : ℕ) → j < nbuf → (c.buf j).dev ≡ dev → (c.buf j).blockno ≢ blockno)
      → Got dev blockno c (some (i, set_buf i (renewed dev blockno (c.buf i)) c))
  full :
      ((j : ℕ) → j < nbuf → (c.buf j).dev ≡ dev → (c.buf j).blockno ≢ blockno)
      → ((j : ℕ) → j < nbuf → ((c.buf j).refcnt ≢ 0) ⊎ ((c.buf j).dirty ≡ true))
      → Got dev blockno c none

module _ (dev blockno : ℕ) (c : Bcache) (order : (i : ℕ) → i < nbuf → In i c.order)
    (bounds : All (λ i. i < nbuf) c.order) where
  -- `bget` with a list of exactly the buffers in the cache: if a buffer holds the block it returns one
  -- that does, with one reference more and nothing else changed; otherwise it recycles an unused
  -- buffer that is not dirty; and it panics only if there is no such buffer.
  pub bget_lem : Got dev blockno c (bget dev blockno c)
  unfolding bget
  bget_lem =
      search_for (find-Found (λ i. is_cached dev blockno (c.buf i)) c.order)
        (find-Found (λ i. is_unused (c.buf i)) (backwards c.order))
    where
      busy : (b : Buf) → is_unused b ≡ false → (b.refcnt ≢ 0) ⊎ (b.dirty ≡ true)
      busy b h = elim (ℕ_discrete b.refcnt 0) [
        | no ne ↦ inl ne
        | yes e ↦ elim (Bool-cases b.dirty) [ inl d ↦ inr d | inr d ↦ absurd (ground arith) ]
      ]

      absent :
          ((j : ℕ) → In j c.order → is_cached dev blockno (c.buf j) ≡ false)
          → (j : ℕ) → j < nbuf
          → (c.buf j).dev ≡ dev
          → (c.buf j).blockno ≢ blockno
      absent f j l d b = let m = f j (order j l) in absurd (ground arith)

      search_for :
          {o u : Option ℕ}
          → Found (λ i. is_cached dev blockno (c.buf i)) c.order o
          → Found (λ i. is_unused (c.buf i)) (backwards c.order) u
          → Got dev blockno c (hit_or c (recycle dev blockno c u) o)
      search_for (found i h t) _ = hit i (All-In i c.order bounds h) (ground arith) (ground arith)
      search_for (missing f) (found i h t) =
          recycled i (All-In i (backwards c.order) (All-backwards c.order bounds) h) (ground arith)
            (ground arith) (absent f)
      search_for (missing f) (missing g) =
          full (absent f) (λ j l. busy (c.buf j) (g j (In-backwards j c.order (order j l))))
