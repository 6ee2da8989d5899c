-- ===== src/Bio/System.antt =====
-- The processes that use the buffer cache, as a sequence of calls in any order, with what the rest of
-- the kernel does to a locked buffer: it changes the contents and either calls `log_write`, which sets
-- B_DIRTY, or `bwrite`.
use os_playground.Base.{
  ℕ, suc, ◌≤◌, ◌<◌, ◌≡◌, ◌≢◌, inl, inr, refl, sym, ap, ◌∙◌, Bool, true, false, not, Option, none,
  some, List, [], ◌∷◌, ◌==◌, ◌&&◌, leb, if◌then◌else◌, update, arith, ℕ_discrete, length, All,
  ==_refl, ==_ne, Bool-cases,
}
use os_playground.Bio.{
  nbuf, Block, Buf, Bcache, set_buf, bget, acquiresleep, iderw, bread_locked, bwrite, brelse,
}
use os_playground.Bio.Inv.{
  In, count, IsPinned, IsGood, IsUnique, IsStored, IsSound, update-each, IsUnique-update,
  IsGood-other, IsStored-update,
}

-- Without one reference to `i`.
abbrev pub less : ℕ → List ℕ → List ℕ
less i [] = []
less i (j ∷ js) = let rest = less i js in if j == i then js else j ∷ rest

abbrev pub filled : Block → Buf → Buf
filled x b = record b { bytes = x }

-- One change of the cache, of the references that wait for a lock, and of the contents of the blocks
-- for the rest of the kernel.
pub data Step (c : Bcache) (waiting : List ℕ) (v : ℕ → Block)
    : Bcache → List ℕ → (ℕ → Block) → Type 0 where
  get :
      (b i : ℕ) (c' : Bcache)
      → length waiting < 64
      → bget 1 b c ≡ some (i, c')
      → Step c waiting v c' (i ∷ waiting) v
  lock :
      (pid i : ℕ) (c' : Bcache)
      → In i waiting
      → i < nbuf
      → acquiresleep pid i c ≡ some c'
      → Step c waiting v c' (less i waiting) v
  read :
      (i : ℕ) (c' : Bcache) → i < nbuf → bread_locked i c ≡ some c' → Step c waiting v c' waiting v
  change :
      (i : ℕ) (x : Block)
      → i < nbuf
      → (c.buf i).locked ≡ true
      → (c.buf i).valid ≡ true
      → (c.buf i).dev ≡ 1
      → Step c waiting v
          (set_buf i (record (c.buf i) { bytes = x; dirty = true }) c)
          waiting
          (update v (c.buf i).blockno x)
  write :
      (i : ℕ) (x : Block) (c' : Bcache)
      → i < nbuf
      → (c.buf i).valid ≡ true
      → bwrite i (set_buf i (filled x (c.buf i)) c) ≡ some c'
      → Step c waiting v c' waiting (update v (c.buf i).blockno x)
  release : (i : ℕ) (c' : Bcache) → i < nbuf → brelse i c ≡ some c' → Step c waiting v c' waiting v

-- A panic or a wait is no change.
abbrev pub IfSome {ℓ κ} : {A : Type ℓ} → (A → Type κ) → Option A → Type κ
IfSome P none = Unit
IfSome P (some a) = P a

pub IfSome-if {ℓ κ} :
    {A : Type ℓ} (P : A → Type κ) (b : Bool) (x y : Option A)
    → (b ≡ true → IfSome P x)
    → (b ≡ false → IfSome P y)
    → IfSome P (if b then x else y)
IfSome-if P true x y f g = f refl
IfSome-if P false x y f g = g refl

-- What `iderw` does if it does not panic: it writes a dirty buffer, and reads a buffer that is neither
-- dirty nor valid.
pub iderw-IfSome {κ} :
    (P : Bcache → Type κ) (i : ℕ) (c : Bcache)
    → ((c.buf i).locked ≡ true
        → (c.buf i).dirty ≡ true
        → (c.buf i).dev ≡ 1
        → P (record c {
          buf = update c.buf i (record (c.buf i) { dirty = false; valid = true });
          disk = update c.disk (c.buf i).blockno (c.buf i).bytes;
        }))
    → ((c.buf i).locked ≡ true
        → (c.buf i).dirty ≡ false
        → (c.buf i).dev ≡ 1
        → P (set_buf i (record (c.buf i) { bytes = c.disk (c.buf i).blockno; valid = true }) c))
    → IfSome P (iderw i c)
unfolding iderw
iderw-IfSome P i c written loaded =
    let b = c.buf i in
    IfSome-if P (not b.locked) _ _ (λ _. tt)
      (λ l.
        IfSome-if P (b.valid && not b.dirty) _ _ (λ _. tt)
          (λ _.
            IfSome-if P (not (b.dev == 1)) _ _ (λ _. tt)
              (λ d.
                IfSome-if P (leb c.disksize b.blockno) _ _ (λ _. tt)
                  (λ _.
                    IfSome-if P b.dirty _ _ (λ dirty. written (was b.locked l) dirty (one b.dev d))
                      (λ clean. loaded (was b.locked l) clean (one b.dev d))))))
  where
    was : (x : Bool) → not x ≡ false → x ≡ true
    was true e = refl
    was false e = sym e

    one : (x : ℕ) → not (x == 1) ≡ false → x ≡ 1
    one x e = ground arith

pub count≤length : (i : ℕ) (w : List ℕ) → count i w ≤ length w
count≤length i [] = omega arith
count≤length i (j ∷ w) =
    let h = count≤length i w in
    elim (Bool-cases (j == i)) [ inl e ↦ rw e (omega arith) | inr e ↦ rw e (omega arith) ]

pub count_less : (i : ℕ) (w : List ℕ) → In i w → count i w ≡ suc (count i (less i w))
count_less i [] h = absurd h
count_less i (j ∷ w) (inl e) = rw (sym e) (rw (==_refl i) refl)
count_less i (j ∷ w) (inr h) = elim (Bool-cases (j == i)) [
  | inl e ↦ rw e refl
  | inr e ↦ rw e (rw e (count_less i w h))
]

pub count_less_other : (i k : ℕ) (w : List ℕ) → k ≢ i → count k (less i w) ≡ count k w
count_less_other i k [] ne = refl
count_less_other i k (j ∷ w) ne = elim (ℕ_discrete j i) [
  | yes e ↦ let n : i ≢ k = λ q. ne (sym q) in rw e (rw (==_refl i) (rw (==_ne i k n) refl))
  | no n ↦ rw (==_ne j i n) (ap (λ x. if j == k then suc x else x) (count_less_other i k w ne))
]

pub length_less : (i : ℕ) (w : List ℕ) → length (less i w) ≤ length w
length_less i [] = omega arith
length_less i (j ∷ w) =
    let h = length_less i w in
    elim (Bool-cases (j == i)) [ inl e ↦ rw e (omega arith) | inr e ↦ rw e (omega arith) ]

-- A change of one buffer that keeps its block.
pub kept :
    (buf : ℕ → Buf) (i : ℕ) (b : Buf)
    → IsUnique buf
    → i < nbuf
    → b.dev ≡ (buf i).dev
    → b.blockno ≡ (buf i).blockno
    → IsUnique (update buf i b)
kept buf i b u l d e =
    IsUnique-update buf i b u (λ j h ne dj db same. ne (u j i h l dj (sym d ∙ db) (same ∙ e)))

-- The soundness of a cache with one buffer changed.
module _ (c : Bcache) (w w' : List ℕ) (v v' : ℕ → Block) (sound : IsSound c w v) (i : ℕ)
    (b : Buf) where
  pub changed :
      (order : List ℕ) (disk : ℕ → Block)
      → ((j : ℕ) → j < nbuf → In j order)
      → All (λ j. j < nbuf) order
      → IsUnique (update c.buf i b)
      → IsGood w' v' i b
      → ((j : ℕ) → j < nbuf → j ≢ i → count j w' ≡ count j w)
      → ((j : ℕ)
          → j < nbuf
          → j ≢ i
          → (c.buf j).dev ≡ 1
          → v' (c.buf j).blockno ≡ v (c.buf j).blockno)
      → ((k : ℕ) → IsStored (update c.buf i b) (disk k) (v' k) k)
      → length w' ≤ 64
      → IsSound (record c { buf = update c.buf i b; order = order; disk = disk }) w' v'
  changed order disk all_in bounds unique mine counts views stored few = record {
    all_in = all_in;
    bounds = bounds;
    unique = unique;
    good =
        update-each (λ j x. j < nbuf → IsGood w' v' j x) c.buf i b (λ _. mine)
          (λ j ne l.
            IsGood-other w w' v v' j (c.buf j) (sound.good j l) (counts j l ne) (views j l ne));
    stored = stored;
    few = few;
  }

  -- The same for a change that keeps the list, the disk and the contents of all blocks.
  pub touched :
      IsUnique (update c.buf i b)
      → IsGood w' v i b
      → ((j : ℕ) → j < nbuf → j ≢ i → count j w' ≡ count j w)
      → ((k : ℕ) → IsPinned (c.buf i) k → IsPinned b k)
      → length w' ≤ 64
      → IsSound (set_buf i b c) w' v
  touched unique mine counts pins few = record {
    all_in = sound.all_in;
    bounds = sound.bounds;
    unique = unique;
    good =
        update-each (λ j x. j < nbuf → IsGood w' v j x) c.buf i b (λ _. mine)
          (λ j ne l.
            IsGood-other w w' v v j (c.buf j) (sound.good j l) (counts j l ne) (λ _. refl));
    stored = λ k. IsStored-update c.buf i b (c.disk k) (v k) k (sound.stored k) (pins k);
    few = few;
  }
