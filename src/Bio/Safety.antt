-- ===== src/Bio/Safety.antt =====
-- Every call keeps the invariant of the buffer cache.
use os_playground.Base.{
  ℕ, suc, ◌+◌, ◌-◌, ◌^◌, ◌%◌, ◌≤◌, ◌<◌, ◌≡◌, ◌≢◌, ◌⊎◌, inl, inr, refl, sym, ap, ◌∙◌, subst, Bool,
  true, false, false≢true, not, some, List, [], ◌∷◌, ◌==◌, ◌&&◌, leb, if◌then◌else◌, update,
  update_self, arith, ℕ_discrete, length, All, ==_refl, ==_ne, Bool-cases,
}
use os_playground.Bio.{
  nbuf, Block, Buf, Bcache, set_buf, acquiresleep, iderw, bread_locked, unlink, brelse,
}
use os_playground.Bio.Inv.{In, count, held, IsSound, IsUnique-update, IsStored-update}
use os_playground.Bio.Get.{Got, hit, recycled, with_ref, renewed, bget_lem}
use os_playground.Bio.System.{
  IfSome, IfSome-if, less, Step, get, lock, read, change, write, release, count≤length, count_less,
  count_less_other, length_less, kept, changed, touched,
}
use os_playground.Bio.Contents.{on_disk, bread_locked-IsSound, change-IsSound, bwrite-IsSound}

In-front : (i j : ℕ) (is : List ℕ) → In j is → (j ≡ i) ⊎ In j (unlink i is)
unfolding unlink
In-front i j [] h = absurd h
In-front i j (k ∷ is) h = elim (ℕ_discrete j i) [
  | yes e ↦ inl e
  | no ne ↦ inr (elim (Bool-cases (k == i)) [
    | inl e ↦
        rw e (elim h [ inl q ↦ absurd (ground arith) | inr h' ↦ stays ne (In-front i j is h') ])
    | inr e ↦ rw e (elim h [ inl q ↦ inl q | inr h' ↦ inr (stays ne (In-front i j is h')) ])
  ])
]
  where
    stays : {P : Type 0} → j ≢ i → (j ≡ i) ⊎ P → P
    stays ne (inl e) = absurd (ne e)
    stays ne (inr p) = p

All-unlink : (i : ℕ) (is : List ℕ) → All (λ j. j < nbuf) is → All (λ j. j < nbuf) (unlink i is)
unfolding unlink
All-unlink i [] a = tt
All-unlink i (k ∷ is) a = elim (Bool-cases (k == i)) [
  | inl e ↦ rw e (All-unlink i is a.1)
  | inr e ↦ rw e (a.0, All-unlink i is a.1)
]

module _ (c : Bcache) (w : List ℕ) (v : ℕ → Block) (sound : IsSound c w v) where
  Got-IsSound :
      (b i : ℕ) (c' : Bcache) → length w < 64 → Got 1 b c (some (i, c')) → IsSound c' (i ∷ w) v
  Got-IsSound b _ _ room (hit i l d e) =
      touched c w (i ∷ w) v v sound i (with_ref (c.buf i))
        (kept c.buf i (with_ref (c.buf i)) sound.unique l refl refl)
        (record {
          same = (sound.good i l).same;
          full = (sound.good i l).full;
          refs =
              let r = (sound.good i l).refs in
              let n = count≤length i w in rw (==_refl i) (omega (arith, few (c.buf i).locked));
        })
        (λ j _ ne. rw (==_ne i j (λ q. ne (sym q))) refl)
        (λ k p. record { device = p.device; block = p.block; full = p.full; pinned = p.pinned })
        (omega arith)
    where
      few : (x : Bool) → (if x then 1 else 0) ≤ 1
      few true = omega arith
      few false = omega arith
  Got-IsSound b _ _ room (recycled i l z clean new) =
      touched c w (i ∷ w) v v sound i (renewed 1 b (c.buf i))
        (IsUnique-update c.buf i (renewed 1 b (c.buf i)) sound.unique (λ j h ne d _. new j h d))
        (record {
          same = λ _ e. absurd (false≢true e);
          full = λ e. absurd (false≢true e);
          refs = let r = (sound.good i l).refs in rw (==_refl i) (omega arith);
        })
        (λ j _ ne. rw (==_ne i j (λ q. ne (sym q))) refl)
        (λ k p. absurd (false≢true (sym clean ∙ p.pinned))) (omega arith)

  acquiresleep-IsSound :
      (pid i : ℕ)
      → In i w
      → i < nbuf
      → IfSome (λ c'. IsSound c' (less i w) v) (acquiresleep pid i c)
  unfolding acquiresleep
  acquiresleep-IsSound pid i waits l = elim (Bool-cases (c.buf i).locked) [
    | inl e ↦ rw e tt
    | inr e ↦
        let b' = record (c.buf i) { locked = true; pid = pid } in
        rw e (
          touched c w (less i w) v v sound i b' (kept c.buf i b' sound.unique l refl refl)
            (record {
              same = (sound.good i l).same;
              full = (sound.good i l).full;
              refs =
                  counted (c.buf i) (count i w) (count i (less i w)) e (sound.good i l).refs
                    (count_less i w waits);
            })
            (λ j _ ne. count_less_other i j w ne)
            (λ k p. record { device = p.device; block = p.block; full = p.full; pinned = p.pinned })
            (let n = length_less i w in let f = sound.few in omega arith))
  ]
    where
      counted :
          (b : Buf) (n m : ℕ)
          → b.locked ≡ false
          → b.refcnt ≡ n + held b
          → n ≡ suc m
          → b.refcnt ≡ m + 1
      counted b n m e r s = ground arith

  brelse-IsSound : (i : ℕ) → i < nbuf → IfSome (λ c'. IsSound c' w v) (brelse i c)
  unfolding brelse
  brelse-IsSound i l =
      IfSome-if (λ c'. IsSound c' w v) _ _ _ (λ _. tt)
        (λ locked.
          let r = ((c.buf i).refcnt + 2 ^ 32 - 1) % 2 ^ 32 in
          let b' = record (c.buf i) { locked = false; pid = 0; refcnt = r } in
          changed c w w v v sound i b' (if r == 0 then i ∷ unlink i c.order else c.order) c.disk
            (order_in r i) (order_bounds r i l) (kept c.buf i b' sound.unique l refl refl)
            (record {
              same = (sound.good i l).same;
              full = (sound.good i l).full;
              refs =
                  dropped (c.buf i) (count i w) locked (sound.good i l).refs
                    (let n = count≤length i w in let f = sound.few in omega arith);
            })
            (λ _ _ _. refl) (λ _ _ _ _. refl)
            (λ k. IsStored-update c.buf i b' (c.disk k) (v k) k (sound.stored k) (λ p. record {
              device = p.device;
              block = p.block;
              full = p.full;
              pinned = p.pinned;
            }))
            sound.few)
    where
      dropped :
          (b : Buf) (n : ℕ)
          → not b.locked ≡ false
          → b.refcnt ≡ n + held b
          → n ≤ 64
          → (b.refcnt + 2 ^ 32 - 1) % 2 ^ 32 ≡ n + 0
      dropped b n locked r f = ground arith

      order_in : (r i j : ℕ) → j < nbuf → In j (if r == 0 then i ∷ unlink i c.order else c.order)
      order_in r i j h = elim (Bool-cases (r == 0)) [
        | inl e ↦ rw e (In-front i j c.order (sound.all_in j h))
        | inr e ↦ rw e (sound.all_in j h)
      ]

      order_bounds :
          (r i : ℕ)
          → i < nbuf
          → All (λ j. j < nbuf) (if r == 0 then i ∷ unlink i c.order else c.order)
      order_bounds r i h = elim (Bool-cases (r == 0)) [
        | inl e ↦ rw e (h, All-unlink i c.order sound.bounds)
        | inr e ↦ rw e sound.bounds
      ]

  Step-IsSound :
      (c' : Bcache) (w' : List ℕ) (v' : ℕ → Block) → Step c w v c' w' v' → IsSound c' w' v'
  Step-IsSound c' _ _ (get b i _ room e) =
      Got-IsSound b i c' room (subst (Got 1 b c) e (bget_lem 1 b c sound.all_in sound.bounds))
  Step-IsSound c' _ _ (lock pid i _ h l e) =
      subst (IfSome (λ x. IsSound x (less i w) v)) e (acquiresleep-IsSound pid i h l)
  Step-IsSound c' _ _ (read i _ l e) =
      subst (IfSome (λ x. IsSound x w v)) e (bread_locked-IsSound c w v sound i l)
  Step-IsSound _ _ _ (change i x l locked full d) = change-IsSound c w v sound i x l full d
  Step-IsSound c' _ _ (write i x _ l full e) =
      subst (IfSome (λ y. IsSound y w (update v (c.buf i).blockno x))) e
        (bwrite-IsSound c w v sound i x l)
  Step-IsSound c' _ _ (release i _ l e) = subst (IfSome (λ x. IsSound x w v)) e (brelse-IsSound i l)

-- A sequence of calls.
pub data Reach (c : Bcache) (w : List ℕ) (v : ℕ → Block)
    : Bcache → List ℕ → (ℕ → Block) → Type 0 where
  start : Reach c w v c w v
  further :
      (c1 : Bcache) (w1 : List ℕ) (v1 : ℕ → Block) (c2 : Bcache) (w2 : List ℕ) (v2 : ℕ → Block)
      → Reach c w v c1 w1 v1
      → Step c1 w1 v1 c2 w2 v2
      → Reach c w v c2 w2 v2

-- Whatever the calls and their order, a sound cache stays sound: no block is in two buffers, a valid
-- buffer holds what the rest of the kernel last wrote to its block, and what is not on the disk yet is
-- in a dirty buffer.
pub Reach-IsSound :
    (c : Bcache) (w : List ℕ) (v : ℕ → Block) (c' : Bcache) (w' : List ℕ) (v' : ℕ → Block)
    → IsSound c w v
    → Reach c w v c' w' v'
    → IsSound c' w' v'
Reach-IsSound c w v _ _ _ sound start = sound
Reach-IsSound c w v _ _ _ sound (further c1 w1 v1 c2 w2 v2 r s) =
    Step-IsSound c1 w1 v1 (Reach-IsSound c w v c1 w1 v1 sound r) c2 w2 v2 s

if_true {ℓ} : {A : Type ℓ} (b : Bool) (x y : A) → b ≡ true → (if b then x else y) ≡ x
if_true b x y e = rw e refl

if_false {ℓ} : {A : Type ℓ} (b : Bool) (x y : A) → b ≡ false → (if b then x else y) ≡ y
if_false b x y e = rw e refl

iderw-loads :
    (i : ℕ) (c : Bcache)
    → (c.buf i).locked ≡ true
    → (c.buf i).valid ≡ false
    → (c.buf i).dirty ≡ false
    → (c.buf i).dev ≡ 1
    → (c.buf i).blockno < c.disksize
    → iderw i c
      ≡ some (set_buf i (record (c.buf i) { bytes = c.disk (c.buf i).blockno; valid = true }) c)
unfolding iderw
iderw-loads i c locked empty clean d small =
    if_false (not (c.buf i).locked) _ _ (ap not locked)
    ∙ if_false ((c.buf i).valid && not (c.buf i).dirty) _ _
        (ap (λ x. x && not (c.buf i).dirty) empty)
    ∙ if_false (not ((c.buf i).dev == 1)) _ _ (ap (λ x. not (x == 1)) d)
    ∙ if_false (leb c.disksize (c.buf i).blockno) _ _ (ground arith)
    ∙ if_false (c.buf i).dirty _ _ clean

-- In a sound cache, `bread` of a locked buffer of a block of disk 1 does not panic and returns with
-- the contents that the rest of the kernel last wrote to the block, read from the disk if need be.
pub bread_lem :
    (c : Bcache) (w : List ℕ) (v : ℕ → Block) (i : ℕ)
    → IsSound c w v
    → i < nbuf
    → (c.buf i).locked ≡ true
    → (c.buf i).dev ≡ 1
    → (c.buf i).blockno < c.disksize
    → (c' : Bcache) × (bread_locked i c ≡ some c')
      × ((c'.buf i).valid ≡ true)
      × ((c'.buf i).bytes ≡ v (c.buf i).blockno)
unfolding bread_locked
bread_lem c w v i sound l locked d small = elim (Bool-cases (c.buf i).valid) [
  | inl e ↦ (c, rw e refl, e, (sound.good i l).same d e)
  | inr e ↦ elim (Bool-cases (c.buf i).dirty) [
    | inl dirty ↦ absurd (false≢true (sym e ∙ (sound.good i l).full dirty))
    | inr clean ↦
        let b' = record (c.buf i) { bytes = c.disk (c.buf i).blockno; valid = true } in
        (
          set_buf i b' c,
          if_true (not (c.buf i).valid) (iderw i c) (some c) (ap not e)
              ∙ iderw-loads i c locked e clean d small,
          ap (λ b. b.valid) (update_self c.buf i b'),
          ap (λ b. b.bytes) (update_self c.buf i b') ∙ on_disk c w v sound i l d clean,
        )
  ]
]
