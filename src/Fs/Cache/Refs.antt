-- ===== src/Fs/Cache/Refs.antt =====
-- The references to the entries of the inode cache, whatever order the processes make their calls in.
use os_playground.Base.{
  ℕ, suc, ◌+◌, ◌-◌, ◌<◌, ◌≤◌, ◌≡◌, ◌≢◌, refl, sym, ap, subst, ◌∙◌, true, false, some, ◌==◌,
  if◌then◌else◌, update, ◌%◌, ◌^◌, arith, Bool-cases, ==_refl, ==_ne, inl, inr, List, [], ◌∷◌,
  length,
}
use os_playground.Bio.Inv.{In, count, update-each}
use os_playground.Bio.System.{less, count≤length, count_less, count_less_other, length_less}
use os_playground.Fs.{Fs, Inode}
use os_playground.Fs.Cache.{
  ninode, Itable, set_inode, returns, is_inode, idup, iget, ilock, iunlock, iput_locked, drop_ref,
}

-- The reference count of every entry is the number of references that are held, and no inode has two
-- entries.
pub record IsSound (s : Itable) (held : List ℕ) : Type 0 where
  pub inside : (i : ℕ) → In i held → i < ninode
  pub counts : (i : ℕ) → i < ninode → (s.icache i).ref ≡ count i held
  pub unique :
      (i j : ℕ)
      → i < ninode
      → j < ninode
      → 0 < (s.icache i).ref
      → 0 < (s.icache j).ref
      → (s.icache i).dev ≡ (s.icache j).dev
      → (s.icache i).inum ≡ (s.icache j).inum
      → i ≡ j
  pub few : length held ≤ 2 ^ 30

-- One call of a process that holds the references it needs, with what the holder of the lock of an inode
-- does to the inode and to the disk. `iput` is two steps, since it releases the lock in between.
pub data Step (s : Itable) (held : List ℕ) : Itable → List ℕ → Type 0 where
  get :
      (dev inum i : ℕ) (t : Itable)
      → length held < 2 ^ 30
      → iget dev inum s ≡ some (i, t)
      → Step s held t (i ∷ held)
  dup : (i : ℕ) → length held < 2 ^ 30 → In i held → Step s held (idup i s) (i ∷ held)
  lock : (pid i : ℕ) (t : Itable) → In i held → ilock pid i s ≡ returns t → Step s held t held
  change :
      (i : ℕ) (ip : Inode) (fs : Fs)
      → In i held
      → (s.icache i).locked ≡ true
      → ip.dev ≡ (s.icache i).dev
      → ip.inum ≡ (s.icache i).inum
      → ip.ref ≡ (s.icache i).ref
      → Step s held (record (set_inode i ip s) { fs = fs }) held
  unlock : (i : ℕ) (t : Itable) → In i held → iunlock i s ≡ some t → Step s held t held
  put_locked :
      (pid i : ℕ) (t : Itable) → In i held → iput_locked pid i s ≡ returns t → Step s held t held
  drop : (i : ℕ) → In i held → Step s held (drop_ref i s) (less i held)

In-cons : (k j : ℕ) (v w : List ℕ) → (In k v → In k w) → In k (j ∷ v) → In k (j ∷ w)
In-cons k j v w f (inl q) = inl q
In-cons k j v w f (inr q) = inr (f q)

In-less : (i k : ℕ) (w : List ℕ) → In k (less i w) → In k w
In-less i k [] h = h
In-less i k (j ∷ w) h = elim (Bool-cases (j == i)) [
  | inl e ↦ inr (subst (In k) (ap (λ b. if b then w else j ∷ less i w) e) h)
  | inr e ↦
      In-cons k j (less i w) w (In-less i k w)
        (subst (In k) (ap (λ b. if b then w else j ∷ less i w) e) h)
]

-- The soundness of a cache after a change of one entry and of the references.
module _ (s : Itable) (held held' : List ℕ) (sound : IsSound s held) (i : ℕ) (ip : Inode)
    (fs : Fs) where
  changed :
      ip.ref ≡ count i held'
      → ((j : ℕ) → j ≢ i → count j held' ≡ count j held)
      → ((j : ℕ) → In j held' → j < ninode)
      → length held' ≤ 2 ^ 30
      → ((j : ℕ)
          → j < ninode
          → j ≢ i
          → 0 < (s.icache j).ref
          → 0 < ip.ref
          → ip.dev ≡ (s.icache j).dev
          → ip.inum ≡ (s.icache j).inum
          → ⊥)
      → IsSound (record (set_inode i ip s) { fs = fs }) held'
  changed refs same inside few apart = record {
    inside = inside;
    counts =
        update-each (λ j x. j < ninode → x.ref ≡ count j held') s.icache i ip (λ _. refs)
          (λ j ne l. sound.counts j l ∙ sym (same j ne));
    unique = λ j k.
        update-each
          (λ j x.
            j < ninode
            → k < ninode
            → 0 < x.ref
            → 0 < (update s.icache i ip k).ref
            → x.dev ≡ (update s.icache i ip k).dev
            → x.inum ≡ (update s.icache i ip k).inum
            → j ≡ k)
          s.icache i ip
          (update-each
            (λ k y.
              i < ninode
              → k < ninode
              → 0 < ip.ref
              → 0 < y.ref
              → ip.dev ≡ y.dev
              → ip.inum ≡ y.inum
              → i ≡ k)
            s.icache i ip (λ _ _ _ _ _ _. refl) (λ k ne _ h p q d e. absurd (apart k h ne q p d e))
            k)
          (λ j ne.
            update-each
              (λ k y.
                j < ninode
                → k < ninode
                → 0 < (s.icache j).ref
                → 0 < y.ref
                → (s.icache j).dev ≡ y.dev
                → (s.icache j).inum ≡ y.inum
                → j ≡ k)
              s.icache i ip (λ l _ p q d e. absurd (apart j l ne p q (sym d) (sym e)))
              (λ k _. sound.unique j k) k)
          j;
    few = few;
  }

-- A change that keeps which inode an entry is and how many references it has.
pub kept-IsSound :
    (s : Itable) (held : List ℕ) (i : ℕ) (ip : Inode) (fs : Fs)
    → IsSound s held
    → i < ninode
    → ip.dev ≡ (s.icache i).dev
    → ip.inum ≡ (s.icache i).inum
    → ip.ref ≡ (s.icache i).ref
    → IsSound (record (set_inode i ip s) { fs = fs }) held
kept-IsSound s held i ip fs sound l d e r =
    changed s held held sound i ip fs (r ∙ sound.counts i l) (λ j ne. refl) sound.inside sound.few
      (λ j h ne p q d' e'.
        ne (sound.unique j i h l p (subst (λ n. 0 < n) r q) (sym d' ∙ d) (sym e' ∙ e)))

count_other : (j i : ℕ) (held : List ℕ) → j ≢ i → count j (i ∷ held) ≡ count j held
count_other j i held ne =
    ap (λ b. if b then suc (count j held) else count j held) (==_ne i j (λ e. ne (sym e)))

count_self : (i : ℕ) (held : List ℕ) → count i (i ∷ held) ≡ suc (count i held)
count_self i held = ap (λ b. if b then suc (count i held) else count i held) (==_refl i)

In-inside :
    (s : Itable) (held : List ℕ) (i : ℕ)
    → IsSound s held
    → i < ninode
    → (j : ℕ) → In j (i ∷ held)
    → j < ninode
In-inside s held i sound l j (inl e) = subst (λ n. n < ninode) (sym e) l
In-inside s held i sound l j (inr h) = sound.inside j h

-- One more reference to an entry that has the inode.
pub more-IsSound :
    (s : Itable) (held : List ℕ) (i : ℕ)
    → IsSound s held
    → length held < 2 ^ 30
    → i < ninode
    → 0 < (s.icache i).ref
    → IsSound
        (set_inode i (record (s.icache i) { ref = ((s.icache i).ref + 1) % 2 ^ 32 }) s)
        (i ∷ held)
more-IsSound s held i sound room l pos =
    let c = sound.counts i l in
    let b = count≤length i held in
    let n = count_self i held in
    changed s held (i ∷ held) sound i
      (record (s.icache i) { ref = ((s.icache i).ref + 1) % 2 ^ 32 }) s.fs (omega arith)
      (λ j ne. count_other j i held ne) (In-inside s held i sound l) (omega arith)
      (λ j h ne p q d e. ne (sound.unique j i h l p pos (sym d) (sym e)))

-- An unused entry for an inode that no entry has.
pub recycled-IsSound :
    (s : Itable) (held : List ℕ) (i dev inum : ℕ)
    → IsSound s held
    → length held < 2 ^ 30
    → i < ninode
    → (s.icache i).ref ≡ 0
    → ((j : ℕ) → j < ninode → is_inode dev inum (s.icache j) ≡ false)
    → IsSound
        (set_inode i (record (s.icache i) { dev = dev; inum = inum; ref = 1; valid = false }) s)
        (i ∷ held)
recycled-IsSound s held i dev inum sound room l z absent =
    let c = sound.counts i l in
    let n = count_self i held in
    changed s held (i ∷ held) sound i
      (record (s.icache i) { dev = dev; inum = inum; ref = 1; valid = false }) s.fs (omega arith)
      (λ j ne. count_other j i held ne) (In-inside s held i sound l) (omega arith)
      (λ j h ne p _ d e. clash j h p d e)
  where
    clash :
        (j : ℕ)
        → j < ninode
        → 0 < (s.icache j).ref
        → dev ≡ (s.icache j).dev
        → inum ≡ (s.icache j).inum
        → ⊥
    clash j h p d e = let b = count≤length j held in ground (arith, absent j h, sound.counts j h)

pub dropped-IsSound :
    (s : Itable) (held : List ℕ) (i : ℕ)
    → IsSound s held
    → In i held
    → IsSound (drop_ref i s) (less i held)
unfolding drop_ref
dropped-IsSound s held i sound member =
    let l = sound.inside i member in
    let c = sound.counts i l in
    let n = count_less i held member in
    let b = count≤length i held in
    let few = sound.few in
    let f = length_less i held in
    changed s held (less i held) sound i
      (record (s.icache i) { ref = ((s.icache i).ref + 2 ^ 32 - 1) % 2 ^ 32 }) s.fs (omega arith)
      (λ j ne. count_less_other i j held ne) (λ j h. sound.inside j (In-less i j held h))
      (omega arith) (λ j h ne p q d e. ne (sound.unique j i h l p (omega arith) (sym d) (sym e)))

-- An entry to which a reference is held has one.
pub has_count :
    (s : Itable) (held : List ℕ) (i : ℕ) → IsSound s held → In i held → 0 < (s.icache i).ref
has_count s held i sound member =
    let c = sound.counts i (sound.inside i member) in
    let n = count_less i held member in omega arith
