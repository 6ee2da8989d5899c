-- ===== src/Bio/Inv.antt =====
-- The invariant of the buffer cache, and what a change of one buffer has to show for it.
use os_playground.Base.{
  ℕ, suc, ◌+◌, ◌≤◌, ◌<◌, ◌≡◌, ◌≢◌, ◌⊎◌, inl, inr, refl, sym, ap, ◌∙◌, subst, true, List, [], ◌∷◌,
  ◌==◌, if◌then◌else◌, update, update_self, update_ne, ℕ_discrete, length, All,
}
use os_playground.Bio.{nbuf, Block, Buf, Bcache}

abbrev pub In : ℕ → List ℕ → Type 0
In i [] = ⊥
In i (j ∷ js) = (i ≡ j) ⊎ In i js

abbrev pub count : ℕ → List ℕ → ℕ
count i [] = 0
count i (j ∷ js) = if j == i then suc (count i js) else count i js

abbrev pub held : Buf → ℕ
held b = if b.locked then 1 else 0

-- The buffer holds block `blockno` of the disk, with contents that are not on the disk yet.
pub record IsPinned (b : Buf) (blockno : ℕ) : Type 0 where
  pub device : b.dev ≡ 1
  pub block : b.blockno ≡ blockno
  pub full : b.valid ≡ true
  pub pinned : b.dirty ≡ true

-- Buffer `i` with its contents `b`, where `waiting` are the buffers that a process has a reference to
-- and not the lock yet, and `v` is what the blocks of the disk contain for the rest of the kernel.
pub record IsGood (waiting : List ℕ) (v : ℕ → Block) (i : ℕ) (b : Buf) : Type 0 where
  pub same : b.dev ≡ 1 → b.valid ≡ true → b.bytes ≡ v b.blockno
  pub full : b.dirty ≡ true → b.valid ≡ true
  pub refs : b.refcnt ≡ count i waiting + held b

-- No two buffers hold the same block.
abbrev pub IsUnique : (ℕ → Buf) → Type 0
IsUnique buf =
    (i j : ℕ)
    → i < nbuf
    → j < nbuf
    → (buf i).dev ≡ 1
    → (buf j).dev ≡ 1
    → (buf i).blockno ≡ (buf j).blockno
    → i ≡ j

-- The contents of a block are on the disk, or in a buffer that is kept.
abbrev pub IsStored : (ℕ → Buf) → Block → Block → ℕ → Type 0
IsStored buf on_disk contents b = (on_disk ≡ contents) ⊎ ((i : ℕ) × (i < nbuf) × IsPinned (buf i) b)

pub record IsSound (c : Bcache) (waiting : List ℕ) (v : ℕ → Block) : Type 0 where
  pub all_in : (i : ℕ) → i < nbuf → In i c.order
  pub bounds : All (λ i. i < nbuf) c.order
  pub unique : IsUnique c.buf
  pub good : (i : ℕ) → i < nbuf → IsGood waiting v i (c.buf i)
  pub stored : (b : ℕ) → IsStored c.buf (c.disk b) (v b) b
  pub few : length waiting ≤ 64

pub update-each {ℓ κ} :
    {A : Type ℓ} (P : ℕ → A → Type κ) (f : ℕ → A) (i : ℕ) (a : A)
    → P i a
    → ((j : ℕ) → j ≢ i → P j (f j))
    → (j : ℕ) → P j (update f i a j)
update-each P f i a new old j = elim (ℕ_discrete j i) [
  | yes e ↦ rw e (rw (update_self f i a) new)
  | no ne ↦ rw (update_ne f i j a ne) (old j ne)
]

-- A buffer that gets a block that no other buffer holds.
pub IsUnique-update :
    (buf : ℕ → Buf) (i : ℕ) (b : Buf)
    → IsUnique buf
    → ((j : ℕ) → j < nbuf → j ≢ i → (buf j).dev ≡ 1 → b.dev ≡ 1 → (buf j).blockno ≢ b.blockno)
    → IsUnique (update buf i b)
IsUnique-update buf i b u new =
    update-each
      (λ j x.
        (k : ℕ)
        → j < nbuf
        → k < nbuf
        → x.dev ≡ 1
        → (update buf i b k).dev ≡ 1
        → x.blockno ≡ (update buf i b k).blockno
        → j ≡ k)
      buf i b
      (update-each
        (λ k y. i < nbuf → k < nbuf → b.dev ≡ 1 → y.dev ≡ 1 → b.blockno ≡ y.blockno → i ≡ k) buf i b
        (λ _ _ _ _ _. refl) (λ k ne _ l d e same. absurd (new k l ne e d (sym same))))
      (λ j ne.
        update-each
          (λ k y.
            j < nbuf → k < nbuf → (buf j).dev ≡ 1 → y.dev ≡ 1 → (buf j).blockno ≡ y.blockno → j ≡ k)
          buf i b (λ l _ d e same. absurd (new j l ne d e same)) (λ k _. u j k))

-- What a change of another buffer leaves of a good one.
pub IsGood-other :
    (w w' : List ℕ) (v v' : ℕ → Block) (j : ℕ) (b : Buf)
    → IsGood w v j b
    → count j w' ≡ count j w
    → (b.dev ≡ 1 → v' b.blockno ≡ v b.blockno)
    → IsGood w' v' j b
IsGood-other w w' v v' j b g same_count same_view = record {
  same = λ d f. g.same d f ∙ sym (same_view d);
  full = g.full;
  refs = g.refs ∙ ap (λ n. n + held b) (sym same_count);
}

-- A block stays stored if its pinned buffer is not the changed one, or stays pinned.
pub IsStored-update :
    (buf : ℕ → Buf) (i : ℕ) (b : Buf) (on_disk contents : Block) (k : ℕ)
    → IsStored buf on_disk contents k
    → (IsPinned (buf i) k → IsPinned b k)
    → IsStored (update buf i b) on_disk contents k
IsStored-update buf i b on_disk contents k (inl e) keeps = inl e
IsStored-update buf i b on_disk contents k (inr (j, l, p)) keeps = elim (ℕ_discrete j i) [
  | yes e ↦ inr (
    j,
    l,
    subst (λ x. IsPinned x k) (sym (ap (update buf i b) e ∙ update_self buf i b))
        (keeps (subst (λ x. IsPinned (buf x) k) e p)),
  )
  | no ne ↦ inr (j, l, subst (λ x. IsPinned x k) (sym (update_ne buf i j b ne)) p)
]
