-- ===== src/Fs/Cache/Get.antt =====
-- Which entry of the inode cache `iget` returns.
use os_playground.Base.{
  ℕ, zero, suc, ◌+◌, ◌<◌, ◌≡◌, ◌≢◌, refl, sym, ap, subst, ◌∙◌, true, false, Option, none, some, ◌%◌,
  ◌^◌, arith, ℕ_discrete, Bool-cases, ==_ne, ==_iff, inl, inr,
}
use os_playground.Fs.Cache.{
  ninode, Itable, set_inode, is_inode, remember, Lookup, hit, miss, look, take_entry, iget,
}

-- The first unused entry that was seen before entry `hi`.
abbrev IsEmpty : Itable → ℕ → Option ℕ → Type 0
IsEmpty s hi none = (j : ℕ) → j < hi → (s.icache j).ref ≢ 0
IsEmpty s hi (some e) = (e < hi) × ((s.icache e).ref ≡ 0)

remember-IsEmpty :
    (s : Itable) (i : ℕ) (empty : Option ℕ)
    → IsEmpty s i empty
    → IsEmpty s (i + 1) (remember i empty (s.icache i))
remember-IsEmpty s i (some e) h = (omega (arith, h.0), h.1)
remember-IsEmpty s i none h = elim (ℕ_discrete (s.icache i).ref 0) [
  | yes z ↦ rw ((==_iff (s.icache i).ref 0).1 z) (omega arith, z)
  | no ne ↦ rw (==_ne (s.icache i).ref 0 ne) (λ j l. elim (ℕ_discrete j i) [
    | yes e ↦ λ z. ne (sym (ap (λ k. (s.icache k).ref) e) ∙ z)
    | no other ↦ h j (omega arith)
  ])
]

module _ (dev inum : ℕ) (s : Itable) where
  -- What the loop has found when it has seen the entries below `hi`.
  data Looked (hi : ℕ) : Lookup → Type 0 where
    found : (i : ℕ) → i < hi → is_inode dev inum (s.icache i) ≡ true → Looked hi (hit i)
    missed :
        (empty : Option ℕ)
        → ((j : ℕ) → j < hi → is_inode dev inum (s.icache j) ≡ false)
        → IsEmpty s hi empty
        → Looked hi (miss empty)

  look-Looked :
      (i r hi : ℕ) (empty : Option ℕ)
      → hi ≡ i + r
      → ((j : ℕ) → j < i → is_inode dev inum (s.icache j) ≡ false)
      → IsEmpty s i empty
      → Looked hi (look dev inum i r empty s)
  unfolding look
  look-Looked i zero hi empty e before h =
      let at : i ≡ hi = omega arith in
      missed empty (λ j l. before j (omega arith)) (subst (λ n. IsEmpty s n empty) at h)
  look-Looked i (suc r) hi empty e before h = elim (Bool-cases (is_inode dev inum (s.icache i))) [
    | inl q ↦ rw q (found i (omega arith) q)
    | inr q ↦ rw q (
        look-Looked (i + 1) r hi (remember i empty (s.icache i)) (omega arith)
          (λ j l. elim (ℕ_discrete j i) [
            | yes same ↦ ap (λ k. is_inode dev inum (s.icache k)) same ∙ q
            | no other ↦ before j (omega arith)
          ])
          (remember-IsEmpty s i empty h))
  ]

  -- The entry that already holds the inode, or an unused one if no entry holds it; or all are used.
  pub data Got : Option (ℕ × Itable) → Type 0 where
    cached :
        (i : ℕ)
        → i < ninode
        → is_inode dev inum (s.icache i) ≡ true
        → Got (
            some (i, set_inode i (record (s.icache i) { ref = ((s.icache i).ref + 1) % 2 ^ 32 }) s))
    recycled :
        (i : ℕ)
        → i < ninode
        → (s.icache i).ref ≡ 0
        → ((j : ℕ) → j < ninode → is_inode dev inum (s.icache j) ≡ false)
        → Got (
            some (
              i,
              set_inode i
                  (record (s.icache i) { dev = dev; inum = inum; ref = 1; valid = false })
                  s,
            ))
    no_inodes :
        ((j : ℕ) → j < ninode → is_inode dev inum (s.icache j) ≡ false)
        → ((j : ℕ) → j < ninode → (s.icache j).ref ≢ 0)
        → Got none

  -- `iget` returns the entry that holds the inode, with one more reference; if there is none, an unused
  -- entry, which it gives to the inode, not yet read; it panics only if all entries are used.
  pub iget_lem : Got (iget dev inum s)
  unfolding iget
  iget_lem = taken (
      look-Looked 0 ninode ninode none refl (λ j l. absurd (omega arith))
        (λ j l. absurd (omega arith)))
    where
      taken : {o : Lookup} → Looked ninode o → Got (take_entry dev inum o s)
      taken (found i l e) = cached i l e
      taken (missed none none_of h) = no_inodes none_of h
      taken (missed (some i) none_of h) = recycled i h.0 h.1 none_of
