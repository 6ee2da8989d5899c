-- ===== src/Share/Release.antt =====
-- What `releaseshared` leaves behind.
use os_playground.Base.{
  ℕ, ◌≡◌, ◌≢◌, inl, inr, refl, sym, ◌-◌, List, [], update_ne, ap, ◌∙◌, Bool, true, false, Option,
  none, some, ◌∷◌, ◌==◌, ==_refl, Bool-cases,
}
use os_playground.Share.Hold.{set_at_self, set_at_other, with_page, getshared_maps}
use os_playground.Share.{Sharing, page_of, map_page, hold, getshared, releaseshared}

released_mapped : (p idx : ℕ) (s : Sharing) → (releaseshared p idx s).mapped ≡ s.mapped
unfolding releaseshared
released_mapped p idx s = elim (Bool-cases (s.held p idx)) [
  | inr e ↦ rw e refl
  | inl e ↦ rw e (elim (Bool-cases (s.recs idx == 0)) [ inl z ↦ rw z refl | inr n ↦ rw n refl ])
]

released_held : (p idx : ℕ) (s : Sharing) → (releaseshared p idx s).held p idx ≡ false
unfolding releaseshared
released_held p idx s = elim (Bool-cases (s.held p idx)) [
  | inr e ↦ rw (e, releaseshared) e
  | inl e ↦ rw e (elim (Bool-cases (s.recs idx == 0)) [
    | inl z ↦ rw z (rw (==_refl p) (rw (==_refl idx) refl))
    | inr n ↦ rw n (rw (==_refl p) (rw (==_refl idx) refl))
  ])
]

-- The page that `kalloc` returns when the pages `freed` have been freed, the last first.
abbrev pub newest : List ℕ → Option ℕ
newest [] = none
newest (page ∷ pages) = some page

released_last :
    (p idx : ℕ) (s : Sharing)
    → s.held p idx ≡ true
    → s.recs idx ≡ 1
    → (releaseshared p idx s).freed ≡ s.shared idx ∷ s.freed
unfolding releaseshared
released_last p idx s h one = rw h (rw one refl)

released_elsewhere :
    (p idx j : ℕ) (s : Sharing) → j ≢ idx → (releaseshared p idx s).recs j ≡ s.recs j
unfolding releaseshared
released_elsewhere p idx j s ne = elim (Bool-cases (s.held p idx)) [
  | inr e ↦ rw e refl
  | inl e ↦ rw e (elim (Bool-cases (s.recs idx == 0)) [
    | inl z ↦ rw z refl
    | inr n ↦ rw n (update_ne s.recs idx j (s.recs idx - 1) ne)
  ])
]

released_held_other :
    (p idx q j : ℕ) (s : Sharing) → q ≢ p → (releaseshared p idx s).held q j ≡ s.held q j
unfolding releaseshared
released_held_other p idx q j s ne = elim (Bool-cases (s.held p idx)) [
  | inr e ↦ rw e refl
  | inl e ↦ rw e (elim (Bool-cases (s.recs idx == 0)) [
    | inl z ↦ rw z (set_at_other s.held p idx false q j ne)
    | inr n ↦ rw n (set_at_other s.held p idx false q j ne)
  ])
]

-- The last process `p` that holds a shared page releases it, and another process `q` then is the first to
-- get another shared page, for which `kalloc` takes the page freed last: `p` and `q` then have the same page
-- mapped, although `p` holds nothing.
pub released_page_aliases :
    (p idx q j page : ℕ) (s : Sharing)
    → q ≢ p
    → j ≢ idx
    → s.held p idx ≡ true
    → s.recs idx ≡ 1
    → s.shared idx ≡ page
    → s.mapped p idx ≡ some page
    → s.recs j ≡ 0
    → s.held q j ≡ false
    → s.mapped q j ≡ none
    → (u : Sharing) × (getshared q j
          (newest (releaseshared p idx s).freed)
          true
          (releaseshared p idx s)
        ≡ some u)
      × (u.mapped q j ≡ some page)
      × (u.mapped p idx ≡ some page)
      × (u.held p idx ≡ false)
released_page_aliases p idx q j page s apart other h one shares mapped none_yet hq mq = (
  with_page q j t page,
  getshared_maps q j t (newest t.freed) page (released_held_other p idx q j s apart ∙ hq)
      (ap (λ f. f q j) (released_mapped p idx s) ∙ mq)
      (rw (released_elsewhere p idx j s other ∙ none_yet)
        (ap newest (released_last p idx s h one) ∙ ap some shares)),
  set_at_self t.mapped q j (some page),
  set_at_other t.mapped q j (some page) p idx (λ e. apart (sym e))
      ∙ ap (λ f. f p idx) (released_mapped p idx s)
      ∙ mapped,
  set_at_other t.held q j true p idx (λ e. apart (sym e)) ∙ released_held p idx s,
)
  where
    t : Sharing
    t = (releaseshared p idx s)

-- A process that releases a shared page that it has mapped, and then gets it again, makes the kernel
-- panic, if the page is still in use by another process or there is memory for a new one.
pub get_after_release_panics :
    (p idx page : ℕ) (mem : Option ℕ) (room : Bool) (s : Sharing)
    → s.mapped p idx ≡ some page
    → page_of idx mem (releaseshared p idx s) ≢ none
    → getshared p idx mem room (releaseshared p idx s) ≡ none
unfolding getshared
get_after_release_panics p idx page mem room s m some_page = rw (released_held p idx s) (
    ap (hold p idx) (
      ap (λ old. map_page p idx room old t (page_of idx mem t))
        (ap (λ f. f p idx) (released_mapped p idx s) ∙ m)
      ∙ remap (page_of idx mem t) some_page))
  where
    t : Sharing
    t = (releaseshared p idx s)

    remap : (o : Option ℕ) → o ≢ none → map_page p idx room (some page) t o ≡ none
    remap none ne = absurd (ne refl)
    remap (some x) ne = refl
