-- ===== src/Share/Hold.antt =====
-- `getshared`: processes that get a shared page get the same page.
use os_playground.Base.{
  ℕ, ◌+◌, ◌^◌, ◌%◌, ◌<◌, ◌≡◌, ◌≢◌, refl, sym, ap, ◌∙◌, true, false, Option, none, some, ◌==◌,
  if◌then◌else◌, update, update_self, arith, ==_refl, ==_ne, ℕ_discrete,
}
use os_playground.Share.{Sharing, set_at, page_of, map_page, hold, getshared}

module _ {ℓ} {A : Type ℓ} (f : ℕ → ℕ → A) (p idx : ℕ) (v : A) where
  pub set_at_self : set_at f p idx v p idx ≡ v
  set_at_self = rw (==_refl p) (rw (==_refl idx) refl)

  pub set_at_other : (q i : ℕ) → q ≢ p → set_at f p idx v q i ≡ f q i
  set_at_other q i ne = rw (==_ne q p ne) refl

  pub set_at_elsewhere : (q i : ℕ) → i ≢ idx → set_at f p idx v q i ≡ f q i
  set_at_elsewhere q i ne = elim (ℕ_discrete q p) [
    | yes e ↦ rw e (rw (==_refl p) (rw (==_ne i idx ne) refl))
    | no other ↦ rw (==_ne q p other) refl
  ]

module _ (p idx : ℕ) (s : Sharing) where
  -- The sharing after `p` has mapped page `x`.
  abbrev pub with_page : ℕ → Sharing
  with_page x = record {
    shared = update s.shared idx x;
    recs = update s.recs idx ((s.recs idx + 1) % 2 ^ 32);
    held = set_at s.held p idx true;
    mapped = set_at s.mapped p idx (some x);
    freed = s.freed;
  }

  pub getshared_maps :
      (mem : Option ℕ) (x : ℕ)
      → s.held p idx ≡ false
      → s.mapped p idx ≡ none
      → page_of idx mem s ≡ some x
      → getshared p idx mem true s ≡ some (with_page x)
  unfolding getshared
  getshared_maps mem x h m e = rw h (
      ap (λ o. hold p idx (map_page p idx true o s (page_of idx mem s))) m
      ∙ ap (λ o. hold p idx (map_page p idx true none s o)) e)

-- The page that a process gets: the one that is shared, or the new one.
abbrev pub chosen_page : ℕ → ℕ → Sharing → ℕ
chosen_page idx page s = if s.recs idx == 0 then page else s.shared idx

page_of-chosen :
    (idx page : ℕ) (s : Sharing) → page_of idx (some page) s ≡ some (chosen_page idx page s)
page_of-chosen idx page s = elim (ℕ_discrete (s.recs idx) 0) [
  | yes z ↦ rw z refl
  | no ne ↦ rw (==_ne (s.recs idx) 0 ne) refl
]

-- Once a page is counted, it is the one that is got, with memory or without.
page_of-shared :
    (idx : ℕ) (mem : Option ℕ) (s : Sharing) (x : ℕ)
    → s.recs idx ≢ 0
    → s.shared idx ≡ x
    → page_of idx mem s ≡ some x
page_of-shared idx mem s x ne e = rw (==_ne (s.recs idx) 0 ne) (ap some e)

-- Two processes that have nothing mapped at shared page `idx` get it one after the other, the first with
-- memory for a page, both with room for a page table: both calls succeed, whatever other processes hold, and
-- both processes then have the same page mapped, the one shared before if there was one and else the new one.
-- The count has risen by two, nothing is freed, and no other mapping has changed.
pub getshared_lem :
    (p q idx page : ℕ) (mem : Option ℕ) (s : Sharing)
    → q ≢ p
    → s.held p idx ≡ false
    → s.held q idx ≡ false
    → s.mapped p idx ≡ none
    → s.mapped q idx ≡ none
    → s.recs idx + 2 < 2 ^ 32
    → (t : Sharing) × (u : Sharing) × (getshared p idx (some page) true s ≡ some t)
      × (getshared q idx mem true t ≡ some u)
      × (u.mapped p idx ≡ some (chosen_page idx page s))
      × (u.mapped q idx ≡ some (chosen_page idx page s))
      × (u.recs idx ≡ s.recs idx + 2)
      × (u.freed ≡ s.freed)
      × ((r i : ℕ) → r ≢ p → r ≢ q → u.mapped r i ≡ s.mapped r i)
      × ((r i : ℕ) → i ≢ idx → u.mapped r i ≡ s.mapped r i)
getshared_lem p q idx page mem s apart hp hq mp mq few = (
  t,
  u,
  getshared_maps p idx s (some page) x hp mp (page_of-chosen idx page s),
  getshared_maps q idx t mem x (set_at_other s.held p idx true q idx apart ∙ hq)
      (set_at_other s.mapped p idx (some x) q idx apart ∙ mq)
      (page_of-shared idx mem t x (λ z. omega (arith, counted)) (update_self s.shared idx x)),
  set_at_other t.mapped q idx (some x) p idx (λ e. apart (sym e))
      ∙ set_at_self s.mapped p idx (some x),
  set_at_self t.mapped q idx (some x),
  update_self t.recs idx ((t.recs idx + 1) % 2 ^ 32) ∙ omega (arith, counted),
  refl,
  λ r i ne ne'.
      set_at_other t.mapped q idx (some x) r i ne' ∙ set_at_other s.mapped p idx (some x) r i ne,
  λ r i ne.
      set_at_elsewhere t.mapped q idx (some x) r i ne
      ∙ set_at_elsewhere s.mapped p idx (some x) r i ne,
)
  where
    x : ℕ
    x = chosen_page idx page s

    t : Sharing
    t = with_page p idx s (chosen_page idx page s)

    u : Sharing
    u = with_page q idx (with_page p idx s (chosen_page idx page s)) (chosen_page idx page s)

    counted : (with_page p idx s (chosen_page idx page s)).recs idx ≡ s.recs idx + 1
    counted = update_self s.recs idx ((s.recs idx + 1) % 2 ^ 32) ∙ omega arith
