-- ===== src/Share.antt =====
-- The pages that processes share: `getshared` and `releaseshared` of xv6-l/proc.c, over `sharevm` and
-- `desharevm` of xv6-l/vm.c.
-- A process is its slot, a page its address, and `idx` the number of a shared page, below MAXSHAREDPG.
-- Whether `kalloc` finds a page, and whether `mappages` finds room for a page table, are arguments.
pub mod Hold
pub mod Release
mod Tests
use os_playground.Base.{
  ℕ, ◌+◌, ◌-◌, ◌^◌, ◌%◌, Bool, true, false, not, Option, none, some, List, [], ◌∷◌, ◌==◌,
  if◌then◌else◌, update,
}

-- `sharedmemo`, the array `sharedrec` of each process as `held`, and for each process the page that its
-- page table has at the address of each shared page. `freed` are the pages that went to `kfree`, the last
-- first.
pub record Sharing : Type 0 where
  pub shared : ℕ → ℕ
  pub recs : ℕ → ℕ
  pub held : ℕ → ℕ → Bool
  pub mapped : ℕ → ℕ → Option ℕ
  pub freed : List ℕ

abbrev pub set_at {ℓ} : {A : Type ℓ} → (ℕ → ℕ → A) → ℕ → ℕ → A → ℕ → ℕ → A
set_at f p idx v = update f p (update (f p) idx v)

-- The page to share, and `none` if there is no memory.
abbrev pub page_of : ℕ → Option ℕ → Sharing → Option ℕ
page_of idx mem s = if not (s.recs idx == 0) then some (s.shared idx) else mem

-- From `mappages` on. `none` is its panic "remap".
abbrev pub map_page : ℕ → ℕ → Bool → Option ℕ → Sharing → Option ℕ → Option Sharing
map_page p idx room old s none = some s
map_page p idx room (some page') s (some page) = none
map_page p idx false none s (some page) =
    some (record s { shared = update s.shared idx page; freed = page ∷ s.freed })
map_page p idx true none s (some page) = some (record {
  shared = update s.shared idx page;
  recs = update s.recs idx ((s.recs idx + 1) % 2 ^ 32);
  held = s.held;
  mapped = set_at s.mapped p idx (some page);
  freed = s.freed;
})

unfoldable pub sharevm : ℕ → ℕ → Option ℕ → Bool → Sharing → Option Sharing
sharevm p idx mem room s = map_page p idx room (s.mapped p idx) s (page_of idx mem s)

abbrev pub hold : ℕ → ℕ → Option Sharing → Option Sharing
hold p idx none = none
hold p idx (some s) = some (record s { held = set_at s.held p idx true })

unfoldable pub getshared : ℕ → ℕ → Option ℕ → Bool → Sharing → Option Sharing
unfolding sharevm
getshared p idx mem room s = if s.held p idx then some s else hold p idx (sharevm p idx mem room s)

unfoldable pub desharevm : ℕ → Sharing → Sharing
desharevm idx s = if s.recs idx == 0 then s else record s {
  recs = update s.recs idx (s.recs idx - 1);
  freed = if s.recs idx - 1 == 0 then s.shared idx ∷ s.freed else s.freed;
}

unfoldable pub releaseshared : ℕ → ℕ → Sharing → Sharing
unfolding desharevm
releaseshared p idx s =
    if not (s.held p idx) then s else desharevm idx (record s { held = set_at s.held p idx false })
