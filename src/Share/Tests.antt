-- ===== src/Share/Tests.antt =====
-- The theorems about shared pages, where two processes share page 2.
use os_playground.Base.{ℕ, ◌≡◌, ◌≢◌, refl, subst, true, false, some, none, [], update, arith}
use mathlib.Core.Option.{IsSome}
use os_playground.Share.{Sharing, set_at, page_of, getshared, releaseshared}
use os_playground.Share.Hold.{getshared_lem}
use os_playground.Share.Release.{newest, released_page_aliases, get_after_release_panics}

-- Nothing is shared.
abbrev unshared : Sharing
unshared = record {
  shared = λ i. 0;
  recs = λ i. 0;
  held = λ q i. false;
  mapped = λ q i. none;
  freed = [];
}

-- Process 5 holds page 2.
abbrev one_holder : Sharing
one_holder = record {
  shared = update unshared.shared 2 4096;
  recs = update unshared.recs 2 1;
  held = set_at unshared.held 5 2 true;
  mapped = set_at unshared.mapped 5 2 (some 4096);
  freed = [];
}

first_holder : getshared 5 2 (some 4096) true unshared ≡ some one_holder
unfolding getshared
first_holder = refl

-- Process 5, and then process 6 without memory, get page 2.
getshared_lem_example :
    (t : Sharing) × (u : Sharing) × (getshared 5 2 (some 4096) true unshared ≡ some t)
    × (getshared 6 2 none true t ≡ some u)
    × (u.mapped 5 2 ≡ some 4096)
    × (u.mapped 6 2 ≡ some 4096)
    × (u.recs 2 ≡ 2)
    × (u.freed ≡ [])
    × ((r i : ℕ) → r ≢ 5 → r ≢ 6 → u.mapped r i ≡ none)
    × ((r i : ℕ) → i ≢ 2 → u.mapped r i ≡ none)
getshared_lem_example =
    getshared_lem 5 6 2 4096 none unshared (λ e. omega arith) refl refl refl refl (omega arith)

-- Process 6 gets page 1 when process 5 has released page 2.
released_page_aliases_example :
    (u : Sharing) × (getshared 6 1
        (newest (releaseshared 5 2 one_holder).freed)
        true
        (releaseshared 5 2 one_holder)
      ≡ some u)
    × (u.mapped 6 1 ≡ some 4096)
    × (u.mapped 5 2 ≡ some 4096)
    × (u.held 5 2 ≡ false)
released_page_aliases_example =
    released_page_aliases 5 2 6 1 4096 one_holder (λ e. omega arith) (λ e. omega arith) refl refl
      refl refl refl refl refl

memory_left : page_of 2 (some 8192) (releaseshared 5 2 one_holder) ≢ none
unfolding releaseshared
memory_left e = subst IsSome e tt

get_after_release_panics_example :
    getshared 5 2 (some 8192) true (releaseshared 5 2 one_holder) ≡ none
get_after_release_panics_example =
    get_after_release_panics 5 2 4096 (some 8192) true one_holder refl memory_left
