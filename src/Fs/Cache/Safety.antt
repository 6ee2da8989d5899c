-- ===== src/Fs/Cache/Safety.antt =====
-- Every call keeps the inode cache sound.
use os_playground.Base.{
  ℕ, ◌<◌, ◌≡◌, refl, sym, subst, ◌∙◌, Bool, true, false, not, Option, none, some, ◌==◌, ◌&&◌,
  if◌then◌else◌, ◌^◌, arith, List, [], ◌∷◌, length,
}
use os_playground.Bio.Inv.{In}
use os_playground.Bio.System.{IfSome, IfSome-if}
use os_playground.Fs.{Fs, Inode, iblock}
use os_playground.Fs.Rw.{iupdate, dinode_at}
use os_playground.Fs.Trunc.{free_range, no_indirect, free_indirect, emptied, itrunc}
use os_playground.Fs.Trunc.Loops.{attach, clear, free_direct_lem}
use os_playground.Fs.Cache.{
  ninode, Itable, set_inode, Outcome, panics, sleeps, returns, has_ref, idup, get_dinode, ilock,
  releasesleep, iunlock, free_inode, iput_locked,
}
use os_playground.Fs.Cache.Get.{Got, cached, recycled, no_inodes, iget_lem}
use os_playground.Fs.Cache.Refs.{
  IsSound, Step, get, dup, lock, change, unlock, put_locked, drop, kept-IsSound, more-IsSound,
  recycled-IsSound, dropped-IsSound, has_count,
}

-- `itrunc` keeps which inode it is, and its references.
abbrev Keeps : Inode → Option (Inode × Fs) → Type 0
Keeps ip none = Unit
Keeps ip (some (e, fs)) = (e.dev ≡ ip.dev) × (e.inum ≡ ip.inum) × (e.ref ≡ ip.ref)

Keeps-if :
    (ip : Inode) (b : Bool) (x y : Option (Inode × Fs))
    → Keeps ip x
    → Keeps ip y
    → Keeps ip (if b then x else y)
Keeps-if ip true x y h k = h
Keeps-if ip false x y h k = k

itrunc-Keeps : (ip : Inode) (fs : Fs) → Keeps ip (itrunc ip fs)
unfolding itrunc free_indirect
itrunc-Keeps ip fs = finished _ (
    subst (λ o. Keeps ip (free_indirect o)) (sym (free_direct_lem 0 12 ip fs))
      (second (free_range ip.addrs 0 12 fs)))
  where
    finished : (o : Option (Inode × Fs)) → Keeps ip o → Keeps ip (emptied o)
    finished none h = tt
    finished (some (e, t)) h = h

    cleared :
        (e : Inode) (o : Option Fs)
        → (e.dev ≡ ip.dev) × (e.inum ≡ ip.inum) × (e.ref ≡ ip.ref)
        → Keeps ip (no_indirect e o)
    cleared e none h = tt
    cleared e (some t) h = h

    second : (o : Option Fs) → Keeps ip (free_indirect (attach ip (clear 0 12 ip.addrs) o))
    second none = tt
    second (some t) =
        Keeps-if ip (ip.addrs 12 == 0) _ _ (refl, refl, refl)
          (cleared (record ip { addrs = clear 0 12 ip.addrs }) _ (refl, refl, refl))

-- A property of the state after a call that returns.
abbrev IfReturns : (Itable → Type 0) → Outcome Itable → Type 0
IfReturns P panics = Unit
IfReturns P sleeps = Unit
IfReturns P (returns s) = P s

IfReturns-if :
    (P : Itable → Type 0) (b : Bool) (x y : Outcome Itable)
    → (b ≡ true → IfReturns P x)
    → (b ≡ false → IfReturns P y)
    → IfReturns P (if b then x else y)
IfReturns-if P true x y f g = f refl
IfReturns-if P false x y f g = g refl

module _ (s : Itable) (held : List ℕ) (sound : IsSound s held) where
  abbrev Sound : Itable → Type 0
  Sound t = IsSound t held

  ilock-IsSound : (pid i : ℕ) → In i held → IfReturns Sound (ilock pid i s)
  unfolding ilock
  ilock-IsSound pid i member =
      IfReturns-if Sound (not (has_ref (s.icache i))) _ _ (λ _. tt)
        (λ _.
          IfReturns-if Sound (s.icache i).locked _ _ (λ _. tt)
            (λ _.
              IfReturns-if Sound (s.icache i).valid _ _
                (λ _.
                  kept-IsSound s held i (record (s.icache i) { locked = true; pid = pid }) s.fs
                    sound (sound.inside i member) refl refl refl)
                (λ _.
                  IfReturns-if Sound (loaded.type == 0) _ _ (λ _. tt)
                    (λ _.
                      kept-IsSound s held i loaded s.fs sound (sound.inside i member) refl refl
                        refl))))
    where
      loaded : Inode
      loaded =
          let ip = record (s.icache i) { locked = true; pid = pid } in
          record (get_dinode (dinode_at ip) (s.fs.disk (iblock ip.inum s.fs.sb)) ip) {
            valid = true;
          }

  releasesleep-IsSound : (i : ℕ) → In i held → IsSound (releasesleep i s) held
  releasesleep-IsSound i member =
      kept-IsSound s held i (record (s.icache i) { locked = false; pid = 0 }) s.fs sound
        (sound.inside i member) refl refl refl

  iunlock-IsSound : (i : ℕ) → In i held → IfSome Sound (iunlock i s)
  unfolding iunlock
  iunlock-IsSound i member =
      IfSome-if Sound ((s.icache i).locked && has_ref (s.icache i)) _ _
        (λ _. releasesleep-IsSound i member) (λ _. tt)

  iget-IsSound :
      (dev inum : ℕ) {o : Option (ℕ × Itable)}
      → length held < 2 ^ 30
      → Got dev inum s o
      → IfSome (λ r. IsSound r.1 (r.0 ∷ held)) o
  iget-IsSound dev inum room (cached i l e) = more-IsSound s held i sound room l (ground (arith, e))
  iget-IsSound dev inum room (recycled i l z absent) =
      recycled-IsSound s held i dev inum sound room l z absent
  iget-IsSound dev inum room (no_inodes _ _) = tt

free_inode-IsSound :
    (s : Itable) (held : List ℕ) (i : ℕ) (ip : Inode) (o : Option (Inode × Fs))
    → IsSound s held
    → In i held
    → ip.dev ≡ (s.icache i).dev
    → ip.inum ≡ (s.icache i).inum
    → ip.ref ≡ (s.icache i).ref
    → Keeps ip o
    → IfReturns (λ t. IsSound t held) (free_inode i o s)
free_inode-IsSound s held i ip none sound member d n r k = tt
free_inode-IsSound s held i ip (some (e, fs)) sound member d n r k =
    let freed = record e { type = 0; valid = false } in
    releasesleep-IsSound (record (set_inode i freed s) { fs = iupdate (record e { type = 0 }) fs })
      held
      (kept-IsSound s held i freed (iupdate (record e { type = 0 }) fs) sound
        (sound.inside i member) (k.0 ∙ d) (k.1 ∙ n) (k.2 ∙ r))
      i member

iput_locked-IsSound :
    (s : Itable) (held : List ℕ) (pid i : ℕ)
    → IsSound s held
    → In i held
    → IfReturns (λ t. IsSound t held) (iput_locked pid i s)
unfolding iput_locked
iput_locked-IsSound s held pid i sound member =
    let ip = record (s.icache i) { locked = true; pid = pid } in
    IfReturns-if (λ t. IsSound t held) (s.icache i).locked _ _ (λ _. tt)
      (λ _.
        IfReturns-if (λ t. IsSound t held)
          ((s.icache i).valid && ((s.icache i).nlink == 0 && (s.icache i).ref == 1)) _ _
          (λ _.
            free_inode-IsSound s held i ip (itrunc ip s.fs) sound member refl refl refl
              (itrunc-Keeps ip s.fs))
          (λ _. releasesleep-IsSound s held sound i member))

-- A call keeps the cache sound.
Step-IsSound :
    {s t : Itable} {held held' : List ℕ} → IsSound s held → Step s held t held' → IsSound t held'
unfolding idup
Step-IsSound {s = s} {held = held} sound (get dev inum i t room e) =
    subst (IfSome (λ r. IsSound r.1 (r.0 ∷ held))) e
      (iget-IsSound s held sound dev inum room (iget_lem dev inum s))
Step-IsSound {s = s} {held = held} sound (dup i room member) =
    more-IsSound s held i sound room (sound.inside i member) (has_count s held i sound member)
Step-IsSound {s = s} {held = held} sound (lock pid i t member e) =
    subst (IfReturns (λ t. IsSound t held)) e (ilock-IsSound s held sound pid i member)
Step-IsSound {s = s} {held = held} sound (change i ip fs member _ d n r) =
    kept-IsSound s held i ip fs sound (sound.inside i member) d n r
Step-IsSound {s = s} {held = held} sound (unlock i t member e) =
    subst (IfSome (λ t. IsSound t held)) e (iunlock-IsSound s held sound i member)
Step-IsSound {s = s} {held = held} sound (put_locked pid i t member e) =
    subst (IfReturns (λ t. IsSound t held)) e (iput_locked-IsSound s held pid i sound member)
Step-IsSound {s = s} {held = held} sound (drop i member) = dropped-IsSound s held i sound member

-- Any number of calls from a cache without references.
pub data Calls (s : Itable) : Itable → List ℕ → Type 0 where
  start : ((i : ℕ) → i < ninode → (s.icache i).ref ≡ 0) → Calls s s []
  further :
      (t u : Itable) (held held' : List ℕ) → Calls s t held → Step t held u held' → Calls s u held'

-- Whatever calls the processes have made from an empty cache on, in whatever order, the reference count of
-- every entry is the number of references that are held, and no inode is in two entries.
pub Calls-IsSound : (s t : Itable) (held : List ℕ) → Calls s t held → IsSound t held
Calls-IsSound s _ _ (start none_held) = record {
  inside = λ i h. absurd h;
  counts = λ i l. none_held i l;
  unique = λ i j l _ p. absurd (positive p (none_held i l));
  few = omega arith;
}
  where
    positive : {n : ℕ} → 0 < n → n ≡ 0 → ⊥
    positive p z = omega arith
Calls-IsSound s _ _ (further t u held held' r step) = Step-IsSound (Calls-IsSound s t held r) step
