-- ===== src/File/Calls.antt =====
-- The system calls on descriptors keep the reference counts.
use mathlib.Core.Option.{some-injective}
use os_playground.Base.{
  ℕ, ◌+◌, ◌-◌, ◌*◌, ◌^◌, ◌%◌, ◌≤◌, ◌<◌, ◌≡◌, ◌≢◌, inl, inr, refl, sym, ap, ap₂, ◌∙◌, subst, false,
  Option, none, some, leb, ◌==◌, if◌then◌else◌, update, update_self, update_ne, arith, ℕ_discrete,
  ==_refl, ==_ne, Bool-cases,
}
use os_playground.File.{
  nfile, nofile, nproc, fd_none, File, Files, set_file, set_fd, filedup, Closing, nothing, closing,
  fileclose, argfd, fd_at, fdalloc, duplicated, closed, dup_to, dup_from, sys_dup, close_file,
  sys_close,
}
use os_playground.File.Refs.{
  hits, refs, IsCounted, refs≤, refs_pos, refs_update, update-IsCounted, FoundFd, unused, no_fd,
  find_fd-FoundFd,
}

-- The call does not panic, and what it returns has the property.
abbrev pub Returns {ℓ} : {A : Type ℓ} → (A → Type 0) → Option A → Type 0
Returns P none = ⊥
Returns P (some a) = P a

-- A descriptor in use refers to a file of the table, which counts it.
counted_file :
    (s : Files) (k f : ℕ)
    → IsCounted s
    → k < nofile * nproc
    → s.ofile k ≡ some f
    → (f < nfile) × (0 < (s.file f).ref) × ((s.file f).ref ≤ nofile * nproc)
counted_file s k f sound l e =
    let v = sound.valid k f l e in
    let c = sound.counts f v in
    let p = refs_pos f k (nofile * nproc) s.ofile l e in
    let b = refs≤ f (nofile * nproc) s.ofile in
    (v, subst (λ n. 0 < n) (sym c) p, subst (λ n. n ≤ nofile * nproc) (sym c) b)

pub hits_self : (f : ℕ) → hits f (some f) ≡ 1
hits_self f = rw (==_refl f) refl

pub hits_other : (g f : ℕ) → g ≢ f → hits g (some f) ≡ 0
hits_other g f ne = rw (==_ne f g (λ e. ne (sym e))) refl

filedup_counted :
    (s : Files) (f : ℕ)
    → 0 < (s.file f).ref
    → filedup f s ≡ some (set_file f (record (s.file f) { ref = ((s.file f).ref + 1) % 2 ^ 32 }) s)
unfolding filedup
filedup_counted s f pos =
    let ne = ==_ne (s.file f).ref 0 (λ e. omega arith) in
    ap
      (λ b.
        if b
        then none
        else some (set_file f (record (s.file f) { ref = ((s.file f).ref + 1) % 2 ^ 32 }) s))
      ne

pub fileclose_last :
    (s : Files) (f : ℕ)
    → (s.file f).ref ≡ 1
    → fileclose f s
      ≡ some (
        closing (s.file f).type (s.file f),
        set_file f (record (s.file f) { ref = 0; type = fd_none }) s,
      )
unfolding fileclose
fileclose_last s f e = rw e refl

fileclose_more :
    (s : Files) (f : ℕ)
    → 1 < (s.file f).ref
    → fileclose f s ≡ some (nothing, set_file f (record (s.file f) { ref = (s.file f).ref - 1 }) s)
unfolding fileclose
fileclose_more s f l =
    rw (==_ne (s.file f).ref 0 (λ e. omega arith))
      (rw (==_ne (s.file f).ref 1 (λ e. omega arith)) refl)

data FoundArg (p fd : ℕ) (s : Files) : Option ℕ → Type 0 where
  open_fd : (f : ℕ) → fd < nofile → s.ofile (nofile * p + fd) ≡ some f → FoundArg p fd s (some f)
  bad_fd : FoundArg p fd s none

argfd-FoundArg : (p fd : ℕ) (s : Files) → FoundArg p fd s (argfd p fd s)
unfolding argfd
argfd-FoundArg p fd s = elim (Bool-cases (leb nofile fd)) [
  | inl e ↦ rw e bad_fd
  | inr e ↦ rw e (from e (s.ofile (nofile * p + fd)) refl)
]
  where
    from :
        leb nofile fd ≡ false → (o : Option ℕ) → s.ofile (nofile * p + fd) ≡ o → FoundArg p fd s o
    from l none e = bad_fd
    from l (some f) e = open_fd f (ground arith) e

-- What `sys_close` of descriptor `k` of the array, open for file `f`, closes: what is behind the file if
-- no other descriptor refers to it, or else nothing.
abbrev pub to_close : Files → ℕ → ℕ → Closing
to_close s k f =
    if refs f (update s.ofile k none) (nofile * nproc) == 0
    then closing (s.file f).type (s.file f)
    else nothing

module _ (s : Files) (sound : IsCounted s) (p : ℕ) (inside : p < nproc) where
  dup_to-IsCounted :
      (f k : ℕ) {o : Option ℕ}
      → k < nofile * nproc
      → s.ofile k ≡ some f
      → FoundFd s (nofile * p) (nofile * p + nofile) o
      → Returns (λ r. IsCounted r.1) (dup_to f (fd_at p f s o) s)
  dup_to-IsCounted f k l e no_fd = sound
  dup_to-IsCounted f k l e (unused j lo hi z) =
      let c = counted_file s k f sound l e in
      let t = set_fd j (some f) s in
      let x = record (s.file f) { ref = ((s.file f).ref + 1) % 2 ^ 32 } in
      subst (Returns (λ r. IsCounted r.1))
        (sym (ap (duplicated (j - nofile * p)) (filedup_counted t f c.1)))
        (update-IsCounted s f j (update s.file f x) (some f) sound (omega arith)
          (ap (λ y. y.ref + hits f (s.ofile j)) (update_self s.file f x)
            ∙ one_more (ap (hits f) z) (hits_self f) c.2)
          (λ g ne. ap (λ y. y.ref) (update_ne s.file f g x ne))
          (λ g ne. ap (hits g) z ∙ sym (hits_other g f ne))
          (λ g q. subst (λ h. h < nfile) (some-injective f g q) c.0))
    where
      one_more : {r a b : ℕ} → a ≡ 0 → b ≡ 1 → r ≤ nofile * nproc → (r + 1) % 2 ^ 32 + a ≡ r + b
      one_more z o l = ground arith

  -- `sys_dup` never panics, and the counts stay right.
  pub sys_dup-IsCounted : (fd : ℕ) → Returns (λ r. IsCounted r.1) (sys_dup p fd s)
  unfolding fdalloc
  sys_dup-IsCounted fd = from (argfd-FoundArg p fd s)
    where
      from : {o : Option ℕ} → FoundArg p fd s o → Returns (λ r. IsCounted r.1) (dup_from p o s)
      from bad_fd = sound
      from (open_fd f l e) =
          dup_to-IsCounted f (nofile * p + fd) (omega arith) e
            (find_fd-FoundFd (nofile * p) nofile s)

  closed-IsCounted :
      (k f : ℕ) (x : File)
      → k < nofile * nproc
      → s.ofile k ≡ some f
      → x.ref + 1 ≡ (s.file f).ref
      → IsCounted (record { file = update s.file f x; ofile = update s.ofile k none })
  closed-IsCounted k f x l e less =
      update-IsCounted s f k (update s.file f x) none sound l
        (ap₂ (λ y o. y.ref + hits f o) (update_self s.file f x) e ∙ gone x.ref (hits_self f) less)
        (λ g ne. ap (λ y. y.ref) (update_ne s.file f g x ne))
        (λ g ne. ap (hits g) e ∙ hits_other g f ne)
        (λ g q. absurd (no_hit (ap (hits g) (sym q)) (hits_self g)))
    where
      no_hit : {n : ℕ} → n ≡ 0 → n ≡ 1 → ⊥
      no_hit z e = omega arith

      gone : (a : ℕ) {h r : ℕ} → h ≡ 1 → a + 1 ≡ r → a + h ≡ r + 0
      gone a h q = omega arith

  argfd_open : (fd f : ℕ) → fd < nofile → s.ofile (nofile * p + fd) ≡ some f → argfd p fd s ≡ some f
  unfolding argfd
  argfd_open fd f l e = let small : leb nofile fd ≡ false = ground arith in rw small e

  close_file_of :
      (k f : ℕ) (c : Closing) (t : Files)
      → fileclose f (set_fd k none s) ≡ some (c, t)
      → close_file k (some f) s ≡ some (some c, t)
  close_file_of k f c t e = ap closed e

  -- `sys_close` of an open descriptor never panics; it frees the descriptor and closes what is behind the
  -- file exactly if this was the last descriptor for it, and the counts stay right.
  pub sys_close_lem :
      (fd f : ℕ)
      → fd < nofile
      → s.ofile (nofile * p + fd) ≡ some f
      → (t : Files) × (sys_close p fd s ≡ some (some (to_close s (nofile * p + fd) f), t))
        × (t.ofile ≡ update s.ofile (nofile * p + fd) none)
        × IsCounted t
  sys_close_lem fd f l e = elim (ℕ_discrete (s.file f).ref 1) [
    | yes last ↦
        let x = record (s.file f) { ref = 0; type = fd_none } in
        let whole : to_close s k f ≡ closing (s.file f).type (s.file f) =
          ap (λ n. if n == 0 then closing (s.file f).type (s.file f) else nothing)
            (none_left left_over left last) in
        (
          record { file = update s.file f x; ofile = update s.ofile k none },
          ap (λ o. close_file k o s) (argfd_open fd f l e)
              ∙ close_file_of k f _ _ (fileclose_last (set_fd k none s) f last)
              ∙ ap
                  (λ c.
                    some
                      (some c, record { file = update s.file f x; ofile = update s.ofile k none }))
                  (sym whole),
          refl,
          closed-IsCounted k f x in_range e (sym last),
        )
    | no more ↦
        let x = record (s.file f) { ref = (s.file f).ref - 1 } in
        let part : to_close s k f ≡ nothing =
          ap (λ b. if b then closing (s.file f).type (s.file f) else nothing)
            (==_ne _ 0 (some_left left_over left more)) in
        (
          record { file = update s.file f x; ofile = update s.ofile k none },
          ap (λ o. close_file k o s) (argfd_open fd f l e)
              ∙ close_file_of k f _ _ (fileclose_more (set_fd k none s) f (above more counted.1))
              ∙ ap
                  (λ c.
                    some
                      (some c, record { file = update s.file f x; ofile = update s.ofile k none }))
                  (sym part),
          refl,
          closed-IsCounted k f x in_range e (back counted.1),
        )
  ]
    where
      k : ℕ
      k = nofile * p + fd

      left_over : ℕ
      left_over = refs f (update s.ofile (nofile * p + fd) none) (nofile * nproc)

      in_range : nofile * p + fd < nofile * nproc
      in_range = omega arith

      counted : (f < nfile) × (0 < (s.file f).ref) × ((s.file f).ref ≤ nofile * nproc)
      counted = counted_file s (nofile * p + fd) f sound in_range e

      after : (a b : ℕ) {h r : ℕ} → h ≡ 1 → a + h ≡ b + 0 → r ≡ b → a + 1 ≡ r
      after a b h u r = omega arith

      left : refs f (update s.ofile (nofile * p + fd) none) (nofile * nproc) + 1 ≡ (s.file f).ref
      left =
          after left_over (refs f s.ofile (nofile * nproc)) (ap (hits f) e ∙ hits_self f)
            (refs_update f (nofile * p + fd) (nofile * nproc) s.ofile none in_range)
            (sound.counts f counted.0)

      none_left : (a : ℕ) {r : ℕ} → a + 1 ≡ r → r ≡ 1 → a ≡ 0
      none_left a q z = omega arith

      some_left : (a : ℕ) {r : ℕ} → a + 1 ≡ r → r ≢ 1 → a ≢ 0
      some_left a q z w = omega arith

      above : {r : ℕ} → r ≢ 1 → 0 < r → 1 < r
      above z l = omega arith

      back : {r : ℕ} → 0 < r → r - 1 + 1 ≡ r
      back l = omega arith
